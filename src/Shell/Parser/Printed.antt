-- ===== src/Shell/Parser/Printed.antt =====
-- Command lines as text, and how Parser::parse goes through the words of one command.
use nycu_csic30091_netw.Prelude.{ℕ, zero, suc, ◌<◌, true, false}
use nycu_csic30091_netw.Prelude.{List, [], ◌∷◌, ◌++◌, ◌≡◌, refl, ◌∙◌, ap, ap₂}
use nycu_csic30091_netw.Prelude.{length, append-nil, append_assoc}
use nycu_csic30091_netw.Prelude.Bytes.{Bytes, str_eq}
use nycu_csic30091_netw.Cxx.Stream.{IsWord, read_word-append, read_word-space}
use nycu_csic30091_netw.Shell.Parser.Model.{Command, State, on_operator}
use nycu_csic30091_netw.Shell.Parser.Model.{on_argument, body, loop}
use nycu_csic30091_netw.Shell.Parser.Model.{is_operator, is_one_arg_command, is_two_arg_command}

-- Words with a space behind each.
abbrev pub words : List Bytes → Bytes
words [] = []
words (w ∷ ws) = w ++ 32 ∷ words ws

abbrev pub text : List Command → Bytes
text [] = []
text (c ∷ cs) = c.command ++ 32 ∷ (words c.args ++ (words c.operators ++ text cs))

abbrev pub AllArgs : List Bytes → Type 0
AllArgs [] = Unit {0}
AllArgs (w ∷ ws) = IsWord w × (is_operator w ≡ false) × AllArgs ws

abbrev pub AllOperators : List Bytes → Type 0
AllOperators [] = Unit {0}
AllOperators (w ∷ ws) = IsWord w × (is_operator w ≡ true) × AllOperators ws

-- A command that prints to words: its name is no operator and takes no rest of the line.
pub record IsPrintable (c : Command) : Type 0 where
  pub name_word : IsWord c.command
  pub name_plain : is_operator c.command ≡ false
  pub not_yell : is_one_arg_command c.command ≡ false
  pub not_tell : is_two_arg_command c.command ≡ false
  pub args_plain : AllArgs c.args
  pub operators_plain : AllOperators c.operators

-- Every command but the last ends in an operator.
abbrev pub IsLine : List Command → Type 0
IsLine [] = Unit {0}
IsLine (c ∷ []) = IsPrintable c
IsLine (c ∷ d ∷ cs) = IsPrintable c × (0 < length c.operators) × IsLine (d ∷ cs)

pub loop-space : (f : ℕ) (s : Bytes) (st : State) → loop f (32 ∷ s) st ≡ loop f s st
unfolding loop
loop-space zero s st = refl
loop-space (suc f) s st = rw (read_word-space s, loop)

pub loop-word :
    (f : ℕ) (w rest : Bytes) (st : State)
    → IsWord w
    → loop (suc f) (w ++ 32 ∷ rest) st ≡ loop f (body w (32 ∷ rest) st).0 (body w (32 ∷ rest) st).1
unfolding loop
loop-word f w rest st h = rw (read_word-append w rest h, loop)

pub loop-operator :
    (f : ℕ) (w rest : Bytes) (st : State)
    → IsWord w
    → is_operator w ≡ true
    → loop (suc f) (w ++ 32 ∷ rest) st ≡ loop f rest (on_operator w st)
loop-operator f w rest st h o =
    loop-word f w rest st h ∙ (unfold body in rw o (loop-space f rest (on_operator w st)))

pub loop-argument :
    (f : ℕ) (w rest : Bytes) (st : State)
    → IsWord w
    → is_operator w ≡ false
    → str_eq st.command [] ≡ false
    → loop (suc f) (w ++ 32 ∷ rest) st ≡ loop f rest (on_argument w st)
loop-argument f w rest st h o c =
    loop-word f w rest st h ∙ (unfold body in rw o (rw c (loop-space f rest (on_argument w st))))

-- `f` and one round more for each word.
abbrev pub rounds : List Bytes → ℕ → ℕ
rounds [] f = f
rounds (w ∷ ws) f = suc (rounds ws f)

pub loop-args :
    (f : ℕ) (ws : List Bytes) (rest : Bytes) (st : State)
    → AllArgs ws
    → str_eq st.command [] ≡ false
    → loop (rounds ws f) (words ws ++ rest) st ≡ loop f rest (record st { args = st.args ++ ws })
unfolding on_argument
loop-args f [] rest st h c = rw append-nil
loop-args f (w ∷ ws) rest st h c = rw (append_assoc w (32 ∷ words ws) rest) (
    loop-argument (rounds ws f) w (words ws ++ rest) st h.0 h.1 c
    ∙ loop-args f ws rest (on_argument w st) h.2 c
    ∙ ap (λ a. loop f rest (record st { args = a })) (append_assoc st.args (w ∷ []) ws))

-- The command after some operators: none is being read once an operator came.
abbrev pub after_operators : List Bytes → Bytes → Bytes
after_operators [] command = command
after_operators (o ∷ os) command = []

pub after_operators-nil : (os : List Bytes) → after_operators os [] ≡ []
after_operators-nil [] = refl
after_operators-nil (o ∷ os) = refl

pub loop-operators :
    (f : ℕ) (ws : List Bytes) (rest : Bytes) (st : State)
    → AllOperators ws
    → loop (rounds ws f) (words ws ++ rest) st
      ≡ loop f rest
          (record st { operators = st.operators ++ ws; command = after_operators ws st.command })
unfolding on_operator on_argument
loop-operators f [] rest st h = rw append-nil
loop-operators f (w ∷ ws) rest st h = rw (append_assoc w (32 ∷ words ws) rest) (
    loop-operator (rounds ws f) w (words ws ++ rest) st h.0 h.1
    ∙ loop-operators f ws rest (on_operator w st) h.2
    ∙ ap₂ (λ o c. loop f rest (record st { operators = o; command = c }))
        (append_assoc st.operators (w ∷ []) ws) (after_operators-nil ws))
