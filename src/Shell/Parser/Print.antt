-- ===== src/Shell/Parser/Print.antt =====
-- Parser::parse reads back a printed command line.
use nycu_csic30091_netw.Prelude.{ℕ, suc, ◌+◌, ◌≤◌, ◌<◌, true, false, some}
use nycu_csic30091_netw.Prelude.{List, [], ◌∷◌, ◌++◌, ◌≡◌, refl, ◌∙◌, ap, arith, ◌-◌}
use nycu_csic30091_netw.Prelude.{length, append_assoc, length-append}
use nycu_csic30091_netw.Prelude.Bytes.{Bytes, str_eq}
use nycu_csic30091_netw.Cxx.Stream.{read_word, IsWord}
use nycu_csic30091_netw.Shell.Parser.Model.{Command, State, init, flush}
use nycu_csic30091_netw.Shell.Parser.Model.{on_command, body, loop, parse}
use nycu_csic30091_netw.Shell.Parser.Model.{is_one_arg_command, is_two_arg_command}
use nycu_csic30091_netw.Shell.Parser.Printed.{words, text, IsPrintable, IsLine}
use nycu_csic30091_netw.Shell.Parser.Printed.{
  loop-space, loop-word, rounds, loop-args, after_operators, loop-operators,
}

-- The state with nothing being read, and the state behind a command.
abbrev pub base : List Command → State
base cs = record { command = []; operators = []; args = []; new_command = []; commands = cs }

abbrev pub holding : Command → List Command → State
holding c cs = record {
  command = after_operators c.operators c.command;
  operators = c.operators;
  args = c.args;
  new_command = c.command;
  commands = cs;
}

str_eq-word : (w : Bytes) → IsWord w → str_eq w [] ≡ false
unfolding str_eq
str_eq-word [] h = absurd h
str_eq-word (c ∷ w) h = refl

-- No command is being read, and what was read before is `cs`.
record IsBetween (st : State) (cs : List Command) : Type 0 where
  idle : str_eq st.command [] ≡ true
  flushed : flush st ≡ record (base cs) { command = st.command }

abbrev named : Bytes → List Command → State
named w cs = record (base cs) { command = w; new_command = w }

on_command-name :
    (w rest : Bytes) (st : State) (cs : List Command)
    → is_one_arg_command w ≡ false
    → is_two_arg_command w ≡ false
    → flush st ≡ record (base cs) { command = st.command }
    → on_command w rest st ≡ (rest, named w cs)
unfolding on_command
on_command-name w rest st cs y t b = rw y (rw t (rw b))

body-name :
    (c : Command) (rest : Bytes) (st : State) (cs : List Command)
    → IsPrintable c
    → IsBetween st cs
    → body c.command rest st ≡ (rest, named c.command cs)
unfolding body
body-name c rest st cs v b =
    rw v.name_plain
      (rw b.idle (on_command-name c.command rest st cs v.not_yell v.not_tell b.flushed))

loop-name :
    (f : ℕ) (c : Command) (rest : Bytes) (st : State) (cs : List Command)
    → IsPrintable c
    → IsBetween st cs
    → loop (suc f) (c.command ++ 32 ∷ rest) st ≡ loop f rest (named c.command cs)
loop-name f c rest st cs v b =
    loop-word f c.command rest st v.name_word
    ∙ rw (body-name c (32 ∷ rest) st cs v b) (loop-space f rest (named c.command cs))

loop-command :
    (f : ℕ) (c : Command) (rest : Bytes) (st : State) (cs : List Command)
    → IsPrintable c
    → IsBetween st cs
    → loop
        (suc (rounds c.args (rounds c.operators f)))
        (c.command ++ 32 ∷ (words c.args ++ (words c.operators ++ rest)))
        st
      ≡ loop f rest (holding c cs)
loop-command f c rest st cs v b =
    loop-name (rounds c.args (rounds c.operators f)) c (words c.args ++ (words c.operators ++ rest))
      st cs v b
    ∙ loop-args (rounds c.operators f) c.args (words c.operators ++ rest) (named c.command cs)
        v.args_plain (str_eq-word c.command v.name_word)
    ∙ loop-operators f c.operators rest (record (named c.command cs) { args = c.args })
        v.operators_plain

flush-holding :
    (c : Command) (cs : List Command)
    → IsPrintable c
    → flush (holding c cs)
      ≡ record (base (cs ++ c ∷ [])) { command = after_operators c.operators c.command }
unfolding flush
flush-holding c cs v = rw (str_eq-word c.command v.name_word)

holding-IsBetween :
    (c : Command) (cs : List Command)
    → IsPrintable c
    → 0 < length c.operators
    → IsBetween (holding c cs) (cs ++ c ∷ [])
holding-IsBetween c cs v h = record { idle = ended c.operators h; flushed = flush-holding c cs v }
  where
    ended : (os : List Bytes) → 0 < length os → str_eq (after_operators os c.command) [] ≡ true
    ended [] h = absurd (omega arith)
    ended (o ∷ os) h = unfold str_eq in refl

-- The rounds that a line takes.
abbrev rounds_of : List Command → ℕ → ℕ
rounds_of [] f = f
rounds_of (c ∷ cs) f = suc (rounds c.args (rounds c.operators (rounds_of cs f)))

loop-line :
    (f : ℕ) (c : Command) (cs : List Command) (st : State) (prev : List Command)
    → IsLine (c ∷ cs)
    → IsBetween st prev
    → (end : State) × (loop (rounds_of (c ∷ cs) f) (text (c ∷ cs)) st ≡ loop f [] end)
      × ((flush end).commands ≡ prev ++ c ∷ cs)
loop-line f c [] st prev l b =
    (holding c prev, loop-command f c [] st prev l b, ap (λ s. s.commands) (flush-holding c prev l))
loop-line f c (d ∷ cs) st prev l b =
    let (end, run, result) =
      loop-line f d cs (holding c prev) (prev ++ c ∷ []) l.2 (holding-IsBetween c prev l.0 l.1) in
    (
      end,
      loop-command (rounds_of (d ∷ cs) f) c (text (d ∷ cs)) st prev l.0 b ∙ run,
      result ∙ append_assoc prev (c ∷ []) (d ∷ cs),
    )

rounds-add : (ws : List Bytes) (f : ℕ) → rounds ws f ≡ rounds ws 0 + f
rounds-add [] f = omega arith
rounds-add (w ∷ ws) f = omega (arith, rounds-add ws f)

rounds-le : (ws : List Bytes) → rounds ws 0 ≤ length (words ws)
rounds-le [] = omega arith
rounds-le (w ∷ ws) = omega (arith, rounds-le ws, length-append w (32 ∷ words ws))

rounds_of-add : (cs : List Command) (f : ℕ) → rounds_of cs f ≡ rounds_of cs 0 + f
rounds_of-add [] f = omega arith
rounds_of-add (c ∷ cs) f = omega (
  arith,
  rounds_of-add cs f,
  rounds-add c.operators (rounds_of cs f),
  rounds-add c.operators (rounds_of cs 0),
  rounds-add c.args (rounds c.operators (rounds_of cs f)),
  rounds-add c.args (rounds c.operators (rounds_of cs 0)),
)

rounds_of-le : (cs : List Command) → rounds_of cs 0 ≤ length (text cs)
rounds_of-le [] = omega arith
rounds_of-le (c ∷ cs) =
    let rest = words c.operators ++ text cs in
    omega (
      arith,
      rounds_of-le cs,
      rounds-le c.args,
      rounds-le c.operators,
      rounds-add c.operators (rounds_of cs 0),
      rounds-add c.args (rounds c.operators (rounds_of cs 0)),
      length-append c.command (32 ∷ (words c.args ++ rest)),
      length-append (words c.args) rest,
      length-append (words c.operators) (text cs),
    )

loop-nil : (f : ℕ) (st : State) → loop (suc f) [] st ≡ some st
unfolding loop read_word
loop-nil f st = refl

init-IsBetween : IsBetween init []
init-IsBetween = record { idle = unfold str_eq in refl; flushed = unfold flush str_eq in refl }

-- The fuel of `parse` on a printed line: the rounds that the line takes, and at least one more.
enough :
    (cs : List Command)
    → length (text cs) + 1 ≡ rounds_of cs (suc (length (text cs) - rounds_of cs 0))
enough cs =
    omega (arith, rounds_of-le cs, rounds_of-add cs (suc (length (text cs) - rounds_of cs 0)))

-- A printed command line is read back as it was: commands, arguments and operators, in order. All
-- of them are words, the operators are those of the shell and the other words are none, `yell` and
-- `tell` do not occur as commands, and every command but the last has an operator.
pub parse-text : (cs : List Command) → IsLine cs → parse (text cs) ≡ some cs
unfolding parse
parse-text [] l = refl
parse-text (c ∷ cs) l =
    let g = length (text (c ∷ cs)) - rounds_of (c ∷ cs) 0 in
    let (end, run, result) = loop-line (suc g) c cs init [] l init-IsBetween in
    rw (enough (c ∷ cs)) (rw (run ∙ loop-nil g end) (ap some result))
