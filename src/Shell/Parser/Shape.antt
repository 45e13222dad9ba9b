-- ===== src/Shell/Parser/Shape.antt =====
-- What every command that Parser::parse gives is like.
use nycu_csic30091_netw.Prelude.{
  ℕ, zero, suc, ◌≤◌, true, false, some, List, [], ◌∷◌, ◌++◌, ◌≡◌, refl, arith, inl, inr, ◌+◌,
  length, length-append, Bool-cases, Option-cases,
}
use nycu_csic30091_netw.Prelude.Bytes.{Bytes, codes, str_eq, str_eq_iff}
use nycu_csic30091_netw.Cxx.Stream.{read_word, word_or_empty, skip_ws, before}
use nycu_csic30091_netw.Shell.Parser.Total.{loop_ends}
use nycu_csic30091_netw.Shell.Parser.Operators.{AreOperators, IsOperator, is_operator-IsOperator}
use nycu_csic30091_netw.Shell.Parser.Model.{
  Command, State, init, pending, is_operator, is_one_arg_command, is_two_arg_command, flush,
  on_operator, on_argument, on_command, body, loop, parse,
}

-- The operators are operators; `yell` has an argument and `tell` has two.
pub record IsParsed (c : Command) : Type 0 where
  pub operators : AreOperators c.operators
  pub yell_args : str_eq c.command (codes "yell") ≡ true → 1 ≤ length c.args
  pub tell_args : str_eq c.command (codes "tell") ≡ true → 2 ≤ length c.args

abbrev pub AreParsed : List Command → Type 0
AreParsed [] = Unit {0}
AreParsed (c ∷ cs) = IsParsed c × AreParsed cs

-- The words of the command that is being read, as far as it has a name.
record IsReading (st : State) : Type 0 where
  operators : AreOperators st.operators
  yell_args : str_eq st.new_command (codes "yell") ≡ true → 1 ≤ length st.args
  tell_args : str_eq st.new_command (codes "tell") ≡ true → 2 ≤ length st.args
  done : AreParsed st.commands

pub AreOperators-append :
    (os : List Bytes) (o : Bytes) → AreOperators os → IsOperator o → AreOperators (os ++ o ∷ [])
AreOperators-append [] o a b = (b, tt)
AreOperators-append (p ∷ os) o a b = (a.0, AreOperators-append os o a.1 b)

AreParsed-append :
    (cs : List Command) (c : Command) → AreParsed cs → IsParsed c → AreParsed (cs ++ c ∷ [])
AreParsed-append [] c a b = (b, tt)
AreParsed-append (d ∷ cs) c a b = (a.0, AreParsed-append cs c a.1 b)

init-IsReading : IsReading init
unfolding str_eq
init-IsReading = record { operators = tt; yell_args = λ e. cc; tell_args = λ e. cc; done = tt }

flush-AreParsed : (st : State) → IsReading st → AreParsed (flush st).commands
unfolding flush
flush-AreParsed st r = elim (Bool-cases (str_eq st.new_command [])) [
  | inl e ↦ rw (e, flush) r.done
  | inr e ↦
      rw (e, flush)
        (AreParsed-append st.commands (pending st) r.done
          (record { operators = r.operators; yell_args = r.yell_args; tell_args = r.tell_args }))
]

flush-operators : (st : State) → IsReading st → AreOperators (flush st).operators
unfolding flush
flush-operators st r = elim (Bool-cases (str_eq st.new_command [])) [
  | inl e ↦ rw (e, flush) r.operators
  | inr e ↦ rw (e, flush) tt
]

yell_is_one : (s : Bytes) → str_eq s (codes "yell") ≡ true → is_one_arg_command s ≡ true
unfolding is_one_arg_command
yell_is_one s e = rw ((str_eq_iff s (codes "yell")).0 e) refl

tell_is_two :
    (s : Bytes)
    → str_eq s (codes "tell") ≡ true
    → (is_one_arg_command s ≡ false) × (is_two_arg_command s ≡ true)
unfolding is_two_arg_command is_one_arg_command
tell_is_two s e = rw ((str_eq_iff s (codes "tell")).0 e) (refl, refl)

on_command-IsReading :
    (token rest : Bytes) (st : State) → IsReading st → IsReading (on_command token rest st).1
unfolding on_command
on_command-IsReading token rest st r = elim (Bool-cases (is_one_arg_command token)) [
  | inl rest_of ↦
      rw (rest_of, on_command)
        (record {
          operators = flush-operators st r;
          yell_args =
              λ e. omega (arith, length-append (flush st).args (before 10 (skip_ws rest) ∷ []));
          tell_args = λ e. let t = tell_is_two token e in cc;
          done = flush-AreParsed st r;
        })
  | inr other ↦ elim (Bool-cases (is_two_arg_command token)) [
    | inl both ↦
        let (arg1, rest') = word_or_empty rest in
        rw (other, both, on_command)
          (record {
            operators = flush-operators st r;
            yell_args = λ e.
                omega
                  (arith, length-append (flush st).args (arg1 ∷ before 10 (skip_ws rest') ∷ []));
            tell_args = λ e.
                omega
                  (arith, length-append (flush st).args (arg1 ∷ before 10 (skip_ws rest') ∷ []));
            done = flush-AreParsed st r;
          })
    | inr none_of ↦
        rw (other, none_of, on_command)
          (record {
            operators = flush-operators st r;
            yell_args = λ e. let y = yell_is_one token e in cc;
            tell_args = λ e. let t = tell_is_two token e in cc;
            done = flush-AreParsed st r;
          })
  ]
]

on_argument-IsReading :
    (token : Bytes) (st : State) → IsReading st → IsReading (on_argument token st)
unfolding on_argument
on_argument-IsReading token st r = record {
  operators = r.operators;
  yell_args = λ e. omega (arith, r.yell_args e, length-append st.args (token ∷ []));
  tell_args = λ e. omega (arith, r.tell_args e, length-append st.args (token ∷ []));
  done = r.done;
}

body-IsReading : (token rest : Bytes) (st : State) → IsReading st → IsReading (body token rest st).1
unfolding body on_operator
body-IsReading token rest st r = elim (Bool-cases (is_operator token)) [
  | inl o ↦
      rw (o, body)
        (record {
          operators =
              AreOperators-append st.operators token r.operators (is_operator-IsOperator token o);
          yell_args = r.yell_args;
          tell_args = r.tell_args;
          done = r.done;
        })
  | inr p ↦ elim (Bool-cases (str_eq st.command [])) [
    | inl e ↦ rw (p, e, body) (on_command-IsReading token rest st r)
    | inr e ↦ rw (p, e, body) (on_argument-IsReading token st r)
  ]
]

loop-IsReading :
    (f : ℕ) (s : Bytes) (st st' : State) → IsReading st → loop f s st ≡ some st' → IsReading st'
unfolding loop
loop-IsReading zero s st st' r h = cc
loop-IsReading (suc f) s st st' r h = elim (Option-cases (read_word s)) [
  | inl e ↦ ground (arith, e, h, r)
  | inr ((w, rest), e) ↦
      loop-IsReading f (body w rest st).0 (body w rest st).1 st' (body-IsReading w rest st r)
        (ground (arith, e, h))
]

-- Whatever the line is: each command that it is parsed to has only operators that are |, > or one of
-- |, !, < and > with a number behind it that does not start with 0, a `yell` has an argument, and
-- a `tell` has two.
pub parse-AreParsed : (s : Bytes) → (cs : List Command) × (parse s ≡ some cs) × AreParsed cs
unfolding parse
parse-AreParsed s =
    let (st, e) = loop_ends (length s + 1) s init (omega arith) in
    (
      (flush st).commands,
      rw e refl,
      flush-AreParsed st (loop-IsReading (length s + 1) s init st init-IsReading e),
    )
