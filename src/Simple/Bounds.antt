-- ===== src/Simple/Bounds.antt =====
-- What np_simple's parser gives for any line.
use nycu_csic30091_netw.Prelude.{
  ℕ, zero, suc, ◌+◌, ◌≤◌, ◌<◌, ◌&&◌, true, some, [], ◌∷◌, ◌≡◌, refl, arith, inl, inr, length,
  length-append, Bool-cases, Option-cases,
}
use nycu_csic30091_netw.Prelude.Bytes.{Bytes, str_eq}
use nycu_csic30091_netw.Cxx.Regex.{compile}
use nycu_csic30091_netw.Cxx.Stream.{read_word, length-read_word}
use nycu_csic30091_netw.Shell.Parser.Operators.{
  IsOperator, AreOperators, AllGive, any_match, numbered_match, alone_match, next, file,
}
use nycu_csic30091_netw.Shell.Parser.Shape.{AreOperators-append}
use nycu_csic30091_netw.Simple.Parser.{
  ParseResult, State, init, operator_types, is_operator, body, stopped, loop, finish, parse,
}

operator_types_give : AllGive operator_types
unfolding compile
operator_types_give = (
  (_, refl, λ s m. rw (alone_match b'|' s m) next),
  (
    (_, refl, λ s. numbered_match b'|' s refl),
    (
      (_, refl, λ s. numbered_match b'!' s refl),
      ((_, refl, λ s m. rw (alone_match b'>' s m) file), tt),
    ),
  ),
)

is_operator-IsOperator : (s : Bytes) → is_operator s ≡ true → IsOperator s
unfolding is_operator
is_operator-IsOperator s h = any_match operator_types s operator_types_give h

-- An operator stands behind each command but perhaps the last.
pub record IsPaired (r : ParseResult) : Type 0 where
  pub operators : AreOperators r.operators
  pub enough : length r.commands ≤ length r.operators + 1
  pub no_more : length r.operators ≤ length r.commands

-- Inside the loop an operator stands behind each command.
record IsReading (st : State) : Type 0 where
  operators : AreOperators st.result.operators
  paired : length st.result.operators ≡ length st.result.commands

body-IsReading : (token : Bytes) (st : State) → IsReading st → IsReading (body token st)
unfolding body
body-IsReading token st r = elim (Bool-cases (is_operator token)) [
  | inl o ↦
      rw (o, body)
        (record {
          operators =
              AreOperators-append st.result.operators token r.operators
                (is_operator-IsOperator token o);
          paired = omega (
            arith,
            r.paired,
            length-append st.result.operators (token ∷ []),
            length-append st.result.commands ((st.command, st.args) ∷ []),
          );
        })
  | inr p ↦ elim (Bool-cases (str_eq st.command [])) [
    | inl e ↦ rw (p, e, body) (record { operators = r.operators; paired = r.paired })
    | inr e ↦ rw (p, e, body) (record { operators = r.operators; paired = r.paired })
  ]
]

loop_ends :
    (f : ℕ) (s : Bytes) (st : State)
    → length s < f
    → IsReading st
    → (st' : State) × (loop f s st ≡ some st') × IsReading st'
unfolding loop
loop_ends zero s st h r = absurd (omega arith)
loop_ends (suc f) s st h r = elim (Option-cases (read_word s)) [
  | inl e ↦ (st, rw (e, loop) refl, r)
  | inr ((token, rest), e) ↦
      let (st', run, r') =
        loop_ends f rest (body token st) (omega (arith, length-read_word s token rest e))
          (body-IsReading token st r) in
      elim (Bool-cases (is_operator token && str_eq st.command [])) [
        | inl stop ↦ (
          stopped st,
          rw (e, loop) (rw stop refl),
          record { operators = r.operators; paired = r.paired },
        )
        | inr go ↦ (st', rw (e, loop) (rw go run), r')
      ]
]

finish-IsPaired : (st : State) → IsReading st → IsPaired (finish st)
unfolding finish
finish-IsPaired st r = elim (Bool-cases (str_eq st.result.error_message [])) [
  | inl e ↦ elim (Bool-cases (str_eq st.command [])) [
    | inl n ↦
        rw (e, n, finish)
          (record {
            operators = r.operators;
            enough = omega (arith, r.paired);
            no_more = omega (arith, r.paired);
          })
    | inr n ↦
        rw (e, n, finish)
          (record {
            operators = r.operators;
            enough =
                omega
                  (arith, r.paired, length-append st.result.commands ((st.command, st.args) ∷ []));
            no_more =
                omega
                  (arith, r.paired, length-append st.result.commands ((st.command, st.args) ∷ []));
          })
  ]
  | inr e ↦ rw (e, finish) (record { operators = tt; enough = omega arith; no_more = omega arith })
]

-- Whatever the line is, the parser of np_simple comes to its end; each operator that it gives is |, > or
-- a mark with a number that does not start with 0, and there are as many operators as commands, or one
-- less.
pub parse-IsPaired : (s : Bytes) → (r : ParseResult) × (parse s ≡ some r) × IsPaired r
unfolding parse
parse-IsPaired s =
    let start : IsReading init = record { operators = tt; paired = refl } in
    let (st, e, r) = loop_ends (length s + 1) s init (omega arith) start in
    (finish st, rw e refl, finish-IsPaired st r)
