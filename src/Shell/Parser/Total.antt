-- ===== src/Shell/Parser/Total.antt =====
-- The loop of Parser::parse ends: each round takes at least one byte off the line.
use nycu_csic30091_netw.Prelude.{ℕ, zero, suc, ◌+◌, ◌≤◌, ◌<◌, some}
use nycu_csic30091_netw.Prelude.{List, ◌≡◌, arith, length}
use nycu_csic30091_netw.Prelude.{inl, inr, Option-cases}
use nycu_csic30091_netw.Prelude.Bytes.{Bytes}
use nycu_csic30091_netw.Cxx.Stream.{read_word, word_or_empty, skip_ws}
use nycu_csic30091_netw.Cxx.Stream.{length-read_word, length-skip_ws, length-after}
use nycu_csic30091_netw.Shell.Parser.Model.{
  Command, State, init, flush, on_command, body, loop, parse,
}

length-word_or_empty : (s : Bytes) → length (word_or_empty s).1 ≤ length s
unfolding word_or_empty
length-word_or_empty s = elim (Option-cases (read_word s)) [
  | inl e ↦ rw (e, word_or_empty) (omega arith)
  | inr ((w, r), e) ↦ rw (e, word_or_empty) (omega (arith, length-read_word s w r e))
]

length-on_command :
    (token rest : Bytes) (st : State) → length (on_command token rest st).0 ≤ length rest
unfolding on_command
length-on_command token rest st = ground (
  arith,
  length-after 10 (skip_ws rest),
  length-skip_ws rest,
  length-word_or_empty rest,
  length-after 10 (skip_ws (word_or_empty rest).1),
  length-skip_ws (word_or_empty rest).1,
)

pub length-body : (token rest : Bytes) (st : State) → length (body token rest st).0 ≤ length rest
unfolding body
length-body token rest st = ground (arith, length-on_command token rest st)

pub loop_ends :
    (f : ℕ) (s : Bytes) (st : State) → length s < f → (st' : State) × (loop f s st ≡ some st')
unfolding loop
loop_ends zero s st h = absurd (omega arith)
loop_ends (suc f) s st h = elim (Option-cases (read_word s)) [
  | inl e ↦ (st, rw (e, loop))
  | inr ((w, r), e) ↦
      let (st', run) =
        loop_ends f (body w r st).0 (body w r st).1
          (omega (arith, length-read_word s w r e, length-body w r st)) in
      (st', rw (e, loop) run)
]

-- Every line is parsed: the loop ends on any input.
pub parse_ends : (s : Bytes) → (cs : List Command) × (parse s ≡ some cs)
unfolding parse
parse_ends s =
    let (st, e) = loop_ends (length s + 1) s init (omega arith) in ((flush st).commands, rw e)
