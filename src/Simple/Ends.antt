-- ===== src/Simple/Ends.antt =====
-- The shell of np_simple comes to the end of any input.
use nycu_csic30091_netw.Prelude.{
  ℕ, zero, suc, ◌+◌, ◌≤◌, ◌<◌, false, Option, some, List, [], ◌∷◌, ◌++◌, ◌==◌, ◌≡◌, refl, arith,
  inl, inr, length, get_elem?, Bool-cases, Option-cases,
}
use nycu_csic30091_netw.Prelude.Bytes.{Bytes, codes, str_eq}
use nycu_csic30091_netw.Shell.Parser.Operators.{AreOperators}
use nycu_csic30091_netw.Shell.Run.World.{logged}
use nycu_csic30091_netw.Shell.Run.Model.{first_byte, number_of}
use nycu_csic30091_netw.Single.Run.Loop.{without_cr}
use nycu_csic30091_netw.Single.Run.Asked.{IsNumbered, operator-IsNumbered}
use nycu_csic30091_netw.Simple.Pipes.{
  PipeMode, numbered_pipe, numbered_pipe_stderr, add_numbered_pipe,
}
use nycu_csic30091_netw.Simple.Bounds.{parse-IsPaired}
use nycu_csic30091_netw.Simple.Shell.{
  World, Answers, emit, say, session, symbol, builtin_of, run_to_file, run_numbered, run_program,
  execute_forked_command, run_command, prev_operator, next_operator, run_commands, run_line,
  run_lines, run,
}

-- The call gives a result.
abbrev pub Comes {ℓ} : {A : Type ℓ} → Option A → Type ℓ
Comes {A = A} o = (a : A) × (o ≡ some a)

run_numbered_ends :
    (a : Answers) (mode : PipeMode) (op : Bytes) (c : Bytes × List Bytes) (w : World) (n : ℕ)
    → number_of op ≡ some n
    → Comes (run_numbered a mode op c w)
unfolding run_numbered
run_numbered_ends a mode op c w n e = (
  (
    false,
    session (
        execute_forked_command a mode [] c
          (record w { manager = add_numbered_pipe n a.numbered w.manager })),
  ),
  rw e refl,
)

run_to_file_ends :
    (a : Answers) (c : Bytes × List Bytes) (cs : List (Bytes × List Bytes)) (w : World)
    → Comes (run_to_file a c cs w)
unfolding run_to_file
run_to_file_ends a c [] w = (_, refl)
run_to_file_ends a c (f ∷ fs) w = (_, refl)

run_program_ends :
    (a : Answers) (op : Bytes) (c : Bytes × List Bytes) (cs : List (Bytes × List Bytes)) (w : World)
    → IsNumbered op
    → Comes (run_program a op c cs w)
unfolding run_program
run_program_ends a op c cs w num = elim (Bool-cases (str_eq op (codes "|"))) [
  | inl e ↦ rw e (_, refl)
  | inr e ↦ elim (Bool-cases (str_eq op (codes ">"))) [
    | inl f ↦ rw (e, f) (run_to_file_ends a c cs w)
    | inr f ↦ elim (Bool-cases (first_byte op == b'|')) [
      | inl g ↦
          let (n, r) = num (ground (arith, g)) e f in
          rw (e, f, g) (run_numbered_ends a numbered_pipe op c w n r)
      | inr g ↦ elim (Bool-cases (first_byte op == b'!')) [
        | inl h ↦
            let (n, r) = num (ground (arith, h)) e f in
            rw (e, f, g, h) (run_numbered_ends a numbered_pipe_stderr op c w n r)
        | inr h ↦ rw (e, f, g, h) (_, refl)
      ]
    ]
  ]
]

run_command_ends :
    (a : Answers) (op : Bytes) (c : Bytes × List Bytes) (cs : List (Bytes × List Bytes)) (w : World)
    → IsNumbered op
    → Comes (run_command a op c cs w)
unfolding run_command
run_command_ends a op c cs w num = elim (Option-cases (builtin_of c.0)) [
  | inl e ↦ rw (e, run_command) (run_program_ends a op c cs w num)
  | inr (b, e) ↦ rw (e, run_command) (_, refl)
]

empty-IsNumbered : IsNumbered []
unfolding first_byte
empty-IsNumbered m e f = cc

get_elem-IsNumbered :
    (ops : List Bytes) (i : ℕ)
    → AreOperators ops
    → i < length ops
    → (op : Bytes) × (get_elem? ops i ≡ some op) × IsNumbered op
get_elem-IsNumbered [] i a h = absurd (omega (arith, h))
get_elem-IsNumbered (o ∷ ops) zero a h = (o, refl, operator-IsNumbered o a.0)
get_elem-IsNumbered (o ∷ ops) (suc i) a h = get_elem-IsNumbered ops i a.1 (omega (arith, h))

prev_operator_ends :
    (ops : List Bytes) (i : ℕ) → AreOperators ops → i ≤ length ops → Comes (prev_operator i ops)
unfolding prev_operator
prev_operator_ends ops zero a h = ([], refl)
prev_operator_ends ops (suc i) a h =
    let (op, e, num) = get_elem-IsNumbered ops i a (omega (arith, h)) in (op, e)

next_operator_ends :
    (ops : List Bytes) (i : ℕ)
    → AreOperators ops
    → i ≤ length ops
    → (op : Bytes) × (next_operator i ops ≡ some op) × IsNumbered op
unfolding next_operator
next_operator_ends ops i a h = elim (Bool-cases (i == length ops)) [
  | inl e ↦ ([], rw e refl, empty-IsNumbered)
  | inr e ↦ let (op, get, num) = get_elem-IsNumbered ops i a (ground arith) in (op, rw e get, num)
]

run_commands_ends :
    (os : ℕ → Answers) (ops : List Bytes) (i : ℕ) (cs : List (Bytes × List Bytes)) (w : World)
    → AreOperators ops
    → i + length cs ≤ length ops + 1
    → Comes (run_commands os ops i cs w)
unfolding run_commands
run_commands_ends os ops i [] w a h = (w, refl)
run_commands_ends os ops i (c ∷ cs) w a h =
    let (previous, ep) = prev_operator_ends ops i a (omega (arith, h)) in
    let (op, eo, num) = next_operator_ends ops i a (omega (arith, h)) in
    let ((left, w'), er) = run_command_ends (os i) op c cs w num in
    let (w'', rest) = run_commands_ends os ops (suc i) cs w' a (omega (arith, h)) in
    elim (Bool-cases left) [
      | inl e ↦ (w', rw (ep, eo, er, e, run_commands) refl)
      | inr e ↦ (w'', rw (ep, eo, er, e, rest, run_commands) refl)
    ]

run_line_ends : (os : ℕ → Answers) (raw : Bytes) (w : World) → Comes (run_line os raw w)
unfolding run_line
run_line_ends os raw w =
    let (r, e, p) = parse-IsPaired (without_cr raw) in
    rw e (
      run_commands_ends os r.operators 0 r.commands
        (emit (logged (without_cr raw ++ 10 ∷ []) ∷ []) w) p.operators (omega (arith, p.enough)))

run_lines_ends :
    (os : ℕ → ℕ → Answers) (j : ℕ) (lines : List Bytes) (w : World) → Comes (run_lines os j lines w)
unfolding run_lines
run_lines_ends os j [] w = (_, refl)
run_lines_ends os j (raw ∷ lines) w =
    let (w', e) = run_line_ends (os j) raw (say symbol w) in
    let (w'', rest) = run_lines_ends os (suc j) lines w' in
    elim (Bool-cases w'.exit_flag) [
      | inl x ↦ (w', rw (e, x, run_lines) refl)
      | inr x ↦ (w'', rw (e, x, rest, run_lines) refl)
    ]

-- Whatever the lines of the input are and whatever pipes the system gives, the shell of np_simple comes to
-- the end of the input or to its `exit`: it never reads past the operators of a line, and never uses a
-- number of a pipe that was not read.
pub run_ends :
    (os : ℕ → ℕ → Answers) (lines : List Bytes) (w : World)
    → (w' : World) × (run os lines w ≡ some w')
unfolding run
run_ends os lines w = run_lines_ends os 0 lines (session w)
