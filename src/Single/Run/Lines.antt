-- ===== src/Single/Run/Lines.antt =====
-- A line of np_single_proc comes to its end without a read through a pointer that leads nowhere.
use nycu_csic30091_netw.Prelude.{
  ℕ, suc, true, false, Option, some, List, [], ◌∷◌, ◌==◌, ◌≡◌, refl, arith, inl, inr, Bool-cases,
  Option-cases,
}
use nycu_csic30091_netw.Prelude.Bytes.{Bytes, codes, str_eq}
use nycu_csic30091_netw.Shell.Parser.Model.{Command, parse}
use nycu_csic30091_netw.Shell.Parser.Operators.{is_mark, AreOperators}
use nycu_csic30091_netw.Shell.Parser.Shape.{IsParsed, AreParsed, parse-AreParsed}
use nycu_csic30091_netw.Shell.Pipes.Model.{numbered_pipe, numbered_pipe_stderr}
use nycu_csic30091_netw.Shell.Builtin.Env.{reset_env}
use nycu_csic30091_netw.Shell.Builtin.Model.{builtin_of}
use nycu_csic30091_netw.Shell.Run.Model.{operator_at, first_byte, number_of, names_with, head_of}
use nycu_csic30091_netw.Single.Run.World.{World, Answers, session, execute_forked_command}
use nycu_csic30091_netw.Single.Run.Model.{
  run_builtin, run_program, run_for_user, run_command, run_commands, loaded, execute,
}
use nycu_csic30091_netw.Single.Run.Sound.{IsSound, IsLive, IsKept}
use nycu_csic30091_netw.Single.Run.Obeying.{Obeyed, execute-Obeyed}
use nycu_csic30091_netw.Single.Run.Asked.{asks, parsed-has_args, IsNumbered, operator_at-IsNumbered}
use nycu_csic30091_netw.Single.Run.Progress.{
  IsKept-trans, IsKept-IsLive, only, run_to_file-Obeyed, run_numbered-Obeyed, run_to_user-Obeyed,
  run_from_user-Obeyed, run_both-Obeyed,
}

-- The first byte is a mark.
marked :
    (op : Bytes) (x : ℕ)
    → (first_byte op == x) ≡ true
    → is_mark x ≡ true
    → is_mark (first_byte op) ≡ true
marked op x e m = ground (arith, e, m)

-- A second operator that names a user has a number.
from_named :
    (op : Bytes) → IsNumbered op → names_with b'<' op ≡ true → (n : ℕ) × (number_of op ≡ some n)
unfolding first_byte str_eq
from_named [] g e = cc
from_named (c ∷ s) g e = g (ground (arith, e)) (ground (arith, e)) (ground (arith, e))

to_named :
    (op : Bytes) → IsNumbered op → names_with b'>' op ≡ true → (n : ℕ) × (number_of op ≡ some n)
unfolding first_byte str_eq
to_named [] g e = cc
to_named (c ∷ s) g e = g (ground (arith, e)) (ground (arith, e)) (ground (arith, e))

module _ (a : Answers) (fd : ℕ) (raw : Bytes) (next : Option Command) (c : Command)
    (w : World) where
  run_for_user-Obeyed :
      IsSound w.server
      → IsLive fd w.server
      → AreOperators c.operators
      → str_eq (operator_at 0 c.operators) (codes "|") ≡ false
      → str_eq (operator_at 0 c.operators) (codes ">") ≡ false
      → Obeyed w (run_for_user a fd raw c next w)
  unfolding run_for_user execute_forked_command
  run_for_user-Obeyed v l os e1 e2 =
      let op = operator_at 0 c.operators in
      let op2 = operator_at 1 c.operators in
      let g = operator_at-IsNumbered 0 c.operators os in
      let g2 = operator_at-IsNumbered 1 c.operators os in
      elim (Bool-cases (first_byte op == b'>')) [
        | inl to ↦
            let (n, r) = g (marked op b'>' to refl) e1 e2 in
            elim (Bool-cases (names_with b'<' op2)) [
              | inl both ↦
                  let (m, r2) = from_named op2 g2 both in
                  rw (to, both, run_for_user) (run_both-Obeyed a fd raw c w v op2 op m n l r2 r)
              | inr alone ↦
                  rw (to, alone, run_for_user) (run_to_user-Obeyed a fd raw c w v op n l r)
            ]
        | inr not_to ↦ elim (Bool-cases (first_byte op == b'<')) [
          | inl from ↦
              let (n, r) = g (marked op b'<' from refl) e1 e2 in
              elim (Bool-cases (names_with b'>' op2)) [
                | inl both ↦
                    let (m, r2) = to_named op2 g2 both in
                    rw (not_to, from, both, run_for_user)
                      (run_both-Obeyed a fd raw c w v op op2 n m l r r2)
                | inr alone ↦
                    rw (not_to, from, alone, run_for_user)
                      (run_from_user-Obeyed a fd raw c w v op op2 next n l r g2)
              ]
          | inr not_from ↦ rw (not_to, not_from, run_for_user) (only false w _ v refl)
        ]
      ]

  run_program-Obeyed :
      IsSound w.server
      → IsLive fd w.server
      → AreOperators c.operators
      → Obeyed w (run_program a fd raw c next w)
  unfolding run_program execute_forked_command
  run_program-Obeyed v l os =
      let op = operator_at 0 c.operators in
      let g = operator_at-IsNumbered 0 c.operators os in
      elim (Bool-cases (str_eq op (codes "|"))) [
        | inl e ↦ rw (e, run_program) (only false w _ v refl)
        | inr e1 ↦ elim (Bool-cases (str_eq op (codes ">"))) [
          | inl e ↦ rw (e1, e, run_program) (run_to_file-Obeyed a c w v next)
          | inr e2 ↦ elim (Bool-cases (first_byte op == b'|')) [
            | inl e ↦
                let (n, r) = g (marked op b'|' e refl) e1 e2 in
                rw (e1, e2, e, run_program) (run_numbered-Obeyed a c w v numbered_pipe op n r)
            | inr e3 ↦ elim (Bool-cases (first_byte op == b'!')) [
              | inl e ↦
                  let (n, r) = g (marked op b'!' e refl) e1 e2 in
                  rw (e1, e2, e3, e, run_program)
                    (run_numbered-Obeyed a c w v numbered_pipe_stderr op n r)
              | inr e4 ↦ rw (e1, e2, e3, e4, run_program) (run_for_user-Obeyed v l os e1 e2)
            ]
          ]
        ]
      ]

  run_builtin-Obeyed :
      IsSound w.server
      → IsLive fd w.server
      → IsParsed c
      → asks (builtin_of c.command) c.args ≡ true
      → Obeyed w (run_builtin fd c w)
  unfolding run_builtin
  run_builtin-Obeyed v l p h =
      let (b, w1, run, k) = execute-Obeyed fd w v l c.command c.args (parsed-has_args c p h) in
      (false, session w1, rw run refl, k)

  pub run_command-Obeyed :
      IsSound w.server
      → IsLive fd w.server
      → IsParsed c
      → asks (builtin_of c.command) c.args ≡ true
      → Obeyed w (run_command a fd raw c next w)
  unfolding run_command
  run_command-Obeyed v l p h = elim (Option-cases (builtin_of c.command)) [
    | inl e ↦ rw (e, run_command) (run_program-Obeyed v l p.operators)
    | inr (b, e) ↦ rw (e, run_command) (run_builtin-Obeyed v l p h)
  ]

-- Each `name` of the line has an argument, and each `tell` a number.
abbrev pub AreAsked : List Command → Type 0
AreAsked [] = Unit {0}
AreAsked (c ∷ cs) = (asks (builtin_of c.command) c.args ≡ true) × AreAsked cs

run_commands_end :
    (os : ℕ → Answers) (fd : ℕ) (raw : Bytes) (i : ℕ) (cs : List Command) (w : World)
    → IsSound w.server
    → IsLive fd w.server
    → AreParsed cs
    → AreAsked cs
    → (w' : World) × (run_commands os fd raw i cs w ≡ some w') × IsKept w w'
unfolding run_commands
run_commands_end os fd raw i [] w v l p h = (w, refl, (v, refl))
run_commands_end os fd raw i (c ∷ cs) w v l p h =
    let (b, w1, run, k) = run_command-Obeyed (os i) fd raw (head_of cs) c w v l p.0 h.0 in
    let (w2, run2, k2) =
      run_commands_end os fd raw (suc i) cs w1 k.0 (IsKept-IsLive fd w w1 k l) p.1 h.1 in
    elim (Bool-cases b) [
      | inl e ↦ (w1, rw run (rw e refl), k)
      | inr e ↦ (w2, rw run (rw (e, run2) refl), IsKept-trans w w1 w2 k k2)
    ]

-- In a sound server a client with a shell sends a line in which each `name` has an argument and
-- each `tell` a number: the line comes to its end, whatever the system answers, no pointer that leads
-- nowhere is read through on the way, the server is sound again and the same clients have a shell.
pub execute_ends :
    (os : ℕ → Answers) (fd : ℕ) (raw : Bytes) (w : World)
    → IsSound w.server
    → IsLive fd w.server
    → ((cs : List Command) → parse raw ≡ some cs → AreAsked cs)
    → (w' : World) × (execute os fd raw w ≡ some w') × IsKept w w'
unfolding execute
execute_ends os fd raw w v l h =
    let (cs, e, p) = parse-AreParsed raw in
    let (w1, run, k) = run_commands_end os fd raw 0 cs (loaded raw w) v l p (h cs e) in
    (record w1 { vars = reset_env w1.shell.env_map w1.vars }, rw (e, run) refl, k)
