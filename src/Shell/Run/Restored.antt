-- ===== src/Shell/Run/Restored.antt =====
-- The environment of the process is after a line what it was before (NPShell::execute).
use nycu_csic30091_netw.Prelude.{
  ℕ, suc, Bool, Option, none, some, List, [], ◌∷◌, ◌++◌, ◌≡◌, refl, arith, >>=-eq-some, eq_of_some,
  sym, ◌∙◌, inl, inr, Bool-cases, ap, subst,
}
use nycu_csic30091_netw.Prelude.Bytes.{Bytes}
use nycu_csic30091_netw.Cxx.TextMap.{TextMap, find_text}
use nycu_csic30091_netw.Shell.Parser.Model.{Command, parse}
use nycu_csic30091_netw.Shell.Builtin.Env.{
  Kept, Distinct, find_kept, load_env, reset_env, or_empty, chosen, find_text-load_env,
  find_text-reset_env,
}
use nycu_csic30091_netw.Shell.Builtin.Model.{
  Context, Builtin, execute as execute_builtin, builtin_of,
}
use nycu_csic30091_netw.Shell.Run.World.{World, Answers, execute_forked_command, emit, logged}
use nycu_csic30091_netw.Shell.Run.Vars.{original_of, outside, IsKeeping}
use nycu_csic30091_netw.Shell.Run.Model.{run_command, run_commands, run_builtin, execute, head_of}
use nycu_csic30091_netw.Shell.Run.Kept.{
  run_to_file-kept, run_numbered-kept, run_to_user-kept, run_from_user-kept, run_both-kept,
}
use nycu_csic30091_netw.Shell.Run.Keeping.{unchanged, kept-IsKeeping, builtin-IsKeeping}

pub record IsRestoring (w w' : World) : Type 0 where
  pub keeping : IsKeeping w.vars w.env_map w'.env_map
  pub loaded : w'.vars ≡ w.vars

run_builtin-IsRestoring :
    (pid : ℕ) (c : Command) (w : World) (r : Bool × World)
    → Distinct w.env_map
    → run_builtin pid c w ≡ some r
    → IsRestoring w r.1
unfolding run_builtin
run_builtin-IsRestoring pid c w r d h =
    let k : Context = record { shared = w.shared; env_map = w.env_map; exit_flag = w.exit_flag } in
    let (o, ran, h1) = >>=-eq-some (execute_builtin w.vars pid c.command c.args k) _ h in
    let v = builtin-IsKeeping w.vars pid c.command c.args k o (builtin_of c.command) refl d ran in
    let same = eq_of_some h1 in
    subst (λ x. IsRestoring w x.1) same (record { keeping = v; loaded = refl })

run_command-kept :
    (a : Answers) (pid : ℕ) (raw : Bytes) (c : Command) (next : Option Command) (w : World)
    (r : Bool × World)
    → builtin_of c.command ≡ none
    → run_command a pid raw c next w ≡ some r
    → (r.1.env_map ≡ w.env_map) × (r.1.vars ≡ w.vars)
unfolding run_command execute_forked_command
run_command-kept a pid raw c next w r e h = grind (
  arith, run_to_file-kept, run_numbered-kept, run_to_user-kept, run_from_user-kept, run_both-kept,
)

run_command-IsRestoring :
    (a : Answers) (pid : ℕ) (raw : Bytes) (c : Command) (next : Option Command) (w : World)
    (r : Bool × World) (b : Option Builtin)
    → builtin_of c.command ≡ b
    → Distinct w.env_map
    → run_command a pid raw c next w ≡ some r
    → IsRestoring w r.1
unfolding run_command
run_command-IsRestoring a pid raw c next w r none e d h =
    let (env_same, vars_same) = run_command-kept a pid raw c next w r e h in
    record { keeping = kept-IsKeeping w.vars w.env_map r.1.env_map d env_same; loaded = vars_same }
run_command-IsRestoring a pid raw c next w r (some b) e d h =
    run_builtin-IsRestoring pid c w r d (ground (arith, e, h))

IsRestoring-trans : (w w1 w2 : World) → IsRestoring w w1 → IsRestoring w1 w2 → IsRestoring w w2
IsRestoring-trans w w1 w2 u v = record {
  keeping = record {
    distinct = v.keeping.distinct;
    same = λ n.
        ap (λ x. outside n x w2.env_map) (sym u.loaded)
        ∙ (v.keeping.same n ∙ (ap (λ x. outside n x w1.env_map) u.loaded ∙ u.keeping.same n));
  };
  loaded = v.loaded ∙ u.loaded;
}

run_commands-IsRestoring :
    (os : ℕ → Answers) (pid : ℕ) (raw : Bytes) (i : ℕ) (cs : List Command) (w w' : World)
    → Distinct w.env_map
    → run_commands os pid raw i cs w ≡ some w'
    → IsRestoring w w'
unfolding run_commands
run_commands-IsRestoring os pid raw i [] w w' d h =
    subst (λ x. IsRestoring w x) (eq_of_some h)
      (record { keeping = unchanged w.vars w.env_map d; loaded = refl })
run_commands-IsRestoring os pid raw i (c ∷ cs) w w' d h =
    let (r, ran, h1) = >>=-eq-some (run_command (os i) pid raw c (head_of cs) w) _ h in
    let v =
      run_command-IsRestoring (os i) pid raw c (head_of cs) w r (builtin_of c.command) refl d ran in
    elim (Bool-cases r.0) [
      | inl b ↦ subst (λ x. IsRestoring w x) (eq_of_some (ground (arith, b, h1))) v
      | inr b ↦ IsRestoring-trans w r.1 w' v (
          run_commands-IsRestoring os pid raw (suc i) cs r.1 w' v.keeping.distinct
            (ground (arith, b, h1)))
    ]

original_of-loaded :
    (o : Option Kept) (old : Option Bytes)
    → original_of (or_empty (chosen (λ k. k.value) o old)) o ≡ original_of (or_empty old) o
original_of-loaded none old = refl
original_of-loaded (some k) old = refl

or_empty-reset :
    (o : Option Kept) (old : Option Bytes)
    → or_empty (chosen (λ k. k.original) o old) ≡ original_of (or_empty old) o
or_empty-reset none old = refl
or_empty-reset (some k) old = refl

original_of-twice :
    (o : Option Kept) (v : Bytes) → original_of (original_of v o) o ≡ original_of v o
original_of-twice none v = refl
original_of-twice (some k) v = refl

-- Each variable of the shell stands once in envMap, with the value that the process has for it.
pub record IsConsistent (w : World) : Type 0 where
  pub distinct : Distinct w.env_map
  pub original : (n : Bytes) → outside n w.vars w.env_map ≡ or_empty (find_text n w.vars)

outside-load_env :
    (n : Bytes) (ks : List Kept) (vars : TextMap)
    → Distinct ks
    → outside n (load_env ks vars) ks ≡ outside n vars ks
outside-load_env n ks vars d =
    rw (find_text-load_env n ks vars d) (original_of-loaded (find_kept n ks) (find_text n vars))

or_empty-reset_env :
    (n : Bytes) (ks : List Kept) (vars : TextMap)
    → Distinct ks
    → or_empty (find_text n (reset_env ks vars)) ≡ outside n vars ks
or_empty-reset_env n ks vars d =
    rw (find_text-reset_env n ks vars d) (or_empty-reset (find_kept n ks) (find_text n vars))

outside-reset_env :
    (n : Bytes) (ks : List Kept) (vars : TextMap)
    → Distinct ks
    → outside n (reset_env ks vars) ks ≡ or_empty (find_text n (reset_env ks vars))
outside-reset_env n ks vars d =
    rw (or_empty-reset_env n ks vars d)
      (original_of-twice (find_kept n ks) (or_empty (find_text n vars)))

-- A line that is executed, in a shell whose entries have the values that the process has for them:
-- afterwards the process has for every variable the value that it had before, a variable that is not
-- set being as one that is empty, and the entries, old and new, are again as they have to be.
pub execute-IsConsistent :
    (os : ℕ → Answers) (pid : ℕ) (raw : Bytes) (w w' : World)
    → IsConsistent w
    → execute os pid raw w ≡ some w'
    → IsConsistent w'
      × ((n : Bytes) → or_empty (find_text n w'.vars) ≡ or_empty (find_text n w.vars))
unfolding execute
execute-IsConsistent os pid raw w w' v h =
    let (cs, parsed, h1) = >>=-eq-some (parse raw) _ h in
    let w1 = emit (logged (raw ++ 10 ∷ []) ∷ []) (record w { vars = load_env w.env_map w.vars }) in
    let (w2, ran, h2) = >>=-eq-some (run_commands os pid raw 0 cs w1) _ h1 in
    let u = run_commands-IsRestoring os pid raw 0 cs w1 w2 v.distinct ran in
    let d = u.keeping.distinct in
    let loaded = λ (n : Bytes). outside-load_env n w.env_map w.vars v.distinct ∙ v.original n in
    let same = λ (n : Bytes).
      or_empty-reset_env n w2.env_map w2.vars d
      ∙ (ap (λ x. outside n x w2.env_map) u.loaded ∙ (u.keeping.same n ∙ loaded n)) in
    subst
      (λ x.
        IsConsistent x
        × ((n : Bytes) → or_empty (find_text n x.vars) ≡ or_empty (find_text n w.vars)))
      (eq_of_some h2)
      (record { distinct = d; original = λ n. outside-reset_env n w2.env_map w2.vars d }, same)
