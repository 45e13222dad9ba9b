-- ===== src/Shell/Run/Keeping.antt =====
-- What the built-in commands (BuildinCommand::execute) do to the entries of envMap.
use nycu_csic30091_netw.Prelude.{
  >>=-eq-some, ℕ, Option, none, some, List, [], ◌∷◌, ◌≡◌, refl, arith, sym, subst,
}
use nycu_csic30091_netw.Prelude.Bytes.{Bytes}
use nycu_csic30091_netw.Cxx.TextMap.{TextMap}
use nycu_csic30091_netw.Shell.Builtin.Env.{Kept, Distinct}
use nycu_csic30091_netw.Shell.Builtin.Model.{
  Context, Outcome, Builtin, printenv, setenv, execute as execute_builtin, setenv_command,
  printenv_command, who_command, yell_command, name_command, tell_command, builtin_of,
}
use nycu_csic30091_netw.Shell.Run.Vars.{IsKeeping, set_env-IsKeeping, get_env-IsKeeping}
use nycu_csic30091_netw.Shell.Builtin.Model.{
  exit, who, yell, name, tell, ℤ, stoi, user_of, tell_user,
}
use nycu_csic30091_netw.Shell.Users.Model.{User, get_user_by_pid}

abbrev pub unchanged : (vars : TextMap) (ks : List Kept) → Distinct ks → IsKeeping vars ks ks
unchanged vars ks d = record { distinct = d; same = λ n. refl }

who-kept :
    (pid : ℕ) (c : Context) (o : Outcome)
    → who_command pid c ≡ some o
    → o.context.env_map ≡ c.env_map
unfolding who_command
who-kept pid c o h = ground arith

yell-kept :
    (pid : ℕ) (args : List Bytes) (c : Context) (o : Outcome)
    → yell_command pid args c ≡ some o
    → o.context.env_map ≡ c.env_map
unfolding yell_command
yell-kept pid args c o h = ground arith

name-kept :
    (pid : ℕ) (args : List Bytes) (c : Context) (o : Outcome)
    → name_command pid args c ≡ some o
    → o.context.env_map ≡ c.env_map
unfolding name_command
name-kept pid args c o h = ground arith

sent-kept :
    (me : User) (to_user : Option User) (to_id : ℤ) (text : Bytes) (c : Context) (o : Outcome)
    → tell_user me to_user to_id text c ≡ some o
    → o.context.env_map ≡ c.env_map
unfolding tell_user
sent-kept me none to_id text c o h = ground arith
sent-kept me (some u) to_id text c o h = ground arith

tell-kept :
    (pid : ℕ) (args : List Bytes) (c : Context) (o : Outcome)
    → tell_command pid args c ≡ some o
    → o.context.env_map ≡ c.env_map
unfolding tell_command
tell-kept pid [] c o h = ground arith
tell-kept pid (target ∷ []) c o h = ground arith
tell-kept pid (target ∷ text ∷ rest) c o h =
    let (me, e1, h1) = >>=-eq-some (get_user_by_pid pid c.shared.users) _ h in
    let (to_id, e2, h2) = >>=-eq-some (stoi target) _ h1 in
    let (to_user, e3, h3) = >>=-eq-some (user_of to_id c.shared.users) _ h2 in
    sent-kept me to_user to_id text c o h3

pub kept-IsKeeping :
    (vars : TextMap) (ks ks' : List Kept) → Distinct ks → ks' ≡ ks → IsKeeping vars ks ks'
kept-IsKeeping vars ks ks' d e = subst (λ x. IsKeeping vars ks x) (sym e) (unchanged vars ks d)

printenv-IsKeeping :
    (vars : TextMap) (args : List Bytes) (c : Context)
    → Distinct c.env_map
    → IsKeeping vars c.env_map (printenv_command vars args c).context.env_map
unfolding printenv_command
printenv-IsKeeping vars [] c d = unchanged vars c.env_map d
printenv-IsKeeping vars (n ∷ ns) c d = get_env-IsKeeping vars n c.env_map d

setenv-IsKeeping :
    (vars : TextMap) (args : List Bytes) (c : Context)
    → Distinct c.env_map
    → IsKeeping vars c.env_map (setenv_command vars args c).context.env_map
unfolding setenv_command
setenv-IsKeeping vars [] c d = unchanged vars c.env_map d
setenv-IsKeeping vars (n ∷ []) c d = set_env-IsKeeping vars n [] c.env_map d
setenv-IsKeeping vars (n ∷ v ∷ vs) c d = set_env-IsKeeping vars n v c.env_map d

-- All built-in commands.
pub builtin-IsKeeping :
    (vars : TextMap) (pid : ℕ) (command : Bytes) (args : List Bytes) (c : Context) (o : Outcome)
    (b : Option Builtin)
    → builtin_of command ≡ b
    → Distinct c.env_map
    → execute_builtin vars pid command args c ≡ some o
    → IsKeeping vars c.env_map o.context.env_map
unfolding execute_builtin
builtin-IsKeeping vars pid command args c o none e d h =
    kept-IsKeeping vars c.env_map _ d (ground arith)
builtin-IsKeeping vars pid command args c o (some exit) e d h =
    kept-IsKeeping vars c.env_map _ d (ground arith)
builtin-IsKeeping vars pid command args c o (some printenv) e d h =
    let same : printenv_command vars args c ≡ o = ground arith in
    subst (λ x. IsKeeping vars c.env_map x.context.env_map) same (printenv-IsKeeping vars args c d)
builtin-IsKeeping vars pid command args c o (some setenv) e d h =
    let same : setenv_command vars args c ≡ o = ground arith in
    subst (λ x. IsKeeping vars c.env_map x.context.env_map) same (setenv-IsKeeping vars args c d)
builtin-IsKeeping vars pid command args c o (some who) e d h =
    kept-IsKeeping vars c.env_map _ d (who-kept pid c o (ground arith))
builtin-IsKeeping vars pid command args c o (some yell) e d h =
    kept-IsKeeping vars c.env_map _ d (yell-kept pid args c o (ground arith))
builtin-IsKeeping vars pid command args c o (some name) e d h =
    kept-IsKeeping vars c.env_map _ d (name-kept pid args c o (ground arith))
builtin-IsKeeping vars pid command args c o (some tell) e d h =
    kept-IsKeeping vars c.env_map _ d (tell-kept pid args c o (ground arith))
