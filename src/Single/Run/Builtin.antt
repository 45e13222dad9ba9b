-- ===== src/Single/Run/Builtin.antt =====
-- The commands of BuildinCommand (project2/src/np_single_proc/src/BuildinCommand.cpp). `none` is a missing
-- argument, an exception of stoi, or the read through a pointer that leads nowhere.
use nycu_csic30091_netw.Prelude.{
  ℕ, suc, Bool, true, false, Option, none, some, List, [], ◌∷◌, ◌++◌, ◌>>=◌, ◌==◌, if◌then◌else◌,
}
use nycu_csic30091_netw.Prelude.Bytes.{Bytes, codes, str_eq}
use nycu_csic30091_netw.Cxx.Decimal.{to_string}
use nycu_csic30091_netw.Cxx.Map.{Map, find, insert}
use nycu_csic30091_netw.Shell.Builtin.Env.{Kept, set_env, get_env}
use nycu_csic30091_netw.Shell.Builtin.Model.{
  Builtin, builtin_of, exit, printenv, setenv, who, yell, name, tell, ℤ, pos, negsuc, stoi,
  no_user_text, taken_text,
}
use nycu_csic30091_netw.Single.Users.{
  User, UserManager, get_user_by_id, get_user_by_fd, set_name_by_id,
}
use nycu_csic30091_netw.Single.Server.{shown_name, send_direct_message}
use nycu_csic30091_netw.Single.Run.World.{
  World, say, emit, announce, users, with_users, me_of, told,
}

abbrev pub with_env : List Kept → World → World
with_env ks w = record w { shell = record (w.shell) { env_map = ks } }

unfoldable pub exit_command : World → World
exit_command w = record w { shell = record (w.shell) { exit_flag = true } }

unfoldable pub printenv_command : List Bytes → World → Bool × World
printenv_command [] w = (false, w)
printenv_command (n ∷ _) w =
    let (v, ks) = get_env w.vars n w.shell.env_map in (true, say (v ++ 10 ∷ []) (with_env ks w))

unfoldable pub setenv_command : List Bytes → World → Bool × World
setenv_command [] w = (false, w)
setenv_command (n ∷ []) w = (true, with_env (set_env w.vars n [] w.shell.env_map) w)
setenv_command (n ∷ v ∷ _) w = (true, with_env (set_env w.vars n v w.shell.env_map) w)

-- Users are compared as pointers.
abbrev pub is_me : ℕ → ℕ → Bool
is_me q p = p == q

abbrev pub who_line : ℕ → ℕ → User → Bytes
who_line me p u =
    to_string u.id
    ++ (9 ∷ shown_name u.name)
    ++ (9 ∷ u.ip_addr)
    ++ (if is_me me p then codes "\t<-me" else [])
    ++ 10 ∷ []

unfoldable pub who_lines : ℕ → Map User → Map ℕ → Option Bytes
who_lines me heap [] = some []
who_lines me heap ((k, p) ∷ m) = do
  u ← find p heap
  rest ← who_lines me heap m
  some (who_line me p u ++ rest)

unfoldable pub who_command : ℕ → World → Option (Bool × World)
who_command fd w = do
  let m = users w
  me ← get_user_by_fd fd m
  lines ← who_lines me m.heap m.id_user_map
  some (true, say (codes "<ID>\t<nickname>\t<IP:port>\t<indicate me>\n" ++ lines) w)

abbrev pub yell_text : User → Bytes → Bytes
yell_text me text =
    codes "*** " ++ (shown_name me.name ++ (codes " yelled ***: " ++ text ++ 10 ∷ []))

unfoldable pub yell_command : ℕ → List Bytes → World → Option (Bool × World)
yell_command fd [] w = none
yell_command fd (text ∷ _) w = do me ← me_of fd w; some (true, announce (yell_text me text) w)

abbrev pub named_text : User → Bytes
named_text me =
    codes "*** User from " ++ (me.ip_addr ++ (codes " is named '" ++ (me.name ++ codes "'. ***\n")))

-- The end of nameCommand, behind setNameById: `p` is the pointer `me`.
unfoldable pub name_self : ℕ → Bytes → World → Option (Bool × World)
name_self p n w = do
  user ← find p w.server.user_manager.heap
  let me : User = record user { name = n }
  let counted : User = record me { name_change_count = suc me.name_change_count }
  let m : UserManager = record (users w) { heap = insert p counted w.server.user_manager.heap }
  some (true, with_users m (announce (named_text me) w))

unfoldable pub rename_self : ℕ → Bytes → World → Option (Bool × World)
rename_self fd n w = do
  p ← get_user_by_fd fd (users w)
  me ← find p w.server.user_manager.heap
  (done, m) ← set_name_by_id me.id n (users w)
  let named = name_self p n (with_users m w)
  (if done then named else some (false, say (taken_text n) (with_users m w)))

unfoldable pub name_command : ℕ → List Bytes → World → Option (Bool × World)
name_command fd [] w = none
name_command fd (n ∷ _) w = do
  me ← get_user_by_fd fd (users w)
  let renamed = rename_self fd n w
  (if str_eq n [] then some (false, say (codes "Error args1 cannot be empty\n") w) else renamed)

abbrev pub tell_text : User → Bytes → Bytes
tell_text me text =
    codes "*** " ++ (shown_name me.name ++ (codes " told you ***: " ++ text ++ 10 ∷ []))

-- The end of tellCommand: `q` is the pointer `toUser`.
unfoldable pub tell_user : ℕ → ℕ → Bytes → World → Option (Bool × World)
tell_user fd q text w = do
  me ← me_of fd w
  to_user ← find q w.server.user_manager.heap
  texts ← send_direct_message to_user.id (tell_text me text) w.server
  some (true, emit (told texts ∷ []) w)

-- `getUserById(toId)`: no user has an id below 0.
abbrev pub user_of : ℤ → UserManager → Option ℕ
user_of (pos id) m = get_user_by_id id m
user_of (negsuc n) m = none

unfoldable pub tell_id : ℕ → ℤ → Bytes → World → Option (Bool × World)
tell_id fd to_id text w = elim (user_of to_id (users w)) [
  | none ↦ some (false, say (no_user_text to_id) w)
  | some q ↦ tell_user fd q text w
]

unfoldable pub tell_command : ℕ → List Bytes → World → Option (Bool × World)
tell_command fd (target ∷ text ∷ _) w = do
  me ← get_user_by_fd fd (users w)
  to_id ← stoi target
  tell_id fd to_id text w
tell_command fd _ w = none

-- The function that the table of commands has, called.
unfoldable pub call : Option Builtin → ℕ → List Bytes → World → Option (Bool × World)
call none fd args w = some (false, w)
call (some exit) fd args w = some (true, exit_command w)
call (some printenv) fd args w = some (printenv_command args w)
call (some setenv) fd args w = some (setenv_command args w)
call (some who) fd args w = who_command fd w
call (some yell) fd args w = yell_command fd args w
call (some name) fd args w = name_command fd args w
call (some tell) fd args w = tell_command fd args w

-- BuildinCommand::execute: what the command returns, and what it leaves.
unfoldable pub execute : ℕ → Bytes → List Bytes → World → Option (Bool × World)
execute fd command args w = call (builtin_of command) fd args w
