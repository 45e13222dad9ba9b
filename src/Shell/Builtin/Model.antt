-- ===== src/Shell/Builtin/Model.antt =====
-- The commands of BuildinCommand. What they print is a text; both cout and cerr are the client's
-- socket. `none` is a missing argument, an exception of stoi, or what the managers give.
use nycu_csic30091_netw.Prelude.{
  zero, suc, ℕ, Bool, true, false, Option, none, some, List, [], ◌∷◌, ◌++◌, ◌>>=◌, ◌==◌,
  if◌then◌else◌, ltb,
}
use nycu_csic30091_netw.Prelude.Bytes.{Bytes, codes, str_eq}
use nycu_csic30091_netw.Cxx.Decimal.{to_string, read_number}
use nycu_csic30091_netw.Cxx.Map.{Map}
use nycu_csic30091_netw.Cxx.Stream.{skip_ws}
use nycu_csic30091_netw.Cxx.TextMap.{TextMap}
use nycu_csic30091_netw.Shell.Users.Model.{
  User, read_from_shared_memory, get_user_by_id, get_user_by_pid, set_name_by_id,
}
use nycu_csic30091_netw.Shell.Server.Model.{Shared, broadcast, send_direct_message, shown_name}
use nycu_csic30091_netw.Shell.Builtin.Env.{Kept, set_env, get_env}

pub record Context : Type 0 where
  pub shared : Shared
  pub env_map : List Kept
  pub exit_flag : Bool

-- What a command returns, what it prints, and what it leaves.
pub record Outcome : Type 0 where
  pub ok : Bool
  pub output : Bytes
  pub context : Context

pub data Builtin : Type 0 where
  exit printenv setenv who yell name tell : Builtin

unfoldable pub builtin_of : Bytes → Option Builtin
builtin_of c =
    if str_eq c (codes "exit")
    then some exit
    else if str_eq c (codes "printenv")
    then some printenv
    else if str_eq c (codes "setenv")
    then some setenv
    else if str_eq c (codes "who")
    then some who
    else if str_eq c (codes "yell")
    then some yell
    else if str_eq c (codes "name")
    then some name
    else if str_eq c (codes "tell")
    then some tell
    else none

unfoldable pub printenv_command : TextMap → List Bytes → Context → Outcome
printenv_command vars [] c = record { ok = false; output = []; context = c }
printenv_command vars (n ∷ _) c =
    let (v, ks) = get_env vars n c.env_map in
    record { ok = true; output = v ++ 10 ∷ []; context = record c { env_map = ks } }

unfoldable pub setenv_command : TextMap → List Bytes → Context → Outcome
setenv_command vars [] c = record { ok = false; output = []; context = c }
setenv_command vars (n ∷ []) c = record {
  ok = true;
  output = [];
  context = record c { env_map = set_env vars n [] c.env_map };
}
setenv_command vars (n ∷ v ∷ _) c = record {
  ok = true;
  output = [];
  context = record c { env_map = set_env vars n v c.env_map };
}

abbrev pub is_me : User → User → Bool
is_me me u = u.id == me.id

unfoldable pub who_lines : User → Map User → Bytes
who_lines me [] = []
who_lines me ((k, u) ∷ m) =
    to_string u.id
    ++ (9 ∷ shown_name u.name)
    ++ (9 ∷ u.ip_addr)
    ++ (if is_me me u then codes "\t<-me" else [])
    ++ 10 ∷ who_lines me m

unfoldable pub who_command : ℕ → Context → Option Outcome
who_command pid c = do
  me ← get_user_by_pid pid c.shared.users
  maps ← read_from_shared_memory c.shared.users
  some (record {
    ok = true;
    output = codes "<ID>\t<nickname>\t<IP:port>\t<indicate me>\n" ++ who_lines me maps.id_user_map;
    context = c;
  })

abbrev pub yell_text : Bytes → Bytes → Bytes
yell_text from_name text = codes "*** " ++ (shown_name from_name ++ (codes " yelled ***: " ++ text))

unfoldable pub yell_command : ℕ → List Bytes → Context → Option Outcome
yell_command pid [] c = none
yell_command pid (text ∷ _) c = do
  me ← get_user_by_pid pid c.shared.users
  let message = yell_text (me.name) text
  shared ← broadcast message false pid c.shared
  some (record { ok = true; output = message ++ 10 ∷ []; context = record c { shared = shared } })

abbrev pub taken_text : Bytes → Bytes
taken_text n = codes "*** User '" ++ (n ++ codes "' already exists. ***\n")

abbrev pub named_text : User → Bytes → Bytes
named_text me n =
    codes "*** User from " ++ (me.ip_addr ++ (codes " is named '" ++ (n ++ codes "'. ***")))

unfoldable pub name_command : ℕ → List Bytes → Context → Option Outcome
name_command pid [] c = none
name_command pid (n ∷ _) c = do
  me ← get_user_by_pid pid c.shared.users
  let refused : Outcome = record {
    ok = false;
    output = codes "Error args1 cannot be empty\n";
    context = c;
  }
  let renamed = (do
    (done, users) ← set_name_by_id me.id n c.shared.users
    let s = record (c.shared) { users = users }
    let taken : Outcome = record {
      ok = false;
      output = taken_text n;
      context = record c { shared = s };
    }
    let announced = (do
      shared ← broadcast (named_text me n) false pid s
      some (record {
        ok = true;
        output = named_text me n ++ 10 ∷ [];
        context = record c { shared = shared };
      }))
    (if done then announced else some taken))
  (if str_eq n [] then some refused else renamed)

pub data ℤ : Type 0 where
  pos negsuc : ℕ → ℤ

abbrev pub positive : ℕ → Option ℤ
positive n = if ltb n 2147483648 then some (pos n) else none

abbrev pub negative : ℕ → Option ℤ
negative zero = some (pos 0)
negative (suc n) = if ltb n 2147483648 then some (negsuc n) else none

-- A number with or without a sign.
unfoldable pub read_signed : Bytes → Option ℤ
read_signed [] = none
read_signed (c ∷ s) =
    if c == b'-'
    then read_number s >>= negative
    else if c == b'+'
    then read_number s >>= positive
    else read_number (c ∷ s) >>= positive

-- `none` is an exception: there is no number, or none of 32 bits.
unfoldable pub stoi : Bytes → Option ℤ
stoi text = read_signed (skip_ws text)

abbrev pub int_text : ℤ → Bytes
int_text (pos n) = to_string n
int_text (negsuc n) = b'-' ∷ to_string (suc n)

abbrev pub tell_text : Bytes → Bytes → Bytes
tell_text from_name text =
    codes "*** " ++ (shown_name from_name ++ (codes " told you ***: " ++ text))

abbrev pub no_user_text : ℤ → Bytes
no_user_text id = codes "*** Error: user #" ++ (int_text id ++ codes " does not exist yet. ***\n")

-- `getUserById(toId)`: no user has an id below 0.
unfoldable pub user_of : ℤ → Bytes → Option (Option User)
user_of (pos id) shm = get_user_by_id id shm
user_of (negsuc n) shm = do maps ← read_from_shared_memory shm; some none

-- The end of tellCommand.
unfoldable pub tell_user : User → Option User → ℤ → Bytes → Context → Option Outcome
tell_user me none to_id text c =
    some (record { ok = false; output = no_user_text to_id; context = c })
tell_user me (some to_user) to_id text c = do
  shared ← send_direct_message to_user.id (tell_text me.name text ++ 10 ∷ []) c.shared
  some (record { ok = true; output = []; context = record c { shared = shared } })

unfoldable pub tell_command : ℕ → List Bytes → Context → Option Outcome
tell_command pid (target ∷ text ∷ _) c = do
  me ← get_user_by_pid pid c.shared.users
  to_id ← stoi target
  to_user ← user_of to_id c.shared.users
  tell_user me to_user to_id text c
tell_command pid _ c = none

-- BuildinCommand::execute. `vars` is the environment of the process.
unfoldable pub execute : TextMap → ℕ → Bytes → List Bytes → Context → Option Outcome
execute vars pid command args c = elim (builtin_of command) [
  | none ↦ some (record { ok = false; output = []; context = c })
  | some exit ↦ some (record { ok = true; output = []; context = record c { exit_flag = true } })
  | some printenv ↦ some (printenv_command vars args c)
  | some setenv ↦ some (setenv_command vars args c)
  | some who ↦ who_command pid c
  | some yell ↦ yell_command pid args c
  | some name ↦ name_command pid args c
  | some tell ↦ tell_command pid args c
]
