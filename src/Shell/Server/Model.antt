-- ===== src/Shell/Server/Model.antt =====
-- The operations of MultiProcServer on the two segments of shared memory and the directory of FIFOs.
-- `none` is what the managers give where the source has no determined result.
use nycu_csic30091_netw.Prelude.{
  ℕ, Bool, false, not, ◌&&◌, Option, none, some, List, [], ◌∷◌, ◌++◌, ◌>>=◌, ◌==◌, if◌then◌else◌,
}
use nycu_csic30091_netw.Prelude.Bytes.{Bytes, codes, str_eq}
use nycu_csic30091_netw.Cxx.Map.{Map}
use nycu_csic30091_netw.Shell.Users.Model.{
  User, read_from_shared_memory, add_user, get_user_by_id, get_user_by_pid, remove_user_by_pid,
}
use nycu_csic30091_netw.Shell.Messages.Model.{Message, add_message}
use nycu_csic30091_netw.Shell.Pipes.Fifos.{close_user_pipe}

pub record Shared : Type 0 where
  pub users : Bytes
  pub messages : Bytes
  pub directory : List Bytes

abbrev pub tell_message : Bytes → ℕ → Message
tell_message text pid = record { pid = pid; kind = codes "tell"; value = text }

-- The loop of broadcast over the users.
unfoldable pub tell_all : Bytes → Bool → ℕ → Map User → Bytes → Option Bytes
tell_all text include_self self [] shm = some shm
tell_all text include_self self ((k, u) ∷ m) shm =
    let passed = tell_all text include_self self m shm in
    let told = (do
      shm' ← add_message (tell_message text u.pid) shm
      tell_all text include_self self m shm') in
    if not include_self && (u.pid == self) then passed else told

-- `self` is the process that runs it.
unfoldable pub broadcast : Bytes → Bool → ℕ → Shared → Option Shared
broadcast text include_self self s = do
  maps ← read_from_shared_memory s.users
  messages ← tell_all text include_self self maps.id_user_map s.messages
  some (record s { messages = messages })

unfoldable pub send_direct_message : ℕ → Bytes → Shared → Option Shared
send_direct_message id text s = do
  user ← get_user_by_id id s.users
  elim user [
    | none ↦ some s
    | some u ↦ (do
      messages ← add_message (tell_message text u.pid) s.messages
      some (record s { messages = messages }))
  ]

abbrev pub shown_name : Bytes → Bytes
shown_name name = if str_eq name [] then codes "(no name)" else name

abbrev pub entered_text : User → Bytes
entered_text u =
    codes "*** User '"
    ++ (shown_name u.name ++ (codes "' entered from " ++ (u.ip_addr ++ codes ". ***")))

abbrev pub left_text : Bytes → Bytes
left_text name = codes "*** User '" ++ (shown_name name ++ codes "' left. ***")

-- The new user is told of itself by its own output, which is the entered text behind a greeting.
unfoldable pub new_client : ℕ → ℕ → Bytes → Shared → Option (User × Shared)
new_client pid fd ip s = do
  (user, users) ← add_user pid fd ip s.users
  s' ← broadcast (entered_text user) false pid (record s { users = users })
  some (user, s')

unfoldable pub add_messages : List Message → Bytes → Option Bytes
add_messages [] shm = some shm
add_messages (m ∷ ms) shm = do shm' ← add_message m shm; add_messages ms shm'

-- PipeManager::closeUserPipe of the user with an id.
unfoldable pub close_pipes_of : User → Shared → Option Shared
close_pipes_of u s = do
  owner ← get_user_by_id u.id s.users
  o ← owner
  let (closing, directory) = close_user_pipe o.pid u.id s.directory
  messages ← add_messages closing s.messages
  some (record s { messages = messages; directory = directory })

-- `kept` is for the entry that removeUserByPid erases.
unfoldable pub close_client : Bool → ℕ → Shared → Option Shared
close_client kept pid s = do
  user ← get_user_by_pid pid s.users
  s1 ← broadcast (left_text user.name) false pid s
  s2 ← close_pipes_of user s1
  messages ← add_message (record { pid = pid; kind = codes "exit"; value = [] }) s2.messages
  users ← remove_user_by_pid kept pid s2.users
  some (record s2 { messages = messages; users = users })
