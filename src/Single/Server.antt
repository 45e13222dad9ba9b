-- ===== src/Single/Server.antt =====
-- newClient, closeClient, broadcast and sendDirectMessage of project2/src/np_single_proc/src/
-- SingleProcServer.cpp. A text for a client is an entry with its descriptor;
-- the calls on the client's socket itself are left out.
use nycu_csic30091_netw.Prelude.{
  ℕ, Bool, false, Option, none, some, List, map, [], ◌∷◌, ◌++◌, ◌==◌, ltb, if◌then◌else◌, ◌>>=◌,
}
use nycu_csic30091_netw.Prelude.Bytes.{Bytes, codes, str_eq}
use nycu_csic30091_netw.Cxx.Map.{Map, find, insert, erase}
use nycu_csic30091_netw.Cxx.TextMap.{TextMap}
use nycu_csic30091_netw.Shell.Builtin.Env.{Kept, set_env}
use nycu_csic30091_netw.Shell.Pipes.Model.{no_pipe, Call}
use nycu_csic30091_netw.Single.Users.{
  User, UserManager, add_user, get_user_by_id, get_user_by_fd, remove_user_by_fd,
}
use nycu_csic30091_netw.Single.Pipes.{PipeManager, UserPipeMap, new_session, close_user_pipe}

-- The shell of a client.
pub record NpShell : Type 0 where
  pub manager : PipeManager
  pub env_map : List Kept
  pub exit_flag : Bool

-- `active_fds` has no master socket, and rises.
pub record SingleProcServer : Type 0 where
  pub user_manager : UserManager
  pub user_pipe_map : UserPipeMap
  pub active_fds : List ℕ
  pub npshell_map : Map NpShell

-- `FD_SET` and `FD_CLR`.
unfoldable pub set_fd : ℕ → List ℕ → List ℕ
set_fd fd [] = fd ∷ []
set_fd fd (x ∷ xs) =
    let rest = set_fd fd xs in
    if ltb fd x then fd ∷ x ∷ xs else if fd == x then x ∷ xs else x ∷ rest

unfoldable pub clear_fd : ℕ → List ℕ → List ℕ
clear_fd fd [] = []
clear_fd fd (x ∷ xs) = let rest = clear_fd fd xs in if x == fd then rest else x ∷ rest

unfoldable pub broadcast : Bytes → SingleProcServer → List (ℕ × Bytes)
broadcast message s = map (λ fd. (fd, message)) s.active_fds

-- `none` is the read through a pointer to an object that is gone.
unfoldable pub send_direct_message : ℕ → Bytes → SingleProcServer → Option (List (ℕ × Bytes))
send_direct_message id message s = elim (get_user_by_id id s.user_manager) [
  | none ↦ some []
  | some p ↦ do user ← find p s.user_manager.heap; some ((user.fd, message) ∷ [])
]

abbrev pub shown_name : Bytes → Bytes
shown_name name = if str_eq name [] then codes "(no name)" else name

abbrev pub welcome_text : Bytes
welcome_text =
    codes "****************************************\n"
    ++ (codes "** Welcome to the information server. **\n"
        ++ codes "****************************************\n")

abbrev pub entered_text : User → Bytes
entered_text u =
    codes "*** User '"
    ++ (shown_name u.name ++ (codes "' entered from " ++ (u.ip_addr ++ codes ". ***\n")))

abbrev pub left_text : User → Bytes
left_text u = codes "*** User '" ++ (shown_name u.name ++ codes "' left. ***\n")

-- A PipeManager starts with a session of its own.
abbrev pub new_shell : TextMap → NpShell
new_shell vars = record {
  manager = new_session (record {
    current_pipe = no_pipe;
    new_pipe = no_pipe;
    current_numbered_pipe = no_pipe;
    new_numbered_pipe = no_pipe;
    current_user_pipe = no_pipe;
    new_user_pipe = no_pipe;
    count = 0;
    count_pipe_map = [];
  });
  env_map = set_env vars (codes "PATH") (codes "bin:.") [];
  exit_flag = false;
}

-- `p` is what `new User()` gives, `vars` the environment of the process.
unfoldable pub new_client :
    TextMap → ℕ → ℕ → Bytes → SingleProcServer → Option (SingleProcServer × List (ℕ × Bytes))
new_client vars p fd ip s = do
  (id, users) ← add_user p fd ip s.user_manager
  user ← find p users.heap
  let s' = record s {
    user_manager = users;
    active_fds = set_fd fd s.active_fds;
    npshell_map = insert fd (new_shell vars) s.npshell_map;
  }
  some (s', (fd, welcome_text) ∷ (broadcast (entered_text user) s' ++ (fd, codes "% ") ∷ []))

-- The client is out of activeFds before the others are told. `none` is a descriptor without a user, or
-- that of an erased entry that is not `kept`.
unfoldable pub close_client :
    Bool → ℕ → SingleProcServer → Option (SingleProcServer × List (ℕ × Bytes) × List Call)
close_client kept fd s = do
  p ← get_user_by_fd fd s.user_manager
  user ← find p s.user_manager.heap
  let cleared = record s { active_fds = clear_fd fd s.active_fds }
  let (pipes, calls) = close_user_pipe user.id s.user_pipe_map
  users ← remove_user_by_fd kept fd s.user_manager
  some (
    record cleared {
      user_manager = users;
      user_pipe_map = pipes;
      npshell_map = erase fd s.npshell_map;
    },
    broadcast (left_text user) cleared,
    calls,
  )
