-- ===== src/Single/Run/Users.antt =====
-- The parts of np_single_proc's NPShell::execute that send a command's output to another user, or take
-- its input from one.
use nycu_csic30091_netw.Prelude.{ℕ, Option, none, some, ◌++◌, ◌>>=◌, if◌then◌else◌}
use nycu_csic30091_netw.Prelude.Bytes.{Bytes, codes}
use nycu_csic30091_netw.Cxx.Map.{find}
use nycu_csic30091_netw.Shell.Builtin.Model.{no_user_text, pos}
use nycu_csic30091_netw.Shell.Run.Users.{exists_text, no_pipe_text, shown_user}
use nycu_csic30091_netw.Single.Users.{User, get_user_by_id}
use nycu_csic30091_netw.Single.Pipes.{add_user_pipe, load_user_pipe}
use nycu_csic30091_netw.Single.Run.World.{World, Answers, say, announce, users, with_pipes, me_of}

abbrev pub piped_text : User → Bytes → User → ℕ → Bytes
piped_text me raw to_user to_id =
    codes "*** "
    ++ (shown_user me.name me.id
        ++ (codes " just piped '"
            ++ (raw ++ (codes "' to " ++ (shown_user to_user.name to_id ++ codes " ***\n")))))

abbrev pub received_text : User → Bytes → User → ℕ → Bytes
received_text me raw from_user from_id =
    codes "*** "
    ++ (shown_user me.name me.id
        ++ (codes " just received from "
            ++ (shown_user from_user.name from_id ++ (codes " by '" ++ (raw ++ codes "' ***\n")))))

-- A pipe to the user that `q` points to.
unfoldable pub send_to_user : Answers → ℕ → Bytes → ℕ → ℕ → World → Option World
send_to_user a fd raw to_id q w = do
  me ← me_of fd w
  let (made, us, m) = add_user_pipe a.user me.id to_id w.server.user_pipe_map w.shell.manager
  let w' = with_pipes us m w
  let announced = (do
    to_user ← find q w.server.user_manager.heap
    some (announce (piped_text me raw to_user to_id) w'))
  (if made then announced else some (say (exists_text me.id to_id) w'))

unfoldable pub send_to : Answers → ℕ → Bytes → ℕ → World → Option World
send_to a fd raw to_id w = elim (get_user_by_id to_id (users w)) [
  | none ↦ some (say (no_user_text (pos to_id)) w)
  | some q ↦ send_to_user a fd raw to_id q w
]

-- The pipe from the user that `q` points to.
unfoldable pub receive_from_user : ℕ → Bytes → ℕ → ℕ → World → Option World
receive_from_user fd raw from_id q w = do
  me ← me_of fd w
  let (loaded, us, m) = load_user_pipe from_id me.id w.server.user_pipe_map w.shell.manager
  let w' = with_pipes us m w
  let announced = (do
    from_user ← find q w.server.user_manager.heap
    some (announce (received_text me raw from_user from_id) w'))
  (if loaded then announced else some (say (no_pipe_text from_id me.id) w'))

unfoldable pub receive_from : ℕ → Bytes → ℕ → World → Option World
receive_from fd raw from_id w = elim (get_user_by_id from_id (users w)) [
  | none ↦ some (say (no_user_text (pos from_id)) w)
  | some q ↦ receive_from_user fd raw from_id q w
]
