-- ===== src/Single/Run/World.antt =====
-- The state of np_single_proc while a client's line is executed, and executeForkedCommand
-- (project2/src/np_single_proc/src/NPShell.cpp).
use nycu_csic30091_netw.Prelude.{ℕ, ◌||◌, Option, List, [], ◌∷◌, ◌++◌, if◌then◌else◌, ◌>>=◌}
use nycu_csic30091_netw.Prelude.Bytes.{Bytes}
use nycu_csic30091_netw.Cxx.Map.{find}
use nycu_csic30091_netw.Cxx.TextMap.{TextMap}
use nycu_csic30091_netw.Shell.Pipes.Model.{PipeMode, Pipe, Fresh, Call}
use nycu_csic30091_netw.Shell.Run.World.{ends_line}
use nycu_csic30091_netw.Single.Users.{User, UserManager, get_user_by_fd}
use nycu_csic30091_netw.Single.Pipes.{
  PipeManager, UserPipeMap, new_session, root_pipe_handler, parent_pipe_handler, child_pipe_handler,
}
use nycu_csic30091_netw.Single.Server.{NpShell, SingleProcServer, broadcast}

-- What a line does outside of the memory of the server: text for the client whose line it is, texts
-- for descriptors, a line of the history file, a program with its arguments and the calls that its
-- process makes first, the calls of the server, and the wait for the last program.
pub data Event : Type 0 where
  printed : Bytes → Event
  told : List (ℕ × Bytes) → Event
  logged : Bytes → Event
  spawned : Bytes → List Bytes → List Call → Event
  called : List Call → Event
  waited : Event

-- `shell` is the shell of the client; `vars` is the environment of the one process.
pub record World : Type 0 where
  pub server : SingleProcServer
  pub shell : NpShell
  pub vars : TextMap
  pub events : List Event

-- What the system answers while one command is run, as far as it is asked: descriptors of /dev/null
-- and of a pipe, a numbered pipe, and a pipe to another user.
pub record Answers : Type 0 where
  pub fresh : Fresh
  pub numbered : Pipe
  pub user : Pipe

abbrev pub emit : List Event → World → World
emit es w = record w { events = w.events ++ es }

abbrev pub say : Bytes → World → World
say text w = emit (printed text ∷ []) w

-- The server's broadcast, as the shells call it.
abbrev pub announce : Bytes → World → World
announce message w = emit (told (broadcast message w.server) ∷ []) w

abbrev pub users : World → UserManager
users w = w.server.user_manager

abbrev pub with_users : UserManager → World → World
with_users m w = record w { server = record (w.server) { user_manager = m } }

abbrev pub with_manager : PipeManager → World → World
with_manager m w = record w { shell = record (w.shell) { manager = m } }

abbrev pub with_pipes : UserPipeMap → PipeManager → World → World
with_pipes us m w = record w {
  server = record (w.server) { user_pipe_map = us };
  shell = record (w.shell) { manager = m };
}

abbrev pub session : World → World
session w = with_manager (new_session w.shell.manager) w

-- `*server.userManager.getUserByFd(fd)`.
unfoldable pub me_of : ℕ → World → Option User
me_of fd w = get_user_by_fd fd (users w) >>= λ p. find p w.server.user_manager.heap

-- The server waits for a program whose output goes to the user or to a file.
abbrev pub waits : PipeMode → PipeMode → List Event
waits mode mode2 = if ends_line mode || ends_line mode2 then waited ∷ [] else []

-- The process that is forked has the pipes as rootPipeHandler leaves them. `fork` is tried until it
-- succeeds.
unfoldable pub execute_forked_command :
    Answers → PipeMode → PipeMode → Bytes → Bytes → List Bytes → World → World
execute_forked_command a mode mode2 out_filename command args w =
    let m = root_pipe_handler mode mode2 a.fresh w.shell.manager in
    let (m', calls) = parent_pipe_handler mode mode2 m in
    emit
      (spawned command args (child_pipe_handler mode mode2 out_filename m)
        ∷ called calls
        ∷ waits mode mode2)
      (with_manager m' w)
