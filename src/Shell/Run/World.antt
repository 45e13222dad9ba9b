-- ===== src/Shell/Run/World.antt =====
-- The state of a shell while a line is executed, and executeForkedCommand.
use nycu_csic30091_netw.Prelude.{
  ℕ, Bool, true, false, ◌||◌, Option, List, [], ◌∷◌, ◌++◌, if◌then◌else◌,
}
use nycu_csic30091_netw.Prelude.Bytes.{Bytes}
use nycu_csic30091_netw.Cxx.TextMap.{TextMap}
use nycu_csic30091_netw.Shell.Pipes.Model.{
  PipeManager, Pipe, Fresh, Call, PipeMode, console_output, file_output, new_session,
  root_pipe_handler, parent_pipe_handler, child_pipe_handler,
}
use nycu_csic30091_netw.Shell.Pipes.Fifos.{UserPipes, Held}
use nycu_csic30091_netw.Shell.Server.Model.{Shared}
use nycu_csic30091_netw.Shell.Builtin.Env.{Kept}

-- What a line does outside of the shell's own state: text for the user, a line of the history file, a
-- program with its arguments and the calls that its process makes first, the calls of the shell, and
-- the wait for the last program.
pub data Event : Type 0 where
  printed : Bytes → Event
  logged : Bytes → Event
  spawned : Bytes → List Bytes → List Call → Event
  called : List Call → Event
  waited : Event

pub record World : Type 0 where
  pub shared : Shared
  pub manager : PipeManager
  pub held : List Held
  pub env_map : List Kept
  pub vars : TextMap
  pub exit_flag : Bool
  pub events : List Event

-- What the system answers while one command is run, as far as it is asked: descriptors of /dev/null
-- and of a pipe, a numbered pipe, the two ends of a new FIFO, and the read end of a loaded one.
pub record Answers : Type 0 where
  pub fresh : Fresh
  pub numbered : Pipe
  pub dummy : Option ℕ
  pub user_fd : Option ℕ
  pub loaded : ℕ

abbrev pub emit : List Event → World → World
emit es w = record w { events = w.events ++ es }

abbrev pub say : Bytes → World → World
say text w = emit (printed text ∷ []) w

abbrev pub session : World → World
session w = record w { manager = new_session w.manager }

abbrev pub pipes_of : World → UserPipes
pipes_of w = record { manager = w.manager; directory = w.shared.directory; user_pipe_map = w.held }

abbrev pub with_pipes : UserPipes → World → World
with_pipes p w = record w {
  manager = p.manager;
  shared = record (w.shared) { directory = p.directory };
  held = p.user_pipe_map;
}

abbrev pub ends_line : PipeMode → Bool
ends_line console_output = true
ends_line file_output = true
ends_line _ = false

-- The shell waits for a program whose output goes to the user or to a file.
abbrev pub waits : PipeMode → PipeMode → List Event
waits mode mode2 = if ends_line mode || ends_line mode2 then waited ∷ [] else []

-- The process that is forked has the pipes as rootPipeHandler leaves them. `fork` is tried until it
-- succeeds.
unfoldable pub execute_forked_command :
    Answers → PipeMode → PipeMode → Bytes → Bytes → List Bytes → World → World
execute_forked_command a mode mode2 out_filename command args w =
    let m = root_pipe_handler mode mode2 a.fresh w.manager in
    let (m', calls) = parent_pipe_handler mode mode2 m in
    emit
      (spawned command args (child_pipe_handler mode mode2 out_filename m)
        ∷ called calls
        ∷ waits mode mode2)
      (record w { manager = m' })
