-- ===== src/Simple/Pipes.antt =====
-- PipeManager of project2/src/np_simple/src/PipeManager.cpp. A descriptor is 0 where there is none.
use nycu_csic30091_netw.Prelude.{ℕ, suc, ◌+◌, none, some, List, [], ◌∷◌, ◌++◌, if◌then◌else◌}
use nycu_csic30091_netw.Prelude.Bytes.{Bytes}
use nycu_csic30091_netw.Cxx.Map.{Map, find, insert, erase}
use nycu_csic30091_netw.Shell.Pipes.Model.{
  Pipe, no_pipe, is_pipe, Call, close, dup2, open_file, dup2_opened,
}

pub data PipeMode : Type 0 where
  normal_pipe file_output console_output numbered_pipe numbered_pipe_stderr : PipeMode

pub record PipeManager : Type 0 where
  pub current_pipe : Pipe
  pub new_pipe : Pipe
  pub current_numbered_pipe : Pipe
  pub new_numbered_pipe : Pipe
  pub count : ℕ
  pub count_pipe_map : Map Pipe

abbrev pub new_manager : PipeManager
new_manager = record {
  current_pipe = no_pipe;
  new_pipe = no_pipe;
  current_numbered_pipe = no_pipe;
  new_numbered_pipe = no_pipe;
  count = 0;
  count_pipe_map = [];
}

unfoldable pub load_current_numbered_pipe : PipeManager → PipeManager
load_current_numbered_pipe m = elim (find m.count m.count_pipe_map) [
  | none ↦ record m { current_numbered_pipe = no_pipe }
  | some p ↦ record m { current_numbered_pipe = p; count_pipe_map = erase m.count m.count_pipe_map }
]

unfoldable pub reduce_numbered_pipes_count : PipeManager → PipeManager
reduce_numbered_pipes_count m = record m {
  count_pipe_map = erase m.count m.count_pipe_map;
  count = suc m.count;
}

unfoldable pub new_session : PipeManager → PipeManager
new_session m = load_current_numbered_pipe (
    reduce_numbered_pipes_count (record m {
      current_pipe = no_pipe;
      new_pipe = no_pipe;
      new_numbered_pipe = no_pipe;
      current_numbered_pipe = no_pipe;
    }))

unfoldable pub root_input : PipeManager → PipeManager
root_input m =
    if is_pipe m.current_numbered_pipe
    then record m { current_pipe = m.current_numbered_pipe; current_numbered_pipe = no_pipe }
    else m

-- `fresh` is the pipe that the system gives, if one is asked for.
unfoldable pub root_output : PipeMode → Pipe → PipeManager → PipeManager
root_output numbered_pipe fresh m = record m { new_pipe = m.new_numbered_pipe }
root_output numbered_pipe_stderr fresh m = record m { new_pipe = m.new_numbered_pipe }
root_output normal_pipe fresh m = record m { new_pipe = fresh }
root_output _ fresh m = m

unfoldable pub root_pipe_handler : PipeMode → Pipe → PipeManager → PipeManager
unfolding root_input root_output
root_pipe_handler mode fresh m = root_output mode fresh (root_input m)

abbrev pub to_next : PipeMode → PipeManager → PipeManager
to_next normal_pipe m = record m { current_pipe = m.new_pipe }
to_next _ m = m

unfoldable pub parent_pipe_handler : PipeMode → PipeManager → PipeManager × List Call
parent_pipe_handler mode m = (
  record (to_next mode m) { new_pipe = no_pipe },
  if is_pipe m.current_pipe
      then close m.current_pipe.read ∷ close m.current_pipe.write ∷ []
      else [],
)

-- What is done with the standard output and error.
unfoldable pub child_output : PipeMode → Bytes → PipeManager → List Call
child_output file_output out_filename m = open_file out_filename ∷ dup2_opened 1 ∷ []
child_output console_output out_filename m = []
child_output numbered_pipe_stderr out_filename m =
    close m.new_pipe.read
    ∷ dup2 m.new_pipe.write 1
    ∷ dup2 m.new_pipe.write 2
    ∷ close m.new_pipe.write
    ∷ []
child_output _ out_filename m =
    close m.new_pipe.read ∷ dup2 m.new_pipe.write 1 ∷ close m.new_pipe.write ∷ []

unfoldable pub child_pipe_handler : PipeMode → Bytes → PipeManager → List Call
child_pipe_handler mode out_filename m =
    (if is_pipe m.current_pipe
      then close m.current_pipe.write ∷ dup2 m.current_pipe.read 0 ∷ close m.current_pipe.read ∷ []
      else [])
    ++ child_output mode out_filename m

unfoldable pub add_numbered_pipe : ℕ → Pipe → PipeManager → PipeManager
add_numbered_pipe count_in fresh m = elim (find (m.count + count_in) m.count_pipe_map) [
  | none ↦ record m {
    count_pipe_map = insert (m.count + count_in) fresh m.count_pipe_map;
    new_numbered_pipe = fresh;
  }
  | some p ↦ record m { new_numbered_pipe = p }
]
