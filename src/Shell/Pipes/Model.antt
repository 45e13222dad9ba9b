-- ===== src/Shell/Pipes/Model.antt =====
-- PipeManager (project2/src/np_multi_proc/src/PipeManager.cpp). A system call is an entry of the list
-- that a handler returns; the descriptors that the system hands out are arguments. A pipe whose two
-- descriptors are 0 is no pipe.
use nycu_csic30091_netw.Prelude.{
  ℕ, suc, ◌+◌, Bool, true, false, not, ◌&&◌, ◌||◌, Option, none, some,
}
use nycu_csic30091_netw.Prelude.{List, [], ◌∷◌, ◌++◌, ◌==◌, if◌then◌else◌}
use nycu_csic30091_netw.Prelude.Bytes.{Bytes}
use nycu_csic30091_netw.Cxx.Map.{Map, find, insert, erase}

pub data PipeMode : Type 0 where
  none_mode normal_pipe file_output console_output : PipeMode
  numbered_pipe numbered_pipe_stderr : PipeMode
  user_pipe_out user_pipe_in user_pipe_both : PipeMode

-- The read end and the write end.
pub record Pipe : Type 0 where
  pub read : ℕ
  pub write : ℕ

abbrev pub no_pipe : Pipe
no_pipe = record { read = 0; write = 0 }

abbrev pub is_pipe : Pipe → Bool
is_pipe p = not (p.read == 0) && not (p.write == 0)

-- A descriptor of a user pipe is `none` where the source's is 0 or negative. The source closes
-- dummyReadFd only along with an open newUserPipe, when both are what `open` returned.
pub record PipeManager : Type 0 where
  pub current_pipe : Pipe
  pub new_pipe : Pipe
  pub current_numbered_pipe : Pipe
  pub new_numbered_pipe : Pipe
  pub dummy_read_fd : Option ℕ
  pub current_user_pipe : Option ℕ
  pub new_user_pipe : Option ℕ
  pub count : ℕ
  pub count_pipe_map : Map Pipe

pub data Call : Type 0 where
  close : ℕ → Call
  dup2 : ℕ → ℕ → Call
  open_file : Bytes → Call
  dup2_opened : ℕ → Call

unfoldable pub load_current_numbered_pipe : PipeManager → PipeManager
load_current_numbered_pipe m = elim (find m.count m.count_pipe_map) [
  | none ↦ record m { current_numbered_pipe = no_pipe }
  | some p ↦ record m { current_numbered_pipe = p; count_pipe_map = erase m.count m.count_pipe_map }
]

unfoldable pub reduce_numbered_pipes_count : PipeManager → PipeManager
reduce_numbered_pipes_count m = record m {
  count_pipe_map = erase m.count m.count_pipe_map;
  count = suc m.count;
}

unfoldable pub new_session : PipeManager → PipeManager
new_session m = load_current_numbered_pipe (
    reduce_numbered_pipes_count (record m {
      current_pipe = no_pipe;
      new_pipe = no_pipe;
      new_numbered_pipe = no_pipe;
      current_numbered_pipe = no_pipe;
      new_user_pipe = none;
      current_user_pipe = none;
    }))

-- `fresh` is the pipe that the system gives, if one is asked for.
unfoldable pub add_numbered_pipe : ℕ → Pipe → PipeManager → PipeManager
add_numbered_pipe count_in fresh m = elim (find (m.count + count_in) m.count_pipe_map) [
  | none ↦ record m {
    count_pipe_map = insert (m.count + count_in) fresh m.count_pipe_map;
    new_numbered_pipe = fresh;
  }
  | some p ↦ record m { new_numbered_pipe = p }
]

abbrev pub is_user_in : PipeMode → Bool
is_user_in user_pipe_in = true
is_user_in user_pipe_both = true
is_user_in _ = false

abbrev pub is_user_out : PipeMode → Bool
is_user_out user_pipe_out = true
is_user_out user_pipe_both = true
is_user_out _ = false

abbrev pub is_numbered : PipeMode → Bool
is_numbered numbered_pipe = true
is_numbered numbered_pipe_stderr = true
is_numbered _ = false

abbrev pub is_normal : PipeMode → Bool
is_normal normal_pipe = true
is_normal _ = false

abbrev pub is_file : PipeMode → Bool
is_file file_output = true
is_file _ = false

abbrev pub is_stderr : PipeMode → Bool
is_stderr numbered_pipe_stderr = true
is_stderr _ = false

-- The descriptors of `fopen("/dev/null")` for reading and writing, and of `pipe`, when asked for.
pub record Fresh : Type 0 where
  pub null_in : Pipe
  pub null_out : Pipe
  pub piped : Pipe

-- The first half of rootPipeHandler: where the command reads from.
unfoldable pub root_input : PipeMode → Fresh → PipeManager → PipeManager
root_input mode fresh m =
    if is_user_in mode
    then record m {
      current_pipe = elim m.current_user_pipe [
        | none ↦ fresh.null_in
        | some fd ↦ record { read = fd; write = fresh.null_in.write }
      ];
      current_user_pipe = none;
    }
    else if is_pipe m.current_numbered_pipe
    then record m { current_pipe = m.current_numbered_pipe; current_numbered_pipe = no_pipe }
    else m

-- The second half: where it writes to.
unfoldable pub root_output : PipeMode → PipeMode → Fresh → PipeManager → PipeManager
root_output mode mode2 fresh m =
    if is_user_out mode
    then record m {
      new_pipe = elim m.new_user_pipe [
        | none ↦ fresh.null_out
        | some fd ↦ record { read = fresh.null_out.read; write = fd }
      ];
    }
    else if is_numbered mode || is_numbered mode2
    then record m { new_pipe = m.new_numbered_pipe }
    else if is_normal mode || is_normal mode2
    then record m { new_pipe = fresh.piped }
    else m

unfoldable pub root_pipe_handler : PipeMode → PipeMode → Fresh → PipeManager → PipeManager
unfolding root_input root_output
root_pipe_handler mode mode2 fresh m = root_output mode mode2 fresh (root_input mode fresh m)

unfoldable pub close_known : Option ℕ → List Call
close_known none = []
close_known (some fd) = close fd ∷ []

unfoldable pub parent_pipe_handler : PipeMode → PipeMode → PipeManager → PipeManager × List Call
unfolding close_known
parent_pipe_handler mode mode2 m =
    let closed : List Call =
      if is_pipe m.current_pipe
      then close m.current_pipe.read ∷ close m.current_pipe.write ∷ []
      else [] in
    let user_closed : List Call = elim m.new_user_pipe [
      | none ↦ []
      | some fd ↦ close_known m.dummy_read_fd ++ close fd ∷ []
    ] in
    let m' : PipeManager =
      if is_user_out mode then record m { dummy_read_fd = none; new_user_pipe = none } else m in
    let m'' : PipeManager =
      if is_normal mode || is_normal mode2 then record m' { current_pipe = m'.new_pipe } else m' in
    (record m'' { new_pipe = no_pipe }, closed ++ (if is_user_out mode then user_closed else []))

abbrev pub writes_to_pipe : PipeMode → PipeMode → Bool
writes_to_pipe mode mode2 =
    is_normal mode || is_numbered mode || is_user_out mode || is_normal mode2 || is_numbered mode2

-- Descriptors 0, 1 and 2 are stdin, stdout and stderr.
unfoldable pub child_pipe_handler : PipeMode → PipeMode → Bytes → PipeManager → List Call
child_pipe_handler mode mode2 out_filename m =
    (if is_pipe m.current_pipe
      then close m.current_pipe.write ∷ dup2 m.current_pipe.read 0 ∷ close m.current_pipe.read ∷ []
      else [])
    ++ (if is_file mode || is_file mode2
        then open_file out_filename ∷ dup2_opened 1 ∷ []
        else if writes_to_pipe mode mode2
        then close m.new_pipe.read
          ∷ dup2 m.new_pipe.write 1
          ∷ ((if is_stderr mode || is_stderr mode2 then dup2 m.new_pipe.write 2 ∷ [] else [])
              ++ close m.new_pipe.write ∷ [])
        else [])
