-- ===== src/Single/Pipes.antt =====
-- PipeManager of np_single_proc (project2/src/np_single_proc/src/PipeManager.cpp). The pipes of a shell
-- are like those of np_multi_proc; a user pipe is a pipe of the one process, in a map that all shells share.
use nycu_csic30091_netw.Prelude.{
  ℕ, suc, ◌+◌, Bool, true, false, ◌&&◌, ◌||◌, Option, none, some, List, [], ◌∷◌, ◌++◌, ◌==◌,
  if◌then◌else◌,
}
use nycu_csic30091_netw.Prelude.Bytes.{Bytes}
use nycu_csic30091_netw.Cxx.Map.{Map, find, insert, erase}
use nycu_csic30091_netw.Shell.Pipes.Model.{
  PipeMode, Pipe, no_pipe, is_pipe, Call, close, dup2, open_file, dup2_opened, is_user_in,
  is_user_out, is_numbered, is_normal, is_file, is_stderr, Fresh, writes_to_pipe,
}

-- The pipe from a user to a user.
pub record UserPipe : Type 0 where
  pub from_id : ℕ
  pub to_id : ℕ
  pub pipe : Pipe

abbrev pub UserPipeMap : Type 0
UserPipeMap = List UserPipe

pub record PipeManager : Type 0 where
  pub current_pipe : Pipe
  pub new_pipe : Pipe
  pub current_numbered_pipe : Pipe
  pub new_numbered_pipe : Pipe
  pub current_user_pipe : Pipe
  pub new_user_pipe : Pipe
  pub count : ℕ
  pub count_pipe_map : Map Pipe

unfoldable pub load_current_numbered_pipe : PipeManager → PipeManager
load_current_numbered_pipe m = elim (find m.count m.count_pipe_map) [
  | none ↦ record m { current_numbered_pipe = no_pipe }
  | some p ↦ record m { current_numbered_pipe = p; count_pipe_map = erase m.count m.count_pipe_map }
]

unfoldable pub reduce_numbered_pipes_count : PipeManager → PipeManager
reduce_numbered_pipes_count m = record m {
  count_pipe_map = erase m.count m.count_pipe_map;
  count = suc m.count;
}

unfoldable pub new_session : PipeManager → PipeManager
new_session m = load_current_numbered_pipe (
    reduce_numbered_pipes_count (record m {
      current_pipe = no_pipe;
      new_pipe = no_pipe;
      new_numbered_pipe = no_pipe;
      current_numbered_pipe = no_pipe;
      new_user_pipe = no_pipe;
      current_user_pipe = no_pipe;
    }))

unfoldable pub root_input : PipeMode → Fresh → PipeManager → PipeManager
root_input mode fresh m =
    if is_user_in mode
    then record m {
      current_pipe = if is_pipe m.current_user_pipe then m.current_user_pipe else fresh.null_in;
      current_user_pipe = no_pipe;
    }
    else if is_pipe m.current_numbered_pipe
    then record m { current_pipe = m.current_numbered_pipe; current_numbered_pipe = no_pipe }
    else m

unfoldable pub root_output : PipeMode → PipeMode → Fresh → PipeManager → PipeManager
root_output mode mode2 fresh m =
    if is_user_out mode
    then record m { new_pipe = if is_pipe m.new_user_pipe then m.new_user_pipe else fresh.null_out }
    else if is_numbered mode || is_numbered mode2
    then record m { new_pipe = m.new_numbered_pipe }
    else if is_normal mode || is_normal mode2
    then record m { new_pipe = fresh.piped }
    else m

unfoldable pub root_pipe_handler : PipeMode → PipeMode → Fresh → PipeManager → PipeManager
unfolding root_input root_output
root_pipe_handler mode mode2 fresh m = root_output mode mode2 fresh (root_input mode fresh m)

unfoldable pub parent_pipe_handler : PipeMode → PipeMode → PipeManager → PipeManager × List Call
parent_pipe_handler mode mode2 m =
    let m' : PipeManager =
      if is_normal mode || is_normal mode2 then record m { current_pipe = m.new_pipe } else m in
    (
      record m' { new_pipe = no_pipe },
      if is_pipe m.current_pipe
          then close m.current_pipe.read ∷ close m.current_pipe.write ∷ []
          else [],
    )

unfoldable pub child_pipe_handler : PipeMode → PipeMode → Bytes → PipeManager → List Call
child_pipe_handler mode mode2 out_filename m =
    (if is_pipe m.current_pipe
      then close m.current_pipe.write ∷ dup2 m.current_pipe.read 0 ∷ close m.current_pipe.read ∷ []
      else [])
    ++ (if is_file mode || is_file mode2
        then open_file out_filename ∷ dup2_opened 1 ∷ []
        else if writes_to_pipe mode mode2
        then close m.new_pipe.read
          ∷ dup2 m.new_pipe.write 1
          ∷ ((if is_stderr mode || is_stderr mode2 then dup2 m.new_pipe.write 2 ∷ [] else [])
              ++ close m.new_pipe.write ∷ [])
        else [])

-- `fresh` is the pipe that the system gives, if one is asked for.
unfoldable pub add_numbered_pipe : ℕ → Pipe → PipeManager → PipeManager
add_numbered_pipe count_in fresh m = elim (find (m.count + count_in) m.count_pipe_map) [
  | none ↦ record m {
    count_pipe_map = insert (m.count + count_in) fresh m.count_pipe_map;
    new_numbered_pipe = fresh;
  }
  | some p ↦ record m { new_numbered_pipe = p }
]

abbrev pub is_between : ℕ → ℕ → UserPipe → Bool
is_between from_id to_id u = u.from_id == from_id && u.to_id == to_id

unfoldable pub find_user_pipe : ℕ → ℕ → UserPipeMap → Option Pipe
find_user_pipe from_id to_id [] = none
find_user_pipe from_id to_id (u ∷ us) =
    if is_between from_id to_id u then some u.pipe else find_user_pipe from_id to_id us

unfoldable pub erase_user_pipe : ℕ → ℕ → UserPipeMap → UserPipeMap
erase_user_pipe from_id to_id [] = []
erase_user_pipe from_id to_id (u ∷ us) =
    let rest = erase_user_pipe from_id to_id us in
    if is_between from_id to_id u then rest else u ∷ rest

unfoldable pub add_user_pipe :
    Pipe → ℕ → ℕ → UserPipeMap → PipeManager → Bool × UserPipeMap × PipeManager
add_user_pipe fresh from_id to_id us m = elim (find_user_pipe from_id to_id us) [
  | some p ↦ (false, us, record m { new_user_pipe = no_pipe })
  | none ↦ (
    true,
    record { from_id = from_id; to_id = to_id; pipe = fresh } ∷ us,
    record m { new_user_pipe = fresh },
  )
]

unfoldable pub load_user_pipe : ℕ → ℕ → UserPipeMap → PipeManager → Bool × UserPipeMap × PipeManager
load_user_pipe from_id to_id us m = elim (find_user_pipe from_id to_id us) [
  | none ↦ (false, us, record m { current_user_pipe = no_pipe })
  | some p ↦ (true, erase_user_pipe from_id to_id us, record m { current_user_pipe = p })
]

abbrev pub touches : ℕ → UserPipe → Bool
touches id u = u.from_id == id || u.to_id == id

-- The pipes that are left, and the calls that close the others.
unfoldable pub close_user_pipe : ℕ → UserPipeMap → UserPipeMap × List Call
close_user_pipe id [] = ([], [])
close_user_pipe id (u ∷ us) =
    let rest = close_user_pipe id us in
    if touches id u
    then (rest.0, close u.pipe.read ∷ close u.pipe.write ∷ rest.1)
    else (u ∷ rest.0, rest.1)
