-- ===== src/Shell/Run/Samples.antt =====
-- Lines that a shell executes, at fixed inputs.
use nycu_csic30091_netw.Prelude.{List, ℕ, false, none, some, [], ◌∷◌, ◌++◌, ◌≡◌, refl, arith}
use nycu_csic30091_netw.Prelude.Bytes.{Bytes, codes, str_eq}
use nycu_csic30091_netw.Cxx.Map.{Map, find, insert}
use nycu_csic30091_netw.Shell.Parser.Model.{Command}
use nycu_csic30091_netw.Cxx.Stream.{skip_ws, read_word, fields}
use nycu_csic30091_netw.Cxx.Decimal.{read_number, drop_digits}
use nycu_csic30091_netw.Cxx.Numbers.{read_int}
use nycu_csic30091_netw.Shell.Pipes.Fifos.{load_user_pipe, has_fifo}
use nycu_csic30091_netw.Shell.Users.Model.{
  get_user_by_id, get_user_by_pid, read_from_shared_memory, read_lines, read_user, add_to_maps,
}
use nycu_csic30091_netw.Shell.Run.Users.{receive_from, no_pipe_text}
use nycu_csic30091_netw.Shell.Pipes.Model.{
  new_session, Pipe, PipeManager, no_pipe, numbered_pipe_stderr, none_mode, child_pipe_handler,
  user_pipe_in, file_output,
}
use nycu_csic30091_netw.Shell.Builtin.Model.{builtin_of, execute as execute_builtin}
use nycu_csic30091_netw.Shell.Builtin.Env.{Kept}
use nycu_csic30091_netw.Shell.Run.World.{
  World, Answers, execute_forked_command, session, say, printed, logged,
}
use nycu_csic30091_netw.Shell.Run.Model.{
  run_commands, run_command, execute, run_from_user, take_from, number_of, run_second, second_mode,
  run_second_file, run_user_in, operator_at, first_byte,
}
use nycu_csic30091_netw.Shell.Run.Pipeline.{IsPipeline, IsRun, stages, run_commands-IsRun}
use nycu_csic30091_netw.Shell.Run.Child.{IsApart, do_calls, child_redirects}
use nycu_csic30091_netw.Shell.Run.Files.{run_alone, file_run_as_program}

abbrev ends : ℕ → ℕ → Pipe
ends r w = record { read = r; write = w }

abbrev idle_manager : PipeManager
idle_manager = record {
  current_pipe = no_pipe;
  new_pipe = no_pipe;
  current_numbered_pipe = no_pipe;
  new_numbered_pipe = no_pipe;
  dummy_read_fd = none;
  current_user_pipe = none;
  new_user_pipe = none;
  count = 0;
  count_pipe_map = [];
}

abbrev sample_world : World
sample_world = record {
  shared = record { users = codes "1 50 4 1:2 \n"; messages = []; directory = [] };
  manager = idle_manager;
  held = [];
  env_map = [];
  vars = [];
  exit_flag = false;
  events = [];
}

abbrev sample_answers : ℕ → Answers
sample_answers i = record {
  fresh = record { null_in = ends 10 11; null_out = ends 12 13; piped = ends 20 21 };
  numbered = ends 30 31;
  dummy = none;
  user_fd = none;
  loaded = 40;
}

abbrev list_it : Command
list_it = record { command = codes "ls"; args = []; operators = codes "|" ∷ [] }

abbrev show_it : Command
show_it = record { command = codes "cat"; args = []; operators = [] }

list_show-IsPipeline : IsPipeline (list_it ∷ show_it ∷ [])
unfolding builtin_of str_eq
list_show-IsPipeline = (refl, refl, (refl, refl))

run_commands-IsRun_example :
    (w' : World) × (run_commands sample_answers 50
        (codes "ls | cat")
        0
        (list_it ∷ show_it ∷ [])
        sample_world
      ≡ some w')
    × IsRun sample_world w' (stages sample_answers 0 no_pipe (list_it ∷ show_it ∷ []))
run_commands-IsRun_example =
    run_commands-IsRun sample_answers 50 (codes "ls | cat") 0 (list_it ∷ show_it ∷ []) sample_world
      list_show-IsPipeline refl

abbrev between : PipeManager
between = record (idle_manager) { current_pipe = ends 5 6; new_pipe = ends 7 8 }

-- What each descriptor stands for, as a number.
abbrev sample_table : Map ℕ
sample_table = (0, 100) ∷ (1, 101) ∷ (2, 102) ∷ (5, 205) ∷ (6, 206) ∷ (7, 207) ∷ (8, 208) ∷ []

between-IsApart : IsApart between.current_pipe between.new_pipe
between-IsApart = record {
  ends = omega arith;
  new_ends = omega arith;
  above = omega arith;
  reads = omega arith;
  crossed = omega arith;
  writes = omega arith;
}

input_open : find 5 sample_table ≡ some 205
unfolding find
input_open = refl

output_open : find 8 sample_table ≡ some 208
unfolding find
output_open = refl

child_redirects_example :
    find 2 (
      do_calls 9
        (λ _. 0)
        (child_pipe_handler numbered_pipe_stderr none_mode [] between)
        sample_table)
    ≡ some 208
child_redirects_example =
    child_redirects 9 (λ _. 0) numbered_pipe_stderr none_mode [] between sample_table 205 208 2 refl
      refl between-IsApart input_open output_open

abbrev from_user : Command
from_user = record { command = codes "cat"; args = []; operators = codes "<1" ∷ codes ">" ∷ [] }

abbrev out_file : Command
out_file = record { command = codes "out"; args = []; operators = [] }

abbrev sample_path : Kept
sample_path = record { name = codes "PATH"; original = codes "/bin"; value = codes "bin:." }

abbrev path_world : World
path_world = record (sample_world) {
  env_map = sample_path ∷ [];
  vars = (codes "PATH", codes "/bin") ∷ (codes "HOME", codes "/") ∷ [];
}

abbrev path_line : Bytes
path_line = codes "setenv PATH bin"

abbrev path_after : World
path_after = record (path_world) {
  env_map = record (sample_path) { value = codes "bin" } ∷ [];
  manager = new_session idle_manager;
  events = logged (path_line ++ 10 ∷ []) ∷ printed [] ∷ [];
}

abbrev served_lines : List Bytes
served_lines = (path_line ++ 13 ∷ []) ∷ []

abbrev file_line : Bytes
file_line = codes "cat <1 > out"

-- No user pipe leads to the command.
abbrev file_after : World
file_after = run_alone (sample_answers 1) out_file (
    session (
      execute_forked_command (sample_answers 0) user_pipe_in file_output (codes "out") (codes "cat")
        [] (say (no_pipe_text 1 1) sample_world)))

file_runs :
    run_commands sample_answers 50 file_line 0 (from_user ∷ out_file ∷ []) sample_world
    ≡ some file_after
unfolding run_commands run_command builtin_of str_eq run_from_user take_from number_of read_number
    get_user_by_id get_user_by_pid read_from_shared_memory read_lines read_user add_to_maps find
    insert receive_from load_user_pipe run_second second_mode run_second_file run_user_in
    operator_at first_byte fields read_int skip_ws drop_digits read_word has_fifo
file_runs = refl

no_cat : builtin_of (codes "cat") ≡ none
unfolding builtin_of str_eq
no_cat = refl

no_out : builtin_of (codes "out") ≡ none
unfolding builtin_of str_eq
no_out = refl

file_run_as_program_example :
    (w1 : World) × (file_after
      ≡ run_alone (sample_answers 1) out_file (
          session (
            execute_forked_command
              (sample_answers 0)
              user_pipe_in
              file_output
              (codes "out")
              (codes "cat")
              []
              w1)))
file_run_as_program_example =
    file_run_as_program sample_answers 50 file_line (codes "1") 0 from_user out_file sample_world
      file_after no_cat refl no_out refl file_runs
