-- ===== src/Simple/Samples.antt =====
-- A user of np_simple who pipes to the next line but one, and leaves.
use nycu_csic30091_netw.Prelude.{false, some, List, [], ◌∷◌, ◌≡◌, refl}
use nycu_csic30091_netw.Prelude.Bytes.{Bytes, codes}
use nycu_csic30091_netw.Cxx.Map.{find, insert, erase}
use nycu_csic30091_netw.Shell.Pipes.Model.{Pipe, Fresh, no_pipe, close, dup2}
use nycu_csic30091_netw.Single.Pipes as Single
use nycu_csic30091_netw.Simple.Pipes.{
  numbered_pipe, console_output, new_manager, child_pipe_handler, parent_pipe_handler,
  root_pipe_handler, root_input, root_output, add_numbered_pipe, new_session,
  load_current_numbered_pipe, reduce_numbered_pipes_count, child_output,
}
use nycu_csic30091_netw.Simple.Shell.{World, Answers, run}
use nycu_csic30091_netw.Simple.Ends.{run_ends}
use nycu_csic30091_netw.Simple.Extends.{
  Op, session, numbered, fork, view, do_simple, do_all_simple, do_all_single, do_all-view,
}

abbrev pipe : Pipe
pipe = record { read = 4; write = 5 }

abbrev answers : Answers
answers = record { piped = record { read = 6; write = 7 }; numbered = pipe }

abbrev world : World
world = record { manager = new_manager; vars = []; exit_flag = false; events = [] }

abbrev lines : List Bytes
lines = codes "ls |2" ∷ codes "cat" ∷ codes "cat" ∷ codes "exit" ∷ codes "ls" ∷ []

run_ends_example : (w' : World) × (run (λ j i. answers) lines world ≡ some w')
run_ends_example = run_ends (λ j i. answers) lines world

abbrev fresh : Fresh
fresh = record { null_in = no_pipe; null_out = no_pipe; piped = record { read = 6; write = 7 } }

abbrev ops : List Op
ops =
    session
    ∷ numbered 2 pipe
    ∷ fork numbered_pipe [] fresh
    ∷ session
    ∷ fork console_output [] fresh
    ∷ session
    ∷ fork console_output [] fresh
    ∷ []

abbrev manager : Single.PipeManager
manager = record {
  current_pipe = no_pipe;
  new_pipe = no_pipe;
  current_numbered_pipe = no_pipe;
  new_numbered_pipe = no_pipe;
  current_user_pipe = no_pipe;
  new_user_pipe = no_pipe;
  count = 0;
  count_pipe_map = [];
}

do_all-view_example :
    (view (do_all_single ops manager).0, (do_all_single ops manager).1)
    ≡ do_all_simple ops (view manager)
do_all-view_example = do_all-view ops manager

-- The second `cat` reads the pipe.
calls_sample :
    (do_all_simple ops new_manager).1
    ≡ ([], [])
      ∷ ([], [])
      ∷ (close 4 ∷ dup2 5 1 ∷ close 5 ∷ [], [])
      ∷ ([], [])
      ∷ ([], [])
      ∷ ([], [])
      ∷ (close 5 ∷ dup2 4 0 ∷ close 4 ∷ [], close 4 ∷ close 5 ∷ [])
      ∷ []
unfolding do_all_simple do_simple child_pipe_handler parent_pipe_handler root_pipe_handler
    add_numbered_pipe find new_session load_current_numbered_pipe reduce_numbered_pipes_count erase
    child_output insert root_input root_output
calls_sample = refl
