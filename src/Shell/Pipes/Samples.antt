-- ===== src/Shell/Pipes/Samples.antt =====
-- Runs of the pipes at fixed inputs.
use nycu_csic30091_netw.Prelude.{
  ℕ, suc, false, not, ◌&&◌, ◌||◌, ◌≡◌, refl, none, List, [], ◌∷◌, ◌==◌,
}
use nycu_csic30091_netw.Shell.Pipes.Model.{
  Pipe, PipeManager, no_pipe, new_session, add_numbered_pipe,
}
use nycu_csic30091_netw.Shell.Pipes.Numbered.{Action, session, pipe_to, run, sessions}
use nycu_csic30091_netw.Shell.Pipes.Numbered.{numbered_pipe_arrives}
use nycu_csic30091_netw.Shell.Pipes.Fifos.{UserPipes, fifo_name, has_fifo, close_user_pipe}
use nycu_csic30091_netw.Shell.Pipes.Between.{close_user_pipe_lem}

abbrev sample_manager : PipeManager
sample_manager = record {
  current_pipe = no_pipe;
  new_pipe = no_pipe;
  current_numbered_pipe = no_pipe;
  new_numbered_pipe = no_pipe;
  dummy_read_fd = none;
  current_user_pipe = none;
  new_user_pipe = none;
  count = 5;
  count_pipe_map = [];
}

abbrev pipe_at : ℕ → Pipe
pipe_at fd = record { read = fd; write = suc fd }

abbrev between : List Action
between = session ∷ pipe_to 3 (pipe_at 9) ∷ []

numbered_pipe_arrives_example :
    let m' = add_numbered_pipe (suc (sessions between)) (pipe_at 7) sample_manager in
    (new_session (run between m')).current_numbered_pipe ≡ m'.new_numbered_pipe
numbered_pipe_arrives_example = numbered_pipe_arrives sample_manager (pipe_at 7) between

abbrev sample_pipes : UserPipes
sample_pipes = record { manager = sample_manager; directory = []; user_pipe_map = [] }

no_fifo : has_fifo (fifo_name 1 2) sample_pipes.directory ≡ false
unfolding has_fifo
no_fifo = refl

close_user_pipe_lem_example :
    has_fifo (fifo_name 1 2) (close_user_pipe 50 1 (fifo_name 1 2 ∷ fifo_name 3 2 ∷ [])).1
    ≡ (has_fifo (fifo_name 1 2) (fifo_name 1 2 ∷ fifo_name 3 2 ∷ []) && not (1 == 1 || 2 == 1))
close_user_pipe_lem_example = close_user_pipe_lem 50 1 1 2 (fifo_name 1 2 ∷ fifo_name 3 2 ∷ [])
