-- ===== src/Single/Run/Sent.antt =====
-- A command of np_single_proc that pipes to another user, and one that reads from another user, step by
-- step.
use nycu_csic30091_netw.Prelude.{
  ℕ, true, false, Option, none, some, List, [], ◌∷◌, ◌++◌, ◌≡◌, refl, arith, if◌then◌else◌,
}
use nycu_csic30091_netw.Prelude.Bytes.{Bytes, str_eq}
use nycu_csic30091_netw.Cxx.Decimal.{to_string, read_number, read_number-to_string}
use nycu_csic30091_netw.Cxx.Map.{find}
use nycu_csic30091_netw.Shell.Parser.Model.{Command}
use nycu_csic30091_netw.Shell.Pipes.Model.{
  Fresh, console_output, Pipe, Call, close, dup2, is_pipe, user_pipe_out, user_pipe_in, none_mode,
}
use nycu_csic30091_netw.Shell.Builtin.Model.{builtin_of}
use nycu_csic30091_netw.Shell.Run.Model.{operator_at, first_byte}
use nycu_csic30091_netw.Single.Users.{User, get_user_by_id, get_user_by_fd}
use nycu_csic30091_netw.Single.Pipes.{
  find_user_pipe, erase_user_pipe, add_user_pipe, load_user_pipe, root_pipe_handler,
  parent_pipe_handler, child_pipe_handler, PipeManager, root_input, root_output,
}
use nycu_csic30091_netw.Single.Run.World.{World, Answers, announce, with_pipes, me_of}
use nycu_csic30091_netw.Single.Run.Users.{
  send_to, send_to_user, receive_from, receive_from_user, piped_text, received_text,
}
use nycu_csic30091_netw.Single.Run.Model.{
  run_command, run_program, run_for_user, run_to_user, run_from_user,
}

filled : (n : ℕ) (t : Bytes) → read_number t ≡ some n → str_eq t [] ≡ false
unfolding read_number str_eq
filled n [] e = cc
filled n (c ∷ t) e = refl

-- The command lines `prog args >n` and `prog args <n`.
abbrev pub piping : Bytes → List Bytes → ℕ → Command
piping prog args n = record { command = prog; args = args; operators = (b'>' ∷ to_string n) ∷ [] }

abbrev pub reading : Bytes → List Bytes → ℕ → Command
reading prog args n = record { command = prog; args = args; operators = (b'<' ∷ to_string n) ∷ [] }

pub run_piping :
    (a : Answers) (fd : ℕ) (raw prog : Bytes) (args : List Bytes) (n : ℕ) (next : Option Command)
    (w : World)
    → builtin_of prog ≡ none
    → run_command a fd raw (piping prog args n) next w
      ≡ run_to_user a fd raw (b'>' ∷ to_string n) (piping prog args n) w
unfolding run_command run_program run_for_user operator_at first_byte str_eq
run_piping a fd raw prog args n next w e =
    rw (e, run_command) (rw (filled n (to_string n) (read_number-to_string n)) refl)

pub run_reading :
    (a : Answers) (fd : ℕ) (raw prog : Bytes) (args : List Bytes) (n : ℕ) (next : Option Command)
    (w : World)
    → builtin_of prog ≡ none
    → run_command a fd raw (reading prog args n) next w
      ≡ run_from_user a fd raw (b'<' ∷ to_string n) [] (reading prog args n) next w
unfolding run_command run_program run_for_user operator_at first_byte str_eq
run_reading a fd raw prog args n next w e = rw (e, run_command) refl

root_input-new_user_pipe :
    (f : Fresh) (m : PipeManager) → (root_input user_pipe_out f m).new_user_pipe ≡ m.new_user_pipe
unfolding root_input
root_input-new_user_pipe f m = ground arith

-- The end of a program that writes to a user pipe.
abbrev pub writes_to : Pipe → List Call
writes_to p = close p.read ∷ dup2 p.write 1 ∷ close p.write ∷ []

pub writing_calls :
    (f : Fresh) (p : Pipe) (m : PipeManager)
    → is_pipe p ≡ true
    → m.new_user_pipe ≡ p
    → (ins : List Call) × (child_pipe_handler user_pipe_out none_mode []
          (root_pipe_handler user_pipe_out none_mode f m)
        ≡ ins ++ writes_to p)
unfolding child_pipe_handler root_pipe_handler root_output
writing_calls f p m h e =
    let input = (root_pipe_handler user_pipe_out none_mode f m).current_pipe in
    (
      if is_pipe input then close input.write ∷ dup2 input.read 0 ∷ close input.read ∷ [] else [],
      rw (root_input-new_user_pipe f m, e, h) refl,
    )

-- The start of a program that reads from a user pipe, and what the server closes then.
abbrev pub reads_from : Pipe → List Call
reads_from p = close p.write ∷ dup2 p.read 0 ∷ close p.read ∷ []

pub reading_calls :
    (f : Fresh) (p : Pipe) (m : PipeManager)
    → is_pipe p ≡ true
    → m.current_user_pipe ≡ p
    → (child_pipe_handler user_pipe_in console_output []
          (root_pipe_handler user_pipe_in console_output f m)
        ≡ reads_from p)
      × ((parent_pipe_handler user_pipe_in console_output
            (root_pipe_handler user_pipe_in console_output f m)).1
          ≡ close p.read ∷ close p.write ∷ [])
unfolding child_pipe_handler root_pipe_handler root_output root_input parent_pipe_handler
reading_calls f p m h e = rw (e, h) (rw h (refl, refl))

module _ (fd p q : ℕ) (me other : User) (w : World)
    (e : find fd w.server.user_manager.fd_user_map ≡ some p)
    (h : find p w.server.user_manager.heap ≡ some me)
    (i : find other.id w.server.user_manager.id_user_map ≡ some q)
    (k : find q w.server.user_manager.heap ≡ some other) where
  pub sends :
      (a : Answers) (raw : Bytes)
      → find_user_pipe me.id other.id w.server.user_pipe_map ≡ none
      → send_to a fd raw other.id w
        ≡ some (
            announce (piped_text me raw other other.id) (
              with_pipes
                (record { from_id = me.id; to_id = other.id; pipe = a.user }
                  ∷ w.server.user_pipe_map)
                (record (w.shell.manager) { new_user_pipe = a.user })
                w))
  unfolding send_to send_to_user me_of get_user_by_fd get_user_by_id add_user_pipe
  sends a raw none_yet = rw (i, send_to) (rw (e, h) (rw (none_yet, add_user_pipe) (rw k refl)))

  pub receives :
      (raw : Bytes) (pipe : Pipe)
      → find_user_pipe other.id me.id w.server.user_pipe_map ≡ some pipe
      → receive_from fd raw other.id w
        ≡ some (
            announce (received_text me raw other other.id) (
              with_pipes
                (erase_user_pipe other.id me.id w.server.user_pipe_map)
                (record (w.shell.manager) { current_user_pipe = pipe })
                w))
  unfolding receive_from receive_from_user me_of get_user_by_fd get_user_by_id load_user_pipe
  receives raw pipe there =
      rw (i, receive_from) (rw (e, h) (rw (there, load_user_pipe) (rw k refl)))
