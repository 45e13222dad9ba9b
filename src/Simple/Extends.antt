-- ===== src/Simple/Extends.antt =====
-- The pipe manager of np_single_proc, as far as np_simple's goes.
use nycu_csic30091_netw.Prelude.{
  ℕ, suc, ◌+◌, sym, false, List, [], ◌∷◌, ◌≡◌, refl, inl, inr, Bool-cases, Option-cases,
}
use nycu_csic30091_netw.Prelude.Bytes.{Bytes}
use nycu_csic30091_netw.Cxx.Map.{find, erase}
use nycu_csic30091_netw.Shell.Pipes.Model.{Pipe, Call, Fresh, is_pipe, is_user_in, none_mode}
use nycu_csic30091_netw.Shell.Pipes.Model as Modes
use nycu_csic30091_netw.Single.Pipes as Single
use nycu_csic30091_netw.Simple.Pipes.{
  PipeMode, normal_pipe, file_output, console_output, numbered_pipe, numbered_pipe_stderr,
  PipeManager, new_session, reduce_numbered_pipes_count, load_current_numbered_pipe, root_input,
  root_output, root_pipe_handler, parent_pipe_handler, child_output, child_pipe_handler,
  add_numbered_pipe,
}

-- What np_simple's shell does with its pipe manager: a new session, a numbered pipe, and a program that is
-- started. The pipes are those that the system gives.
pub data Op : Type 0 where
  session : Op
  numbered : ℕ → Pipe → Op
  fork : PipeMode → Bytes → Fresh → Op

unfoldable pub mode_of : PipeMode → Modes.PipeMode
mode_of normal_pipe = Modes.normal_pipe
mode_of file_output = Modes.file_output
mode_of console_output = Modes.console_output
mode_of numbered_pipe = Modes.numbered_pipe
mode_of numbered_pipe_stderr = Modes.numbered_pipe_stderr

-- The fields that both have.
abbrev pub view : Single.PipeManager → PipeManager
view m = record {
  current_pipe = m.current_pipe;
  new_pipe = m.new_pipe;
  current_numbered_pipe = m.current_numbered_pipe;
  new_numbered_pipe = m.new_numbered_pipe;
  count = m.count;
  count_pipe_map = m.count_pipe_map;
}

-- The state, and the system calls of the child and of the parent.
unfoldable pub do_simple : Op → PipeManager → PipeManager × List Call × List Call
do_simple session m = (new_session m, [], [])
do_simple (numbered n fresh) m = (add_numbered_pipe n fresh m, [], [])
do_simple (fork mode file fresh) m =
    let started = root_pipe_handler mode fresh.piped m in
    let (m', calls) = parent_pipe_handler mode started in
    (m', child_pipe_handler mode file started, calls)

unfoldable pub do_single : Op → Single.PipeManager → Single.PipeManager × List Call × List Call
do_single session m = (Single.new_session m, [], [])
do_single (numbered n fresh) m = (Single.add_numbered_pipe n fresh m, [], [])
do_single (fork mode file fresh) m =
    let started = Single.root_pipe_handler (mode_of mode) none_mode fresh m in
    let (m', calls) = Single.parent_pipe_handler (mode_of mode) none_mode started in
    (m', Single.child_pipe_handler (mode_of mode) none_mode file started, calls)

unfoldable pub do_all_simple : List Op → PipeManager → PipeManager × List (List Call × List Call)
do_all_simple [] m = (m, [])
do_all_simple (op ∷ ops) m =
    let (m', child, parent) = do_simple op m in
    let (m'', calls) = do_all_simple ops m' in (m'', (child, parent) ∷ calls)

unfoldable pub do_all_single :
    List Op → Single.PipeManager → Single.PipeManager × List (List Call × List Call)
do_all_single [] m = (m, [])
do_all_single (op ∷ ops) m =
    let (m', child, parent) = do_single op m in
    let (m'', calls) = do_all_single ops m' in (m'', (child, parent) ∷ calls)

new_session-view : (m : Single.PipeManager) → view (Single.new_session m) ≡ new_session (view m)
unfolding new_session load_current_numbered_pipe reduce_numbered_pipes_count Single.new_session
    Single.load_current_numbered_pipe Single.reduce_numbered_pipes_count
new_session-view m = elim (Option-cases (find (suc m.count) (erase m.count m.count_pipe_map))) [
  | inl e ↦
      rw
        (
          e, new_session, load_current_numbered_pipe, Single.new_session,
          Single.load_current_numbered_pipe,
        )
        refl
  | inr (p, e) ↦
      rw
        (
          e, new_session, load_current_numbered_pipe, Single.new_session,
          Single.load_current_numbered_pipe,
        )
        refl
]

add_numbered_pipe-view :
    (n : ℕ) (fresh : Pipe) (m : Single.PipeManager)
    → view (Single.add_numbered_pipe n fresh m) ≡ add_numbered_pipe n fresh (view m)
unfolding add_numbered_pipe Single.add_numbered_pipe
add_numbered_pipe-view n fresh m = elim (Option-cases (find (m.count + n) m.count_pipe_map)) [
  | inl e ↦ rw (e, add_numbered_pipe, Single.add_numbered_pipe) refl
  | inr (p, e) ↦ rw (e, add_numbered_pipe, Single.add_numbered_pipe) refl
]

mode_of-is_user_in : (mode : PipeMode) → is_user_in (mode_of mode) ≡ false
unfolding mode_of
mode_of-is_user_in normal_pipe = refl
mode_of-is_user_in file_output = refl
mode_of-is_user_in console_output = refl
mode_of-is_user_in numbered_pipe = refl
mode_of-is_user_in numbered_pipe_stderr = refl

root_input-view :
    (mode : PipeMode) (fresh : Fresh) (m : Single.PipeManager)
    → view (Single.root_input (mode_of mode) fresh m) ≡ root_input (view m)
unfolding root_input Single.root_input
root_input-view mode fresh m = elim (Bool-cases (is_pipe m.current_numbered_pipe)) [
  | inl e ↦ rw (mode_of-is_user_in mode, e, root_input, Single.root_input) refl
  | inr e ↦ rw (mode_of-is_user_in mode, e, root_input, Single.root_input) refl
]

root_output-view :
    (mode : PipeMode) (fresh : Fresh) (m : Single.PipeManager)
    → view (Single.root_output (mode_of mode) none_mode fresh m)
      ≡ root_output mode fresh.piped (view m)
unfolding mode_of root_output Single.root_output
root_output-view normal_pipe fresh m = refl
root_output-view file_output fresh m = refl
root_output-view console_output fresh m = refl
root_output-view numbered_pipe fresh m = refl
root_output-view numbered_pipe_stderr fresh m = refl

root_pipe_handler-view :
    (mode : PipeMode) (fresh : Fresh) (m : Single.PipeManager)
    → view (Single.root_pipe_handler (mode_of mode) none_mode fresh m)
      ≡ root_pipe_handler mode fresh.piped (view m)
unfolding root_pipe_handler Single.root_pipe_handler
root_pipe_handler-view mode fresh m =
    rw (root_output-view mode fresh (Single.root_input (mode_of mode) fresh m))
      (rw (root_input-view mode fresh m) refl)

parent_pipe_handler-view :
    (mode : PipeMode) (m : Single.PipeManager)
    → (
      view (Single.parent_pipe_handler (mode_of mode) none_mode m).0,
      (Single.parent_pipe_handler (mode_of mode) none_mode m).1,
    )
      ≡ parent_pipe_handler mode (view m)
unfolding mode_of parent_pipe_handler Single.parent_pipe_handler
parent_pipe_handler-view normal_pipe m = refl
parent_pipe_handler-view file_output m = refl
parent_pipe_handler-view console_output m = refl
parent_pipe_handler-view numbered_pipe m = refl
parent_pipe_handler-view numbered_pipe_stderr m = refl

child_pipe_handler-view :
    (mode : PipeMode) (file : Bytes) (m : Single.PipeManager)
    → Single.child_pipe_handler (mode_of mode) none_mode file m
      ≡ child_pipe_handler mode file (view m)
unfolding mode_of child_pipe_handler child_output Single.child_pipe_handler
child_pipe_handler-view normal_pipe file m = refl
child_pipe_handler-view file_output file m = refl
child_pipe_handler-view console_output file m = refl
child_pipe_handler-view numbered_pipe file m = refl
child_pipe_handler-view numbered_pipe_stderr file m = refl

do_single-view :
    (op : Op) (m : Single.PipeManager)
    → (view (do_single op m).0, (do_single op m).1, (do_single op m).2) ≡ do_simple op (view m)
unfolding do_single do_simple
do_single-view session m = rw (new_session-view m) refl
do_single-view (numbered n fresh) m = rw (add_numbered_pipe-view n fresh m) refl
do_single-view (fork mode file fresh) m =
    let started = Single.root_pipe_handler (mode_of mode) none_mode fresh m in
    rw (sym (root_pipe_handler-view mode fresh m)) (
      rw (child_pipe_handler-view mode file started)
        (rw (sym (parent_pipe_handler-view mode started)) refl))

-- Whatever np_simple's shell asks of a pipe manager, in any order and with any pipes of the system, the
-- pipe manager of np_single_proc does the same: each program that is started has the same system calls in
-- the child and in the parent, and the pipes, the count and the numbered pipes are the same at the end.
pub do_all-view :
    (ops : List Op) (m : Single.PipeManager)
    → (view (do_all_single ops m).0, (do_all_single ops m).1) ≡ do_all_simple ops (view m)
unfolding do_all_single do_all_simple
do_all-view [] m = refl
do_all-view (op ∷ ops) m =
    rw (sym (do_single-view op m)) (rw (sym (do_all-view ops (do_single op m).0)) refl)
