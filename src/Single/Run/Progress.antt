-- ===== src/Single/Run/Progress.antt =====
-- The branches of np_single_proc's NPShell::execute come to their end, and leave the server sound.
use nycu_csic30091_netw.Prelude.{
  ℕ, Bool, true, false, Option, none, some, [], ◌≡◌, ◌⊎◌, refl, arith, inl, inr, ◌∙◌,
}
use nycu_csic30091_netw.Prelude.Bytes.{Bytes}
use nycu_csic30091_netw.Shell.Parser.Model.{Command}
use nycu_csic30091_netw.Shell.Pipes.Model.{
  PipeMode, none_mode, normal_pipe, file_output, console_output, numbered_pipe,
  numbered_pipe_stderr, user_pipe_out, user_pipe_in, user_pipe_both,
}
use nycu_csic30091_netw.Shell.Run.Model.{number_of, second_mode}
use nycu_csic30091_netw.Single.Run.World.{World, Answers, execute_forked_command}
use nycu_csic30091_netw.Single.Run.Model.{
  with_number, run_to_file, run_numbered, run_to_user, run_user_in, run_second_numbered,
  run_second_file, run_mode, run_second, run_from_user, run_both,
}
use nycu_csic30091_netw.Single.Run.Sound.{IsSound, IsLive, IsKept}
use nycu_csic30091_netw.Single.Run.Sending.{send_to-IsKept, receive_from-IsKept}
use nycu_csic30091_netw.Single.Run.Obeying.{Obeyed}
use nycu_csic30091_netw.Single.Run.Asked.{IsNumbered}

pub IsKept-trans : (w w1 w2 : World) → IsKept w w1 → IsKept w1 w2 → IsKept w w2
IsKept-trans w w1 w2 a b = (b.0, b.1 ∙ a.1)

pub IsKept-IsLive : (fd : ℕ) (w w' : World) → IsKept w w' → IsLive fd w.server → IsLive fd w'.server
IsKept-IsLive fd w w' k l = rw k.1 l

-- The server is as it was before the programs are started.
pub only :
    (b : Bool) (w w' : World) → IsSound w.server → w'.server ≡ w.server → Obeyed w (some (b, w'))
only b w w' v e = (b, w', refl, (rw e v, rw e refl))

-- A program may be started behind `w1`.
behind :
    (b : Bool) (w w1 w2 : World) → IsKept w w1 → w2.server ≡ w1.server → Obeyed w (some (b, w2))
behind b w w1 w2 k e = (b, w2, refl, (rw e k.0, rw e k.1))

module _ (a : Answers) (c : Command) (w : World) (v : IsSound w.server) where
  pub run_to_file-Obeyed : (next : Option Command) → Obeyed w (run_to_file a c next w)
  unfolding run_to_file execute_forked_command
  run_to_file-Obeyed none = only true w _ v refl
  run_to_file-Obeyed (some f) = only true w _ v refl

  pub run_numbered-Obeyed :
      (mode : PipeMode) (op : Bytes) (n : ℕ)
      → number_of op ≡ some n
      → Obeyed w (run_numbered a mode op c w)
  unfolding run_numbered execute_forked_command
  run_numbered-Obeyed mode op n e = rw e (only false w _ v refl)

run_user_in-server :
    (a : Answers) (mode : PipeMode) (text : Bytes) (c : Command) (w : World)
    → (run_user_in a mode text c w).server ≡ w.server
unfolding run_user_in execute_forked_command
run_user_in-server a normal_pipe text c w = refl
run_user_in-server a console_output text c w = refl
run_user_in-server a none_mode text c w = refl
run_user_in-server a file_output text c w = refl
run_user_in-server a numbered_pipe text c w = refl
run_user_in-server a numbered_pipe_stderr text c w = refl
run_user_in-server a user_pipe_out text c w = refl
run_user_in-server a user_pipe_in text c w = refl
run_user_in-server a user_pipe_both text c w = refl

-- What gives a numbered pipe has a number.
second_numbered :
    (op : Bytes)
    → IsNumbered op
    → (second_mode op ≡ numbered_pipe) ⊎ (second_mode op ≡ numbered_pipe_stderr)
    → (n : ℕ) × (number_of op ≡ some n)
unfolding second_mode
second_numbered op g (inl e) = g (ground arith) (ground arith) (ground arith)
second_numbered op g (inr e) = g (ground arith) (ground arith) (ground arith)

pub chain : (w w1 : World) (o : Option (Bool × World)) → IsKept w w1 → Obeyed w1 o → Obeyed w o
chain w w1 o k (b, w2, e, k') = (b, w2, e, IsKept-trans w w1 w2 k k')

run_second_file-Obeyed :
    (a : Answers) (c : Command) (next : Option Command) (w : World)
    → IsSound w.server
    → Obeyed w (run_second_file a c next w)
unfolding run_second_file
run_second_file-Obeyed a c none w v = only true w _ v refl
run_second_file-Obeyed a c (some f) w v =
    only false w _ v (run_user_in-server a file_output f.command c w)

module _ (a : Answers) (c : Command) (op : Bytes) (next : Option Command) where
  run_second_numbered-Obeyed :
      (mode : PipeMode) (w : World) (n : ℕ)
      → IsSound w.server
      → number_of op ≡ some n
      → Obeyed w (run_second_numbered a mode op c w)
  unfolding run_second_numbered
  run_second_numbered-Obeyed mode w n v e =
      rw e (only false w _ v (run_user_in-server a mode [] c (with_number a n w)))

  run_mode-Obeyed :
      (mode : PipeMode) (w : World)
      → IsSound w.server
      → ((mode ≡ numbered_pipe) ⊎ (mode ≡ numbered_pipe_stderr) → (n : ℕ) × (number_of op ≡ some n))
      → Obeyed w (run_mode a mode op c next w)
  unfolding run_mode
  run_mode-Obeyed file_output w v g = run_second_file-Obeyed a c next w v
  run_mode-Obeyed numbered_pipe w v g =
      let (n, e) = g (inl refl) in run_second_numbered-Obeyed numbered_pipe w n v e
  run_mode-Obeyed numbered_pipe_stderr w v g =
      let (n, e) = g (inr refl) in run_second_numbered-Obeyed numbered_pipe_stderr w n v e
  run_mode-Obeyed none_mode w v g = only false w _ v (run_user_in-server a none_mode [] c w)
  run_mode-Obeyed normal_pipe w v g = only false w _ v (run_user_in-server a normal_pipe [] c w)
  run_mode-Obeyed console_output w v g =
      only false w _ v (run_user_in-server a console_output [] c w)
  run_mode-Obeyed user_pipe_out w v g = only false w _ v (run_user_in-server a user_pipe_out [] c w)
  run_mode-Obeyed user_pipe_in w v g = only false w _ v (run_user_in-server a user_pipe_in [] c w)
  run_mode-Obeyed user_pipe_both w v g =
      only false w _ v (run_user_in-server a user_pipe_both [] c w)

module _ (a : Answers) (fd : ℕ) (raw : Bytes) (c : Command) (w : World) (v : IsSound w.server) where
  pub run_to_user-Obeyed :
      (op : Bytes) (n : ℕ)
      → IsLive fd w.server
      → number_of op ≡ some n
      → Obeyed w (run_to_user a fd raw op c w)
  unfolding run_to_user execute_forked_command
  run_to_user-Obeyed op n l e =
      let (w1, run, k) = send_to-IsKept fd raw n w a v l in rw (e, run) (behind true w w1 _ k refl)

  pub run_from_user-Obeyed :
      (op op2 : Bytes) (next : Option Command) (n : ℕ)
      → IsLive fd w.server
      → number_of op ≡ some n
      → IsNumbered op2
      → Obeyed w (run_from_user a fd raw op op2 c next w)
  unfolding run_from_user run_second
  run_from_user-Obeyed op op2 next n l e g =
      let (w1, run, k) = receive_from-IsKept fd raw n w v l in
      rw (e, run)
        (chain w w1 _ k
          (run_mode-Obeyed a c op2 next (second_mode op2) w1 k.0 (second_numbered op2 g)))

  pub run_both-Obeyed :
      (from_op to_op : Bytes) (n m : ℕ)
      → IsLive fd w.server
      → number_of from_op ≡ some n
      → number_of to_op ≡ some m
      → Obeyed w (run_both a fd raw from_op to_op c w)
  unfolding run_both execute_forked_command
  run_both-Obeyed from_op to_op n m l e f =
      let (w1, run, k) = receive_from-IsKept fd raw n w v l in
      let (w2, run2, k2) = send_to-IsKept fd raw m w1 a k.0 (IsKept-IsLive fd w w1 k l) in
      rw (e, f, run, run2) (behind true w w2 _ (IsKept-trans w w1 w2 k k2) refl)
