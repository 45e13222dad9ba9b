-- ===== src/Shell/Pipes/Numbered.antt =====
-- Numbered pipes: a pipe to the n-th next session is the input of that session and of no other.
use nycu_csic30091_netw.Prelude.{ℕ, suc, ◌+◌, ◌<◌, some, List, [], ◌∷◌}
use nycu_csic30091_netw.Prelude.{◌≡◌, arith}
use nycu_csic30091_netw.Cxx.Map.{find, erase, find-insert, find-erase}
use nycu_csic30091_netw.Shell.Pipes.Model.{Pipe, PipeManager, new_session, add_numbered_pipe}
use nycu_csic30091_netw.Shell.Pipes.Model.{load_current_numbered_pipe, reduce_numbered_pipes_count}

-- What a shell does to the numbered pipes: a session ends, or a pipe to a later one is asked for.
pub data Action : Type 0 where
  session : Action
  pipe_to : ℕ → Pipe → Action

unfoldable pub act : Action → PipeManager → PipeManager
act session m = new_session m
act (pipe_to n fresh) m = add_numbered_pipe n fresh m

unfoldable pub run : List Action → PipeManager → PipeManager
run [] m = m
run (a ∷ acts) m = run acts (act a m)

abbrev pub sessions : List Action → ℕ
sessions [] = 0
sessions (session ∷ acts) = suc (sessions acts)
sessions (pipe_to n p ∷ acts) = sessions acts

-- A session reaches its pipe.
current-new_session :
    (m : PipeManager) (p : Pipe)
    → find (suc m.count) m.count_pipe_map ≡ some p
    → (new_session m).current_numbered_pipe ≡ p
unfolding new_session load_current_numbered_pipe reduce_numbered_pipes_count
current-new_session m p e = ground (arith, find-erase m.count (suc m.count) m.count_pipe_map)

-- A session leaves the pipes of the later ones alone.
find-new_session :
    (m : PipeManager) (i : ℕ)
    → suc m.count < i
    → find i (new_session m).count_pipe_map ≡ find i m.count_pipe_map
unfolding new_session load_current_numbered_pipe reduce_numbered_pipes_count
find-new_session m i h = ground (
  arith,
  find-erase m.count i m.count_pipe_map,
  find-erase (suc m.count) i (erase m.count m.count_pipe_map),
)

count-new_session : (m : PipeManager) → (new_session m).count ≡ suc m.count
unfolding new_session load_current_numbered_pipe reduce_numbered_pipes_count
count-new_session m = ground arith

-- Asking for another pipe keeps those that are there.
find-add_numbered_pipe :
    (m : PipeManager) (n i : ℕ) (fresh p : Pipe)
    → find i m.count_pipe_map ≡ some p
    → find i (add_numbered_pipe n fresh m).count_pipe_map ≡ some p
unfolding add_numbered_pipe
find-add_numbered_pipe m n i fresh p e =
    ground (arith, find-insert (m.count + n) i fresh m.count_pipe_map)

count-add_numbered_pipe :
    (m : PipeManager) (n : ℕ) (fresh : Pipe) → (add_numbered_pipe n fresh m).count ≡ m.count
unfolding add_numbered_pipe
count-add_numbered_pipe m n fresh = ground arith

find-added :
    (m : PipeManager) (n i : ℕ) (fresh : Pipe)
    → i ≡ m.count + n
    → find i (add_numbered_pipe n fresh m).count_pipe_map
      ≡ some (add_numbered_pipe n fresh m).new_numbered_pipe
unfolding add_numbered_pipe
find-added m n i fresh e = ground (arith, find-insert (m.count + n) i fresh m.count_pipe_map)

arrives :
    (acts : List Action) (m : PipeManager) (p : Pipe)
    → find (suc (m.count + sessions acts)) m.count_pipe_map ≡ some p
    → (new_session (run acts m)).current_numbered_pipe ≡ p
unfolding run act
arrives [] m p e = current-new_session m p (ground arith)
arrives (session ∷ acts) m p e =
    arrives acts (new_session m) p (
      ground (arith, find-new_session m (suc (m.count + suc (sessions acts))), count-new_session m))
arrives (pipe_to n fresh ∷ acts) m p e = arrives acts (add_numbered_pipe n fresh m) p (
    rw (count-add_numbered_pipe m n fresh)
      (find-add_numbered_pipe m n (suc (m.count + sessions acts)) fresh p e))

-- Whatever the shell does between, the pipe that a command writes to with `|n` is the input of the
-- n-th session after it: after n - 1 sessions the next one reads from that pipe.
pub numbered_pipe_arrives :
    (m : PipeManager) (fresh : Pipe) (acts : List Action)
    → let m' = add_numbered_pipe (suc (sessions acts)) fresh m in
      (new_session (run acts m')).current_numbered_pipe ≡ m'.new_numbered_pipe
numbered_pipe_arrives m fresh acts =
    let m' = add_numbered_pipe (suc (sessions acts)) fresh m in
    arrives acts m' m'.new_numbered_pipe (
      find-added m (suc (sessions acts)) (suc (m'.count + sessions acts)) fresh
        (ground (arith, count-add_numbered_pipe m (suc (sessions acts)) fresh)))

keeps_entry :
    (acts : List Action) (m : PipeManager) (i : ℕ) (p : Pipe)
    → m.count + sessions acts < i
    → find i m.count_pipe_map ≡ some p
    → find i (run acts m).count_pipe_map ≡ some p
unfolding run act
keeps_entry [] m i p h e = e
keeps_entry (session ∷ acts) m i p h e =
    keeps_entry acts (new_session m) i p (ground (arith, count-new_session m))
      (ground (arith, find-new_session m i))
keeps_entry (pipe_to n fresh ∷ acts) m i p h e =
    keeps_entry acts (add_numbered_pipe n fresh m) i p
      (ground (arith, count-add_numbered_pipe m n fresh)) (find-add_numbered_pipe m n i fresh p e)

count-run : (acts : List Action) (m : PipeManager) → (run acts m).count ≡ m.count + sessions acts
unfolding run act
count-run [] m = omega arith
count-run (session ∷ acts) m = ground (arith, count-run acts (new_session m), count-new_session m)
count-run (pipe_to n fresh ∷ acts) m =
    ground (arith, count-run acts (add_numbered_pipe n fresh m), count-add_numbered_pipe m n fresh)

added_again :
    (m : PipeManager) (n : ℕ) (fresh p : Pipe)
    → find (m.count + n) m.count_pipe_map ≡ some p
    → (add_numbered_pipe n fresh m).new_numbered_pipe ≡ p
unfolding add_numbered_pipe
added_again m n fresh p e = ground arith

-- Two commands that write to the same later session share one pipe, whatever the shell did between:
-- the second gets the descriptors that the first got.
pub numbered_pipes_merge :
    (m : PipeManager) (n : ℕ) (fresh fresh' : Pipe) (acts : List Action)
    → let m' = add_numbered_pipe (sessions acts + suc n) fresh m in
      (add_numbered_pipe (suc n) fresh' (run acts m')).new_numbered_pipe ≡ m'.new_numbered_pipe
numbered_pipes_merge m n fresh fresh' acts =
    let m' = add_numbered_pipe (sessions acts + suc n) fresh m in
    added_again (run acts m') (suc n) fresh' m'.new_numbered_pipe (
      keeps_entry acts m' ((run acts m').count + suc n) m'.new_numbered_pipe
        (ground (arith, count-run acts m'))
        (find-added m (sessions acts + suc n) ((run acts m').count + suc n) fresh (
          ground
            (arith, count-run acts m', count-add_numbered_pipe m (sessions acts + suc n) fresh))))
