-- ===== src/Shell/Messages/Model.antt =====
-- The operations of MessageManager (project2/src/np_multi_proc/src/MessageManager.cpp). The queue is
-- text in shared memory, and each operation holds its semaphore from the read to the write.
use nycu_csic30091_netw.Prelude.{ℕ, zero, suc, Bool, true, false, ◌||◌, Option, none, some, ◌>>=◌}
use nycu_csic30091_netw.Prelude.{List, [], ◌∷◌, ◌++◌, ltb, ◌==◌, if◌then◌else◌, length}
use nycu_csic30091_netw.Prelude.Bytes.{Bytes, codes, str_eq}
use nycu_csic30091_netw.Cxx.Decimal.{to_string, read_number}
use nycu_csic30091_netw.Cxx.Numbers.{read_int}
use nycu_csic30091_netw.Cxx.Stream.{fields, word_or_empty, skip_ws, before, after}

pub record Message : Type 0 where
  pub pid : ℕ
  pub kind : Bytes
  pub value : Bytes

abbrev pub Queue : Type 0
Queue = List Message

abbrev pub shm_size : ℕ
shm_size = 65536

unfoldable pub message_line : Message → Bytes
message_line m = to_string m.pid ++ (32 ∷ (m.kind ++ (32 ∷ m.value)))

unfoldable pub messages_text : Queue → Bytes
messages_text [] = []
messages_text (m ∷ q) = message_line m ++ 10 ∷ messages_text q

-- `none` is a write past the end of the segment.
unfoldable pub write_to_shared_memory : Queue → Option Bytes
write_to_shared_memory q =
    let text = messages_text q in if ltb (length text) shm_size then some text else none

-- A line without a number at its front. `none` is an empty one, which leaves `pid` without a value that
-- is then copied all the same, and one with a sign, which is not modelled; any other sets `pid` to 0, and
-- no more is read.
abbrev pub without_number : Bytes → Option Message
without_number [] = none
without_number (c ∷ s) =
    if c == b'-' || c == b'+' then none else some (record { pid = 0; kind = []; value = [] })

unfoldable pub read_message : Bytes → Option Message
read_message line = elim (read_int line) [
  | none ↦ without_number (skip_ws line)
  | some (pid, s1) ↦
      let w = word_or_empty s1 in
      some (record { pid = pid; kind = w.0; value = before 10 (skip_ws w.1) })
]

unfoldable pub read_messages : List Bytes → Option Queue
read_messages [] = some []
read_messages (l ∷ ls) = do m ← read_message l; q ← read_messages ls; some (m ∷ q)

unfoldable pub read_from_shared_memory : Bytes → Option Queue
read_from_shared_memory shm = read_messages (fields 10 shm)

unfoldable pub add_message : Message → Bytes → Option Bytes
add_message m shm = do q ← read_from_shared_memory shm; write_to_shared_memory (q ++ m ∷ [])

-- What handling a message does outside of the queue.
pub data Effect : Type 0 where
  tell : Bytes → Effect
  exit : Effect
  open_from_user_pipe close_from_user_pipe : ℕ → ℕ → Effect
  ignored : Effect

-- `value.substr(value.find("_") + 1)`: all of the text if it has no `_`.
unfoldable pub behind_underscore : Bytes → Bytes
behind_underscore value =
    if length (before b'_' value) == length value then value else after b'_' value

-- `stoi` of the text before and behind the first `_`; `none` is its exception.
unfoldable pub pipe_ids : Bytes → Option (ℕ × ℕ)
pipe_ids value = do
  id1 ← read_number (before b'_' value)
  id2 ← read_number (behind_underscore value)
  some (id1, id2)

unfoldable pub handle : Message → Option Effect
handle m =
    let ids = pipe_ids m.value in
    if str_eq m.kind (codes "tell")
    then some (tell m.value)
    else if str_eq m.kind (codes "exit")
    then some exit
    else if str_eq m.kind (codes "openFromUserPipe")
    then (do p ← ids; some (open_from_user_pipe p.0 p.1))
    else if str_eq m.kind (codes "closeFromUserPipe")
    then (do p ← ids; some (close_from_user_pipe p.0 p.1))
    else some ignored

-- What one walk over the queue leaves behind.
pub record Walk : Type 0 where
  pub effects : List Effect
  pub remove_idx : List ℕ
  pub exit_flag : Bool

abbrev pub is_exit : Effect → Bool
is_exit exit = true
is_exit _ = false

abbrev pub step_walk : ℕ → Effect → Walk → Walk
step_walk idx e w =
    if is_exit e
    then record { effects = e ∷ []; remove_idx = idx ∷ []; exit_flag = true }
    else record {
      effects = e ∷ w.effects;
      remove_idx = idx ∷ w.remove_idx;
      exit_flag = w.exit_flag;
    }

-- The loop over the queue in `run`. As in the source, a message for another process is passed over
-- by `continue` before `idx++`; an exit breaks the loop.
unfoldable pub walk : ℕ → ℕ → Queue → Option Walk
walk pid idx [] = some (record { effects = []; remove_idx = []; exit_flag = false })
walk pid idx (m ∷ q) =
    let passed = walk pid idx q in
    let taken = (do
      e ← handle m
      w ←
          (if is_exit e
            then some (record { effects = []; remove_idx = []; exit_flag = true })
            else walk pid (suc idx) q)
      some (step_walk idx e w)) in
    if m.pid == pid then taken else passed

-- `messageQueue.erase(begin() + i)`; `none` is an erase past the end.
unfoldable pub erase_at : ℕ → Queue → Option Queue
erase_at i [] = none
erase_at zero (m ∷ q) = some q
erase_at (suc i) (m ∷ q) = do rest ← erase_at i q; some (m ∷ rest)

-- The loop over `removeIdx` from its last entry to its first.
unfoldable pub erase_all : List ℕ → Queue → Option Queue
erase_all [] q = some q
erase_all (i ∷ is) q = do q' ← erase_all is q; erase_at i q'

-- One round of `run` on the queue: its effects, the exit flag, and the queue that it writes.
unfoldable pub round : ℕ → Queue → Option (Walk × Queue)
round pid q = do w ← walk pid 0 q; q' ← erase_all w.remove_idx q; some (w, q')

unfoldable pub run_round : ℕ → Bytes → Option (Walk × Bytes)
run_round pid shm = do
  q ← read_from_shared_memory shm
  (w, q') ← round pid q
  shm' ← write_to_shared_memory q'
  some (w, shm')
