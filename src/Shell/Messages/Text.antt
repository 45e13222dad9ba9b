-- ===== src/Shell/Messages/Text.antt =====
-- What MessageManager writes to shared memory, and what it reads back.
use nycu_csic30091_netw.Prelude.{List, ap, ◌∙◌, ◌<◌, false, some, lt→ltb}
use nycu_csic30091_netw.Prelude.{[], ◌∷◌, ◌++◌, ◌≡◌, refl, ◌∙◌, length, append_assoc}
use nycu_csic30091_netw.Prelude.Bytes.{Bytes, Free}
use nycu_csic30091_netw.Cxx.Decimal.{to_string, to_string-Free, is_digit}
use nycu_csic30091_netw.Cxx.Numbers.{read_int-to_string}
use nycu_csic30091_netw.Cxx.Stream.{
  fields, fields-append, read_word, read_word-append, read_word-space,
}
use nycu_csic30091_netw.Cxx.Stream.{word_or_empty, skip_ws, skip_ws-word, is_space, IsWord}
use nycu_csic30091_netw.Cxx.Stream.{Free-append, NoSpace-Free, IsWord-NoSpace, before, before-all}
use nycu_csic30091_netw.Shell.Messages.Model.{
  Message, Queue, message_line, messages_text, read_message,
}
use nycu_csic30091_netw.Shell.Messages.Model.{read_messages, read_from_shared_memory, add_message}
use nycu_csic30091_netw.Shell.Messages.Model.{write_to_shared_memory, shm_size}

-- No white space at the front.
abbrev pub StartsPlain : Bytes → Type 0
StartsPlain [] = Unit {0}
StartsPlain (c ∷ s) = is_space c ≡ false

-- A kind that is a word, and a value on one line with no white space at its front.
pub record IsPlainMessage (m : Message) : Type 0 where
  pub kind_word : IsWord m.kind
  pub value_line : Free 10 m.value
  pub value_front : StartsPlain m.value

abbrev pub AllPlain : Queue → Type 0
AllPlain [] = Unit {0}
AllPlain (m ∷ q) = IsPlainMessage m × AllPlain q

read_value : (v : Bytes) → Free 10 v → StartsPlain v → before 10 (skip_ws (32 ∷ v)) ≡ v
read_value [] f h = unfold skip_ws before in refl
read_value (c ∷ v) f h = rw (drop_space v) (rw (skip_ws-word c v h) (before-all 10 (c ∷ v) f))
  where
    drop_space : (v : Bytes) → skip_ws (32 ∷ c ∷ v) ≡ skip_ws (c ∷ v)
    drop_space v = unfold skip_ws in refl

word_or_empty-kind : (k v : Bytes) → IsWord k → word_or_empty (32 ∷ (k ++ 32 ∷ v)) ≡ (k, 32 ∷ v)
word_or_empty-kind k v h =
    let word : read_word (32 ∷ (k ++ 32 ∷ v)) ≡ some (k, 32 ∷ v) =
      read_word-space (k ++ 32 ∷ v) ∙ read_word-append k v h in
    step (32 ∷ (k ++ 32 ∷ v)) (k, 32 ∷ v) word
  where
    step : (s : Bytes) (p : Bytes × Bytes) → read_word s ≡ some p → word_or_empty s ≡ p
    step s p e = unfold word_or_empty in rw (e, word_or_empty)

-- A line is read back as its message.
pub read_message-message_line :
    (m : Message) → IsPlainMessage m → read_message (message_line m) ≡ some m
unfolding read_message message_line
read_message-message_line m v =
    rw (read_int-to_string m.pid (m.kind ++ 32 ∷ m.value), read_message)
      (rw (word_or_empty-kind m.kind m.value v.kind_word)
        (rw (read_value m.value v.value_line v.value_front)))

Free-message_line : (m : Message) → IsPlainMessage m → Free 10 (message_line m)
unfolding message_line
Free-message_line m v =
    Free-append 10 (to_string m.pid) _ (to_string-Free 10 m.pid (unfold is_digit in refl)) (
      refl,
      Free-append 10 m.kind (32 ∷ m.value) (NoSpace-Free m.kind (IsWord-NoSpace _ v.kind_word))
          (refl, v.value_line),
    )

pub read-messages_text :
    (q : Queue) → AllPlain q → read_from_shared_memory (messages_text q) ≡ some q
unfolding read_from_shared_memory messages_text read_messages
read-messages_text [] v = unfold fields in refl
read-messages_text (m ∷ q) v =
    rw (fields-append 10 (message_line m) (messages_text q) (Free-message_line m v.0))
      (rw (read_message-message_line m v.0) (rw (read-messages_text q v.1)))

-- On the text of a queue of plain messages `addMessage` puts the message behind the others, as
-- long as the new text fits into the segment.
pub add_message_lem :
    (m : Message) (q : Queue)
    → AllPlain q
    → length (messages_text (q ++ m ∷ [])) < shm_size
    → add_message m (messages_text q) ≡ some (messages_text (q ++ m ∷ []))
unfolding add_message write_to_shared_memory
add_message_lem m q v h = rw (read-messages_text q v) (rw (lt→ltb _ _ h))

message_line-line_end :
    (m : Message) (v : Bytes)
    → message_line (record m { value = v ++ 10 ∷ [] }) ++ 10 ∷ []
      ≡ message_line (record m { value = v }) ++ 10 ∷ 10 ∷ []
unfolding message_line
message_line-line_end m v = simp append_assoc

-- Once a message is added to a queue of plain messages whose value, plain otherwise, ends in a line end, as
-- the values of `tell` do, the text has an empty line behind those of the messages.
pub fields-line_end :
    (m : Message) (v : Bytes) (q : Queue)
    → IsPlainMessage (record m { value = v })
    → AllPlain q
    → (lines : List Bytes) × (fields 10
          (messages_text (q ++ record m { value = v ++ 10 ∷ [] } ∷ []))
        ≡ lines ++ [] ∷ [])
      × (read_messages lines ≡ some (q ++ record m { value = v } ∷ []))
unfolding messages_text read_messages fields
fields-line_end m v [] p a = (
  message_line (record m { value = v }) ∷ [],
  rw (message_line-line_end m v)
      (fields-append 10 (message_line (record m { value = v })) (10 ∷ []) (Free-message_line _ p)),
  rw (read_message-message_line (record m { value = v }) p) refl,
)
fields-line_end m v (x ∷ q) p a =
    let (lines, split, read) = fields-line_end m v q p a.1 in
    (
      message_line x ∷ lines,
      fields-append 10 (message_line x) _ (Free-message_line x a.0)
          ∙ ap (◌∷◌ (message_line x)) split,
      rw (read_message-message_line x a.0) (rw read refl),
    )
