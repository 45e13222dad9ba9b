-- ===== src/Console/Script.antt =====
-- A whole session: the script is sent line by line, each line behind a prompt.
use nycu_csic30091_netw.Prelude.{
  Bool, true, false, ◌||◌, Option, none, some, List, [], ◌∷◌, ◌++◌, ◌+◌, ◌<◌, length, lt→ltb,
  if◌then◌else◌, ◌>>=◌, ◌≡◌, refl, arith, ap, append-nil, length-append, Bool-cases, inl, inr,
}
use nycu_csic30091_netw.Prelude.Bytes.{Bytes, codes, str_eq, Free}
use nycu_csic30091_netw.Cxx.Stream.{before-append, after-append, before-all, Free-append}
use nycu_csic30091_netw.Console.Render.{response}
use nycu_csic30091_netw.Console.Session.{
  Op, Answer, ConsoleSession, read, write, got, buf_size, add_output, complete, on_read, do_write,
  next_command, strip_return, has_prompt, text_of,
}

abbrev pub sending : Op → List Bytes
sending (write text line) = text ∷ []
sending _ = []

-- A session with one operation at a time, answered by a list; the commands that it sends are collected.
unfoldable pub run :
    List Answer
    → List Op
    → List Bytes
    → ConsoleSession
    → Option (ConsoleSession × List Op × List Bytes)
run [] ops sent s = some (s, ops, sent)
run (a ∷ rest) (op ∷ []) sent s = complete op a s >>= λ r. run rest r.1 (sent ++ sending op) r.0
run (a ∷ rest) ops sent s = none

-- What the server sends until a prompt comes, in pieces.
pub record Turn : Type 0 where
  pub quiet : List Bytes
  pub prompt : Bytes

-- A line of the script, with or without a carriage return.
pub record Line : Type 0 where
  pub text : Bytes
  pub returned : Bool

abbrev pub raw : Line → Bytes
raw l = l.text ++ (if l.returned then 13 ∷ [] else [])

abbrev pub command_of : Line → Bytes
command_of l = l.text ++ 10 ∷ []

abbrev pub is_exit : Bytes → Bool
is_exit text = str_eq text (codes "exit\r\n") || str_eq text (codes "exit\n")

abbrev pub IsPiece : Bool → Bytes → Type 0
IsPiece b p = (has_prompt p ≡ b) × Free 0 p × (length p < buf_size)

abbrev pub ArePieces : List Bytes → Type 0
ArePieces [] = Unit {0}
ArePieces (p ∷ ps) = IsPiece false p × ArePieces ps

abbrev pub IsTurn : Turn → Type 0
IsTurn t = ArePieces t.quiet × IsPiece true t.prompt

pub record IsLine (l : Line) : Type 0 where
  pub filled : 0 < length l.text
  pub one_line : Free 10 l.text
  pub no_return : Free 13 l.text
  pub no_nul : Free 0 l.text
  pub short : length l.text + 1 < buf_size

strip_return-plain : (l : Bytes) → Free 13 l → strip_return l ≡ l
unfolding strip_return
strip_return-plain [] f = refl
strip_return-plain (c ∷ []) f = ground (arith, f.0)
strip_return-plain (c ∷ d ∷ l) f = ground (arith, strip_return-plain (d ∷ l) f.1)

strip_return-return : (l : Bytes) → strip_return (l ++ 13 ∷ []) ≡ l
unfolding strip_return
strip_return-return [] = refl
strip_return-return (c ∷ []) = refl
strip_return-return (c ∷ d ∷ l) = ap (λ x. c ∷ x) (strip_return-return (d ∷ l))

strip_return-raw : (l : Line) → IsLine l → strip_return (raw l) ≡ l.text
strip_return-raw l v = elim (Bool-cases l.returned) [
  | inl e ↦ rw e (strip_return-return l.text)
  | inr e ↦ rw e (rw (append-nil l.text) (strip_return-plain l.text v.no_return))
]

Free-raw : (l : Line) → IsLine l → Free 10 (raw l)
Free-raw l v = elim (Bool-cases l.returned) [
  | inl e ↦ rw e (Free-append 10 l.text (13 ∷ []) v.one_line (refl, tt))
  | inr e ↦ rw e (rw (append-nil l.text) v.one_line)
]

-- The text of `next_command`, for a line that is not empty.
next_command-filled :
    (line text : Bytes)
    → 0 < length line
    → strip_return line ≡ text
    → Free 0 text
    → length text + 1 < buf_size
    → next_command line ≡ some (text ++ 10 ∷ [])
unfolding next_command
next_command-filled [] text f e n h = ground (arith, f)
next_command-filled (c ∷ line) text f e n h =
    rw
      (
        e,
        before-all 0 (text ++ 10 ∷ []) (Free-append 0 text (10 ∷ []) n (refl, tt)),
        lt→ltb (length (text ++ 10 ∷ [])) buf_size (rw (length-append text (10 ∷ [])) h),
      )
      refl

next_command-raw : (l : Line) → IsLine l → next_command (raw l) ≡ some (command_of l)
next_command-raw l v =
    next_command-filled (raw l) l.text
      (rw (length-append l.text (if l.returned then 13 ∷ [] else [])) (omega (arith, v.filled)))
      (strip_return-raw l v) v.no_nul v.short

do_write-line :
    (l : Line) (rest : Bytes) (s : ConsoleSession)
    → IsLine l
    → s.script_file ≡ raw l ++ 10 ∷ rest
    → do_write s ≡ some (record s { script_file = rest }, write (command_of l) (command_of l) ∷ [])
unfolding do_write
do_write-line l rest s v e =
    rw
      (
        e,
        before-append 10 (raw l) rest (Free-raw l v),
        next_command-raw l v,
        after-append 10 (raw l) rest (Free-raw l v),
        before-all 0 (command_of l) (Free-append 0 l.text (10 ∷ []) v.no_nul (refl, tt)),
      )
      refl

text_of-piece : (b : Bool) (p : Bytes) → IsPiece b p → text_of p ≡ some p
unfolding text_of
text_of-piece b p v = rw (before-all 0 p v.1, lt→ltb (length p) buf_size v.2) refl

pub on_read-quiet :
    (p : Bytes) (s : ConsoleSession)
    → IsPiece false p
    → on_read (got p) s ≡ some (add_output p response s, read ∷ [])
unfolding on_read
on_read-quiet p s v = rw (text_of-piece false p v, v.0) refl

pub on_read-prompt :
    (p : Bytes) (l : Line) (rest : Bytes) (s : ConsoleSession)
    → IsPiece true p
    → IsLine l
    → s.script_file ≡ raw l ++ 10 ∷ rest
    → on_read (got p) s
      ≡ some (
        record (add_output p response s) { script_file = rest },
        write (command_of l) (command_of l) ∷ [],
      )
unfolding on_read add_output
on_read-prompt p l rest s v w e =
    rw (text_of-piece true p v, v.0) (do_write-line l rest (add_output p response s) w e)
