-- ===== src/Cxx/Regex.antt =====
-- std::regex (ECMAScript grammar) and std::regex_match, on the fragment that the program's patterns
-- lie in: literals, escaped punctuation, `.`, one-range classes `[a-b]`, and `*` behind any of them.
-- A pattern outside the fragment compiles to `none`.
use nycu_csic30091_netw.Prelude.{ℕ, Bool, true, false, not, ◌&&◌, ◌||◌, Option, none, some}
use nycu_csic30091_netw.Prelude.{List, [], ◌∷◌, ◌++◌, ◌==◌, leb, if◌then◌else◌, ◌>>=◌}
use nycu_csic30091_netw.Prelude.{◌≡◌, refl, ◌↔◌, ◌⊎◌, inl, inr, arith}
use nycu_csic30091_netw.Prelude.Bytes.{Bytes}

pub data Atom : Type 0 where
  lit : ℕ → Atom
  any : Atom
  range : ℕ → ℕ → Atom

pub data Token : Type 0 where
  atom : Atom → Token
  star : Token

pub data Item : Type 0 where
  one many : Atom → Item

-- Where the scanner stands inside a pattern.
pub data Mode : Type 0 where
  start escape class_open : Mode
  class_low class_dash : ℕ → Mode
  class_high : ℕ → ℕ → Mode

-- ^ $ | ( ) { } + ? ]
unfoldable pub is_special : ℕ → Bool
is_special c =
    c == b'^'
    || c == b'$'
    || c == b'|'
    || c == b'('
    || c == b')'
    || c == b'{'
    || c == b'}'
    || c == b'+'
    || c == b'?'
    || c == b']'

unfoldable pub is_alnum : ℕ → Bool
is_alnum c = leb b'0' c && leb c b'9' || leb b'A' c && leb c b'Z' || leb b'a' c && leb c b'z'

class_special : ℕ → Bool
class_special c = c == b'^' || c == b']' || c == b'[' || c == b'-' || c == 92

unfoldable pub scan_step : Mode → ℕ → Option (Mode × List Token)
unfolding is_special is_alnum class_special
scan_step start c =
    if c == 92
    then some (escape, [])
    else if c == b'.'
    then some (start, atom any ∷ [])
    else if c == b'*'
    then some (start, star ∷ [])
    else if c == b'['
    then some (class_open, [])
    else if is_special c
    then none
    else some (start, atom (lit c) ∷ [])
scan_step escape c = if is_alnum c then none else some (start, atom (lit c) ∷ [])
scan_step class_open c = if class_special c then none else some (class_low c, [])
scan_step (class_low lo) c = if c == b'-' then some (class_dash lo, []) else none
scan_step (class_dash lo) c = if class_special c then none else some (class_high lo c, [])
scan_step (class_high lo hi) c = if c == b']' then some (start, atom (range lo hi) ∷ []) else none

scan_end : Mode → Option (List Token)
scan_end start = some []
scan_end _ = none

unfoldable pub scan : Mode → Bytes → Option (List Token)
unfolding scan_step scan_end
scan m [] = scan_end m
scan m (c ∷ s) = do (m', emitted) ← scan_step m c; rest ← scan m' s; some (emitted ++ rest)

-- A star belongs to the atom before it.
unfoldable pub group : List Token → Option (List Item)
group [] = some []
group (star ∷ ts) = none
group (atom a ∷ []) = some (one a ∷ [])
group (atom a ∷ star ∷ ts) = do rest ← group ts; some (many a ∷ rest)
group (atom a ∷ atom b ∷ ts) = do rest ← group (atom b ∷ ts); some (one a ∷ rest)

unfoldable pub compile : Bytes → Option (List Item)
unfolding scan group
compile pat = do ts ← scan start pat; group ts

-- `.` does not match a line terminator.
unfoldable pub accepts : Atom → ℕ → Bool
accepts (lit x) c = c == x
accepts any c = not (c == 10 || c == 13)
accepts (range lo hi) c = leb lo c && leb c hi

-- The whole text matches the whole pattern.
unfoldable pub regex_match : List Item → Bytes → Bool
unfolding accepts
regex_match [] [] = true
regex_match [] (c ∷ s) = false
regex_match (one a ∷ p) [] = false
regex_match (one a ∷ p) (c ∷ s) = accepts a c && regex_match p s
regex_match (many a ∷ p) [] = regex_match p []
regex_match (many a ∷ p) (c ∷ s) =
    let more = accepts a c && regex_match (many a ∷ p) s in regex_match p (c ∷ s) || more

-- What it means for a text to match, with no search order in it.
pub data Matches : List Item → Bytes → Type 0 where
  empty : Matches [] []
  byte :
      {a : Atom} {c : ℕ} {p : List Item} {s : Bytes}
      → accepts a c ≡ true
      → Matches p s
      → Matches (one a ∷ p) (c ∷ s)
  leave : {a : Atom} {p : List Item} {s : Bytes} → Matches p s → Matches (many a ∷ p) s
  again :
      {a : Atom} {c : ℕ} {p : List Item} {s : Bytes}
      → accepts a c ≡ true
      → Matches (many a ∷ p) s
      → Matches (many a ∷ p) (c ∷ s)

||_cases : (a b : Bool) → (a || b) ≡ true → (a ≡ true) ⊎ (b ≡ true)
||_cases a b h = ground arith

regex_match→Matches : (p : List Item) (s : Bytes) → regex_match p s ≡ true → Matches p s
unfolding regex_match
regex_match→Matches [] [] h = empty
regex_match→Matches [] (c ∷ s) h = cc
regex_match→Matches (one a ∷ p) [] h = cc
regex_match→Matches (one a ∷ p) (c ∷ s) h =
    byte (ground arith) (regex_match→Matches p s (ground arith))
regex_match→Matches (many a ∷ p) [] h = leave (regex_match→Matches p [] h)
regex_match→Matches (many a ∷ p) (c ∷ s) h = elim (||_cases (regex_match p (c ∷ s)) _ h) [
  | inl now ↦ leave (regex_match→Matches p (c ∷ s) now)
  | inr later ↦ again (ground arith) (regex_match→Matches (many a ∷ p) s (ground arith))
]

Matches→regex_match : {p : List Item} {s : Bytes} → Matches p s → regex_match p s ≡ true
unfolding regex_match
Matches→regex_match empty = refl
Matches→regex_match (byte h d) = ground (arith, Matches→regex_match d)
Matches→regex_match (leave {s = []} d) = Matches→regex_match d
Matches→regex_match (leave {s = c ∷ s} d) = ground (arith, Matches→regex_match d)
Matches→regex_match (again h d) = ground (arith, Matches→regex_match d)

pub regex_match_iff : (p : List Item) (s : Bytes) → (regex_match p s ≡ true) ↔ Matches p s
regex_match_iff p s = (regex_match→Matches p s, Matches→regex_match)
