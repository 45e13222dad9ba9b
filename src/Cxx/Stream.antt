-- ===== src/Cxx/Stream.antt =====
-- std::istringstream: words by `>>`, fields by `getline`. A stream is the text that is left.
use nycu_csic30091_netw.Prelude.{ℕ, ◌≤◌, ◌<◌, Bool, false, ◌&&◌, ◌||◌}
use nycu_csic30091_netw.Prelude.{Option, none, some, List, [], ◌∷◌, ◌++◌, ◌≡◌, refl, arith}
use nycu_csic30091_netw.Prelude.{◌==◌, leb, if◌then◌else◌, length, ap}
use nycu_csic30091_netw.Prelude.Bytes.{Bytes, Free}

-- isspace
unfoldable pub is_space : ℕ → Bool
is_space c = c == 32 || leb 9 c && leb c 13

-- `iss >> ws`
unfoldable pub skip_ws : Bytes → Bytes
unfolding is_space
skip_ws [] = []
skip_ws (c ∷ s) = if is_space c then skip_ws s else c ∷ s

-- The word at the front, and what stands behind it.
unfoldable pub take_word : Bytes → Bytes
unfolding is_space
take_word [] = []
take_word (c ∷ s) = if is_space c then [] else c ∷ take_word s

unfoldable pub drop_word : Bytes → Bytes
unfolding is_space
drop_word [] = []
drop_word (c ∷ s) = if is_space c then c ∷ s else drop_word s

word_at : Bytes → Option (Bytes × Bytes)
unfolding take_word drop_word
word_at [] = none
word_at (c ∷ s) = some (take_word (c ∷ s), drop_word (c ∷ s))

-- `iss >> token`: `none` when no word is left.
unfoldable pub read_word : Bytes → Option (Bytes × Bytes)
unfolding word_at skip_ws
read_word s = word_at (skip_ws s)

-- `iss >> token` into an empty string whose failure is not looked at.
unfoldable pub word_or_empty : Bytes → Bytes × Bytes
unfolding read_word
word_or_empty s = elim (read_word s) [ none ↦ ([], []) | some p ↦ p ]

pub length-skip_ws : (s : Bytes) → length (skip_ws s) ≤ length s
unfolding skip_ws
length-skip_ws [] = omega arith
length-skip_ws (c ∷ s) = ground (arith, length-skip_ws s)

length-drop_word : (s : Bytes) → length (drop_word s) ≤ length s
unfolding drop_word
length-drop_word [] = omega arith
length-drop_word (c ∷ s) = ground (arith, length-drop_word s)

skip_ws-head : (s : Bytes) (c : ℕ) (r : Bytes) → skip_ws s ≡ c ∷ r → is_space c ≡ false
unfolding skip_ws
skip_ws-head [] c r e = cc
skip_ws-head (d ∷ s) c r e = ground (arith, skip_ws-head s c r)

-- Reading a word takes at least one byte off the stream.
pub length-read_word : (s w r : Bytes) → read_word s ≡ some (w, r) → length r < length s
unfolding read_word
length-read_word s w r h = go (skip_ws s) refl h
  where
    go : (t : Bytes) → skip_ws s ≡ t → word_at t ≡ some (w, r) → length r < length s
    go [] e h = cc
    go (c ∷ t) e h =
        ground (arith, skip_ws-head s c t e, length-drop_word t, length-skip_ws s, ap length e)

-- `getline(iss, line, d)`: up to the first `d`, which is taken off too.
unfoldable pub before : ℕ → Bytes → Bytes
before d [] = []
before d (c ∷ s) = if c == d then [] else c ∷ before d s

unfoldable pub after : ℕ → Bytes → Bytes
after d [] = []
after d (c ∷ s) = if c == d then s else after d s

push_front : ℕ → List Bytes → List Bytes
push_front c [] = (c ∷ []) ∷ []
push_front c (f ∷ fs) = (c ∷ f) ∷ fs

-- The loop `while (getline(iss, field, d))`: the fields that it sees.
unfoldable pub fields : ℕ → Bytes → List Bytes
unfolding push_front
fields d [] = []
fields d (c ∷ s) = if c == d then [] ∷ fields d s else push_front c (fields d s)

-- `fields` is the loop: nothing at the end of the stream, else one `getline` and the rest.
pub fields_loop :
    (d c : ℕ) (s : Bytes) → fields d (c ∷ s) ≡ before d (c ∷ s) ∷ fields d (after d (c ∷ s))
unfolding fields before after
fields_loop d c [] = ground arith
fields_loop d c (b ∷ s) = ground (arith, fields_loop d b s)

-- A field that holds no delimiter is read back, with what follows it.
pub fields-append :
    (d : ℕ) (f rest : Bytes) → Free d f → fields d (f ++ d ∷ rest) ≡ f ∷ fields d rest
unfolding fields
fields-append d [] rest h = ground arith
fields-append d (c ∷ f) rest h = ground (arith, fields-append d f rest)

pub length-after : (d : ℕ) (s : Bytes) → length (after d s) ≤ length s
unfolding after
length-after d [] = omega arith
length-after d (c ∷ s) = ground (arith, length-after d s)

abbrev pub NoSpace : Bytes → Type 0
NoSpace [] = Unit {0}
NoSpace (c ∷ w) = (is_space c ≡ false) × NoSpace w

-- A word: not empty, and no white space in it.
abbrev pub IsWord : Bytes → Type 0
IsWord [] = ⊥
IsWord (c ∷ w) = NoSpace (c ∷ w)

take_word-append : (w rest : Bytes) → NoSpace w → take_word (w ++ 32 ∷ rest) ≡ w
unfolding take_word
take_word-append [] rest h = refl
take_word-append (c ∷ w) rest h = ground (arith, take_word-append w rest)

drop_word-append : (w rest : Bytes) → NoSpace w → drop_word (w ++ 32 ∷ rest) ≡ 32 ∷ rest
unfolding drop_word
drop_word-append [] rest h = refl
drop_word-append (c ∷ w) rest h = ground (arith, drop_word-append w rest)

-- A word behind which a space stands is read whole.
pub read_word-append :
    (w rest : Bytes) → IsWord w → read_word (w ++ 32 ∷ rest) ≡ some (w, 32 ∷ rest)
unfolding read_word
read_word-append [] rest h = absurd h
read_word-append (c ∷ w) rest h =
    ground (arith, take_word-append w rest h.1, drop_word-append w rest h.1)

pub read_word-space : (s : Bytes) → read_word (32 ∷ s) ≡ read_word s
unfolding read_word
read_word-space s = refl

pub skip_ws-word : (c : ℕ) (s : Bytes) → is_space c ≡ false → skip_ws (c ∷ s) ≡ c ∷ s
unfolding skip_ws
skip_ws-word c s h = ground arith

take_word-all : (w : Bytes) → NoSpace w → take_word w ≡ w
unfolding take_word
take_word-all [] h = refl
take_word-all (c ∷ w) h = ground (arith, take_word-all w)

drop_word-all : (w : Bytes) → NoSpace w → drop_word w ≡ []
unfolding drop_word
drop_word-all [] h = refl
drop_word-all (c ∷ w) h = ground (arith, drop_word-all w)

-- A word at the end of the text is read whole.
pub read_word-all : (w : Bytes) → IsWord w → read_word w ≡ some (w, [])
unfolding read_word
read_word-all [] h = absurd h
read_word-all (c ∷ w) h = ground (arith, take_word-all w h.1, drop_word-all w h.1)

pub Free-append : (d : ℕ) (s t : Bytes) → Free d s → Free d t → Free d (s ++ t)
Free-append d [] t a b = b
Free-append d (c ∷ s) t a b = (a.0, Free-append d s t a.1 b)

-- A text with no white space has no line end.
pub NoSpace-Free : (s : Bytes) → NoSpace s → Free 10 s
unfolding is_space
NoSpace-Free [] h = tt
NoSpace-Free (c ∷ s) h = (ground arith, NoSpace-Free s h.1)

pub IsWord-NoSpace : (w : Bytes) → IsWord w → NoSpace w
IsWord-NoSpace [] h = tt
IsWord-NoSpace (c ∷ w) h = h

pub before-append : (d : ℕ) (s t : Bytes) → Free d s → before d (s ++ d ∷ t) ≡ s
unfolding before
before-append d [] t h = ground arith
before-append d (c ∷ s) t h = ground (arith, before-append d s t h.1)

pub after-append : (d : ℕ) (s t : Bytes) → Free d s → after d (s ++ d ∷ t) ≡ t
unfolding after
after-append d [] t h = ground arith
after-append d (c ∷ s) t h = ground (arith, after-append d s t h.1)

pub before-all : (d : ℕ) (s : Bytes) → Free d s → before d s ≡ s
unfolding before
before-all d [] h = refl
before-all d (c ∷ s) h = ground (arith, before-all d s h.1)
