-- ===== src/Console/Literal.antt =====
-- The literal that renderOutput writes an output into, as JavaScript reads it.
use nycu_csic30091_netw.Prelude.{
  ℕ, Bool, true, false, not, ◌&&◌, ◌||◌, Option, none, some, List, [], ◌∷◌, ◌++◌, ◌==◌,
  if◌then◌else◌, ◌>>=◌, ◌≡◌, refl, arith, ◌∙◌, sym, ap, append_assoc, Bool-cases, inl, inr,
}
use nycu_csic30091_netw.Prelude.Bytes.{Bytes, codes, Free}
use nycu_csic30091_netw.Console.Render.{replace_byte, html_escape_map, escape_from, escape}

replace_byte-append :
    (c : ℕ) (t a b : Bytes) → replace_byte c t (a ++ b) ≡ replace_byte c t a ++ replace_byte c t b
unfolding replace_byte
replace_byte-append c t [] b = refl
replace_byte-append c t (x ∷ a) b =
    ground
      (arith, replace_byte-append c t a b, append_assoc t (replace_byte c t a) (replace_byte c t b))

escape_from-append :
    (m : List (ℕ × Bytes)) (a b : Bytes)
    → escape_from m (a ++ b) ≡ escape_from m a ++ escape_from m b
unfolding escape_from
escape_from-append [] a b = refl
escape_from-append ((c, t) ∷ m) a b =
    rw (replace_byte-append c t a b)
      (escape_from-append m (replace_byte c t a) (replace_byte c t b))

escape-nil : escape [] ≡ []
unfolding escape escape_from replace_byte
escape-nil = refl

pub escape-append : (a b : Bytes) → escape (a ++ b) ≡ escape a ++ escape b
unfolding escape
escape-append a b =
    rw (replace_byte-append b'&' (codes "&amp;") a b) (escape_from-append html_escape_map _ _)

-- The markup of one byte.
unfoldable pub entity : ℕ → Bytes
entity c =
    if c == b'&'
    then codes "&amp;"
    else if c == 10
    then codes "&NewLine;"
    else if c == 32
    then codes "&nbsp;"
    else if c == b'"'
    then codes "&quot;"
    else if c == 39
    then codes "&apos;"
    else if c == b'-'
    then codes "&ndash;"
    else if c == b'<'
    then codes "&lt;"
    else if c == b'>'
    then codes "&gt;"
    else if c == b'|'
    then codes "&#124;"
    else c ∷ []

pub escape-one : (c : ℕ) → escape (c ∷ []) ≡ (if c == 92 then 92 ∷ 92 ∷ [] else entity c)
unfolding escape escape_from replace_byte entity
escape-one c = ground arith

-- A string literal of JavaScript between single quotes, read up to its end: what it stands for and what
-- is behind it. A line end is no part of a literal. Of the escapes only `\\` and `\'` are read. The flag
-- says whether a backslash stands in front.
unfoldable pub read_literal : Bool → Bytes → Option (Bytes × Bytes)
read_literal b [] = none
read_literal true (c ∷ s) =
    let rest = read_literal false s in
    if c == 92 || c == 39 then (do r ← rest; some (c ∷ r.0, r.1)) else none
read_literal false (c ∷ s) =
    let rest = read_literal (c == 92) s in
    if c == 39
    then some ([], s)
    else if c == 10 || c == 13
    then none
    else if c == 92
    then rest
    else (do r ← rest; some (c ∷ r.0, r.1))

abbrev pub markup : Bytes → Bytes
markup [] = []
markup (c ∷ v) = entity c ++ markup v

abbrev pub pushed : Bytes → Option (Bytes × Bytes) → Option (Bytes × Bytes)
pushed m none = none
pushed m (some (a, s)) = some (m ++ a, s)

-- All bytes stand for themselves in a literal.
abbrev pub plain : Bytes → Bool
plain [] = true
plain (c ∷ m) = not (c == 39) && (not (c == 92) && (not (c == 10 || c == 13) && plain m))

pub read_literal-plain :
    (m s : Bytes) → plain m ≡ true → read_literal false (m ++ s) ≡ pushed m (read_literal false s)
unfolding read_literal
read_literal-plain [] s p = ground arith
read_literal-plain (c ∷ m) s p = ground (arith, read_literal-plain m s)

plain-entity : (c : ℕ) → (c == 92) ≡ false → (c == 13) ≡ false → plain (entity c) ≡ true
unfolding entity
plain-entity c h k = ground (arith, h, k)

pub pushed-append :
    (a b : Bytes) (o : Option (Bytes × Bytes)) → pushed a (pushed b o) ≡ pushed (a ++ b) o
pushed-append a b none = refl
pushed-append a b (some (m, s)) = rw (append_assoc a b m) refl

pushed-nil : (o : Option (Bytes × Bytes)) → pushed [] o ≡ o
pushed-nil none = refl
pushed-nil (some (m, s)) = refl

read_literal-backslash :
    (s : Bytes) → read_literal false (92 ∷ 92 ∷ s) ≡ pushed (92 ∷ []) (read_literal false s)
unfolding read_literal
read_literal-backslash s = ground arith

read_literal-byte :
    (c : ℕ) (s : Bytes)
    → (c == 13) ≡ false
    → read_literal false ((if c == 92 then 92 ∷ 92 ∷ [] else entity c) ++ s)
      ≡ pushed (entity c) (read_literal false s)
unfolding entity
read_literal-byte c s k = elim (Bool-cases (c == 92)) [
  | inl e ↦ rw e (read_literal-backslash s ∙ ground (arith, e))
  | inr e ↦ rw e (read_literal-plain (entity c) s (plain-entity c e k))
]

pub read_literal-escape :
    (v s : Bytes)
    → Free 13 v
    → read_literal false (escape v ++ s) ≡ pushed (markup v) (read_literal false s)
read_literal-escape [] s f =
    ap (λ x. read_literal false (x ++ s)) escape-nil ∙ sym (pushed-nil (read_literal false s))
read_literal-escape (c ∷ v) s f =
    ap (λ x. read_literal false (x ++ s))
      (escape-append (c ∷ []) v ∙ ap (λ x. x ++ escape v) (escape-one c))
    ∙ (ap (read_literal false)
          (append_assoc (if c == 92 then 92 ∷ 92 ∷ [] else entity c) (escape v) s)
        ∙ (read_literal-byte c (escape v ++ s) f.0
            ∙ rw (read_literal-escape v s f.1)
                (pushed-append (entity c) (markup v) (read_literal false s))))

-- No byte is `<`.
abbrev pub untagged : Bytes → Bool
untagged [] = true
untagged (c ∷ m) = not (c == b'<') && untagged m

untagged-append : (a b : Bytes) → untagged a ≡ true → untagged b ≡ true → untagged (a ++ b) ≡ true
untagged-append [] b p q = q
untagged-append (c ∷ a) b p q = ground (arith, untagged-append a b)

untagged-byte : (c : ℕ) → untagged (if c == 92 then 92 ∷ 92 ∷ [] else entity c) ≡ true
unfolding entity
untagged-byte c = ground arith

pub untagged-escape : (v : Bytes) → untagged (escape v) ≡ true
untagged-escape [] = rw escape-nil refl
untagged-escape (c ∷ v) =
    rw (escape-append (c ∷ []) v, escape-one c)
      (untagged-append (if c == 92 then 92 ∷ 92 ∷ [] else entity c) (escape v) (untagged-byte c)
        (untagged-escape v))
