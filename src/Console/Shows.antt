-- ===== src/Console/Shows.antt =====
-- What a page shows of a markup, for the references that an output can hold.
use nycu_csic30091_netw.Prelude.{
  ℕ, Bool, true, false, ◌||◌, Option, none, some, List, map, [], ◌∷◌, ◌++◌, ◌==◌, if◌then◌else◌,
  ◌≡◌, refl, arith, ◌∙◌, ap, append_assoc, Bool-cases, inl, inr, subst,
}
use nycu_csic30091_netw.Prelude.Bytes.{Bytes, codes, str_eq}
use nycu_csic30091_netw.Console.Literal.{entity, markup}

-- The references of HTML that an output can hold, by name, with their code points.
unfoldable pub html_entity : Bytes → Option ℕ
html_entity name =
    if str_eq name (codes "amp")
    then some 38
    else if str_eq name (codes "NewLine")
    then some 10
    else if str_eq name (codes "nbsp")
    then some 160
    else if str_eq name (codes "quot")
    then some 34
    else if str_eq name (codes "apos")
    then some 39
    else if str_eq name (codes "ndash")
    then some 8211
    else if str_eq name (codes "lt")
    then some 60
    else if str_eq name (codes "gt")
    then some 62
    else if str_eq name (codes "#124")
    then some 124
    else none

-- A markup with no tags and the text that it shows, in code points.
pub data Shows : Bytes → List ℕ → Type 0 where
  shows_end : Shows [] []
  shows_plain :
      (c : ℕ) (m : Bytes) (t : List ℕ)
      → (c == b'&') ≡ false
      → (c == b'<') ≡ false
      → Shows m t
      → Shows (c ∷ m) (c ∷ t)
  shows_named :
      (name m m' : Bytes) (point : ℕ) (t : List ℕ)
      → html_entity name ≡ some point
      → m' ≡ b'&' ∷ (name ++ b';' ∷ m)
      → Shows m t
      → Shows m' (point ∷ t)

-- What a byte is shown as: a space does not break a line, and a hyphen becomes a dash.
abbrev pub point_of : ℕ → ℕ
point_of c = if c == 32 then 160 else if c == b'-' then 8211 else c

same-Shows :
    (k c : ℕ) (m : Bytes) (t : List ℕ)
    → (c == k) ≡ true
    → Shows (entity k ++ m) (point_of k ∷ t)
    → Shows (entity c ++ m) (point_of c ∷ t)
same-Shows k c m t e h =
    let same : k ≡ c = ground (arith, e) in
    subst (λ x. Shows (entity x ++ m) (point_of x ∷ t)) same h

-- A byte with a reference, by the reference's name.
named-Shows :
    (k : ℕ) (name : Bytes) (c : ℕ) (m : Bytes) (t : List ℕ)
    → html_entity name ≡ some (point_of k)
    → entity k ≡ b'&' ∷ (name ++ b';' ∷ [])
    → Shows m t
    → (c == k) ≡ true
    → Shows (entity c ++ m) (point_of c ∷ t)
named-Shows k name c m t n e h same = same-Shows k c m t same (
    shows_named name m (entity k ++ m) (point_of k) t n
      (ap (λ x. x ++ m) e ∙ ap (λ x. b'&' ∷ x) (append_assoc name (b';' ∷ []) m)) h)

-- The bytes that have a reference, with its name.
abbrev references : List (ℕ × Bytes)
references =
    (38, codes "amp")
    ∷ (10, codes "NewLine")
    ∷ (32, codes "nbsp")
    ∷ (34, codes "quot")
    ∷ (39, codes "apos")
    ∷ (45, codes "ndash")
    ∷ (60, codes "lt")
    ∷ (62, codes "gt")
    ∷ (124, codes "#124")
    ∷ []

abbrev AreNamed : List (ℕ × Bytes) → Type 0
AreNamed [] = Unit {0}
AreNamed ((k, name) ∷ rs) =
    (html_entity name ≡ some (point_of k)) × (entity k ≡ b'&' ∷ (name ++ b';' ∷ [])) × AreNamed rs

abbrev among : ℕ → List (ℕ × Bytes) → Bool
among c [] = false
among c ((k, name) ∷ rs) = c == k || among c rs

references-AreNamed : AreNamed references
unfolding html_entity entity str_eq
references-AreNamed = (
  refl,
  refl,
  (
    refl,
    refl,
    (
      refl,
      refl,
      (refl, refl, (refl, refl, (refl, refl, (refl, refl, (refl, refl, (refl, refl, tt)))))),
    ),
  ),
)

among-Shows :
    (rs : List (ℕ × Bytes)) (c : ℕ) (m : Bytes) (t : List ℕ)
    → AreNamed rs
    → Shows m t
    → among c rs ≡ true
    → Shows (entity c ++ m) (point_of c ∷ t)
among-Shows [] c m t v h e = cc
among-Shows ((k, name) ∷ rs) c m t v h e = elim (Bool-cases (c == k)) [
  | inl same ↦ named-Shows k name c m t v.0 v.1 h same
  | inr other ↦ among-Shows rs c m t v.2 h (ground (arith, e, other))
]

lone :
    (c : ℕ)
    → among c references ≡ false
    → (entity c ≡ c ∷ []) × (point_of c ≡ c) × ((c == b'&') ≡ false) × ((c == b'<') ≡ false)
unfolding entity
lone c e = (ground (arith, e), ground (arith, e), ground (arith, e), ground (arith, e))

plain-Shows :
    (c : ℕ) (m : Bytes) (t : List ℕ)
    → Shows m t
    → among c references ≡ false
    → Shows (entity c ++ m) (point_of c ∷ t)
plain-Shows c m t h e =
    let (same, point, amp, tag) = lone c e in rw same (rw point (shows_plain c m t amp tag h))

Shows-entity : (c : ℕ) (m : Bytes) (t : List ℕ) → Shows m t → Shows (entity c ++ m) (point_of c ∷ t)
Shows-entity c m t h = elim (Bool-cases (among c references)) [
  | inl e ↦ among-Shows references c m t references-AreNamed h e
  | inr e ↦ plain-Shows c m t h e
]

pub Shows-markup : (v : Bytes) → Shows (markup v) (map point_of v)
Shows-markup [] = shows_end
Shows-markup (c ∷ v) = Shows-entity c (markup v) (map point_of v) (Shows-markup v)
