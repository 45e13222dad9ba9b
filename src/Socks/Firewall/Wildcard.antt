-- ===== src/Socks/Firewall/Wildcard.antt =====
-- The regular expression that loadConfigFile makes of a filter, against a reading of the filter as a
-- wildcard: `*` stands for any run of bytes and every other byte for itself.
use nycu_csic30091_netw.Prelude.{ℕ, true, false, ◌||◌, ◌≡◌, refl, arith, ◌↔◌}
use nycu_csic30091_netw.Prelude.{some, inl, inr, List, [], ◌∷◌, ◌==◌, ◌>>=◌}
use nycu_csic30091_netw.Prelude.{if◌then◌else◌, Bool-cases}
use nycu_csic30091_netw.Prelude.Bytes.{Bytes}
use nycu_csic30091_netw.Cxx.Regex.{Item, one, many, Atom, lit, any, Token, atom, star, start}
use nycu_csic30091_netw.Cxx.Regex.{is_special, scan, scan_step, group, compile, accepts}
use nycu_csic30091_netw.Cxx.Regex.{regex_match}
use nycu_csic30091_netw.Socks.Firewall.Defs.{escape_dots, expand_stars, filter_regex}

-- A byte that a filter may hold: no operator of the regular expressions but `*` and `.`.
abbrev pub IsPlain : ℕ → Type 0
IsPlain c = ((c == 92) ≡ false) × ((c == b'[') ≡ false) × (is_special c ≡ false)

abbrev pub AllPlain : Bytes → Type 0
AllPlain [] = Unit {0}
AllPlain (c ∷ f) = IsPlain c × AllPlain f

pub data Covers : Bytes → Bytes → Type 0 where
  done : Covers [] []
  same : {c d : ℕ} {f s : Bytes} → (c == b'*') ≡ false → d ≡ c → Covers f s → Covers (c ∷ f) (d ∷ s)
  skip : {c : ℕ} {f s : Bytes} → (c == b'*') ≡ true → Covers f s → Covers (c ∷ f) s
  take_one :
      {c d : ℕ} {f s : Bytes}
      → (c == b'*') ≡ true
      → (d == 10 || d == 13) ≡ false
      → Covers (c ∷ f) s
      → Covers (c ∷ f) (d ∷ s)

tokens_of : Bytes → List Token
tokens_of [] = []
tokens_of (c ∷ f) =
    let rest = tokens_of f in if c == b'*' then atom any ∷ star ∷ rest else atom (lit c) ∷ rest

abbrev item_of : ℕ → Item
item_of c = if c == b'*' then many any else one (lit c)

abbrev pub items_of : Bytes → List Item
items_of [] = []
items_of (c ∷ f) = item_of c ∷ items_of f

scan-filter_regex : (f : Bytes) → AllPlain f → scan start (filter_regex f) ≡ some (tokens_of f)
unfolding scan scan_step filter_regex escape_dots expand_stars tokens_of
scan-filter_regex [] h = refl
scan-filter_regex (c ∷ f) h = ground (arith, scan-filter_regex f h.1)

group-atom :
    (a : Atom) (f : Bytes)
    → group (atom a ∷ tokens_of f) ≡ (do rest ← group (tokens_of f); some (one a ∷ rest))
unfolding tokens_of
group-atom a [] = unfold group in refl
group-atom a (c ∷ f) = elim (Bool-cases (c == b'*')) [
  | inl e ↦ rw e (unfold group in refl)
  | inr e ↦ rw e (unfold group in refl)
]

group-tokens_of : (f : Bytes) → group (tokens_of f) ≡ some (items_of f)
unfolding group tokens_of
group-tokens_of [] = refl
group-tokens_of (c ∷ f) = ground (arith, group-tokens_of f, group-atom (lit c) f)

pub compile-filter_regex : (f : Bytes) → AllPlain f → compile (filter_regex f) ≡ some (items_of f)
unfolding compile
compile-filter_regex f h = rw (scan-filter_regex f h) (group-tokens_of f)

regex_match→Covers : (f s : Bytes) → regex_match (items_of f) s ≡ true → Covers f s
unfolding regex_match accepts
regex_match→Covers [] [] h = done
regex_match→Covers [] (d ∷ s) h = cc
regex_match→Covers (c ∷ f) [] h = elim (Bool-cases (c == b'*')) [
  | inl e ↦ skip e (regex_match→Covers f [] (ground arith))
  | inr e ↦ absurd (ground arith)
]
regex_match→Covers (c ∷ f) (d ∷ s) h = elim (Bool-cases (c == b'*')) [
  | inr e ↦ same e (ground arith) (regex_match→Covers f s (ground arith))
  | inl e ↦ elim (Bool-cases (regex_match (items_of f) (d ∷ s))) [
    | inl now ↦ skip e (regex_match→Covers f (d ∷ s) now)
    | inr later ↦ take_one e (ground arith) (regex_match→Covers (c ∷ f) s (ground arith))
  ]
]

Covers→regex_match : {f s : Bytes} → Covers f s → regex_match (items_of f) s ≡ true
unfolding regex_match accepts
Covers→regex_match done = refl
Covers→regex_match (same n e d) = ground (arith, Covers→regex_match d)
Covers→regex_match (skip {s = []} e d) = ground (arith, Covers→regex_match d)
Covers→regex_match (skip {s = x ∷ s} e d) = ground (arith, Covers→regex_match d)
Covers→regex_match (take_one e n d) = ground (arith, Covers→regex_match d)

pub regex_match_filter_iff : (f s : Bytes) → (regex_match (items_of f) s ≡ true) ↔ Covers f s
regex_match_filter_iff f s = (regex_match→Covers f s, Covers→regex_match)

-- The pattern that loadConfigFile makes of a plain filter is a regular expression, and it matches
-- exactly the texts that the filter covers as a wildcard.
pub filter_regex-Covers :
    (f s : Bytes)
    → AllPlain f
    → (items : List Item) × (compile (filter_regex f) ≡ some items)
      × ((regex_match items s ≡ true) ↔ Covers f s)
filter_regex-Covers f s h = (items_of f, compile-filter_regex f h, regex_match_filter_iff f s)
