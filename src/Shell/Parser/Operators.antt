-- ===== src/Shell/Parser/Operators.antt =====
-- What Parser::isOperator takes for an operator.
use nycu_csic30091_netw.Prelude.{
  ℕ, ◌≤◌, Bool, true, ◌||◌, some, List, [], ◌∷◌, ◌==◌, ◌≡◌, refl, arith, inl, inr, Bool-cases,
}
use nycu_csic30091_netw.Prelude.Bytes.{Bytes, codes}
use nycu_csic30091_netw.Cxx.Decimal.{AllDigits, is_digit}
use nycu_csic30091_netw.Cxx.Regex.{Item, one, many, lit, range, regex_match, accepts, compile}
use nycu_csic30091_netw.Shell.Parser.Model.{operator_types, matches_any, is_operator}

abbrev pub is_mark : ℕ → Bool
is_mark c = c == b'|' || c == b'!' || c == b'<' || c == b'>'

-- An operator: to the next command, to a file, or with a number that is not zero.
pub data IsOperator : Bytes → Type 0 where
  next : IsOperator (codes "|")
  file : IsOperator (codes ">")
  numbered :
      (c d : ℕ) (s : Bytes)
      → is_mark c ≡ true
      → 49 ≤ d
      → d ≤ 57
      → AllDigits s
      → IsOperator (c ∷ d ∷ s)

abbrev pub AreOperators : List Bytes → Type 0
AreOperators [] = Unit {0}
AreOperators (o ∷ os) = IsOperator o × AreOperators os

many_digits : (s : Bytes) → regex_match (many (range 48 57) ∷ []) s ≡ true → AllDigits s
unfolding regex_match accepts is_digit
many_digits [] h = tt
many_digits (c ∷ s) h = ground (arith, many_digits s)

pub numbered_match :
    (x : ℕ) (s : Bytes)
    → is_mark x ≡ true
    → regex_match (one (lit x) ∷ one (range 49 57) ∷ many (range 48 57) ∷ []) s ≡ true
    → IsOperator s
unfolding regex_match accepts
numbered_match x [] m h = cc
numbered_match x (c ∷ []) m h = ground arith
numbered_match x (c ∷ d ∷ s) m h =
    numbered c d s (ground arith) (ground arith) (ground arith) (many_digits s (ground arith))

pub alone_match : (x : ℕ) (s : Bytes) → regex_match (one (lit x) ∷ []) s ≡ true → s ≡ x ∷ []
unfolding regex_match accepts
alone_match x [] h = cc
alone_match x (c ∷ []) h = ground arith
alone_match x (c ∷ d ∷ s) h = ground arith

-- What a pattern matches is an operator.
abbrev pub Gives : Bytes → Type 0
Gives pat =
    (items : List Item) × (compile pat ≡ some items)
    × ((s : Bytes) → regex_match items s ≡ true → IsOperator s)

abbrev pub AllGive : List Bytes → Type 0
AllGive [] = Unit {0}
AllGive (pat ∷ pats) = Gives pat × AllGive pats

pub any_match :
    (pats : List Bytes) (s : Bytes) → AllGive pats → matches_any pats s ≡ true → IsOperator s
unfolding matches_any
any_match [] s g h = cc
any_match (pat ∷ pats) s ((items, e, give), g) h = elim (Bool-cases (regex_match items s)) [
  | inl m ↦ give s m
  | inr n ↦ any_match pats s g (ground (arith, e, h, n))
]

operator_types_give : AllGive operator_types
unfolding compile
operator_types_give = (
  (_, refl, λ s m. rw (alone_match b'|' s m) next),
  (
    (_, refl, λ s. numbered_match b'|' s refl),
    (
      (_, refl, λ s. numbered_match b'!' s refl),
      (
        (_, refl, λ s. numbered_match b'<' s refl),
        (
          (_, refl, λ s. numbered_match b'>' s refl),
          ((_, refl, λ s m. rw (alone_match b'>' s m) file), tt),
        ),
      ),
    ),
  ),
)

pub is_operator-IsOperator : (s : Bytes) → is_operator s ≡ true → IsOperator s
unfolding is_operator
is_operator-IsOperator s h = any_match operator_types s operator_types_give h
