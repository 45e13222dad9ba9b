-- ===== src/Cxx/Map.antt =====
-- std::map<int, V>: the entries in the order of their keys.
use nycu_csic30091_netw.Prelude.{ℕ, suc, ◌+◌, ◌≤◌, ◌<◌, Option, none, some}
use nycu_csic30091_netw.Prelude.{
  List, [], ◌∷◌, ◌++◌, ◌≡◌, refl, arith, ◌==◌, ltb, if◌then◌else◌, length,
}

abbrev pub Map {ℓ} : Type ℓ → Type ℓ
Map V = List (ℕ × V)

module _ {ℓ} {V : Type ℓ} where
  unfoldable pub find : ℕ → Map V → Option V
  find k [] = none
  find k ((j, v) ∷ m) = if j == k then some v else find k m

  -- `m[k] = v`
  unfoldable pub insert : ℕ → V → Map V → Map V
  insert k v [] = (k, v) ∷ []
  insert k v ((j, w) ∷ m) =
      let rest = insert k v m in
      if ltb k j then (k, v) ∷ (j, w) ∷ m else if k == j then (k, v) ∷ m else (j, w) ∷ rest

  unfoldable pub erase : ℕ → Map V → Map V
  erase k [] = []
  erase k ((j, w) ∷ m) = let rest = erase k m in if j == k then rest else (j, w) ∷ rest

  -- All keys are at least `n` and rise along the list.
  abbrev pub Above : ℕ → Map V → Type 0
  Above n [] = Unit {0}
  Above n ((j, w) ∷ m) = (n ≤ j) × Above (suc j) m

  pub Above-weaken : (m : Map V) (n n' : ℕ) → n' ≤ n → Above n m → Above n' m
  Above-weaken [] n n' h a = tt
  Above-weaken ((j, w) ∷ m) n n' h a = (omega arith, a.1)

  pub find-insert :
      (k j : ℕ) (v : V) (m : Map V) → find j (insert k v m) ≡ (if k == j then some v else find j m)
  unfolding find insert
  find-insert k j v [] = refl
  find-insert k j v ((i, w) ∷ m) = ground (arith, find-insert k j v m)

  pub find-erase : (k j : ℕ) (m : Map V) → find j (erase k m) ≡ (if k == j then none else find j m)
  unfolding find erase
  find-erase k j [] = ground arith
  find-erase k j ((i, w) ∷ m) = ground (arith, find-erase k j m)

  pub insert-Above : (n k : ℕ) (v : V) (m : Map V) → n ≤ k → Above n m → Above n (insert k v m)
  unfolding insert
  insert-Above n k v [] h a = (h, tt)
  insert-Above n k v ((j, w) ∷ m) h a = ground (arith, insert-Above (suc j) k v m)

  pub erase-Above : (n k : ℕ) (m : Map V) → Above n m → Above n (erase k m)
  unfolding erase
  erase-Above n k [] a = tt
  erase-Above n k ((j, w) ∷ m) a =
      ground (arith, erase-Above (suc j) k m, Above-weaken (erase k m) (suc j) n)

  -- A key above all others goes to the end.
  pub insert-last :
      (n k : ℕ) (v : V) (m rest : Map V)
      → Above n (m ++ (k, v) ∷ rest)
      → insert k v m ≡ m ++ (k, v) ∷ []
  unfolding insert
  insert-last n k v [] rest a = refl
  insert-last n k v ((j, w) ∷ m) rest a =
      ground (arith, insert-last (suc j) k v m rest a.1, key_above (suc j) m a.1)
    where
      key_above : (n : ℕ) (m : Map V) → Above n (m ++ (k, v) ∷ rest) → n ≤ k
      key_above n [] a = a.0
      key_above n ((i, u) ∷ m) a = omega (arith, key_above (suc i) m a.1)

  -- The entries with a key from `n` on.
  abbrev pub count_from : ℕ → Map V → ℕ
  count_from n [] = 0
  count_from n ((j, w) ∷ m) = (if ltb j n then 0 else 1) + count_from n m

  count_from-suc : (n : ℕ) (m : Map V) → count_from (suc n) m ≤ count_from n m
  count_from-suc n [] = omega arith
  count_from-suc n ((j, w) ∷ m) = ground (arith, count_from-suc n m)

  pub count_from-found :
      (n : ℕ) (v : V) (m : Map V) → find n m ≡ some v → count_from (suc n) m < count_from n m
  unfolding find
  count_from-found n v [] e = cc
  count_from-found n v ((j, w) ∷ m) e = ground (arith, count_from-found n v m, count_from-suc n m)

  pub count_from-le : (n : ℕ) (m : Map V) → count_from n m ≤ length m
  count_from-le n [] = omega arith
  count_from-le n ((j, w) ∷ m) = ground (arith, count_from-le n m)
