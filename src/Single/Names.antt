-- ===== src/Single/Names.antt =====
-- std::map<string, User*>: only look-ups, assignments and removals are used, so the order is not kept.
use nycu_csic30091_netw.Prelude.{ℕ, Option, none, some, List, [], ◌∷◌, if◌then◌else◌, ◌≡◌, arith}
use nycu_csic30091_netw.Prelude.Bytes.{Bytes, str_eq, str_eq_iff}

abbrev pub NameMap : Type 0
NameMap = List (Bytes × ℕ)

unfoldable pub find_name : Bytes → NameMap → Option ℕ
find_name k [] = none
find_name k ((j, p) ∷ m) = if str_eq j k then some p else find_name k m

unfoldable pub erase_name : Bytes → NameMap → NameMap
erase_name k [] = []
erase_name k ((j, p) ∷ m) = let rest = erase_name k m in if str_eq j k then rest else (j, p) ∷ rest

-- `m[k] = p`
unfoldable pub insert_name : Bytes → ℕ → NameMap → NameMap
insert_name k p m = (k, p) ∷ erase_name k m

pub find_name-erase_name :
    (k j : Bytes) (m : NameMap)
    → find_name j (erase_name k m) ≡ (if str_eq k j then none else find_name j m)
unfolding find_name erase_name
find_name-erase_name k j [] = ground arith
find_name-erase_name k j ((i, p) ∷ m) =
    ground (arith, find_name-erase_name k j m, str_eq_iff i k, str_eq_iff i j, str_eq_iff k j)

pub find_name-insert_name :
    (k j : Bytes) (p : ℕ) (m : NameMap)
    → find_name j (insert_name k p m) ≡ (if str_eq k j then some p else find_name j m)
unfolding find_name insert_name
find_name-insert_name k j p m = ground (arith, find_name-erase_name k j m)
