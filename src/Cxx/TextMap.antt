-- ===== src/Cxx/TextMap.antt =====
-- std::map<string, string>. Only look-ups and assignments are used, so the order is not kept.
use nycu_csic30091_netw.Prelude.{Option, none, some, List, [], ◌∷◌, if◌then◌else◌, ◌≡◌, arith}
use nycu_csic30091_netw.Prelude.Bytes.{Bytes, str_eq, str_eq_iff}

abbrev pub TextMap : Type 0
TextMap = List (Bytes × Bytes)

unfoldable pub find_text : Bytes → TextMap → Option Bytes
find_text k [] = none
find_text k ((j, v) ∷ m) = if str_eq j k then some v else find_text k m

-- `m[k] = v`
unfoldable pub set_text : Bytes → Bytes → TextMap → TextMap
set_text k v [] = (k, v) ∷ []
set_text k v ((j, w) ∷ m) =
    let rest = set_text k v m in if str_eq j k then (k, v) ∷ m else (j, w) ∷ rest

pub find_text-set_text :
    (k j v : Bytes) (m : TextMap)
    → find_text j (set_text k v m) ≡ (if str_eq k j then some v else find_text j m)
unfolding find_text set_text
find_text-set_text k j v [] = ground arith
find_text-set_text k j v ((i, u) ∷ m) =
    ground (arith, find_text-set_text k j v m, str_eq_iff i k, str_eq_iff i j, str_eq_iff k j)
