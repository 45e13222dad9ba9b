-- ===== src/Single/Users.antt =====
-- UserManager of np_single_proc. A pointer is a key of the heap; `none` stands for the read through a
-- null pointer, or through one to an object that is gone, or of an entry that is gone or not there.
use nycu_csic30091_netw.Prelude.{
  ℕ, zero, suc, Bool, true, false, Option, none, some, [], length, if◌then◌else◌, ◌>>=◌,
}
use nycu_csic30091_netw.Prelude.Bytes.{Bytes, str_eq}
use nycu_csic30091_netw.Cxx.Map.{Map, find, insert, erase}
use nycu_csic30091_netw.Cxx.TextMap.{TextMap, find_text, set_text}
use nycu_csic30091_netw.Single.Names.{NameMap, find_name, insert_name, erase_name}

-- `ip_addr` is the printed address and port.
pub record User : Type 0 where
  pub fd : ℕ
  pub id : ℕ
  pub name : Bytes
  pub name_change_count : ℕ
  pub ip_addr : Bytes

pub record UserManager : Type 0 where
  pub heap : Map User
  pub id_user_map : Map ℕ
  pub fd_user_map : Map ℕ
  pub name_user_map : NameMap
  pub ip_username_map : TextMap

abbrev pub no_users : UserManager
no_users = record {
  heap = [];
  id_user_map = [];
  fd_user_map = [];
  name_user_map = [];
  ip_username_map = [];
}

unfoldable pub id_min_from : ℕ → ℕ → Map ℕ → Option ℕ
id_min_from zero id m = none
id_min_from (suc f) id m = elim (find id m) [ none ↦ some id | some p ↦ id_min_from f (suc id) m ]

unfoldable pub id_min : Map ℕ → Option ℕ
id_min m = id_min_from (suc (length m)) 1 m

abbrev pub or_empty : Option Bytes → Bytes
or_empty none = []
or_empty (some n) = n

-- A name that was noted for the address goes into the map of names too.
abbrev pub note_name : Option Bytes → ℕ → NameMap → NameMap
note_name none p names = names
note_name (some n) p names = insert_name n p names

-- `p` is what `new User()` gives. The result is the id of the new user.
unfoldable pub add_user : ℕ → ℕ → Bytes → UserManager → Option (ℕ × UserManager)
add_user p fd ip m = do
  id ← id_min m.id_user_map
  let noted = find_text ip m.ip_username_map
  let user : User = record {
    fd = fd;
    id = id;
    name = or_empty noted;
    name_change_count = 0;
    ip_addr = ip;
  }
  some (
    id,
    record {
      heap = insert p user m.heap;
      id_user_map = insert id p m.id_user_map;
      fd_user_map = insert fd p m.fd_user_map;
      name_user_map = note_name noted p m.name_user_map;
      ip_username_map = set_text ip (or_empty noted) m.ip_username_map;
    },
  )

-- The user that a pointer leads to is taken out of the maps, and deleted.
unfoldable pub forget : ℕ → ℕ → ℕ → User → UserManager → UserManager
forget id fd p u m = record m {
  heap = erase p m.heap;
  id_user_map = erase id m.id_user_map;
  fd_user_map = erase fd m.fd_user_map;
  name_user_map = if str_eq u.name [] then m.name_user_map else erase_name u.name m.name_user_map;
}

-- The removals read the iterator `result` after the erase of the entry that it stands at, which C++ leaves
-- undefined. `kept` says whether the memory of that entry still holds the pointer `p`; where it does not,
-- the read goes nowhere.
abbrev pub erased_entry : Bool → ℕ → Option ℕ
erased_entry kept p = if kept then some p else none

unfoldable pub remove_user_by_id : Bool → ℕ → UserManager → Option UserManager
remove_user_by_id kept id m = elim (find id m.id_user_map) [
  | none ↦ some m
  | some p ↦ do q ← erased_entry kept p; u ← find q m.heap; some (forget id u.fd q u m)
]

-- The id is read before the entry is erased, the name after it.
unfoldable pub remove_user_by_fd : Bool → ℕ → UserManager → Option UserManager
remove_user_by_fd kept fd m = elim (find fd m.fd_user_map) [
  | none ↦ some m
  | some p ↦ do
    u ← find p m.heap
    q ← erased_entry kept p
    named ← find q m.heap
    some (forget u.id fd q named m)
]

-- Pointers, `none` being the null pointer.
unfoldable pub get_user_by_id : ℕ → UserManager → Option ℕ
get_user_by_id id m = find id m.id_user_map

-- The iterator is compared with the end of another map, so there is no null pointer here: `none` is the
-- read at the end of fdUserMap, for a descriptor without a user.
unfoldable pub get_user_by_fd : ℕ → UserManager → Option ℕ
get_user_by_fd fd m = find fd m.fd_user_map

unfoldable pub get_user_by_name : Bytes → UserManager → Option ℕ
get_user_by_name name m = if str_eq name [] then none else find_name name m.name_user_map

abbrev pub is_null : Option ℕ → Bool
is_null none = true
is_null (some p) = false

unfoldable pub set_name_by_id : ℕ → Bytes → UserManager → Option (Bool × UserManager)
set_name_by_id id name m =
    let renamed = (do
      p ← get_user_by_id id m
      user ← find p m.heap
      some (
        true,
        record m {
          heap = insert p (record user { name = name }) m.heap;
          name_user_map = insert_name name p (erase_name user.name m.name_user_map);
        },
      )) in
    if is_null (get_user_by_name name m)
    then (if str_eq name [] then some (false, m) else renamed)
    else some (false, m)
