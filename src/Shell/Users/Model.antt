-- ===== src/Shell/Users/Model.antt =====
-- The operations of UserManager (project2/src/np_multi_proc/src/UserManager.cpp). Each holds the
-- semaphore from its read to its write, so that it is one step on the shared text. A user's numbers
-- are not negative; the null user, whose pid is -1, is `none`.
use nycu_csic30091_netw.Prelude.{ℕ, zero, suc, Bool, true, false, Option, none, some, ◌>>=◌}
use nycu_csic30091_netw.Prelude.{List, [], ◌∷◌, ◌++◌, ltb, if◌then◌else◌, length}
use nycu_csic30091_netw.Prelude.Bytes.{Bytes, str_eq}
use nycu_csic30091_netw.Cxx.Decimal.{to_string}
use nycu_csic30091_netw.Cxx.Numbers.{read_int}
use nycu_csic30091_netw.Cxx.Stream.{fields, read_word}
use nycu_csic30091_netw.Cxx.Map.{Map, find, insert, erase}

pub record User : Type 0 where
  pub pid : ℕ
  pub fd : ℕ
  pub id : ℕ
  pub name : Bytes
  pub ip_addr : Bytes

-- nameUserMap is never walked, so its order is not kept.
abbrev pub NameMap : Type 0
NameMap = List (Bytes × User)

unfoldable pub find_name : Bytes → NameMap → Option User
find_name k [] = none
find_name k ((j, u) ∷ m) = if str_eq j k then some u else find_name k m

unfoldable pub erase_name : Bytes → NameMap → NameMap
erase_name k [] = []
erase_name k ((j, u) ∷ m) = let rest = erase_name k m in if str_eq j k then rest else (j, u) ∷ rest

abbrev pub insert_name : Bytes → User → NameMap → NameMap
insert_name k u m = (k, u) ∷ erase_name k m

pub record Maps : Type 0 where
  pub id_user_map : Map User
  pub pid_user_map : Map User
  pub name_user_map : NameMap

abbrev pub no_users : Maps
no_users = record { id_user_map = []; pid_user_map = []; name_user_map = [] }

abbrev pub shm_size : ℕ
shm_size = 65536

unfoldable pub user_line : User → Bytes
user_line u =
    to_string u.id
    ++ (32 ∷ (to_string u.pid ++ (32 ∷ (to_string u.fd ++ (32 ∷ (u.ip_addr ++ (32 ∷ u.name)))))))

-- The text that writeToSharedMemory writes: a line for each user.
unfoldable pub users_text : Map User → Bytes
users_text [] = []
users_text ((k, u) ∷ m) = user_line u ++ 10 ∷ users_text m

-- `strcpy` into the segment; `none` is a write past its end.
unfoldable pub write_to_shared_memory : Maps → Option Bytes
write_to_shared_memory maps =
    let text = users_text maps.id_user_map in if ltb (length text) shm_size then some text else none

-- `none` is a line that leaves one of the variables without a value.
unfoldable pub read_user : Bytes → Option User
read_user line = do
  (id, s1) ← read_int line
  (pid, s2) ← read_int s1
  (fd, s3) ← read_int s2
  (ip_addr, s4) ← read_word s3
  some (record {
    pid = pid;
    fd = fd;
    id = id;
    name = elim (read_word s4) [ none ↦ [] | some p ↦ p.0 ];
    ip_addr = ip_addr;
  })

-- The body of the loop over the lines.
unfoldable pub add_to_maps : User → Maps → Maps
add_to_maps u m = record {
  id_user_map = insert u.id u m.id_user_map;
  pid_user_map = insert u.pid u m.pid_user_map;
  name_user_map =
      if str_eq u.name [] then m.name_user_map else insert_name u.name u m.name_user_map;
}

unfoldable pub read_lines : List Bytes → Maps → Option Maps
read_lines [] m = some m
read_lines (l ∷ ls) m = do u ← read_user l; read_lines ls (add_to_maps u m)

unfoldable pub read_from_shared_memory : Bytes → Option Maps
read_from_shared_memory shm = read_lines (fields 10 shm) no_users

-- `idMin`; the fuel bounds the rounds of `while (true)`.
unfoldable pub id_min_from : ℕ → ℕ → Map User → Option ℕ
id_min_from zero id m = none
id_min_from (suc f) id m = elim (find id m) [ none ↦ some id | some u ↦ id_min_from f (suc id) m ]

unfoldable pub id_min : Map User → Option ℕ
id_min m = id_min_from (suc (length m)) 1 m

-- The result is the new user and the new text. `ip_addr` is the printed address and port.
unfoldable pub add_user : ℕ → ℕ → Bytes → Bytes → Option (User × Bytes)
add_user pid fd ip_addr shm = do
  maps ← read_from_shared_memory shm
  id ← id_min maps.id_user_map
  let user : User = record { pid = pid; fd = fd; id = id; name = []; ip_addr = ip_addr }
  shm' ← write_to_shared_memory (record maps {
    id_user_map = insert id user maps.id_user_map;
    pid_user_map = insert pid user maps.pid_user_map;
  })
  some (user, shm')

-- `u` is what the iterator that was found leads to.
unfoldable pub remove_from_maps : User → Maps → Maps
remove_from_maps u m = record {
  id_user_map = erase u.id m.id_user_map;
  pid_user_map = erase u.pid m.pid_user_map;
  name_user_map = if str_eq u.name [] then m.name_user_map else erase_name u.name m.name_user_map;
}

-- The removals read the iterator `result` after the erase of the entry that it stands at, which C++ leaves
-- undefined. `kept` says whether the memory of that entry still holds the user; where it does not, the
-- removal gives `none`.
abbrev pub erased_entry : Bool → User → Option User
erased_entry kept u = if kept then some u else none

-- An unknown id leaves the text as it was.
unfoldable pub remove_user_by_id : Bool → ℕ → Bytes → Option Bytes
remove_user_by_id kept id shm = do
  maps ← read_from_shared_memory shm
  elim (find id maps.id_user_map) [
    | none ↦ some shm
    | some u ↦ do read ← erased_entry kept u; write_to_shared_memory (remove_from_maps read maps)
  ]

unfoldable pub remove_user_by_pid : Bool → ℕ → Bytes → Option Bytes
remove_user_by_pid kept pid shm = do
  maps ← read_from_shared_memory shm
  elim (find pid maps.pid_user_map) [
    | none ↦ some shm
    | some u ↦ do read ← erased_entry kept u; write_to_shared_memory (remove_from_maps read maps)
  ]

unfoldable pub get_user_by_id : ℕ → Bytes → Option (Option User)
get_user_by_id id shm = do maps ← read_from_shared_memory shm; some (find id maps.id_user_map)

-- The iterator is compared with the end of another map, so there is no null user here: a pid without a
-- user is a read at the end of pidUserMap, and gives `none`.
unfoldable pub get_user_by_pid : ℕ → Bytes → Option User
get_user_by_pid pid shm = do maps ← read_from_shared_memory shm; find pid maps.pid_user_map

unfoldable pub get_user_by_name : Bytes → Bytes → Option (Option User)
get_user_by_name name shm = do
  maps ← read_from_shared_memory shm
  some (if str_eq name [] then none else find_name name maps.name_user_map)

-- The user that `idUserMap[id]` makes where there is none.
abbrev pub zero_user : User
zero_user = record { pid = 0; fd = 0; id = 0; name = []; ip_addr = [] }

-- `idUserMap[id]`: the user, and the map, which has a new entry if there was none.
unfoldable pub user_at : ℕ → Map User → User × Map User
user_at id m = elim (find id m) [ none ↦ (zero_user, insert id zero_user m) | some u ↦ (u, m) ]

unfoldable pub rename : ℕ → Bytes → Maps → Maps
unfolding user_at
rename id name maps =
    let (user, m) = user_at id maps.id_user_map in
    let user' = record user { name = name } in
    record {
      id_user_map = insert user.id user' m;
      pid_user_map = insert user.pid user' maps.pid_user_map;
      name_user_map = insert_name name user' (erase_name user.name maps.name_user_map);
    }

-- The result is false, and the text as it was, if the name is empty or taken.
unfoldable pub set_name_by_id : ℕ → Bytes → Bytes → Option (Bool × Bytes)
set_name_by_id id name shm = do
  maps ← read_from_shared_memory shm
  holder ← get_user_by_name name shm
  let renamed = (do shm' ← write_to_shared_memory (rename id name maps); some (true, shm'))
  elim holder [
    | some u ↦ some (false, shm)
    | none ↦ if str_eq name [] then some (false, shm) else renamed
  ]
