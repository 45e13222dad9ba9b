-- ===== src/Single/Requests.antt =====
-- What the server asks of its users, and the steps of a table of users that these requests stand for.
use nycu_csic30091_netw.Prelude.{
  ℕ, ◌≤◌, ◌<◌, Bool, true, false, Option, none, some, [], if◌then◌else◌, ◌>>=◌, ◌≡◌, ◌≢◌, ◌==◌, ◌⊎◌,
}
use nycu_csic30091_netw.Prelude.Bytes.{Bytes}
use nycu_csic30091_netw.Cxx.Map.{find}
use nycu_csic30091_netw.Single.Users.{
  User, UserManager, add_user, remove_user_by_id, remove_user_by_fd, set_name_by_id,
}
use nycu_csic30091_netw.Single.Table.{Table, table_of}

-- What the server asks of the users: `enter` has the pointer that `new` gives, and a descriptor and
-- an address.
pub data Request : Type 0 where
  enter : ℕ → ℕ → Bytes → Request
  leave_id : ℕ → Request
  leave_fd : ℕ → Request
  rename : ℕ → Bytes → Request

pub data Reply : Type 0 where
  new_id : ℕ → Reply
  told : Bool → Reply
  silent : Reply

-- `kept` is for the entry that a removal erases.
unfoldable pub serve : Bool → Request → UserManager → Option (Reply × UserManager)
serve kept (enter p fd ip) m = add_user p fd ip m >>= λ r. some (new_id r.0, r.1)
serve kept (leave_id id) m = remove_user_by_id kept id m >>= λ m'. some (silent, m')
serve kept (leave_fd fd) m = remove_user_by_fd kept fd m >>= λ m'. some (silent, m')
serve kept (rename id name) m = set_name_by_id id name m >>= λ r. some (told r.0, r.1)

abbrev pub newcomer : ℕ → ℕ → Bytes → User
newcomer fd id ip = record { fd = fd; id = id; name = []; name_change_count = 0; ip_addr = ip }

-- The table with one entry changed.
abbrev pub put : ℕ → Option User → Table → Table
put id o t j = if id == j then o else t j

-- A user of the table bears the name.
abbrev pub Bears : Table → Bytes → Type 0
Bears t name = (id : ℕ) × (u : User) × (t id ≡ some u) × (u.name ≡ name)

-- The steps of a table: the first one is the answer, the second the new table.
pub data TableStep (t t' : Table) : Request → Reply → Type 0 where
  entered :
      (p fd id : ℕ) (ip : Bytes)
      → 1 ≤ id
      → t id ≡ none
      → ((j : ℕ) → 1 ≤ j → j < id → t j ≢ none)
      → ((j : ℕ) → t' j ≡ put id (some (newcomer fd id ip)) t j)
      → TableStep t t' (enter p fd ip) (new_id id)
  left_by_id : (id : ℕ) → ((j : ℕ) → t' j ≡ put id none t j) → TableStep t t' (leave_id id) silent
  left_by_fd :
      (fd id : ℕ) (u : User)
      → t id ≡ some u
      → u.fd ≡ fd
      → ((j : ℕ) → t' j ≡ put id none t j)
      → TableStep t t' (leave_fd fd) silent
  nobody_left :
      (fd : ℕ)
      → ((id : ℕ) (u : User) → t id ≡ some u → u.fd ≢ fd)
      → ((j : ℕ) → t' j ≡ t j)
      → TableStep t t' (leave_fd fd) silent
  refused :
      (id : ℕ) (name : Bytes)
      → (name ≡ []) ⊎ Bears t name
      → ((j : ℕ) → t' j ≡ t j)
      → TableStep t t' (rename id name) (told false)
  was_renamed :
      (id : ℕ) (name : Bytes) (u : User)
      → name ≢ []
      → (Bears t name → ⊥)
      → t id ≡ some u
      → ((j : ℕ) → t' j ≡ put id (some (record u { name = name })) t j)
      → TableStep t t' (rename id name) (told true)

-- The request takes out a user who is there.
abbrev pub TakesOut : Table → Request → Type 0
TakesOut t (enter p fd ip) = ⊥
TakesOut t (leave_id id) = (u : User) × (t id ≡ some u)
TakesOut t (leave_fd fd) = (id : ℕ) × (u : User) × (t id ≡ some u) × (u.fd ≡ fd)
TakesOut t (rename id name) = ⊥

-- What the server sees to: `new` gives an address with no object, and the descriptor of a new client is
-- no other user's; a user who asks for a name is there.
abbrev pub IsReady : Request → UserManager → Type 0
IsReady (enter p fd ip) m = (find p m.heap ≡ none) × (find fd m.fd_user_map ≡ none)
IsReady (leave_id id) m = Unit {0}
IsReady (leave_fd fd) m = Unit {0}
IsReady (rename id name) m = table_of m id ≢ none
