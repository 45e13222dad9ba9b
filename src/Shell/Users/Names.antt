-- ===== src/Shell/Users/Names.antt =====
-- UserManager::setNameById: no two users bear the same name.
use nycu_csic30091_netw.Prelude.{ℕ, some, []}
use nycu_csic30091_netw.Prelude.{◌≡◌, ◌≢◌}
use nycu_csic30091_netw.Prelude.Bytes.{Bytes}
use nycu_csic30091_netw.Cxx.Map.{Map, find}
use nycu_csic30091_netw.Shell.Users.Model.{User}

-- Two users with the same name, which is not empty, are one.
abbrev pub NamesDiffer : Map User → Type 0
NamesDiffer m =
    (j k : ℕ) (u w : User)
    → find j m ≡ some u
    → find k m ≡ some w
    → u.name ≡ w.name
    → u.name ≢ []
    → j ≡ k
