-- ===== src/Shell/Server/Samples.antt =====
-- Two users, one of whom yells.
use nycu_csic30091_netw.Prelude.{[], ◌∷◌}
use nycu_csic30091_netw.Prelude.Bytes.{Bytes, codes}
use nycu_csic30091_netw.Cxx.Map.{Map}
use nycu_csic30091_netw.Shell.Users.Model.{User}
use nycu_csic30091_netw.Shell.Users.Ids.{newcomer}

abbrev two_users : Map User
two_users = (1, newcomer 50 4 (codes "1:2") 1) ∷ (2, newcomer 51 5 (codes "1:3") 2) ∷ []

abbrev hi : Bytes
hi = codes "hi"
