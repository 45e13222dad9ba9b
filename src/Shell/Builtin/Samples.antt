-- ===== src/Shell/Builtin/Samples.antt =====
-- The search path of a shell, and a user who tells itself something.
use nycu_csic30091_netw.Prelude.{none, some, ◌≡◌, refl, [], ◌∷◌}
use nycu_csic30091_netw.Prelude.Bytes.{codes, Bytes}
use nycu_csic30091_netw.Cxx.Decimal.{read_number, digits_value, is_digit}
use nycu_csic30091_netw.Cxx.Map.{Map}
use nycu_csic30091_netw.Cxx.Stream.{is_space, skip_ws}
use nycu_csic30091_netw.Shell.Users
use nycu_csic30091_netw.Shell.Users.Model.{User}
use nycu_csic30091_netw.Shell.Users.Ids.{newcomer}
use nycu_csic30091_netw.Shell.Messages
use nycu_csic30091_netw.Shell.Builtin.Model.{negsuc, stoi, read_signed, tell_text}
use nycu_csic30091_netw.Cxx.TextMap.{TextMap}
use nycu_csic30091_netw.Shell.Builtin.Env.{Kept, find_kept}

abbrev sample_path : Kept
sample_path = record { name = codes "PATH"; original = codes "/bin"; value = codes "bin:." }

abbrev sample_vars : TextMap
sample_vars = (codes "PATH", codes "/bin") ∷ (codes "HOME", codes "/") ∷ []

no_other : find_kept (codes "PATH") [] ≡ none
unfolding find_kept
no_other = refl

abbrev talker : User
talker = newcomer 50 4 (codes "1:2") 1

abbrev one_user : Map User
one_user = (1, talker) ∷ []

abbrev told_text : Bytes
told_text = tell_text [] (codes "hi")

below_zero : stoi (codes "-12") ≡ some (negsuc 11)
unfolding stoi read_signed read_number skip_ws is_digit digits_value is_space
below_zero = refl
