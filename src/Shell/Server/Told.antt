-- ===== src/Shell/Server/Told.antt =====
-- Who is told something.
use nycu_csic30091_netw.Prelude.{ℕ, Bool, not, ◌&&◌, [], ◌∷◌, ◌==◌, if◌then◌else◌, refl}
use nycu_csic30091_netw.Prelude.Bytes.{Bytes, Free}
use nycu_csic30091_netw.Cxx.Map.{Map}
use nycu_csic30091_netw.Cxx.Stream.{is_space}
use nycu_csic30091_netw.Shell.Users.Model.{User}
use nycu_csic30091_netw.Shell.Messages.Model.{Queue}
use nycu_csic30091_netw.Shell.Messages.Text.{IsPlainMessage, StartsPlain}
use nycu_csic30091_netw.Shell.Server.Model.{tell_message}

-- A message for each user in the order of the ids, without the sender where it is not included.
abbrev pub told : Bytes → Bool → ℕ → Map User → Queue
told text include_self self [] = []
told text include_self self ((k, u) ∷ m) =
    let rest = told text include_self self m in
    if not include_self && (u.pid == self) then rest else tell_message text u.pid ∷ rest

pub tell_message-IsPlainMessage :
    (text : Bytes) (pid : ℕ)
    → Free 10 text
    → StartsPlain text
    → IsPlainMessage (tell_message text pid)
unfolding is_space
tell_message-IsPlainMessage text pid f p = record {
  kind_word = (refl, (refl, (refl, (refl, tt))));
  value_line = f;
  value_front = p;
}
