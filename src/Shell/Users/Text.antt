-- ===== src/Shell/Users/Text.antt =====
-- What UserManager writes to shared memory is what it reads back.
use nycu_csic30091_netw.Prelude.{ℕ, none, some}
use nycu_csic30091_netw.Prelude.{[], ◌∷◌, ◌++◌, ◌≡◌, refl, ap, sym, subst, ◌∙◌}
use nycu_csic30091_netw.Prelude.{append_assoc, append-nil}
use nycu_csic30091_netw.Prelude.Bytes.{Bytes, Free}
use nycu_csic30091_netw.Cxx.Decimal.{to_string, is_digit, to_string-Free}
use nycu_csic30091_netw.Cxx.Numbers.{read_int-to_string, read_int-space}
use nycu_csic30091_netw.Cxx.Stream.{
  fields, fields-append, read_word, read_word-append, read_word-all,
}
use nycu_csic30091_netw.Cxx.Stream.{read_word-space, NoSpace, IsWord}
use nycu_csic30091_netw.Cxx.Stream.{Free-append, NoSpace-Free, IsWord-NoSpace}
use nycu_csic30091_netw.Cxx.Map.{Map, insert, insert-last, Above}
use nycu_csic30091_netw.Shell.Users.Model.{User, Maps, no_users, user_line, users_text}
use nycu_csic30091_netw.Shell.Users.Model.{
  read_user, add_to_maps, read_lines, read_from_shared_memory,
}

-- The address is a word; the name is one, or empty.
pub record IsPlainUser (u : User) : Type 0 where
  pub ip_word : IsWord u.ip_addr
  pub name_plain : NoSpace u.name

abbrev pub AllPlain : Map User → Type 0
AllPlain [] = Unit {0}
AllPlain ((k, u) ∷ m) = (k ≡ u.id) × IsPlainUser u × AllPlain m

-- The users by id: rising ids, each user under its own, and words for text.
pub record IsUsers (m : Map User) : Type 0 where
  pub rising : Above 0 m
  pub plain : AllPlain m

read_name :
    (name : Bytes) → NoSpace name → elim (read_word (32 ∷ name)) [ none ↦ [] | some p ↦ p.0 ] ≡ name
read_name [] h = unfold read_word in refl
read_name (c ∷ w) h = rw (read_word-space (c ∷ w)) (rw (read_word-all (c ∷ w) h))

-- A line is read back as its user.
pub read_user-user_line : (u : User) → IsPlainUser u → read_user (user_line u) ≡ some u
unfolding user_line read_user
read_user-user_line u v = rw (read_int-to_string u.id _) (
    rw (read_int-space (to_string u.pid ++ _)) (
      rw (read_int-to_string u.pid _) (
        rw (read_int-space (to_string u.fd ++ _)) (
          rw (read_int-to_string u.fd _) (
            rw (read_word-space (u.ip_addr ++ _)) (
              rw (read_word-append u.ip_addr u.name v.ip_word)
                (ap (λ n. some (record u { name = n })) (read_name u.name v.name_plain))))))))

Free-user_line : (u : User) → IsPlainUser u → Free 10 (user_line u)
unfolding user_line
Free-user_line u v =
    let number = λ (n : ℕ) (rest : Bytes) (f : Free 10 rest).
      Free-append 10 (to_string n) (32 ∷ rest) (to_string-Free 10 n (unfold is_digit in refl))
        (refl, f) in
    number u.id _ (
      number u.pid _ (
        number u.fd _ (
          Free-append 10 u.ip_addr (32 ∷ u.name)
            (NoSpace-Free u.ip_addr (IsWord-NoSpace _ v.ip_word))
            (refl, NoSpace-Free u.name v.name_plain))))

-- The three maps of the users in `m`, on top of `maps`.
abbrev pub index : Map User → Maps → Maps
index [] maps = maps
index ((k, u) ∷ m) maps = index m (add_to_maps u maps)

read_lines-users_text :
    (m : Map User) (maps : Maps)
    → AllPlain m
    → read_lines (fields 10 (users_text m)) maps ≡ some (index m maps)
unfolding users_text read_lines
read_lines-users_text [] maps v = unfold fields in refl
read_lines-users_text ((k, u) ∷ m) maps v =
    rw (fields-append 10 (user_line u) (users_text m) (Free-user_line u v.1))
      (rw (read_user-user_line u v.1) (read_lines-users_text m (add_to_maps u maps) v.2))

id_user_map-index :
    (m prev : Map User) (maps : Maps)
    → Above 0 (prev ++ m)
    → AllPlain m
    → maps.id_user_map ≡ prev
    → (index m maps).id_user_map ≡ prev ++ m
unfolding add_to_maps
id_user_map-index [] prev maps a v e = e ∙ sym (append-nil prev)
id_user_map-index ((k, u) ∷ m) prev maps a v e =
    let inserted : (add_to_maps u maps).id_user_map ≡ prev ++ (k, u) ∷ [] =
      ap (λ j. insert j u maps.id_user_map) (sym v.0)
      ∙ ap (insert k u) e
      ∙ insert-last 0 k u prev m a in
    let split = append_assoc prev ((k, u) ∷ []) m in
    id_user_map-index m (prev ++ (k, u) ∷ []) (add_to_maps u maps) (subst (Above 0) (sym split) a)
      v.2 inserted
    ∙ split

pub read-users_text :
    (m : Map User)
    → IsUsers m
    → (read_from_shared_memory (users_text m) ≡ some (index m no_users))
      × ((index m no_users).id_user_map ≡ m)
unfolding read_from_shared_memory
read-users_text m v = (
  read_lines-users_text m no_users v.plain,
  id_user_map-index m [] no_users v.rising v.plain refl,
)
