-- ===== src/Single/Indexed.antt =====
-- The maps of np_single_proc's UserManager and the heap fit each other.
use nycu_csic30091_netw.Prelude.{ℕ, false, some, [], ◌≡◌, arith}
use nycu_csic30091_netw.Prelude.Bytes.{Bytes, str_eq, str_eq_iff}
use nycu_csic30091_netw.Cxx.Map.{find, find-erase}
use nycu_csic30091_netw.Cxx.TextMap.{find_text}
use nycu_csic30091_netw.Single.Names.{find_name, find_name-erase_name}
use nycu_csic30091_netw.Single.Users.{User, UserManager, no_users, forget}

-- Each user on the heap stands in the maps under its id, its descriptor and, if it has one, its name, and
-- each entry leads to such a user. No name is noted for an address.
pub record IsIndexed (m : UserManager) : Type 0 where
  pub in_ids : (p : ℕ) (u : User) → find p m.heap ≡ some u → find u.id m.id_user_map ≡ some p
  pub in_fds : (p : ℕ) (u : User) → find p m.heap ≡ some u → find u.fd m.fd_user_map ≡ some p
  pub in_names :
      (p : ℕ) (u : User)
      → find p m.heap ≡ some u
      → str_eq u.name [] ≡ false
      → find_name u.name m.name_user_map ≡ some p
  pub of_id :
      (id p : ℕ)
      → find id m.id_user_map ≡ some p
      → (u : User) × (find p m.heap ≡ some u) × (u.id ≡ id)
  pub of_fd :
      (fd p : ℕ)
      → find fd m.fd_user_map ≡ some p
      → (u : User) × (find p m.heap ≡ some u) × (u.fd ≡ fd)
  pub of_name :
      (n : Bytes) (p : ℕ)
      → str_eq n [] ≡ false
      → find_name n m.name_user_map ≡ some p
      → (u : User) × (find p m.heap ≡ some u) × (u.name ≡ n)
  pub of_ip : (ip n : Bytes) → find_text ip m.ip_username_map ≡ some n → n ≡ []

pub no_users-IsIndexed : IsIndexed no_users
unfolding find find_name find_text
no_users-IsIndexed = record {
  in_ids = λ p u h. cc;
  in_fds = λ p u h. cc;
  in_names = λ p u h n. cc;
  of_id = λ id p h. cc;
  of_fd = λ fd p h. cc;
  of_name = λ n p f h. cc;
  of_ip = λ ip n h. cc;
}

pub forget-IsIndexed :
    (p : ℕ) (u : User) (m : UserManager)
    → IsIndexed m
    → find p m.heap ≡ some u
    → IsIndexed (forget u.id u.fd p u m)
unfolding forget
forget-IsIndexed p u m v e = record {
  in_ids = λ q w h. ground (
    arith,
    find-erase p q m.heap,
    v.in_ids q w,
    v.in_ids p u e,
    find-erase u.id w.id m.id_user_map,
    h,
  );
  in_fds = λ q w h. ground (
    arith,
    find-erase p q m.heap,
    v.in_fds q w,
    v.in_fds p u e,
    find-erase u.fd w.fd m.fd_user_map,
    h,
  );
  in_names = λ q w h n. ground (
    arith,
    find-erase p q m.heap,
    v.in_names q w,
    v.in_names p u e,
    find_name-erase_name u.name w.name m.name_user_map,
    str_eq_iff u.name w.name,
    h,
    n,
  );
  of_id = λ id q h.
      let k : find id m.id_user_map ≡ some q =
        ground (arith, find-erase u.id id m.id_user_map, h) in
      let (w, hw, iw) = v.of_id id q k in
      (
        w,
        ground (arith, find-erase u.id id m.id_user_map, find-erase p q m.heap, h, hw, iw, e),
        iw,
      );
  of_fd = λ fd q h.
      let k : find fd m.fd_user_map ≡ some q =
        ground (arith, find-erase u.fd fd m.fd_user_map, h) in
      let (w, hw, iw) = v.of_fd fd q k in
      (
        w,
        ground (arith, find-erase u.fd fd m.fd_user_map, find-erase p q m.heap, h, hw, iw, e),
        iw,
      );
  of_name = λ n q f h.
      let k : find_name n m.name_user_map ≡ some q =
        ground (arith, find_name-erase_name u.name n m.name_user_map, h) in
      let (w, hw, iw) = v.of_name n q f k in
      (
        w,
        ground (
          arith,
          find_name-erase_name u.name n m.name_user_map,
          str_eq_iff u.name n,
          find-erase p q m.heap,
          f,
          h,
          hw,
          iw,
          e,
        ),
        iw,
      );
  of_ip = v.of_ip;
}
