-- ===== src/Single/Arrived.antt =====
-- A new user in the maps of np_single_proc's UserManager.
use nycu_csic30091_netw.Prelude.{
  ℕ, false, Option, none, some, [], ◌≡◌, refl, arith, ◌==◌, inl, inr, Bool-cases, sym, ◌∙◌,
}
use nycu_csic30091_netw.Prelude.Bytes.{Bytes, str_eq, str_eq_iff}
use nycu_csic30091_netw.Cxx.Map.{find, insert, find-insert}
use nycu_csic30091_netw.Cxx.TextMap.{TextMap, find_text, set_text, find_text-set_text}
use nycu_csic30091_netw.Single.Names.{NameMap, find_name, find_name-insert_name}
use nycu_csic30091_netw.Single.Users.{User, UserManager, or_empty, note_name}
use nycu_csic30091_netw.Single.Indexed.{IsIndexed}

-- A new user without a name, under an id and a descriptor that are free.
abbrev pub arrived : ℕ → User → Bytes → Option Bytes → UserManager → UserManager
arrived p u ip noted m = record {
  heap = insert p u m.heap;
  id_user_map = insert u.id p m.id_user_map;
  fd_user_map = insert u.fd p m.fd_user_map;
  name_user_map = note_name noted p m.name_user_map;
  ip_username_map = set_text ip [] m.ip_username_map;
}

find_name-note_name :
    (noted : Option Bytes) (p : ℕ) (names : NameMap) (n : Bytes)
    → or_empty noted ≡ []
    → str_eq n [] ≡ false
    → find_name n (note_name noted p names) ≡ find_name n names
find_name-note_name none p names n e f = refl
find_name-note_name (some k) p names n e f =
    ground (arith, find_name-insert_name k n p names, str_eq_iff k n, e, f)

find_text-set_empty :
    (ip k n : Bytes) (m : TextMap)
    → ((j x : Bytes) → find_text j m ≡ some x → x ≡ [])
    → find_text k (set_text ip [] m) ≡ some n
    → n ≡ []
find_text-set_empty ip k n m v h = ground (arith, find_text-set_text ip k [] m, v k n, h)

pub arrived-IsIndexed :
    (p : ℕ) (u : User) (ip : Bytes) (noted : Option Bytes) (m : UserManager)
    → IsIndexed m
    → find p m.heap ≡ none
    → find u.id m.id_user_map ≡ none
    → find u.fd m.fd_user_map ≡ none
    → u.name ≡ []
    → or_empty noted ≡ []
    → IsIndexed (arrived p u ip noted m)
arrived-IsIndexed p u ip noted m v ep ei ef en eo = record {
  in_ids = λ q w h.
      ground (
        arith,
        find-insert p q u m.heap,
        find-insert u.id w.id p m.id_user_map,
        v.in_ids q w,
        ei,
        h,
      );
  in_fds = λ q w h.
      ground (
        arith,
        find-insert p q u m.heap,
        find-insert u.fd w.fd p m.fd_user_map,
        v.in_fds q w,
        ef,
        h,
      );
  in_names = λ q w h n. ground (
    arith,
    find-insert p q u m.heap,
    find_name-note_name noted p m.name_user_map w.name eo n,
    v.in_names q w,
    str_eq_iff w.name [],
    en,
    h,
    n,
  );
  of_id = λ id q h. elim (Bool-cases (u.id == id)) [
    | inl e ↦ (
      u,
      ground (arith, find-insert u.id id p m.id_user_map, find-insert p q u m.heap, e, h),
      ground (arith, e),
    )
    | inr e ↦
        let (w, hw, iw) =
          v.of_id id q (ground (arith, find-insert u.id id p m.id_user_map, e, h)) in
        (w, ground (arith, find-insert p q u m.heap, hw, ep), iw)
  ];
  of_fd = λ fd q h. elim (Bool-cases (u.fd == fd)) [
    | inl e ↦ (
      u,
      ground (arith, find-insert u.fd fd p m.fd_user_map, find-insert p q u m.heap, e, h),
      ground (arith, e),
    )
    | inr e ↦
        let (w, hw, iw) =
          v.of_fd fd q (ground (arith, find-insert u.fd fd p m.fd_user_map, e, h)) in
        (w, ground (arith, find-insert p q u m.heap, hw, ep), iw)
  ];
  of_name = λ n q f h.
      let (w, hw, iw) =
        v.of_name n q f (sym (find_name-note_name noted p m.name_user_map n eo f) ∙ h) in
      (w, ground (arith, find-insert p q u m.heap, hw, ep), iw);
  of_ip = λ k n h. find_text-set_empty ip k n m.ip_username_map v.of_ip h;
}
