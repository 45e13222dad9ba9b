-- ===== src/Single/Renamed.antt =====
-- A user of np_single_proc's UserManager under another name.
use nycu_csic30091_netw.Prelude.{
  ℕ, false, none, some, [], if◌then◌else◌, ◌≡◌, arith, ◌==◌, inl, inr, Bool-cases,
}
use nycu_csic30091_netw.Prelude.Bytes.{Bytes, str_eq, str_eq_iff}
use nycu_csic30091_netw.Cxx.Map.{find, insert, find-insert}
use nycu_csic30091_netw.Single.Names.{
  NameMap, find_name, insert_name, erase_name, find_name-insert_name, find_name-erase_name,
}
use nycu_csic30091_netw.Single.Users.{User, UserManager}
use nycu_csic30091_netw.Single.Indexed.{IsIndexed}

-- A user under another name, which no user bears.
abbrev pub renamed : ℕ → User → Bytes → UserManager → UserManager
renamed p u name m = record m {
  heap = insert p (record u { name = name }) m.heap;
  name_user_map = insert_name name p (erase_name u.name m.name_user_map);
}

find_name-renamed :
    (old new : Bytes) (p : ℕ) (names : NameMap) (n : Bytes)
    → find_name n (insert_name new p (erase_name old names))
      ≡ (if str_eq new n then some p else if str_eq old n then none else find_name n names)
find_name-renamed old new p names n =
    ground (
      arith,
      find_name-insert_name new n p (erase_name old names),
      find_name-erase_name old n names,
    )

pub renamed-IsIndexed :
    (p : ℕ) (u : User) (name : Bytes) (m : UserManager)
    → IsIndexed m
    → find p m.heap ≡ some u
    → str_eq name [] ≡ false
    → find_name name m.name_user_map ≡ none
    → IsIndexed (renamed p u name m)
renamed-IsIndexed p u name m v e f free = record {
  in_ids = λ q w h.
      ground
        (arith, find-insert p q (record u { name = name }) m.heap, v.in_ids q w, v.in_ids p u e, h);
  in_fds = λ q w h.
      ground
        (arith, find-insert p q (record u { name = name }) m.heap, v.in_fds q w, v.in_fds p u e, h);
  in_names = λ q w h n. ground (
    arith,
    find-insert p q (record u { name = name }) m.heap,
    find_name-renamed u.name name p m.name_user_map w.name,
    v.in_names q w,
    v.in_names p u e,
    str_eq_iff name w.name,
    str_eq_iff u.name w.name,
    str_eq_iff name name,
    h,
    n,
  );
  of_id = λ id q h.
      let (w, hw, iw) = v.of_id id q h in
      elim (Bool-cases (p == q)) [
        | inl same ↦ (
          record u { name = name },
          ground (arith, find-insert p q (record u { name = name }) m.heap, same),
          ground (arith, same, hw, iw, e),
        )
        | inr other ↦
            (w, ground (arith, find-insert p q (record u { name = name }) m.heap, other, hw), iw)
      ];
  of_fd = λ fd q h.
      let (w, hw, iw) = v.of_fd fd q h in
      elim (Bool-cases (p == q)) [
        | inl same ↦ (
          record u { name = name },
          ground (arith, find-insert p q (record u { name = name }) m.heap, same),
          ground (arith, same, hw, iw, e),
        )
        | inr other ↦
            (w, ground (arith, find-insert p q (record u { name = name }) m.heap, other, hw), iw)
      ];
  of_name = λ n q g h.
      let look = find_name-renamed u.name name p m.name_user_map n in
      elim (Bool-cases (str_eq name n)) [
        | inl same ↦ (
          record u { name = name },
          ground (arith, find-insert p q (record u { name = name }) m.heap, look, same, h),
          (str_eq_iff name n).0 same,
        )
        | inr other ↦
            let (w, hw, iw) = v.of_name n q g (ground (arith, look, other, h)) in
            (
              w,
              ground (
                arith,
                find-insert p q (record u { name = name }) m.heap,
                look,
                other,
                h,
                hw,
                iw,
                e,
                str_eq_iff u.name n,
              ),
              iw,
            )
      ];
  of_ip = v.of_ip;
}
