-- ===== src/Single/Table.antt =====
-- What np_single_proc's UserManager is for: a table of users by their ids. The operations on the maps and
-- the heap, as steps of the table.
use nycu_csic30091_netw.Prelude.{
  ℕ, Option, none, some, if◌then◌else◌, ◌>>=◌, ◌≡◌, arith, ◌==◌, inl, inr, Option-cases,
}
use nycu_csic30091_netw.Prelude.Bytes.{Bytes}
use nycu_csic30091_netw.Cxx.Map.{find, find-insert, find-erase}
use nycu_csic30091_netw.Single.Users.{User, UserManager, forget}
use nycu_csic30091_netw.Single.Indexed.{IsIndexed}
use nycu_csic30091_netw.Single.Arrived.{arrived}
use nycu_csic30091_netw.Single.Renamed.{renamed}

abbrev pub Table : Type 0
Table = ℕ → Option User

unfoldable pub table_of : UserManager → Table
table_of m id = find id m.id_user_map >>= λ p. find p m.heap

pub table_of-forget :
    (p : ℕ) (u : User) (m : UserManager) (j : ℕ)
    → IsIndexed m
    → find p m.heap ≡ some u
    → table_of (forget u.id u.fd p u m) j ≡ (if u.id == j then none else table_of m j)
unfolding table_of forget
table_of-forget p u m j v e = elim (Option-cases (find j m.id_user_map)) [
  | inl n ↦ ground (arith, find-erase u.id j m.id_user_map, n)
  | inr (q, h) ↦
      let (w, hw, iw) = v.of_id j q h in
      ground (arith, find-erase u.id j m.id_user_map, find-erase p q m.heap, h, hw, iw, e)
]

pub table_of-arrived :
    (p : ℕ) (u : User) (ip : Bytes) (noted : Option Bytes) (m : UserManager) (j : ℕ)
    → IsIndexed m
    → find p m.heap ≡ none
    → table_of (arrived p u ip noted m) j ≡ (if u.id == j then some u else table_of m j)
unfolding table_of
table_of-arrived p u ip noted m j v e = elim (Option-cases (find j m.id_user_map)) [
  | inl n ↦ ground (arith, find-insert u.id j p m.id_user_map, find-insert p p u m.heap, n)
  | inr (q, h) ↦
      let (w, hw, iw) = v.of_id j q h in
      ground (
        arith,
        find-insert u.id j p m.id_user_map,
        find-insert p p u m.heap,
        find-insert p q u m.heap,
        h,
        hw,
        e,
      )
]

pub table_of-renamed :
    (p : ℕ) (u : User) (name : Bytes) (m : UserManager) (j : ℕ)
    → IsIndexed m
    → find p m.heap ≡ some u
    → table_of (renamed p u name m) j
      ≡ (if u.id == j then some (record u { name = name }) else table_of m j)
unfolding table_of
table_of-renamed p u name m j v e = elim (Option-cases (find j m.id_user_map)) [
  | inl n ↦ ground (arith, v.in_ids p u e, n)
  | inr (q, h) ↦
      let (w, hw, iw) = v.of_id j q h in
      ground
        (arith, v.in_ids p u e, find-insert p q (record u { name = name }) m.heap, h, hw, iw, e)
]

pub table_of-known :
    (p : ℕ) (u : User) (m : UserManager)
    → IsIndexed m
    → find p m.heap ≡ some u
    → table_of m u.id ≡ some u
unfolding table_of
table_of-known p u m v e = rw (v.in_ids p u e) e

-- A user of the table is on the heap.
pub on_heap :
    (id : ℕ) (u : User) (m : UserManager)
    → IsIndexed m
    → table_of m id ≡ some u
    → (p : ℕ) × (find p m.heap ≡ some u) × (u.id ≡ id)
unfolding table_of
on_heap id u m v e = elim (Option-cases (find id m.id_user_map)) [
  | inl n ↦ absurd (ground (arith, n, e))
  | inr (p, h) ↦
      let (w, hw, iw) = v.of_id id p h in (p, ground (arith, h, e), ground (arith, h, e, hw, iw))
]
