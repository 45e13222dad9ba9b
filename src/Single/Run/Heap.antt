-- ===== src/Single/Run/Heap.antt =====
-- The heap of np_single_proc's users while built-in commands read and write it.
use nycu_csic30091_netw.Prelude.{
  ℕ, suc, ◌≤◌, some, [], ◌∷◌, ◌++◌, ◌==◌, ◌≡◌, refl, arith, inl, inr, Bool-cases,
}
use nycu_csic30091_netw.Prelude.Bytes.{Bytes}
use nycu_csic30091_netw.Cxx.Map.{Map, find, insert, find-insert, Above}
use nycu_csic30091_netw.Single.Users.{User, UserManager}
use nycu_csic30091_netw.Single.Indexed.{IsIndexed}
use nycu_csic30091_netw.Single.Server.{SingleProcServer}
use nycu_csic30091_netw.Single.Run.Builtin.{who_line, who_lines}
use nycu_csic30091_netw.Single.Run.Sound.{IsSound}

find-Above : (n k p : ℕ) (m : Map ℕ) → Above n m → find k m ≡ some p → n ≤ k
unfolding find
find-Above n k p [] a e = cc
find-Above n k p ((j, w) ∷ m) a e = ground (arith, find-Above (suc j) k p m a.1, a.0, e)

pub who_lines_end :
    (me : ℕ) (heap : Map User) (n : ℕ) (m : Map ℕ)
    → Above n m
    → ((k p : ℕ) → find k m ≡ some p → (u : User) × (find p heap ≡ some u))
    → (text : Bytes) × (who_lines me heap m ≡ some text)
unfolding who_lines find
who_lines_end me heap n [] a f = ([], refl)
who_lines_end me heap n ((k, p) ∷ m) a f =
    let (u, h) = f k p (ground arith) in
    let (rest, run) =
      who_lines_end me heap (suc k) m a.1
        (λ j q e. f j q (ground (arith, find-Above (suc k) j q m a.1 e, e))) in
    (who_line me p u ++ rest, rw (h, run) refl)

-- An object of the heap is written, with its id, descriptor and name as they were.
pub counted-IsIndexed :
    (p : ℕ) (u u' : User) (m : UserManager)
    → IsIndexed m
    → find p m.heap ≡ some u
    → u'.id ≡ u.id
    → u'.fd ≡ u.fd
    → u'.name ≡ u.name
    → IsIndexed (record m { heap = insert p u' m.heap })
counted-IsIndexed p u u' m v e ei ef en = record {
  in_ids = λ q w h. ground (arith, find-insert p q u' m.heap, v.in_ids q w, v.in_ids p u e, h, ei);
  in_fds = λ q w h. ground (arith, find-insert p q u' m.heap, v.in_fds q w, v.in_fds p u e, h, ef);
  in_names = λ q w h n.
      ground (arith, find-insert p q u' m.heap, v.in_names q w, v.in_names p u e, h, en, n);
  of_id = λ id q h.
      let (w, hw, iw) = v.of_id id q h in
      elim (Bool-cases (p == q)) [
        | inl same ↦ (
          u',
          ground (arith, find-insert p q u' m.heap, same),
          ground (arith, same, e, ei, hw, iw),
        )
        | inr other ↦ (w, ground (arith, find-insert p q u' m.heap, other, hw), iw)
      ];
  of_fd = λ fd q h.
      let (w, hw, iw) = v.of_fd fd q h in
      elim (Bool-cases (p == q)) [
        | inl same ↦ (
          u',
          ground (arith, find-insert p q u' m.heap, same),
          ground (arith, same, e, ef, hw, iw),
        )
        | inr other ↦ (w, ground (arith, find-insert p q u' m.heap, other, hw), iw)
      ];
  of_name = λ n q f h.
      let (w, hw, iw) = v.of_name n q f h in
      elim (Bool-cases (p == q)) [
        | inl same ↦ (
          u',
          ground (arith, find-insert p q u' m.heap, same),
          ground (arith, same, e, en, hw, iw),
        )
        | inr other ↦ (w, ground (arith, find-insert p q u' m.heap, other, hw), iw)
      ];
  of_ip = v.of_ip;
}

-- The users change, and the maps of ids and descriptors stay.
pub with_users-IsSound :
    (m : UserManager) (s : SingleProcServer)
    → IsSound s
    → IsIndexed m
    → m.id_user_map ≡ s.user_manager.id_user_map
    → m.fd_user_map ≡ s.user_manager.fd_user_map
    → IsSound (record s { user_manager = m })
with_users-IsSound m s v i ei ef = record {
  indexed = i;
  ordered = rw ei v.ordered;
  piped = λ a b p e. rw ei (v.piped a b p e);
  shells = λ fd. rw ef (v.shells fd);
  active = λ fd. rw ef (v.active fd);
}
