-- ===== src/Single/Ids.antt =====
-- idMin of np_single_proc's UserManager: the least free id.
use nycu_csic30091_netw.Prelude.{
  ℕ, zero, suc, ◌≤◌, ◌<◌, none, some, length, ◌≡◌, ◌≢◌, arith, inl, inr, Option-cases,
}
use native.Mathlib.Decide.{ℕ_discrete}
use nycu_csic30091_netw.Cxx.Map.{Map, find, count_from, count_from-found, count_from-le}
use nycu_csic30091_netw.Single.Users.{id_min, id_min_from}

-- An id from `lo` on that is free while every id between is taken.
pub record IsLeastFree (lo id : ℕ) (m : Map ℕ) : Type 0 where
  pub from_lo : lo ≤ id
  pub free : find id m ≡ none
  pub least : (j : ℕ) → lo ≤ j → j < id → find j m ≢ none

id_min_from_lem :
    (f id : ℕ) (m : Map ℕ)
    → count_from id m < f
    → (r : ℕ) × (id_min_from f id m ≡ some r) × IsLeastFree id r m
unfolding id_min_from
id_min_from_lem zero id m h = absurd (omega arith)
id_min_from_lem (suc f) id m h = elim (Option-cases (find id m)) [
  | inl e ↦ (
    id,
    rw (e, id_min_from),
    record { from_lo = omega arith; free = e; least = λ j a b. absurd (omega arith) },
  )
  | inr (p, e) ↦
      let (r, run, v) = id_min_from_lem f (suc id) m (omega (arith, count_from-found id p m e)) in
      (
        r,
        rw (e, id_min_from) run,
        record {
          from_lo = omega (arith, v.from_lo);
          free = v.free;
          least = λ j a b n. elim (ℕ_discrete id j) [
            | yes same ↦ cc
            | no other ↦ v.least j (omega arith) b n
          ];
        },
      )
]

pub id_min_lem : (m : Map ℕ) → (r : ℕ) × (id_min m ≡ some r) × IsLeastFree 1 r m
unfolding id_min
id_min_lem m = id_min_from_lem (suc (length m)) 1 m (omega (arith, count_from-le 1 m))
