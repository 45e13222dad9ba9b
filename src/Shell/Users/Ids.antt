-- ===== src/Shell/Users/Ids.antt =====
-- The ids that UserManager gives: the least free one, found by a loop that ends.
use nycu_csic30091_netw.Prelude.{ℕ, zero, suc, ◌≤◌, ◌<◌, none, some, [], ◌∷◌}
use nycu_csic30091_netw.Prelude.{◌≡◌, refl, ◌≢◌, arith, length, inl, inr, Option-cases}
use nycu_csic30091_netw.Prelude.{◌==◌, ltb, lt→ltb, Bool-cases}
use nycu_csic30091_netw.Prelude.Bytes.{Bytes}
use native.Mathlib.Decide.{ℕ_discrete}
use nycu_csic30091_netw.Cxx.Map.{Map, find, insert, count_from, count_from-found, count_from-le}
use nycu_csic30091_netw.Cxx.Map.{insert-Above}
use nycu_csic30091_netw.Cxx.Stream.{IsWord}
use nycu_csic30091_netw.Shell.Users.Model.{User, users_text, id_min, id_min_from}
use nycu_csic30091_netw.Shell.Users.Model.{write_to_shared_memory, shm_size}
use nycu_csic30091_netw.Shell.Users.Model.{add_user}
use nycu_csic30091_netw.Shell.Users.Text.{IsUsers, IsPlainUser, AllPlain, read-users_text}

-- An id from `lo` on that is free while every id between is taken.
pub record IsLeastFree (lo id : ℕ) (m : Map User) : Type 0 where
  pub from_lo : lo ≤ id
  pub free : find id m ≡ none
  pub least : (j : ℕ) → lo ≤ j → j < id → find j m ≢ none

-- The least free id above a taken one is the least from the taken one on.
IsLeastFree-suc :
    (id r : ℕ) (u : User) (m : Map User)
    → find id m ≡ some u
    → IsLeastFree (suc id) r m
    → IsLeastFree id r m
IsLeastFree-suc id r u m e v = record {
  from_lo = omega (arith, v.from_lo);
  free = v.free;
  least =
      λ j a b n. elim (ℕ_discrete id j) [ yes same ↦ cc | no other ↦ v.least j (omega arith) b n ];
}

id_min_from_lem :
    (f id : ℕ) (m : Map User)
    → count_from id m < f
    → (r : ℕ) × (id_min_from f id m ≡ some r) × IsLeastFree id r m
unfolding id_min_from
id_min_from_lem zero id m h = absurd (omega arith)
id_min_from_lem (suc f) id m h = elim (Option-cases (find id m)) [
  | inl e ↦ (
    id,
    rw (e, id_min_from),
    record { from_lo = omega arith; free = e; least = λ j a b. absurd (omega arith) },
  )
  | inr (u, e) ↦
      let (r, run, v) = id_min_from_lem f (suc id) m (omega (arith, count_from-found id u m e)) in
      (r, rw (e, id_min_from) run, IsLeastFree-suc id r u m e v)
]

-- `idMin` ends, and returns the least id from 1 on that no user has.
pub id_min_lem : (m : Map User) → (r : ℕ) × (id_min m ≡ some r) × IsLeastFree 1 r m
unfolding id_min
id_min_lem m = id_min_from_lem (suc (length m)) 1 m (omega (arith, count_from-le 1 m))

AllPlain-insert :
    (u : User) (m : Map User) → IsPlainUser u → AllPlain m → AllPlain (insert u.id u m)
unfolding insert
AllPlain-insert u [] p v = (refl, p, tt)
AllPlain-insert u ((j, w) ∷ m) p v =
    let rest = AllPlain-insert u m p v.2 in
    elim (Bool-cases (ltb u.id j)) [
      | inl e ↦ rw e (refl, p, v)
      | inr e ↦ rw e (elim (Bool-cases (u.id == j)) [
        | inl e' ↦ rw e' (refl, p, v.2)
        | inr e' ↦ rw e' (v.0, v.1, rest)
      ])
    ]

pub insert-IsUsers :
    (u : User) (m : Map User) → IsPlainUser u → IsUsers m → IsUsers (insert u.id u m)
insert-IsUsers u m p v = record {
  rising = insert-Above 0 u.id u m (omega arith) v.rising;
  plain = AllPlain-insert u m p v.plain;
}

abbrev pub newcomer : ℕ → ℕ → Bytes → ℕ → User
newcomer pid fd ip id = record { pid = pid; fd = fd; id = id; name = []; ip_addr = ip }

-- On the text of well-formed users `addUser`, for an address that is a word, gives the least free
-- id from 1 on, under which the new user, who has no name, stands in the new text beside the old
-- ones; the users stay well-formed. The new text has to fit into the segment.
pub add_user_lem :
    (pid fd : ℕ) (ip : Bytes) (m : Map User)
    → IsUsers m
    → IsWord ip
    → ((id : ℕ)
        → id_min m ≡ some id
        → length (users_text (insert id (newcomer pid fd ip id) m)) < shm_size)
    → (id : ℕ) × IsLeastFree 1 id m
      × (add_user pid fd ip (users_text m)
          ≡ some (newcomer pid fd ip id, users_text (insert id (newcomer pid fd ip id) m)))
      × IsUsers (insert id (newcomer pid fd ip id) m)
unfolding add_user write_to_shared_memory
add_user_lem pid fd ip m v w fits =
    let (id, found, least) = id_min_lem m in
    let (read, same) = read-users_text m v in
    (
      id,
      least,
      rw read (rw same (rw found (rw (lt→ltb _ _ (fits id found))))),
      insert-IsUsers (newcomer pid fd ip id) m (record { ip_word = w; name_plain = tt }) v,
    )
