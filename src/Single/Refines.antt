-- ===== src/Single/Refines.antt =====
-- The operations of np_single_proc's UserManager refine steps of a table of users.
use nycu_csic30091_netw.Prelude.{
  ℕ, Bool, ◌⊎◌, true, false, none, some, [], ◌≡◌, ◌≢◌, refl, arith, inl, inr, Bool-cases,
  Option-cases, sym, ap,
}
use nycu_csic30091_netw.Prelude.Bytes.{Bytes, str_eq, str_eq_iff}
use nycu_csic30091_netw.Cxx.Map.{find}
use nycu_csic30091_netw.Cxx.TextMap.{find_text}
use nycu_csic30091_netw.Single.Names.{find_name}
use nycu_csic30091_netw.Single.Users.{
  User, UserManager, forget, or_empty, add_user, remove_user_by_id, remove_user_by_fd,
  set_name_by_id, get_user_by_name, get_user_by_id,
}
use nycu_csic30091_netw.Single.Indexed.{IsIndexed, forget-IsIndexed}
use nycu_csic30091_netw.Single.Arrived.{arrived, arrived-IsIndexed}
use nycu_csic30091_netw.Single.Renamed.{renamed, renamed-IsIndexed}
use nycu_csic30091_netw.Single.Table.{
  table_of, table_of-forget, table_of-arrived, table_of-renamed, table_of-known, on_heap,
}
use nycu_csic30091_netw.Single.Ids.{id_min_lem}
use nycu_csic30091_netw.Single.Requests.{
  Request, enter, leave_id, leave_fd, rename, Reply, new_id, told, silent, serve, newcomer, put,
  Bears, TakesOut, TableStep, entered, left_by_id, left_by_fd, nobody_left, refused, was_renamed,
  IsReady,
}

abbrev Refined : Bool → Request → UserManager → Type 0
Refined kept r m =
    (answer : Reply) × (m' : UserManager) × (serve kept r m ≡ some (answer, m'))
    × IsIndexed m'
    × TableStep (table_of m) (table_of m') r answer

free_entry : (id : ℕ) (m : UserManager) → find id m.id_user_map ≡ none → table_of m id ≡ none
unfolding table_of
free_entry id m e = rw e refl

taken_entry :
    (id : ℕ) (m : UserManager) → IsIndexed m → find id m.id_user_map ≢ none → table_of m id ≢ none
unfolding table_of
taken_entry id m v n e = elim (Option-cases (find id m.id_user_map)) [
  | inl h ↦ n h
  | inr (p, h) ↦ let (w, hw, iw) = v.of_id id p h in ground (arith, h, hw, e)
]

pub noted_empty :
    (ip : Bytes) (m : UserManager) → IsIndexed m → or_empty (find_text ip m.ip_username_map) ≡ []
noted_empty ip m v = elim (Option-cases (find_text ip m.ip_username_map)) [
  | inl n ↦ rw n refl
  | inr (k, e) ↦ rw e (v.of_ip ip k e)
]

enter-Refined :
    (kept : Bool) (p fd : ℕ) (ip : Bytes) (m : UserManager)
    → IsIndexed m
    → find p m.heap ≡ none
    → find fd m.fd_user_map ≡ none
    → Refined kept (enter p fd ip) m
unfolding serve add_user
enter-Refined kept p fd ip m v ep ef =
    let (id, found, least) = id_min_lem m.id_user_map in
    let noted = find_text ip m.ip_username_map in
    let nameless : or_empty noted ≡ [] = noted_empty ip m v in
    let u = newcomer fd id ip in
    (
      new_id id,
      arrived p u ip noted m,
      rw (found, nameless) refl,
      arrived-IsIndexed p u ip noted m v ep least.free ef refl nameless,
      entered p fd id ip least.from_lo (free_entry id m least.free)
          (λ j a b. taken_entry j m v (least.least j a b))
          (λ j. table_of-arrived p u ip noted m j v ep),
    )

known :
    (id p : ℕ) (u : User) (m : UserManager)
    → IsIndexed m
    → find p m.heap ≡ some u
    → u.id ≡ id
    → table_of m id ≡ some u
known id p u m v e same = rw (sym same) (table_of-known p u m v e)

forgotten :
    (id p : ℕ) (u : User) (m : UserManager) (j : ℕ)
    → IsIndexed m
    → find p m.heap ≡ some u
    → u.id ≡ id
    → table_of (forget u.id u.fd p u m) j ≡ put id none (table_of m) j
forgotten id p u m j v e same = rw (sym same) (table_of-forget p u m j v e)

-- The erased entry of a user who is taken out cannot be read.
abbrev Unread : Bool → Request → UserManager → Type 0
Unread kept r m = (kept ≡ false) × TakesOut (table_of m) r × (serve kept r m ≡ none)

leave_id-Refined :
    (kept : Bool) (id : ℕ) (m : UserManager)
    → IsIndexed m
    → Unread kept (leave_id id) m ⊎ Refined kept (leave_id id) m
unfolding serve remove_user_by_id
leave_id-Refined kept id m v = elim (Option-cases (find id m.id_user_map)) [
  | inl n ↦ inr (
    silent,
    m,
    rw (n, remove_user_by_id) refl,
    v,
    left_by_id id (λ j. ground (arith, free_entry id m n)),
  )
  | inr (p, h) ↦
      let (u, hu, same) = v.of_id id p h in
      elim (Bool-cases kept) [
        | inr gone ↦
            inl (gone, (u, known id p u m v hu same), rw (h, remove_user_by_id) (rw gone refl))
        | inl there ↦ inr (
          silent,
          forget u.id u.fd p u m,
          rw (h, remove_user_by_id)
              (rw there (rw hu (ap (λ (x : ℕ). some (silent, forget x u.fd p u m)) (sym same)))),
          forget-IsIndexed p u m v hu,
          left_by_id id (λ j. forgotten id p u m j v hu same),
        )
      ]
]

no_descriptor :
    (fd : ℕ) (m : UserManager) (id : ℕ) (u : User)
    → IsIndexed m
    → find fd m.fd_user_map ≡ none
    → table_of m id ≡ some u
    → u.fd ≢ fd
no_descriptor fd m id u v n e same =
    let (p, h, own) = on_heap id u m v e in ground (arith, v.in_fds p u h, n, same)

leave_fd-Refined :
    (kept : Bool) (fd : ℕ) (m : UserManager)
    → IsIndexed m
    → Unread kept (leave_fd fd) m ⊎ Refined kept (leave_fd fd) m
unfolding serve remove_user_by_fd
leave_fd-Refined kept fd m v = elim (Option-cases (find fd m.fd_user_map)) [
  | inl n ↦ inr (
    silent,
    m,
    rw (n, remove_user_by_fd) refl,
    v,
    nobody_left fd (λ id u e. no_descriptor fd m id u v n e) (λ j. refl),
  )
  | inr (p, h) ↦
      let (u, hu, same) = v.of_fd fd p h in
      elim (Bool-cases kept) [
        | inr gone ↦ inl (
          gone,
          (u.id, u, table_of-known p u m v hu, same),
          rw (h, remove_user_by_fd) (rw hu (rw gone refl)),
        )
        | inl there ↦ inr (
          silent,
          forget u.id u.fd p u m,
          rw (h, remove_user_by_fd)
              (rw hu
                (rw there (rw hu (ap (λ (x : ℕ). some (silent, forget u.id x p u m)) (sym same))))),
          forget-IsIndexed p u m v hu,
          left_by_fd fd u.id u (table_of-known p u m v hu) same
              (λ j. forgotten u.id p u m j v hu refl),
        )
      ]
]

not_borne :
    (name : Bytes) (m : UserManager)
    → IsIndexed m
    → str_eq name [] ≡ false
    → find_name name m.name_user_map ≡ none
    → Bears (table_of m) name
    → ⊥
not_borne name m v f n (id, u, e, same) =
    let (p, h, own) = on_heap id u m v e in
    let filled : str_eq u.name [] ≡ false = rw same f in
    let known : find_name u.name m.name_user_map ≡ some p = v.in_names p u h filled in
    ground (arith, ap (λ x. find_name x m.name_user_map) same, known, n)

borne :
    (name : Bytes) (m : UserManager) (p : ℕ)
    → IsIndexed m
    → str_eq name [] ≡ false
    → find_name name m.name_user_map ≡ some p
    → Bears (table_of m) name
borne name m p v f h =
    let (u, hu, same) = v.of_name name p f h in (u.id, u, table_of-known p u m v hu, same)

known_entry :
    (id : ℕ) (m : UserManager)
    → IsIndexed m
    → table_of m id ≢ none
    → (p : ℕ) × (u : User) × (find id m.id_user_map ≡ some p)
      × (find p m.heap ≡ some u)
      × (u.id ≡ id)
known_entry id m v n = elim (Option-cases (find id m.id_user_map)) [
  | inl h ↦ absurd (n (free_entry id m h))
  | inr (p, h) ↦ let (u, hu, same) = v.of_id id p h in (p, u, h, hu, same)
]

set_name-empty :
    (id : ℕ) (name : Bytes) (m : UserManager)
    → str_eq name [] ≡ true
    → set_name_by_id id name m ≡ some (false, m)
unfolding set_name_by_id get_user_by_name
set_name-empty id name m e = ground (arith, e)

pub set_name-taken :
    (id : ℕ) (name : Bytes) (q : ℕ) (m : UserManager)
    → str_eq name [] ≡ false
    → find_name name m.name_user_map ≡ some q
    → set_name_by_id id name m ≡ some (false, m)
unfolding set_name_by_id get_user_by_name
set_name-taken id name q m f h = ground (arith, f, h)

pub set_name-done :
    (id : ℕ) (name : Bytes) (p : ℕ) (u : User) (m : UserManager)
    → str_eq name [] ≡ false
    → find_name name m.name_user_map ≡ none
    → find id m.id_user_map ≡ some p
    → find p m.heap ≡ some u
    → set_name_by_id id name m ≡ some (true, renamed p u name m)
unfolding set_name_by_id get_user_by_name get_user_by_id
set_name-done id name p u m f n h hu = ground (arith, f, n, h, hu)

rename-Refined :
    (kept : Bool) (id : ℕ) (name : Bytes) (m : UserManager)
    → IsIndexed m
    → table_of m id ≢ none
    → Refined kept (rename id name) m
unfolding serve
rename-Refined kept id name m v n = elim (Bool-cases (str_eq name [])) [
  | inl e ↦ (
    told false,
    m,
    rw (set_name-empty id name m e) refl,
    v,
    refused id name (inl ((str_eq_iff name []).0 e)) (λ j. refl),
  )
  | inr f ↦ elim (Option-cases (find_name name m.name_user_map)) [
    | inr (q, h) ↦ (
      told false,
      m,
      rw (set_name-taken id name q m f h) refl,
      v,
      refused id name (inr (borne name m q v f h)) (λ j. refl),
    )
    | inl free ↦
        let (p, u, h, hu, same) = known_entry id m v n in
        (
          told true,
          renamed p u name m,
          rw (set_name-done id name p u m f free h hu) refl,
          renamed-IsIndexed p u name m v hu f free,
          was_renamed id name u (λ g. ground (arith, f, (str_eq_iff name []).1 g))
              (not_borne name m v f free) (rw (sym same) (table_of-known p u m v hu))
              (λ j. rw (sym same) (table_of-renamed p u name m j v hu)),
        )
  ]
]

-- Any request to a UserManager whose maps fit its heap, where a new user gets an address with no object
-- and a descriptor that no user has, and a user who asks for a name is there. Either it takes out a user
-- who is there, whose erased entry cannot be read any more, and the program reads it all the same, so that
-- there is no result. Or it is served, by way of an erased entry that still holds what it held if it takes
-- out a user; the maps fit the heap again, and it is the step of a table of users by ids: a new user, with
-- no name, stands under the least free id from 1 on; a user who leaves, by id or by descriptor, is gone,
-- and no other; a user gets the name asked for if it is not empty and no user bears it, and else nothing
-- changes.
pub serve-Refined :
    (kept : Bool) (r : Request) (m : UserManager)
    → IsIndexed m
    → IsReady r m
    → ((kept ≡ false) × TakesOut (table_of m) r × (serve kept r m ≡ none))
      ⊎ ((answer : Reply) × (m' : UserManager) × (serve kept r m ≡ some (answer, m'))
          × IsIndexed m'
          × TableStep (table_of m) (table_of m') r answer)
serve-Refined kept (enter p fd ip) m v h = inr (enter-Refined kept p fd ip m v h.0 h.1)
serve-Refined kept (leave_id id) m v h = leave_id-Refined kept id m v
serve-Refined kept (leave_fd fd) m v h = leave_fd-Refined kept fd m v
serve-Refined kept (rename id name) m v h = inr (rename-Refined kept id name m v h)
