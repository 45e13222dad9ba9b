-- ===== src/Single/Run/Sound.antt =====
-- The state of np_single_proc's server in which no pointer leads nowhere.
use nycu_csic30091_netw.Prelude.{
  ℕ, Bool, true, false, ◌||◌, Option, none, some, List, [], ◌∷◌, ◌==◌, if◌then◌else◌, ◌≡◌, refl,
  arith,
}
use nycu_csic30091_netw.Cxx.Map.{find, Above}
use nycu_csic30091_netw.Shell.Pipes.Model.{Pipe}
use nycu_csic30091_netw.Single.Users.{User, UserManager, get_user_by_fd}
use nycu_csic30091_netw.Single.Indexed.{IsIndexed}
use nycu_csic30091_netw.Single.Pipes.{UserPipeMap, find_user_pipe}
use nycu_csic30091_netw.Single.Server.{SingleProcServer, set_fd, clear_fd}
use nycu_csic30091_netw.Single.Run.World.{World, me_of}

abbrev pub is_some {ℓ} : {A : Type ℓ} → Option A → Bool
is_some none = false
is_some (some a) = true

-- `FD_ISSET`.
unfoldable pub has_fd : ℕ → List ℕ → Bool
has_fd fd [] = false
has_fd fd (x ∷ xs) = x == fd || has_fd fd xs

pub has_fd-set_fd : (fd j : ℕ) (xs : List ℕ) → has_fd j (set_fd fd xs) ≡ (fd == j || has_fd j xs)
unfolding has_fd set_fd
has_fd-set_fd fd j [] = ground arith
has_fd-set_fd fd j (x ∷ xs) = ground (arith, has_fd-set_fd fd j xs)

pub has_fd-clear_fd :
    (fd j : ℕ) (xs : List ℕ) → has_fd j (clear_fd fd xs) ≡ (if fd == j then false else has_fd j xs)
unfolding has_fd clear_fd
has_fd-clear_fd fd j [] = ground arith
has_fd-clear_fd fd j (x ∷ xs) = ground (arith, has_fd-clear_fd fd j xs)

-- Each pipe goes from a user to a user who are there.
abbrev pub ArePiped : UserPipeMap → UserManager → Type 0
ArePiped us m =
    (a b : ℕ) (p : Pipe)
    → find_user_pipe a b us ≡ some p
    → (is_some (find a m.id_user_map) ≡ true) × (is_some (find b m.id_user_map) ≡ true)

-- The users are indexed, in the order of their ids; the pipes lie between them, and the same descriptors have a user, a shell and
-- are active.
pub record IsSound (s : SingleProcServer) : Type 0 where
  pub indexed : IsIndexed s.user_manager
  pub ordered : Above 0 s.user_manager.id_user_map
  pub piped : ArePiped s.user_pipe_map s.user_manager
  pub shells :
      (fd : ℕ) → is_some (find fd s.npshell_map) ≡ is_some (find fd s.user_manager.fd_user_map)
  pub active : (fd : ℕ) → has_fd fd s.active_fds ≡ is_some (find fd s.user_manager.fd_user_map)

-- The descriptor has a shell.
abbrev pub IsLive : ℕ → SingleProcServer → Type 0
IsLive fd s = is_some (find fd s.npshell_map) ≡ true

-- A line leaves the server sound, and the shells where they are.
abbrev pub IsKept : World → World → Type 0
IsKept w w' = IsSound w'.server × (w'.server.npshell_map ≡ w.server.npshell_map)

pub is_some-elim {ℓ} : {A : Type ℓ} (o : Option A) → is_some o ≡ true → (a : A) × (o ≡ some a)
is_some-elim none e = cc
is_some-elim (some a) e = (a, refl)

-- The user of a live descriptor: its pointer, and the object that it leads to.
pub owner :
    (fd : ℕ) (s : SingleProcServer)
    → IsSound s
    → IsLive fd s
    → (p : ℕ) × (u : User) × (find fd s.user_manager.fd_user_map ≡ some p)
      × (find p s.user_manager.heap ≡ some u)
      × (u.fd ≡ fd)
owner fd s v l =
    let (p, e) =
      is_some-elim (find fd s.user_manager.fd_user_map) (ground (arith, v.shells fd, l)) in
    let (u, h, same) = v.indexed.of_fd fd p e in (p, u, e, h, same)

pub me_of_lem :
    (fd : ℕ) (w : World)
    → IsSound w.server
    → IsLive fd w.server
    → (u : User) × (me_of fd w ≡ some u)
      × (find u.id w.server.user_manager.id_user_map ≡ find fd w.server.user_manager.fd_user_map)
unfolding me_of get_user_by_fd
me_of_lem fd w v l =
    let (p, u, e, h, same) = owner fd w.server v l in
    (u, rw e h, rw (v.indexed.in_ids p u h) (rw e refl))
