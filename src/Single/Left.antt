-- ===== src/Single/Left.antt =====
-- What closeClient of np_single_proc leaves.
use nycu_csic30091_netw.Prelude.{
  ℕ, true, false, ◌||◌, none, some, List, map, ◌==◌, if◌then◌else◌, ◌≡◌, refl, arith, ap,
}
use nycu_csic30091_netw.Cxx.Map.{find, erase}
use nycu_csic30091_netw.Shell.Pipes.Model.{Call}
use nycu_csic30091_netw.Prelude.Bytes.{Bytes}
use nycu_csic30091_netw.Single.Users.{User, UserManager, get_user_by_fd, remove_user_by_fd, forget}
use nycu_csic30091_netw.Single.Indexed.{IsIndexed, forget-IsIndexed}
use nycu_csic30091_netw.Single.Table.{table_of, table_of-forget}
use nycu_csic30091_netw.Single.Pipes.{find_user_pipe, close_user_pipe}
use nycu_csic30091_netw.Single.Between.{find-close_user_pipe}
use nycu_csic30091_netw.Single.Server.{
  SingleProcServer, broadcast, left_text, clear_fd, close_client,
}

pub removed :
    (fd p : ℕ) (u : User) (m : UserManager)
    → IsIndexed m
    → find fd m.fd_user_map ≡ some p
    → find p m.heap ≡ some u
    → remove_user_by_fd true fd m ≡ some (forget u.id u.fd p u m)
unfolding remove_user_by_fd
removed fd p u m v e h =
    let (w, hw, fw) = v.of_fd fd p e in
    let same : fd ≡ u.fd = ground (arith, hw, fw, h) in
    rw (e, remove_user_by_fd) (rw h (ap (λ (x : ℕ). some (forget u.id x p u m)) same))

pub closes :
    (fd p : ℕ) (u : User) (s : SingleProcServer)
    → find fd s.user_manager.fd_user_map ≡ some p
    → find p s.user_manager.heap ≡ some u
    → remove_user_by_fd true fd s.user_manager ≡ some (forget u.id u.fd p u s.user_manager)
    → close_client true fd s
      ≡ some (
        record s {
          user_manager = forget u.id u.fd p u s.user_manager;
          user_pipe_map = (close_user_pipe u.id s.user_pipe_map).0;
          active_fds = clear_fd fd s.active_fds;
          npshell_map = erase fd s.npshell_map;
        },
        map (λ x. (x, left_text u)) (clear_fd fd s.active_fds),
        (close_user_pipe u.id s.user_pipe_map).1,
      )
unfolding close_client get_user_by_fd broadcast
closes fd p u s e h r = rw (e, close_client) (rw (h, r) refl)

pub unread :
    (fd p : ℕ) (u : User) (s : SingleProcServer)
    → find fd s.user_manager.fd_user_map ≡ some p
    → find p s.user_manager.heap ≡ some u
    → close_client false fd s ≡ none
unfolding close_client get_user_by_fd remove_user_by_fd
unread fd p u s e h = rw (e, close_client) (rw h (rw (e, remove_user_by_fd) (rw h refl)))

-- Where the erased entry can still be read, a client with a user leaves: the maps fit the heap again, the user and no other is gone, and so are the
-- pipes from it and to it and no other; the ones that are still active are told.
pub close_client_lem :
    (fd p : ℕ) (u : User) (s : SingleProcServer)
    → IsIndexed s.user_manager
    → find fd s.user_manager.fd_user_map ≡ some p
    → find p s.user_manager.heap ≡ some u
    → (s' : SingleProcServer) × (texts : List (ℕ × Bytes)) × (calls : List Call) × (close_client
          true fd s
        ≡ some (s', texts, calls))
      × IsIndexed s'.user_manager
      × ((j : ℕ)
          → table_of s'.user_manager j ≡ (if u.id == j then none else table_of s.user_manager j))
      × ((a b : ℕ)
          → find_user_pipe a b s'.user_pipe_map
            ≡ (if a == u.id || b == u.id then none else find_user_pipe a b s.user_pipe_map))
      × (texts ≡ map (λ x. (x, left_text u)) (clear_fd fd s.active_fds))
close_client_lem fd p u s v e h =
    let closed = close_user_pipe u.id s.user_pipe_map in
    (
      record s {
        user_manager = forget u.id u.fd p u s.user_manager;
        user_pipe_map = closed.0;
        active_fds = clear_fd fd s.active_fds;
        npshell_map = erase fd s.npshell_map;
      },
      map (λ x. (x, left_text u)) (clear_fd fd s.active_fds),
      closed.1,
      closes fd p u s e h (removed fd p u s.user_manager v e h),
      forget-IsIndexed p u s.user_manager v h,
      λ j. table_of-forget p u s.user_manager j v h,
      λ a b. find-close_user_pipe u.id a b s.user_pipe_map,
      refl,
    )
