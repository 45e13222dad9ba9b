-- ===== src/Single/Run/Clients.antt =====
-- A client that comes and a client that goes leave np_single_proc's server sound.
use nycu_csic30091_netw.Prelude.{true, ℕ, none, some, List, [], ◌∷◌, ◌++◌, ◌≡◌, ◌≢◌, refl, arith}
use nycu_csic30091_netw.Prelude.Bytes.{Bytes, codes}
use nycu_csic30091_netw.Cxx.Map.{
  find, insert, erase, find-insert, find-erase, insert-Above, erase-Above,
}
use nycu_csic30091_netw.Cxx.TextMap.{TextMap, find_text}
use nycu_csic30091_netw.Shell.Pipes.Model.{Call}
use nycu_csic30091_netw.Single.Users.{add_user, forget, or_empty}
use nycu_csic30091_netw.Single.Indexed.{forget-IsIndexed}
use nycu_csic30091_netw.Single.Arrived.{arrived, arrived-IsIndexed}
use nycu_csic30091_netw.Single.Ids.{id_min_lem}
use nycu_csic30091_netw.Single.Requests.{newcomer}
use nycu_csic30091_netw.Single.Refines.{noted_empty}
use nycu_csic30091_netw.Single.Between.{find-close_user_pipe}
use nycu_csic30091_netw.Single.Left.{removed, closes}
use nycu_csic30091_netw.Single.Server.{
  SingleProcServer, broadcast, set_fd, welcome_text, entered_text, new_shell, new_client,
  close_client,
}
use nycu_csic30091_netw.Single.Run.Sound.{IsSound, IsLive, owner, has_fd-set_fd, has_fd-clear_fd}

module _ (vars : TextMap) (p fd : ℕ) (ip : Bytes) (s : SingleProcServer) (v : IsSound s) where
  -- A new client, with an address for its user that holds no object, and a descriptor of no other.
  pub new_client-IsSound :
      find p s.user_manager.heap ≡ none
      → find fd s.user_manager.fd_user_map ≡ none
      → (s' : SingleProcServer) × (texts : List (ℕ × Bytes)) × (new_client vars p fd ip s
          ≡ some (s', texts))
        × IsSound s'
        × ((j : ℕ) → IsLive j s → IsLive j s')
  unfolding new_client add_user
  new_client-IsSound ep ef =
      let m = s.user_manager in
      let (id, found, least) = id_min_lem m.id_user_map in
      let noted = find_text ip m.ip_username_map in
      let nameless : or_empty noted ≡ [] = noted_empty ip m v.indexed in
      let u = newcomer fd id ip in
      let there : find p (insert p u m.heap) ≡ some u = ground (arith, find-insert p p u m.heap) in
      let s' : SingleProcServer = record s {
        user_manager = arrived p u ip noted m;
        active_fds = set_fd fd s.active_fds;
        npshell_map = insert fd (new_shell vars) s.npshell_map;
      } in
      (
        s',
        (fd, welcome_text) ∷ (broadcast (entered_text u) s' ++ (fd, codes "% ") ∷ []),
        rw (found, nameless) (rw there refl),
        record {
          indexed = arrived-IsIndexed p u ip noted m v.indexed ep least.free ef refl nameless;
          ordered = insert-Above 0 id p m.id_user_map (omega arith) v.ordered;
          piped = λ a b q e. ground (
            arith,
            v.piped a b q e,
            find-insert id a p m.id_user_map,
            find-insert id b p m.id_user_map,
          );
          shells = λ j. ground (
            arith,
            v.shells j,
            find-insert fd j p m.fd_user_map,
            find-insert fd j (new_shell vars) s.npshell_map,
          );
          active = λ j. ground (
            arith,
            v.active j,
            find-insert fd j p m.fd_user_map,
            has_fd-set_fd fd j s.active_fds,
          );
        },
        λ j l. ground (arith, l, find-insert fd j (new_shell vars) s.npshell_map),
      )

module _ (fd : ℕ) (s : SingleProcServer) (v : IsSound s) where
  -- A client that is there goes, behind its shell.
  pub close_client-IsSound :
      IsLive fd s
      → (s' : SingleProcServer) × (texts : List (ℕ × Bytes)) × (calls : List Call) × (close_client
            true fd
            (record s { npshell_map = erase fd s.npshell_map })
          ≡ some (s', texts, calls))
        × IsSound s'
        × ((j : ℕ) → fd ≢ j → IsLive j s → IsLive j s')
  unfolding forget
  close_client-IsSound l =
      let m = s.user_manager in
      let (p, u, e, h, same) = owner fd s v l in
      let gone = record s { npshell_map = erase fd s.npshell_map } in
      (
        _,
        _,
        _,
        closes fd p u gone e h (removed fd p u m v.indexed e h),
        record {
          indexed = forget-IsIndexed p u m v.indexed h;
          ordered = erase-Above 0 u.id m.id_user_map v.ordered;
          piped = λ a b q e. ground (
            arith,
            v.piped a b q,
            find-close_user_pipe u.id a b s.user_pipe_map,
            find-erase u.id a m.id_user_map,
            find-erase u.id b m.id_user_map,
            e,
          );
          shells = λ j. ground (
            arith,
            v.shells j,
            same,
            find-erase u.fd j m.fd_user_map,
            find-erase fd j (erase fd s.npshell_map),
            find-erase fd j s.npshell_map,
          );
          active = λ j. ground (
            arith,
            v.active j,
            same,
            find-erase u.fd j m.fd_user_map,
            has_fd-clear_fd fd j s.active_fds,
          );
        },
        λ j n l.
            ground (
              arith,
              n,
              l,
              find-erase fd j (erase fd s.npshell_map),
              find-erase fd j s.npshell_map,
            ),
      )
