-- ===== src/Single/Run/Sending.antt =====
-- A command with a user pipe leaves np_single_proc's server sound.
use nycu_csic30091_netw.Prelude.{ℕ, true, some, ◌∷◌, ◌≡◌, refl, arith, inl, inr, Option-cases}
use nycu_csic30091_netw.Prelude.Bytes.{Bytes}
use nycu_csic30091_netw.Cxx.Map.{find}
use nycu_csic30091_netw.Shell.Builtin.Model.{no_user_text, pos}
use nycu_csic30091_netw.Shell.Pipes.Model.{Pipe, no_pipe}
use nycu_csic30091_netw.Shell.Run.Users.{exists_text, no_pipe_text}
use nycu_csic30091_netw.Single.Users.{UserManager, get_user_by_id}
use nycu_csic30091_netw.Single.Pipes.{
  UserPipeMap, find_user_pipe, erase_user_pipe, add_user_pipe, load_user_pipe,
}
use nycu_csic30091_netw.Single.Between.{find-erase_user_pipe}
use nycu_csic30091_netw.Single.Server.{SingleProcServer}
use nycu_csic30091_netw.Single.Run.World.{World, Answers, say, announce, with_pipes}
use nycu_csic30091_netw.Single.Run.Users.{
  send_to, send_to_user, receive_from, receive_from_user, piped_text, received_text,
}
use nycu_csic30091_netw.Single.Run.Sound.{IsSound, IsLive, IsKept, ArePiped, is_some, me_of_lem}

pub with_pipes-IsSound :
    (us : UserPipeMap) (s : SingleProcServer)
    → IsSound s
    → ArePiped us s.user_manager
    → IsSound (record s { user_pipe_map = us })
with_pipes-IsSound us s v p = record {
  indexed = v.indexed;
  ordered = v.ordered;
  piped = p;
  shells = v.shells;
  active = v.active;
}

added-ArePiped :
    (a b : ℕ) (p : Pipe) (us : UserPipeMap) (m : UserManager)
    → ArePiped us m
    → is_some (find a m.id_user_map) ≡ true
    → is_some (find b m.id_user_map) ≡ true
    → ArePiped (record { from_id = a; to_id = b; pipe = p } ∷ us) m
unfolding find_user_pipe
added-ArePiped a b p us m h ea eb c d q e = ground (arith, h c d q, ea, eb, e)

erased-ArePiped :
    (a b : ℕ) (us : UserPipeMap) (m : UserManager)
    → ArePiped us m
    → ArePiped (erase_user_pipe a b us) m
erased-ArePiped a b us m h c d q e = ground (arith, h c d q, find-erase_user_pipe a b c d us, e)

-- One of the users is there.
module _ (fd : ℕ) (raw : Bytes) (id q : ℕ) (w : World) where
  send_to_user-IsKept :
      (a : Answers)
      → IsSound w.server
      → IsLive fd w.server
      → find id w.server.user_manager.id_user_map ≡ some q
      → (w' : World) × (send_to_user a fd raw id q w ≡ some w') × IsKept w w'
  unfolding send_to_user add_user_pipe
  send_to_user-IsKept a v l e =
      let (me, em, own) = me_of_lem fd w v l in
      let us = w.server.user_pipe_map in
      elim (Option-cases (find_user_pipe me.id id us)) [
        | inr (p, old) ↦ (
          say (exists_text me.id id)
              (with_pipes us (record (w.shell.manager) { new_user_pipe = no_pipe }) w),
          rw (em, old, add_user_pipe) refl,
          (with_pipes-IsSound us w.server v v.piped, refl),
        )
        | inl new ↦
            let (to_user, h, same) = v.indexed.of_id id q e in
            let us' : UserPipeMap = record { from_id = me.id; to_id = id; pipe = a.user } ∷ us in
            (
              announce (piped_text me raw to_user id)
                  (with_pipes us' (record (w.shell.manager) { new_user_pipe = a.user }) w),
              rw (em, new, add_user_pipe) (rw h refl),
              (
                with_pipes-IsSound us' w.server v (
                    added-ArePiped me.id id a.user us w.server.user_manager v.piped
                      (rw own (ground (arith, v.shells fd, l))) (rw e refl)),
                refl,
              ),
            )
      ]

  receive_from_user-IsKept :
      IsSound w.server
      → IsLive fd w.server
      → find id w.server.user_manager.id_user_map ≡ some q
      → (w' : World) × (receive_from_user fd raw id q w ≡ some w') × IsKept w w'
  unfolding receive_from_user load_user_pipe
  receive_from_user-IsKept v l e =
      let (me, em, own) = me_of_lem fd w v l in
      let us = w.server.user_pipe_map in
      elim (Option-cases (find_user_pipe id me.id us)) [
        | inl gone ↦ (
          say (no_pipe_text id me.id)
              (with_pipes us (record (w.shell.manager) { current_user_pipe = no_pipe }) w),
          rw (em, gone, load_user_pipe) refl,
          (with_pipes-IsSound us w.server v v.piped, refl),
        )
        | inr (p, there) ↦
            let (from_user, h, same) = v.indexed.of_id id q e in
            let us' = erase_user_pipe id me.id us in
            (
              announce (received_text me raw from_user id)
                  (with_pipes us' (record (w.shell.manager) { current_user_pipe = p }) w),
              rw (em, there, load_user_pipe) (rw h refl),
              (
                with_pipes-IsSound us' w.server v
                    (erased-ArePiped id me.id us w.server.user_manager v.piped),
                refl,
              ),
            )
      ]

module _ (fd : ℕ) (raw : Bytes) (id : ℕ) (w : World) where
  pub send_to-IsKept :
      (a : Answers)
      → IsSound w.server
      → IsLive fd w.server
      → (w' : World) × (send_to a fd raw id w ≡ some w') × IsKept w w'
  unfolding send_to get_user_by_id
  send_to-IsKept a v l = elim (Option-cases (find id w.server.user_manager.id_user_map)) [
    | inl e ↦ (say (no_user_text (pos id)) w, rw (e, send_to) refl, (v, refl))
    | inr (q, e) ↦
        let (w', run, k) = send_to_user-IsKept fd raw id q w a v l e in (w', rw (e, send_to) run, k)
  ]

  pub receive_from-IsKept :
      IsSound w.server
      → IsLive fd w.server
      → (w' : World) × (receive_from fd raw id w ≡ some w') × IsKept w w'
  unfolding receive_from get_user_by_id
  receive_from-IsKept v l = elim (Option-cases (find id w.server.user_manager.id_user_map)) [
    | inl e ↦ (say (no_user_text (pos id)) w, rw (e, receive_from) refl, (v, refl))
    | inr (q, e) ↦
        let (w', run, k) = receive_from_user-IsKept fd raw id q w v l e in
        (w', rw (e, receive_from) run, k)
  ]
