-- ===== src/Single/Run/Obeying.antt =====
-- The built-in commands of np_single_proc leave its server sound.
use nycu_csic30091_netw.Prelude.{
  ℕ, suc, Bool, true, false, Option, none, some, List, [], ◌∷◌, ◌++◌, ◌≡◌, refl, sym, arith, inl,
  inr, Option-cases, Bool-cases,
}
use nycu_csic30091_netw.Prelude.Bytes.{Bytes, codes, str_eq}
use nycu_csic30091_netw.Cxx.Map.{find, insert, find-insert}
use nycu_csic30091_netw.Shell.Builtin.Model.{
  Builtin, builtin_of, exit, printenv, setenv, who, yell, name, tell, ℤ, pos, negsuc, stoi,
  no_user_text, taken_text,
}
use nycu_csic30091_netw.Single.Names.{find_name}
use nycu_csic30091_netw.Single.Users.{User, UserManager, get_user_by_id, get_user_by_fd}
use nycu_csic30091_netw.Single.Renamed.{renamed, renamed-IsIndexed}
use nycu_csic30091_netw.Single.Refines.{set_name-taken, set_name-done}
use nycu_csic30091_netw.Single.Server.{send_direct_message}
use nycu_csic30091_netw.Single.Run.World.{World, say, emit, announce, with_users, told}
use nycu_csic30091_netw.Single.Run.Builtin.{
  exit_command, printenv_command, setenv_command, who_command, yell_text, yell_command, named_text,
  name_self, rename_self, name_command, tell_text, tell_user, tell_command, tell_id, call, execute,
}
use nycu_csic30091_netw.Single.Run.Heap.{who_lines_end, counted-IsIndexed, with_users-IsSound}
use nycu_csic30091_netw.Single.Run.Sound.{
  IsSound, IsLive, IsKept, is_some, is_some-elim, owner, me_of_lem,
}

-- What a built-in command reads of its arguments is there.
unfoldable pub has_args : Option Builtin → List Bytes → Bool
has_args (some yell) [] = false
has_args (some name) [] = false
has_args (some tell) (target ∷ text ∷ _) = is_some (stoi target)
has_args (some tell) _ = false
has_args _ _ = true

-- Something that a line may do, done.
abbrev pub Obeyed : World → Option (Bool × World) → Type 0
Obeyed w o = (b : Bool) × (w' : World) × (o ≡ some (b, w')) × IsKept w w'

-- A command that only speaks.
spoken : (w w' : World) → IsSound w.server → w'.server ≡ w.server → IsKept w w'
spoken w w' v e = (rw e v, rw e refl)

module _ (fd : ℕ) (w : World) (v : IsSound w.server) (l : IsLive fd w.server) where
  who_command-Obeyed : Obeyed w (who_command fd w)
  unfolding who_command get_user_by_fd
  who_command-Obeyed =
      let m = w.server.user_manager in
      let (p, me, e, h, same) = owner fd w.server v l in
      let (text, run) =
        who_lines_end p m.heap 0 m.id_user_map v.ordered
          (λ k p e. let (u, h, same) = v.indexed.of_id k p e in (u, h)) in
      (
        true,
        say (codes "<ID>\t<nickname>\t<IP:port>\t<indicate me>\n" ++ text) w,
        rw e (rw run refl),
        (v, refl),
      )

  yell_command-Obeyed :
      (text : Bytes) (rest : List Bytes) → Obeyed w (yell_command fd (text ∷ rest) w)
  unfolding yell_command
  yell_command-Obeyed text rest =
      let (me, e, own) = me_of_lem fd w v l in
      (true, announce (yell_text me text) w, rw e refl, (v, refl))

  name_self-Obeyed :
      (p : ℕ) (u : User) (n : Bytes)
      → find p w.server.user_manager.heap ≡ some u
      → u.name ≡ n
      → Obeyed w (name_self p n w)
  unfolding name_self
  name_self-Obeyed p u n e same =
      let me : User = record u { name = n } in
      let counted : User = record me { name_change_count = suc me.name_change_count } in
      let m : UserManager = record (w.server.user_manager) {
        heap = insert p counted w.server.user_manager.heap;
      } in
      (
        true,
        with_users m (announce (named_text me) w),
        rw e refl,
        (
          with_users-IsSound m w.server v
              (counted-IsIndexed p u counted w.server.user_manager v.indexed e refl refl (sym same))
              refl refl,
          refl,
        ),
      )

  tell_user-Obeyed :
      (id q : ℕ) (text : Bytes)
      → find id w.server.user_manager.id_user_map ≡ some q
      → Obeyed w (tell_user fd q text w)
  unfolding tell_user send_direct_message get_user_by_id
  tell_user-Obeyed id q text e =
      let (me, em, own) = me_of_lem fd w v l in
      let (u, h, same) = v.indexed.of_id id q e in
      (
        true,
        emit (told ((u.fd, tell_text me text) ∷ []) ∷ []) w,
        rw (em, h, v.indexed.in_ids q u h, send_direct_message) (rw h refl),
        (v, refl),
      )

  tell_id-Obeyed : (id : ℤ) (text : Bytes) → Obeyed w (tell_id fd id text w)
  unfolding tell_id get_user_by_id
  tell_id-Obeyed (negsuc n) text = (false, say (no_user_text (negsuc n)) w, refl, (v, refl))
  tell_id-Obeyed (pos id) text = elim (Option-cases (find id w.server.user_manager.id_user_map)) [
    | inl e ↦ (false, say (no_user_text (pos id)) w, rw (e, tell_id) refl, (v, refl))
    | inr (q, e) ↦
        let (b, w', run, k) = tell_user-Obeyed id q text e in (b, w', rw (e, tell_id) run, k)
  ]

  tell_command-Obeyed :
      (target text : Bytes) (rest : List Bytes)
      → is_some (stoi target) ≡ true
      → Obeyed w (tell_command fd (target ∷ text ∷ rest) w)
  unfolding tell_command get_user_by_fd
  tell_command-Obeyed target text rest h =
      let (p, me, e, there, same) = owner fd w.server v l in
      let (id, read) = is_some-elim (stoi target) h in
      let (b, w', run, k) = tell_id-Obeyed id text in (b, w', rw e (rw read run), k)

module _ (fd : ℕ) (w : World) (v : IsSound w.server) (l : IsLive fd w.server) where
  rename_self-Obeyed : (n : Bytes) → str_eq n [] ≡ false → Obeyed w (rename_self fd n w)
  unfolding rename_self get_user_by_fd
  rename_self-Obeyed n f =
      let m = w.server.user_manager in
      let (p, u, e, h, same) = owner fd w.server v l in
      elim (Option-cases (find_name n m.name_user_map)) [
        | inr (q, taken) ↦ (
          false,
          say (taken_text n) (with_users m w),
          rw (e, h, set_name-taken u.id n q m f taken) refl,
          (v, refl),
        )
        | inl free ↦
            let w1 = with_users (renamed p u n m) w in
            let v1 =
              with_users-IsSound (renamed p u n m) w.server v
                (renamed-IsIndexed p u n m v.indexed h f free) refl refl in
            let found : find p w1.server.user_manager.heap ≡ some (record u { name = n }) =
              ground (arith, find-insert p p (record u { name = n }) m.heap) in
            let (b, w', run, k) =
              name_self-Obeyed fd w1 v1 l p (record u { name = n }) n found refl in
            (b, w', rw (e, h, set_name-done u.id n p u m f free (v.indexed.in_ids p u h) h) run, k)
      ]

  name_command-Obeyed : (n : Bytes) (rest : List Bytes) → Obeyed w (name_command fd (n ∷ rest) w)
  unfolding name_command get_user_by_fd
  name_command-Obeyed n rest =
      let (p, me, there, h, same) = owner fd w.server v l in
      elim (Bool-cases (str_eq n [])) [
        | inl e ↦
            (false, say (codes "Error args1 cannot be empty\n") w, rw there (rw e refl), (v, refl))
        | inr f ↦ let (b, w', run, k) = rename_self-Obeyed n f in (b, w', rw there (rw f run), k)
      ]

  printenv_command-Obeyed : (args : List Bytes) → Obeyed w (some (printenv_command args w))
  unfolding printenv_command
  printenv_command-Obeyed [] = (false, w, refl, (v, refl))
  printenv_command-Obeyed (n ∷ rest) =
      let r = printenv_command (n ∷ rest) w in (r.0, r.1, refl, (v, refl))

  setenv_command-Obeyed : (args : List Bytes) → Obeyed w (some (setenv_command args w))
  unfolding setenv_command
  setenv_command-Obeyed [] = (false, w, refl, (v, refl))
  setenv_command-Obeyed (n ∷ []) = let r = setenv_command (n ∷ []) w in (r.0, r.1, refl, (v, refl))
  setenv_command-Obeyed (n ∷ x ∷ rest) =
      let r = setenv_command (n ∷ x ∷ rest) w in (r.0, r.1, refl, (v, refl))

  call-Obeyed :
      (o : Option Builtin) (args : List Bytes)
      → has_args o args ≡ true
      → Obeyed w (call o fd args w)
  unfolding call has_args exit_command
  call-Obeyed none args h = (false, w, refl, (v, refl))
  call-Obeyed (some exit) args h = (true, exit_command w, refl, (v, refl))
  call-Obeyed (some printenv) args h = printenv_command-Obeyed args
  call-Obeyed (some setenv) args h = setenv_command-Obeyed args
  call-Obeyed (some who) args h = who_command-Obeyed fd w v l
  call-Obeyed (some yell) [] h = cc
  call-Obeyed (some yell) (text ∷ rest) h = yell_command-Obeyed fd w v l text rest
  call-Obeyed (some name) [] h = cc
  call-Obeyed (some name) (n ∷ rest) h = name_command-Obeyed n rest
  call-Obeyed (some tell) [] h = cc
  call-Obeyed (some tell) (target ∷ []) h = cc
  call-Obeyed (some tell) (target ∷ text ∷ rest) h = tell_command-Obeyed fd w v l target text rest h

  -- A command of a client with a shell, with the arguments that it reads, comes to an end, leads no
  -- pointer nowhere, and leaves the server sound.
  pub execute-Obeyed :
      (command : Bytes) (args : List Bytes)
      → has_args (builtin_of command) args ≡ true
      → Obeyed w (execute fd command args w)
  unfolding execute
  execute-Obeyed command args h = call-Obeyed (builtin_of command) args h
