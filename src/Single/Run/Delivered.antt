-- ===== src/Single/Run/Delivered.antt =====
-- What one user of np_single_proc pipes to another arrives.
use nycu_csic30091_netw.Prelude.{
  ℕ, true, false, Option, none, some, List, [], ◌∷◌, ◌++◌, ◌≡◌, refl, arith, append_assoc, ◌∙◌,
}
use nycu_csic30091_netw.Prelude.Bytes.{Bytes, str_eq}
use nycu_csic30091_netw.Cxx.Decimal.{read_number-to_string}
use nycu_csic30091_netw.Cxx.Map.{find}
use nycu_csic30091_netw.Shell.Parser.Model.{Command}
use nycu_csic30091_netw.Shell.Pipes.Model.{
  console_output, Pipe, Call, close, is_pipe, user_pipe_out, none_mode,
}
use nycu_csic30091_netw.Shell.Builtin.Model.{builtin_of}
use nycu_csic30091_netw.Shell.Run.Model.{first_byte, number_of, second_mode}
use nycu_csic30091_netw.Single.Users.{User}
use nycu_csic30091_netw.Single.Pipes.{
  find_user_pipe, erase_user_pipe, root_pipe_handler, parent_pipe_handler,
}
use nycu_csic30091_netw.Single.Between.{find-erase_user_pipe}
use nycu_csic30091_netw.Single.Server.{NpShell, broadcast}
use nycu_csic30091_netw.Single.Run.World.{
  World, Answers, Event, told, spawned, called, waited, announce, with_pipes,
  execute_forked_command,
}
use nycu_csic30091_netw.Single.Run.Users.{piped_text, received_text}
use nycu_csic30091_netw.Single.Run.Model.{
  forked, run_command, run_to_user, run_from_user, run_second, run_mode, run_user_in,
}
use nycu_csic30091_netw.Single.Run.Sent.{
  piping, reading, run_piping, run_reading, writes_to, writing_calls, reads_from, reading_calls,
  sends, receives,
}
use nycu_csic30091_netw.Single.Run.Sound.{IsSound}

-- A program started behind an announcement.
started :
    (es : List Event) (e x y : Event) (zs : List Event)
    → (es ++ e ∷ []) ++ x ∷ y ∷ zs ≡ es ++ e ∷ x ∷ y ∷ zs
started es e x y zs = append_assoc es (e ∷ []) (x ∷ y ∷ zs)

-- The pipe from the other user is there.
taken :
    (fd p q : ℕ) (me other : User) (w : World) (a : Answers) (raw prog : Bytes) (args : List Bytes)
    (next : Option Command) (pipe : Pipe)
    → find fd w.server.user_manager.fd_user_map ≡ some p
    → find p w.server.user_manager.heap ≡ some me
    → find other.id w.server.user_manager.id_user_map ≡ some q
    → find q w.server.user_manager.heap ≡ some other
    → builtin_of prog ≡ none
    → is_pipe pipe ≡ true
    → find_user_pipe other.id me.id w.server.user_pipe_map ≡ some pipe
    → (w2 : World) × (run_command a fd raw (reading prog args other.id) next w ≡ some (false, w2))
      × (w2.events
          ≡ w.events
            ++ told (broadcast (received_text me raw other other.id) w.server)
              ∷ spawned prog args (reads_from pipe)
              ∷ called (close pipe.read ∷ close pipe.write ∷ [])
              ∷ waited
              ∷ [])
      × (find_user_pipe other.id me.id w2.server.user_pipe_map ≡ none)
unfolding execute_forked_command run_from_user run_second run_mode run_user_in number_of broadcast
    second_mode str_eq first_byte
taken fd p q me other w a raw prog args next pipe e h i k b is there =
    let wr : World = announce (received_text me raw other other.id) (
      with_pipes (erase_user_pipe other.id me.id w.server.user_pipe_map)
        (record (w.shell.manager) { current_user_pipe = pipe }) w) in
    let (child, parent) = reading_calls a.fresh pipe wr.shell.manager is refl in
    (
      run_user_in a console_output [] (reading prog args other.id) wr,
      rw (run_reading a fd raw prog args other.id next w b) (
          rw (read_number-to_string other.id, receives fd p q me other w e h i k raw pipe there)
            refl),
      rw (child, parent) (started w.events _ _ _ (waited ∷ [])),
      ground (arith, find-erase_user_pipe other.id me.id other.id me.id w.server.user_pipe_map),
    )

module _ (fa fb pa pb : ℕ) (ua ub : User) (w : World)
    (ea : find fa w.server.user_manager.fd_user_map ≡ some pa)
    (ha : find pa w.server.user_manager.heap ≡ some ua)
    (eb : find fb w.server.user_manager.fd_user_map ≡ some pb)
    (hb : find pb w.server.user_manager.heap ≡ some ub) (v : IsSound w.server) where
  abbrev sent_world : Answers → Bytes → World
  sent_world a raw = announce (piped_text ua raw ub ub.id) (
      with_pipes (record { from_id = ua.id; to_id = ub.id; pipe = a.user } ∷ w.server.user_pipe_map)
        (record (w.shell.manager) { new_user_pipe = a.user }) w)

  piped :
      (a : Answers) (raw prog : Bytes) (args : List Bytes) (next : Option Command)
      → builtin_of prog ≡ none
      → is_pipe a.user ≡ true
      → find_user_pipe ua.id ub.id w.server.user_pipe_map ≡ none
      → (w1 : World) × (ins closed : List Call) × (run_command a fa raw
            (piping prog args ub.id)
            next
            w
          ≡ some (true, w1))
        × (w1.events
            ≡ w.events
              ++ told (broadcast (piped_text ua raw ub ub.id) w.server)
                ∷ spawned prog args (ins ++ writes_to a.user)
                ∷ called closed
                ∷ [])
        × (w1.server ≡ (sent_world a raw).server)
  unfolding execute_forked_command run_to_user number_of broadcast
  piped a raw prog args next b is new =
      let ws = sent_world a raw in
      let m = root_pipe_handler user_pipe_out none_mode a.fresh ws.shell.manager in
      let (ins, calls) = writing_calls a.fresh a.user ws.shell.manager is refl in
      (
        forked a user_pipe_out (piping prog args ub.id) ws,
        ins,
        (parent_pipe_handler user_pipe_out none_mode m).1,
        rw (run_piping a fa raw prog args ub.id next w b) (
            rw
              (
                read_number-to_string ub.id,
                sends fa pa pb ua ub w ea ha (v.indexed.in_ids pb ub hb) hb a raw new,
              )
              refl),
        rw calls (started w.events _ _ _ []),
        refl,
      )

  -- A user, by a line `prog args >n`, pipes to a user with the id n to whom it has no pipe: all are told,
  -- and the output of the program is the write end of a new pipe. Then that user, by a line
  -- `prog args <m`, reads from the first one, whose id is m: all are told, the input of its program is
  -- the read end of this pipe, the server closes both of its ends and waits for the program, and there
  -- is no pipe between the two any more. The server is sound, the programs are no built-in commands and
  -- the pipe has descriptors other than 0.
  pub user_pipe_delivers :
      (a a' : Answers) (raw raw' prog prog' : Bytes) (args args' : List Bytes)
      (next next' : Option Command) (shell : NpShell)
      → builtin_of prog ≡ none
      → builtin_of prog' ≡ none
      → is_pipe a.user ≡ true
      → find_user_pipe ua.id ub.id w.server.user_pipe_map ≡ none
      → (w1 w2 : World) × (ins closed : List Call) × (run_command a fa raw
            (piping prog args ub.id)
            next
            w
          ≡ some (true, w1))
        × (w1.events
            ≡ w.events
              ++ told (broadcast (piped_text ua raw ub ub.id) w.server)
                ∷ spawned prog args (ins ++ writes_to a.user)
                ∷ called closed
                ∷ [])
        × (run_command a' fb raw' (reading prog' args' ua.id) next' (record w1 { shell = shell })
            ≡ some (false, w2))
        × (w2.events
            ≡ w1.events
              ++ told (broadcast (received_text ub raw' ua ua.id) w.server)
                ∷ spawned prog' args' (reads_from a.user)
                ∷ called (close a.user.read ∷ close a.user.write ∷ [])
                ∷ waited
                ∷ [])
        × (find_user_pipe ua.id ub.id w2.server.user_pipe_map ≡ none)
  unfolding broadcast find_user_pipe
  user_pipe_delivers a a' raw raw' prog prog' args args' next next' shell b b' is new =
      let (w1, ins, closed, run, es, server) = piped a raw prog args next b is new in
      let there : find_user_pipe ua.id ub.id (sent_world a raw).server.user_pipe_map ≡ some a.user =
        ground arith in
      let (w2, run', es', gone) =
        taken fb pb pa ub ua (record w1 { shell = shell }) a' raw' prog' args' next' a.user
          (rw server eb) (rw server hb) (rw server (v.indexed.in_ids pa ua ha)) (rw server ha) b' is
          (rw server there) in
      (w1, w2, ins, closed, run, es, run', es' ∙ rw server refl, gone)
