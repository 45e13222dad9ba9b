-- ===== src/Console/Dialogue.antt =====
-- A whole session against a server that answers each line by a prompt.
use nycu_csic30091_netw.Prelude.{
  ℕ, true, false, Option, some, List, map, [], ◌∷◌, ◌++◌, ◌>>=◌, ◌≡◌, refl, ◌∙◌, sym, ap,
  append_assoc, append-nil,
}
use nycu_csic30091_netw.Prelude.Bytes.{Bytes}
use nycu_csic30091_netw.Socks.Response.{reply_accepts}
use nycu_csic30091_netw.Console.Render.{Output, command, response}
use nycu_csic30091_netw.Console.Session.{
  Op, Answer, ConsoleSession, resolve, read, resolved, done, got, exit_session, start, complete,
  on_write, on_resolve, on_connect, on_write_socks4, on_read_socks4,
}
use nycu_csic30091_netw.Console.Script.{
  run, Turn, Line, raw, command_of, is_exit, IsPiece, ArePieces, IsTurn, IsLine, on_read-quiet,
  on_read-prompt,
}
use nycu_csic30091_netw.Console.Told.{
  pages, told, answered, sent_line, told-told, told-nil, add_output-told,
}

run-quiet :
    (ps : List Bytes) (rest : List Answer) (sent : List Bytes) (s : ConsoleSession)
    → ArePieces ps
    → run (map got ps ++ rest) (read ∷ []) sent s
      ≡ run rest (read ∷ []) sent (told (map answered ps) s)
unfolding run complete
run-quiet [] rest sent s v = ap (run rest (read ∷ []) sent) (sym (told-nil s))
run-quiet (p ∷ ps) rest sent s v =
    rw (on_read-quiet p s v.0, append-nil sent, add_output-told p response s)
      (run-quiet ps rest sent (told (answered p ∷ []) s) v.1
        ∙ ap (run rest (read ∷ []) sent) (told-told (answered p ∷ []) (map answered ps) s))

run-end :
    (ops : List Op) (sent : List Bytes) (s : ConsoleSession)
    → run [] ops sent s ≡ some (s, ops, sent)
unfolding run
run-end ops sent s = refl

abbrev pub turn_answers : Turn → List Answer
turn_answers t = map got t.quiet ++ got t.prompt ∷ done ∷ []

abbrev pub turn_outputs : Turn → Line → List Output
turn_outputs t l = map answered t.quiet ++ answered t.prompt ∷ sent_line l ∷ []

-- What is left once a line has been written.
abbrev behind_line :
    Line
    → List Answer
    → List Bytes
    → ConsoleSession
    → Option (ConsoleSession × List Op × List Bytes)
behind_line l rest sent s =
    on_write (command_of l) done s >>= λ r. run rest r.1 (sent ++ command_of l ∷ []) r.0

run-prompt :
    (p : Bytes) (l : Line) (rest : List Answer) (left : Bytes) (sent : List Bytes)
    (s : ConsoleSession)
    → IsPiece true p
    → IsLine l
    → s.script_file ≡ raw l ++ 10 ∷ left
    → run (got p ∷ done ∷ rest) (read ∷ []) sent s
      ≡ behind_line l rest sent (record (told (answered p ∷ []) s) { script_file = left })
unfolding run complete
run-prompt p l rest left sent s v w e =
    rw (on_read-prompt p l left s v w e, append-nil sent, add_output-told p response s) refl

run-turn :
    (t : Turn) (l : Line) (rest : List Answer) (left : Bytes) (sent : List Bytes)
    (s : ConsoleSession)
    → IsTurn t
    → IsLine l
    → s.script_file ≡ raw l ++ 10 ∷ left
    → run (turn_answers t ++ rest) (read ∷ []) sent s
      ≡ behind_line l rest sent
          (record (told (map answered t.quiet ++ answered t.prompt ∷ []) s) { script_file = left })
run-turn t l rest left sent s v w e =
    ap (λ x. run x (read ∷ []) sent s)
      (append_assoc (map got t.quiet) (got t.prompt ∷ done ∷ []) rest)
    ∙ (run-quiet t.quiet (got t.prompt ∷ done ∷ rest) sent s v.0
        ∙ (run-prompt t.prompt l rest left sent (told (map answered t.quiet) s) v.1 w e
            ∙ ap (λ x. behind_line l rest sent (record x { script_file = left }))
                (told-told (map answered t.quiet) (answered t.prompt ∷ []) s)))

on_write-line :
    (l : Line) (s : ConsoleSession)
    → is_exit (command_of l) ≡ false
    → on_write (command_of l) done s ≡ some (told (sent_line l ∷ []) s, read ∷ [])
unfolding on_write
on_write-line l s e = rw (e, add_output-told (command_of l) command s) refl

on_write-exit :
    (l : Line) (s : ConsoleSession)
    → is_exit (command_of l) ≡ true
    → on_write (command_of l) done s ≡ some (exit_session (told (sent_line l ∷ []) s), [])
unfolding on_write
on_write-exit l s e = rw (e, add_output-told (command_of l) command s) refl

told-turn :
    (t : Turn) (l : Line) (left : Bytes) (s : ConsoleSession)
    → told
        (sent_line l ∷ [])
        (record (told (map answered t.quiet ++ answered t.prompt ∷ []) s) { script_file = left })
      ≡ record (told (turn_outputs t l) s) { script_file = left }
told-turn t l left s =
    ap (λ (y : ConsoleSession). record y { script_file = left })
      (told-told (map answered t.quiet ++ answered t.prompt ∷ []) (sent_line l ∷ []) s
        ∙ ap (λ os. told os s)
            (append_assoc (map answered t.quiet) (answered t.prompt ∷ []) (sent_line l ∷ [])))

abbrev pub talk_answers : List (Turn × Line) → List Answer
talk_answers [] = []
talk_answers ((t, l) ∷ d) = turn_answers t ++ talk_answers d

abbrev pub talk_script : List (Turn × Line) → Bytes → Bytes
talk_script [] left = left
talk_script ((t, l) ∷ d) left = raw l ++ 10 ∷ talk_script d left

abbrev pub talk_outputs : List (Turn × Line) → List Output
talk_outputs [] = []
talk_outputs ((t, l) ∷ d) = turn_outputs t l ++ talk_outputs d

abbrev pub talk_sent : List (Turn × Line) → List Bytes
talk_sent [] = []
talk_sent ((t, l) ∷ d) = command_of l ∷ talk_sent d

-- Well-formed turns and lines, the last line being the only one that ends the session.
abbrev pub IsTalk : List (Turn × Line) → Type 0
IsTalk [] = ⊥
IsTalk ((t, l) ∷ []) = IsTurn t × IsLine l × (is_exit (command_of l) ≡ true)
IsTalk ((t, l) ∷ e ∷ d) = IsTurn t × IsLine l × (is_exit (command_of l) ≡ false) × IsTalk (e ∷ d)

pub run-talk :
    (d : List (Turn × Line)) (left : Bytes) (sent : List Bytes) (s : ConsoleSession)
    → IsTalk d
    → s.script_file ≡ talk_script d left
    → run (talk_answers d) (read ∷ []) sent s
      ≡ some (
        exit_session (record (told (talk_outputs d) s) { script_file = left }),
        [],
        sent ++ talk_sent d,
      )
run-talk [] left sent s v e = absurd v
run-talk ((t, l) ∷ []) left sent s (vt, vl, vx) e =
    let s1 = record (told (map answered t.quiet ++ answered t.prompt ∷ []) s) {
      script_file = left;
    } in
    rw
      (
        run-turn t l [] left sent s vt vl e,
        on_write-exit l s1 vx,
        told-turn t l left s,
        append-nil (turn_outputs t l),
      )
      (run-end [] (sent ++ command_of l ∷ []) _)
run-talk ((t, l) ∷ f ∷ d) left sent s (vt, vl, vx, v) e =
    let more = talk_script (f ∷ d) left in
    let s1 = record (told (map answered t.quiet ++ answered t.prompt ∷ []) s) {
      script_file = more;
    } in
    let s2 = record (told (turn_outputs t l) s) { script_file = more } in
    rw
      (
        run-turn t l (talk_answers (f ∷ d)) more sent s vt vl e,
        on_write-line l s1 vx,
        told-turn t l more s,
      )
      (run-talk (f ∷ d) left (sent ++ command_of l ∷ []) s2 v refl
        ∙ (ap
              (λ (z : List Bytes). some (
                exit_session (record (told (talk_outputs (f ∷ d)) s2) { script_file = left }),
                [],
                z,
              ))
              (append_assoc sent (command_of l ∷ []) (talk_sent (f ∷ d)))
            ∙ ap
                (λ (y : ConsoleSession). some (
                  exit_session (record y { script_file = left }),
                  [],
                  sent ++ command_of l ∷ talk_sent (f ∷ d),
                ))
                (told-told (turn_outputs t l) (talk_outputs (f ∷ d)) s)))

-- A session whose script can be opened, whose resolver gives one endpoint, and whose connection, request
-- and reply succeed, against a server that behind each line sends pieces of text and then one with a
-- prompt, the last line and no other being `exit`: the session ends, with its socket closed and nothing
-- started any more; it has sent the lines of the script in order, without their carriage returns and each
-- with a line end; and it has shown each piece and each line in the order in which they came, in its
-- record of outputs and on the page.
pub session_ends :
    (d : List (Turn × Line)) (script reply left : Bytes) (endpoint : ℕ) (s : ConsoleSession)
    → IsTalk d
    → reply_accepts (reply ++ 0 ∷ 0 ∷ []) ≡ true
    → script ≡ talk_script d left
    → (s0 : ConsoleSession) × (ops : List Op) × (s' : ConsoleSession) × (start (some script) s
        ≡ some (s0, ops))
      × (run (resolved (endpoint ∷ []) ∷ done ∷ done ∷ got reply ∷ talk_answers d) ops [] s0
          ≡ some (s', [], talk_sent d))
      × (s'.exit ≡ true)
      × (s'.is_open ≡ false)
      × (s'.command_response_arr ≡ s.command_response_arr ++ talk_outputs d)
      × (s'.page ≡ s.page ++ pages s.id (talk_outputs d))
unfolding start run complete on_resolve on_connect on_write_socks4 on_read_socks4 exit_session
session_ends d script reply left endpoint s v r e =
    let s0 = record s { exit = false; script_file = script } in
    let s1 = record s0 { is_open = true } in
    (
      s0,
      resolve ∷ [],
      exit_session (record (told (talk_outputs d) s1) { script_file = left }),
      refl,
      rw r (run-talk d left [] s1 v e),
      refl,
      refl,
      refl,
      refl,
    )
