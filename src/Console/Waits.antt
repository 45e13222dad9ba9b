-- ===== src/Console/Waits.antt =====
-- The sessions of part1-cgi against those of project4, behind the reply of the proxy.
use nycu_csic30091_netw.Prelude.{
  true, false, ◌||◌, Option, none, some, List, map, [], ◌∷◌, ◌++◌, ◌>>=◌, ◌≡◌, refl, inl, inr, ap,
  sym, ◌∙◌, eq_of_some, ℕ, Bool-cases, Option-cases,
}
use nycu_csic30091_netw.Prelude.Bytes.{Bytes, codes, str_eq}
use nycu_csic30091_netw.Cxx.Stream.{before, after}
use nycu_csic30091_netw.Console.Session.{
  ConsoleSession, Answer, failed, resolved, done, got, text_of, next_command, has_prompt, do_write,
  add_output, exit_session,
}
use nycu_csic30091_netw.Console.Render.{command, response, errormsg}
use nycu_csic30091_netw.Console.Session as Proxied
use nycu_csic30091_netw.Console.Script as Script
use nycu_csic30091_netw.Console.Script.{Turn, Line}
use nycu_csic30091_netw.Console.Told.{pages, told}
use nycu_csic30091_netw.Console.Dialogue.{
  IsTalk, talk_script, talk_answers, talk_sent, talk_outputs, run-talk,
}
use nycu_csic30091_netw.Console.Direct.{
  Op, resolve, start, on_resolve, on_connect, read, write, complete, waited, sending, run, on_read,
  on_wait, on_write, send_line,
}

-- What both sessions start once the connection stands.
pub data Shared : Type 0 where
  reading : Shared
  writing : Bytes → Bytes → Shared

abbrev pub here : Shared → Op
here reading = read
here (writing sent text) = write sent text

abbrev pub there : Shared → Proxied.Op
there reading = Proxied.read
there (writing sent text) = Proxied.write sent text

-- The two handlers, the timer of one of them run out, leave the same session, and start nothing, or the
-- same operation.
abbrev Agree : Shared → Answer → ConsoleSession → Type 0
Agree x a s =
    (o : Option (ConsoleSession × List Shared)) × ((complete (here x) a s >>= waited)
      ≡ (o >>= λ r. some (r.0, map here r.1)))
    × (Proxied.complete (there x) a s ≡ (o >>= λ r. some (r.0, map there r.1)))

prompted :
    (text : Bytes) (s : ConsoleSession)
    → (o : Option (ConsoleSession × List Shared)) × (on_wait done s
        ≡ (o >>= λ r. some (r.0, map here r.1)))
      × (do_write s ≡ (o >>= λ r. some (r.0, map there r.1)))
unfolding on_wait send_line do_write
prompted text s = elim (Option-cases (next_command (before 10 s.script_file))) [
  | inl e ↦ (none, rw e refl, rw e refl)
  | inr (line, e) ↦ (
    some (record s { script_file = after 10 s.script_file }, writing (before 0 line) line ∷ []),
    rw e refl,
    rw e refl,
  )
]

same_got : (bytes : Bytes) (s : ConsoleSession) → Agree reading (got bytes) s
unfolding complete Proxied.complete on_read Proxied.on_read waited
same_got bytes s = elim (Option-cases (text_of bytes)) [
  | inl e ↦ (none, rw e refl, rw e refl)
  | inr (text, e) ↦
      let s' = add_output text response s in
      elim (Bool-cases (has_prompt text)) [
        | inl p ↦
            let (o, direct, proxied) = prompted text s' in
            (o, rw e (rw p direct), rw e (rw p proxied))
        | inr p ↦ (some (s', reading ∷ []), rw e (rw p refl), rw e (rw p refl))
      ]
]

same_written : (sent text : Bytes) (s : ConsoleSession) → Agree (writing sent text) done s
unfolding complete Proxied.complete on_write Proxied.on_write waited
same_written sent text s =
    let s' = add_output text command s in
    elim (Bool-cases (str_eq text (codes "exit\r\n") || str_eq text (codes "exit\n"))) [
      | inl e ↦ (some (exit_session s', []), rw e refl, rw e refl)
      | inr e ↦ (some (s', reading ∷ []), rw e refl, rw e refl)
    ]

same_step : (x : Shared) (a : Answer) (s : ConsoleSession) → Agree x a s
unfolding complete Proxied.complete on_read Proxied.on_read on_write Proxied.on_write waited
same_step reading (failed e) s = (
  some (exit_session (add_output (codes "Read Error: " ++ (e ++ 10 ∷ [])) errormsg s), []),
  refl,
  refl,
)
same_step reading (got bytes) s = same_got bytes s
same_step reading done s = (none, refl, refl)
same_step reading (resolved es) s = (none, refl, refl)
same_step (writing sent text) (failed e) s = (
  some (exit_session (add_output (codes "Write Error: " ++ (e ++ 10 ∷ [])) errormsg s), []),
  refl,
  refl,
)
same_step (writing sent text) done s = same_written sent text s
same_step (writing sent text) (got bytes) s = (none, refl, refl)
same_step (writing sent text) (resolved es) s = (none, refl, refl)

same_sending : (x : Shared) → sending (here x) ≡ Script.sending (there x)
same_sending reading = refl
same_sending (writing sent text) = refl

-- What a run ends with, as far as both have it.
abbrev pub Ends : Type 0
Ends = Option (ConsoleSession × List Shared × List Bytes)

abbrev pub as_direct : Ends → Option (ConsoleSession × List Op × List Bytes)
as_direct none = none
as_direct (some (s, xs, sent)) = some (s, map here xs, sent)

abbrev pub as_proxied : Ends → Option (ConsoleSession × List Proxied.Op × List Bytes)
as_proxied none = none
as_proxied (some (s, xs, sent)) = some (s, map there xs, sent)

-- Once the connection stands, a session of part1-cgi, whose timers run out, and one of project4, from
-- the same state, with the same operations started and under the same answers, whatever these are, leave
-- the same session, have sent the same lines and have started the same operations; or both have no result.
pub run-same :
    (answers : List Answer) (xs : List Shared) (sent : List Bytes) (s : ConsoleSession)
    → (o : Ends) × (run answers (map here xs) sent s ≡ as_direct o)
      × (Script.run answers (map there xs) sent s ≡ as_proxied o)
unfolding run Script.run
run-same [] xs sent s = (some (s, xs, sent), refl, refl)
run-same (a ∷ rest) [] sent s = (none, refl, refl)
run-same (a ∷ rest) (x ∷ y ∷ xs) sent s = (none, refl, refl)
run-same (a ∷ rest) (x ∷ []) sent s =
    let (o, direct, proxied) = same_step x a s in
    elim (Option-cases o) [
      | inl e ↦ (none, rw (direct, e) refl, rw (proxied, e) refl)
      | inr ((s', ys), e) ↦
          let (o', run_direct, run_proxied) = run-same rest ys (sent ++ sending (here x)) s' in
          (o', rw (direct, e) run_direct, rw (proxied, e) (rw (← same_sending x) run_proxied))
    ]

ended :
    (o : Ends) (s' : ConsoleSession) (sent : List Bytes)
    → as_proxied o ≡ some (s', [], sent)
    → as_direct o ≡ some (s', [], sent)
ended none s' sent e = cc
ended (some (s1, [], t)) s' sent e =
    ap (λ (p : ConsoleSession × List Proxied.Op × List Bytes). some (p.0, [], p.2)) (eq_of_some e)
ended (some (s1, x ∷ xs, t)) s' sent e =
    let no : there x ∷ map there xs ≡ [] =
      ap (λ (p : ConsoleSession × List Proxied.Op × List Bytes). p.1) (eq_of_some e) in
    cc

-- A run of the session of project4 that ends with nothing started is one of part1-cgi.
run-ended :
    (answers : List Answer) (s s' : ConsoleSession) (sent : List Bytes)
    → Script.run answers (Proxied.read ∷ []) [] s ≡ some (s', [], sent)
    → run answers (read ∷ []) [] s ≡ some (s', [], sent)
run-ended answers s s' sent e =
    let (o, direct, proxied) = run-same answers (reading ∷ []) [] s in
    direct ∙ ended o s' sent (sym proxied ∙ e)

-- A session of part1-cgi whose script can be opened, whose resolver gives one endpoint, whose connection
-- succeeds and whose timers run out, against a server that behind each line sends pieces of text and
-- then one with a prompt, the last line and no other being `exit`: the session ends, with its socket
-- closed and nothing started any more; it has sent the lines of the script in order, and its record has
-- each piece and each line in the order in which they came, on the page too.
pub direct_session_ends :
    (d : List (Turn × Line)) (script left : Bytes) (endpoint : ℕ) (s : ConsoleSession)
    → IsTalk d
    → script ≡ talk_script d left
    → (s0 : ConsoleSession) × (ops : List Op) × (s' : ConsoleSession) × (start (some script) s
        ≡ some (s0, ops))
      × (run (resolved (endpoint ∷ []) ∷ done ∷ talk_answers d) ops [] s0
          ≡ some (s', [], talk_sent d))
      × (s'.exit ≡ true)
      × (s'.is_open ≡ false)
      × (s'.command_response_arr ≡ s.command_response_arr ++ talk_outputs d)
      × (s'.page ≡ s.page ++ pages s.id (talk_outputs d))
unfolding start run complete on_resolve on_connect waited exit_session
direct_session_ends d script left endpoint s v e =
    let s0 = record s { exit = false; script_file = script } in
    let s1 = record s0 { is_open = true } in
    let s' = exit_session (record (told (talk_outputs d) s1) { script_file = left }) in
    (
      s0,
      resolve ∷ [],
      s',
      refl,
      run-ended (talk_answers d) s1 s' (talk_sent d) (run-talk d left [] s1 v e),
      refl,
      refl,
      refl,
      refl,
    )
