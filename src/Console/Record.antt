-- ===== src/Console/Record.antt =====
-- A console session writes each output of its record into the page.
use nycu_csic30091_netw.Prelude.{
  ℕ, some, List, [], ◌∷◌, ◌++◌, ◌≡◌, arith, append_assoc, eq_of_some, subst, >>=-eq-some,
  Bool-cases, inl, inr,
}
use nycu_csic30091_netw.Prelude.Bytes.{Bytes}
use nycu_csic30091_netw.Cxx.Stream.{before}
use nycu_csic30091_netw.Console.Render.{Output, OutputType, command, response, errormsg}
use nycu_csic30091_netw.Console.Script.{is_exit}
use nycu_csic30091_netw.Console.Told.{pages, pages-append, add_output-told}
use nycu_csic30091_netw.Console.Session.{
  text_of, has_prompt, next_command, Op, Answer, ConsoleSession, Effect, read, failed, resolved,
  done, got, add_output, exit_session, on_read, on_write, do_write,
}

-- The page is what it was, with the outputs of the record behind it.
pub record IsShown (page : Bytes) (id : ℕ) (s : ConsoleSession) : Type 0 where
  pub same_id : s.id ≡ id
  pub shows : s.page ≡ page ++ pages id s.command_response_arr

add_output-IsShown :
    (page : Bytes) (id : ℕ) (v : Bytes) (k : OutputType) (s : ConsoleSession)
    → IsShown page id s
    → IsShown page id (add_output v k s)
add_output-IsShown page id v k s h =
    let o : Output = record { value = v; kind = k } in
    rw (add_output-told v k s) (record {
      same_id = h.same_id;
      shows =
          rw (h.shows, h.same_id, pages-append id s.command_response_arr (o ∷ []))
            (append_assoc page (pages id s.command_response_arr) (pages id (o ∷ [])));
    })

pub given_up-IsShown :
    (page : Bytes) (id : ℕ) (v : Bytes) (s : ConsoleSession)
    → IsShown page id s
    → IsShown page id (exit_session (add_output v errormsg s))
unfolding exit_session
given_up-IsShown page id v s h =
    let k = add_output-IsShown page id v errormsg s h in
    record { same_id = k.same_id; shows = k.shows }

-- A handler that comes to a session that is shown.
pub ends-IsShown :
    (page : Bytes) (id : ℕ) (s s' : ConsoleSession) (ops new : List Op)
    → ◌≡◌ {A = Effect} (some (s, ops)) (some (s', new))
    → IsShown page id s
    → IsShown page id s'
ends-IsShown page id s s' ops new e h =
    subst (λ (x : ConsoleSession × List Op). IsShown page id x.0) (eq_of_some e) h

do_write-IsShown :
    (page : Bytes) (id : ℕ) (s s' : ConsoleSession) (new : List Op)
    → IsShown page id s
    → do_write s ≡ some (s', new)
    → IsShown page id s'
unfolding do_write
do_write-IsShown page id s s' new h e =
    let (text, found, e') = >>=-eq-some (next_command (before 10 s.script_file)) _ e in
    ends-IsShown page id _ s' _ new e' (record { same_id = h.same_id; shows = h.shows })

pub on_read-IsShown :
    (page : Bytes) (id : ℕ) (a : Answer) (s s' : ConsoleSession) (new : List Op)
    → IsShown page id s
    → on_read a s ≡ some (s', new)
    → IsShown page id s'
unfolding on_read
on_read-IsShown page id (failed x) s s' new h e =
    ends-IsShown page id _ s' _ new e (given_up-IsShown page id _ s h)
on_read-IsShown page id (got bytes) s s' new h e =
    let (text, found, e') = >>=-eq-some (text_of bytes) _ e in
    let k = add_output-IsShown page id text response s h in
    elim (Bool-cases (has_prompt text)) [
      | inl p ↦
          do_write-IsShown page id (add_output text response s) s' new k (ground (arith, p, e'))
      | inr p ↦
          ends-IsShown page id (add_output text response s) s' (read ∷ []) new
            (ground (arith, p, e')) k
    ]
on_read-IsShown page id done s s' new h e = cc
on_read-IsShown page id (resolved es) s s' new h e = cc

pub on_write-IsShown :
    (page : Bytes) (id : ℕ) (text : Bytes) (a : Answer) (s s' : ConsoleSession) (new : List Op)
    → IsShown page id s
    → on_write text a s ≡ some (s', new)
    → IsShown page id s'
unfolding on_write exit_session
on_write-IsShown page id text (failed x) s s' new h e =
    ends-IsShown page id _ s' _ new e (given_up-IsShown page id _ s h)
on_write-IsShown page id text done s s' new h e =
    let k = add_output-IsShown page id text command s h in
    elim (Bool-cases (is_exit text)) [
      | inl p ↦
          ends-IsShown page id (exit_session (add_output text command s)) s' [] new
            (ground (arith, p, e)) (record { same_id = k.same_id; shows = k.shows })
      | inr p ↦
          ends-IsShown page id (add_output text command s) s' (read ∷ []) new (ground (arith, p, e))
            k
    ]
on_write-IsShown page id text (got b) s s' new h e = cc
on_write-IsShown page id text (resolved es) s s' new h e = cc
