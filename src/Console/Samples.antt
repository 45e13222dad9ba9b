-- ===== src/Console/Samples.antt =====
-- A console's outputs and a whole session, at fixed inputs.
use nycu_csic30091_netw.Prelude.{
  true, false, ◌++◌, none, some, List, map, [], ◌∷◌, ◌≡◌, refl, arith,
}
use nycu_csic30091_netw.Prelude.Bytes.{Bytes, codes, str_eq}
use nycu_csic30091_netw.Socks.Response.{reply_accepts}
use nycu_csic30091_netw.Console.Render.{
  Output, errormsg, command, response, escape, styled, script_head, script_tail, render_output,
}
use nycu_csic30091_netw.Console.Literal.{read_literal, markup, untagged}
use nycu_csic30091_netw.Console.Shows.{Shows, point_of}
use nycu_csic30091_netw.Console.Page.{render_output-Shows, render_output_breaks}
use nycu_csic30091_netw.Console.Session.{
  resolve, read, Answer, failed, exit_session, add_output, complete, on_resolve, ConsoleSession, Op,
  resolved, done, got, start, has_prompt,
}
use nycu_csic30091_netw.Console.Script.{run, Turn, Line, IsLine}
use nycu_csic30091_netw.Console.Told.{pages}
use nycu_csic30091_netw.Console.Direct as Direct
use nycu_csic30091_netw.Console.Waits.{
  Ends, as_direct, as_proxied, reading, run-same, direct_session_ends,
}
use nycu_csic30091_netw.Console.Dialogue.{
  IsTalk, talk_answers, talk_outputs, talk_sent, talk_script, session_ends,
}
use nycu_csic30091_netw.Console.Reach.{
  Running, Reach, here, there, completed, IsSound, Reach-IsSound,
}

abbrev listing : Output
listing = record { value = codes "ls -l <a>\n"; kind = command }

render_output-Shows_example :
    (body : Bytes) × (render_output 3 listing ≡ script_head 3 ++ body)
    × (read_literal false body ≡ some (styled command (markup (listing.value)), script_tail))
    × (untagged (escape (listing.value)) ≡ true)
    × Shows (markup (listing.value)) (map point_of (listing.value))
render_output-Shows_example =
    render_output-Shows 3 listing
      (refl, (refl, (refl, (refl, (refl, (refl, (refl, (refl, (refl, (refl, tt))))))))))

abbrev returning : Output
returning = record { value = codes "a\r\nb"; kind = response }

render_output_breaks_example :
    (body : Bytes) × (render_output 3 returning ≡ script_head 3 ++ body)
    × (read_literal false body ≡ none)
render_output_breaks_example =
    render_output_breaks 3 returning (codes "a") (codes "\nb") (refl, tt) refl

abbrev list_line : Line
list_line = record { text = codes "ls"; returned = true }

abbrev exit_line : Line
exit_line = record { text = codes "exit"; returned = false }

abbrev greeting : Turn
greeting = record { quiet = codes "hello" ∷ []; prompt = codes "% " }

abbrev files : Turn
files = record { quiet = []; prompt = codes "a b\n% " }

abbrev talk : List (Turn × Line)
talk = (greeting, list_line) ∷ (files, exit_line) ∷ []

list_line-IsLine : IsLine list_line
list_line-IsLine = record {
  filled = omega arith;
  one_line = (refl, (refl, tt));
  no_return = (refl, (refl, tt));
  no_nul = (refl, (refl, tt));
  short = omega arith;
}

exit_line-IsLine : IsLine exit_line
exit_line-IsLine = record {
  filled = omega arith;
  one_line = (refl, (refl, (refl, (refl, tt))));
  no_return = (refl, (refl, (refl, (refl, tt))));
  no_nul = (refl, (refl, (refl, (refl, tt))));
  short = omega arith;
}

talk-IsTalk : IsTalk talk
unfolding has_prompt str_eq
talk-IsTalk = (
  (
    ((refl, (refl, (refl, (refl, (refl, (refl, tt))))), omega arith), tt),
    (refl, (refl, (refl, tt)), omega arith),
  ),
  list_line-IsLine,
  refl,
  (
    (tt, (refl, (refl, (refl, (refl, (refl, (refl, (refl, tt)))))), omega arith)),
    exit_line-IsLine,
    refl,
  ),
)

abbrev new_session : ConsoleSession
new_session = record {
  id = 0;
  host = codes "nplinux1";
  port = 5000;
  filename = codes "t1.txt";
  script_file = [];
  command_response_arr = [];
  page = [];
  is_open = false;
  exit = false;
}

accepted : reply_accepts ((0 ∷ 90 ∷ 0 ∷ 0 ∷ 0 ∷ 0 ∷ 0 ∷ 0 ∷ []) ++ 0 ∷ 0 ∷ []) ≡ true
unfolding reply_accepts
accepted = refl

session_ends_example :
    (s0 : ConsoleSession) × (ops : List Op) × (s' : ConsoleSession) × (start
        (some (talk_script talk []))
        new_session
      ≡ some (s0, ops))
    × (run
          (resolved (7 ∷ [])
            ∷ done
            ∷ done
            ∷ got (0 ∷ 90 ∷ 0 ∷ 0 ∷ 0 ∷ 0 ∷ 0 ∷ 0 ∷ [])
            ∷ talk_answers talk)
          ops
          []
          s0
        ≡ some (s', [], talk_sent talk))
    × (s'.exit ≡ true)
    × (s'.is_open ≡ false)
    × (s'.command_response_arr ≡ [] ++ talk_outputs talk)
    × (s'.page ≡ [] ++ pages 0 (talk_outputs talk))
session_ends_example =
    session_ends talk (talk_script talk []) (0 ∷ 90 ∷ 0 ∷ 0 ∷ 0 ∷ 0 ∷ 0 ∷ 0 ∷ []) [] 7 new_session
      talk-IsTalk accepted refl

direct_session_ends_example :
    (s0 : ConsoleSession) × (ops : List Direct.Op) × (s' : ConsoleSession) × (Direct.start
        (some (talk_script talk []))
        new_session
      ≡ some (s0, ops))
    × (Direct.run (resolved (7 ∷ []) ∷ done ∷ talk_answers talk) ops [] s0
        ≡ some (s', [], talk_sent talk))
    × (s'.exit ≡ true)
    × (s'.is_open ≡ false)
    × (s'.command_response_arr ≡ [] ++ talk_outputs talk)
    × (s'.page ≡ [] ++ pages 0 (talk_outputs talk))
direct_session_ends_example =
    direct_session_ends talk (talk_script talk []) [] 7 new_session talk-IsTalk refl

-- A prompt, a line that is sent, and the end of the connection.
abbrev prompt_answers : List Answer
prompt_answers = got (codes "% ") ∷ done ∷ failed (codes "end") ∷ []

run-same_example :
    (o : Ends) × (Direct.run prompt_answers
        (Direct.read ∷ [])
        []
        (record (new_session) { script_file = codes "ls\n" })
      ≡ as_direct o)
    × (run prompt_answers (read ∷ []) [] (record (new_session) { script_file = codes "ls\n" })
        ≡ as_proxied o)
run-same_example =
    run-same prompt_answers (reading ∷ []) [] (record (new_session) { script_file = codes "ls\n" })

abbrev started : ConsoleSession
started = record (new_session) { script_file = codes "ls\n" }

starts : start (some (codes "ls\n")) new_session ≡ some (started, resolve ∷ [])
unfolding start
starts = refl

-- The name cannot be resolved.
abbrev unresolved : Running
unresolved = record {
  session =
      exit_session
        (add_output (codes "Resolve Error: " ++ (codes "no host" ++ 10 ∷ [])) errormsg started);
  pending = [];
}

unresolved-Reach : Reach (record { session = started; pending = resolve ∷ [] }) unresolved
unfolding complete on_resolve
unresolved-Reach =
    there _ _ here (completed [] [] [] resolve (failed (codes "no host")) _ _ refl refl refl refl)

Reach-IsSound_example : IsSound [] 0 unresolved
Reach-IsSound_example =
    Reach-IsSound (some (codes "ls\n")) new_session started (resolve ∷ []) unresolved refl starts
      unresolved-Reach
