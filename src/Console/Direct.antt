-- ===== src/Console/Direct.antt =====
-- ConsoleSession of project3/src/part1-cgi/src/ConsoleSession.cpp: there is no proxy, and a timer runs
-- before each line. The functions that are the same there as in project4 are those of Session.
use nycu_csic30091_netw.Prelude.{
  ℕ, true, false, Option, none, some, List, [], ◌∷◌, ◌++◌, ◌||◌, ◌>>=◌, if◌then◌else◌,
}
use nycu_csic30091_netw.Prelude.Bytes.{Bytes, codes, str_eq}
use nycu_csic30091_netw.Cxx.Stream.{before, after}
use nycu_csic30091_netw.Console.Render.{command, response, errormsg}
use nycu_csic30091_netw.Console.Session.{
  ConsoleSession, Answer, failed, resolved, done, got, add_output, exit_session, next_command,
  has_prompt, text_of,
}

-- An operation that was started; `wait` is the timer.
pub data Op : Type 0 where
  resolve read wait : Op
  connect : List ℕ → Op
  write : Bytes → Bytes → Op

abbrev pub Effect : Type 0
Effect = Option (ConsoleSession × List Op)

abbrev pub give_up : Bytes → Bytes → ConsoleSession → Effect
give_up what error s = some (exit_session (add_output (what ++ (error ++ 10 ∷ [])) errormsg s), [])

unfoldable pub start : Option Bytes → ConsoleSession → Effect
start none s = some (
  exit_session (
      add_output
        (codes "File Open Error! Cannot open file "
          ++ (codes "./test_case/" ++ (s.filename ++ codes ".\n")))
        errormsg (record s { exit = false })),
  [],
)
start (some script) s = some (record s { exit = false; script_file = script }, resolve ∷ [])

unfoldable pub on_resolve : Answer → ConsoleSession → Effect
on_resolve (failed e) s = give_up (codes "Resolve Error: ") e s
on_resolve (resolved (_ ∷ rest)) s = some (record s { is_open = true }, connect rest ∷ [])
on_resolve _ s = none

-- With endpoints left, the socket is closed and connected again, and read from all the same.
unfoldable pub on_connect : List ℕ → Answer → ConsoleSession → Effect
on_connect rest (failed e) s = give_up (codes "Connect Error: ") e s
on_connect [] done s = some (s, read ∷ [])
on_connect (_ ∷ rest) done s = some (s, connect rest ∷ read ∷ [])
on_connect rest _ s = none

unfoldable pub on_read : Answer → ConsoleSession → Effect
on_read (failed e) s = give_up (codes "Read Error: ") e s
on_read (got bytes) s = do
  text ← text_of bytes
  let s' = add_output text response s
  some (s', (if has_prompt text then wait else read) ∷ [])
on_read _ s = none

unfoldable pub send_line : ConsoleSession → Effect
send_line s = do
  text ← next_command (before 10 s.script_file)
  some (record s { script_file = after 10 s.script_file }, write (before 0 text) text ∷ [])

unfoldable pub on_wait : Answer → ConsoleSession → Effect
on_wait (failed e) s = give_up (codes "Timer Error: ") e s
on_wait done s = send_line s
on_wait _ s = none

unfoldable pub on_write : Bytes → Answer → ConsoleSession → Effect
on_write text (failed e) s = give_up (codes "Write Error: ") e s
on_write text done s =
    let s' = add_output text command s in
    if str_eq text (codes "exit\r\n") || str_eq text (codes "exit\n")
    then some (exit_session s', [])
    else some (s', read ∷ [])
on_write text _ s = none

unfoldable pub complete : Op → Answer → ConsoleSession → Effect
complete resolve a s = on_resolve a s
complete (connect rest) a s = on_connect rest a s
complete read a s = on_read a s
complete wait a s = on_wait a s
complete (write sent text) a s = on_write text a s

-- A timer that was started comes to its end.
unfoldable pub waited : ConsoleSession × List Op → Effect
waited (s, wait ∷ []) = on_wait done s
waited r = some r

abbrev pub sending : Op → List Bytes
sending (write text line) = text ∷ []
sending _ = []

-- A session with one operation at a time beside the timer, answered by a list; the commands that it sends
-- are collected.
unfoldable pub run :
    List Answer
    → List Op
    → List Bytes
    → ConsoleSession
    → Option (ConsoleSession × List Op × List Bytes)
run [] ops sent s = some (s, ops, sent)
run (a ∷ rest) (op ∷ []) sent s =
    (complete op a s >>= waited) >>= λ r. run rest r.1 (sent ++ sending op) r.0
run (a ∷ rest) ops sent s = none
