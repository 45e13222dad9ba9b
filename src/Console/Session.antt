-- ===== src/Console/Session.antt =====
-- ConsoleSession (project4/src/consoleCgi/src/ConsoleSession.cpp): one function for each handler. A
-- handler gives the operations that it starts; `none` stands for a read or write outside of a buffer.
use nycu_csic30091_netw.Prelude.{
  ℕ, Bool, true, false, ◌&&◌, ◌||◌, Option, none, some, List, [], ◌∷◌, ◌++◌, ◌==◌, ltb, length,
  if◌then◌else◌, ◌>>=◌,
}
use nycu_csic30091_netw.Prelude.Bytes.{Bytes, codes, str_eq}
use nycu_csic30091_netw.Cxx.Stream.{before, after}
use nycu_csic30091_netw.Socks.Request.{Socks4aRequest}
use nycu_csic30091_netw.Socks.Response.{reply_accepts}
use nycu_csic30091_netw.Socks.Client.{socks4_request}
use nycu_csic30091_netw.Console.Render.{
  Output, OutputType, command, response, errormsg, render_output,
}

-- An operation that was started: `connect` has the endpoints that are left, `write` what is sent and
-- the line that it was made of. The bytes of `write_socks4` are byteArr's.
pub data Op : Type 0 where
  resolve : Op
  connect : List ℕ → Op
  write_socks4 : Socks4aRequest → Op
  read_socks4 : Op
  read : Op
  write : Bytes → Bytes → Op

-- How an operation ends: with the text of an error, with endpoints, written or connected, or with the
-- bytes that were read.
pub data Answer : Type 0 where
  failed : Bytes → Answer
  resolved : List ℕ → Answer
  done : Answer
  got : Bytes → Answer

-- `script_file` is what is left of the script; `page` is what was written to the standard output.
pub record ConsoleSession : Type 0 where
  pub id : ℕ
  pub host : Bytes
  pub port : ℕ
  pub filename : Bytes
  pub script_file : Bytes
  pub command_response_arr : List Output
  pub page : Bytes
  pub is_open : Bool
  pub exit : Bool

abbrev pub Effect : Type 0
Effect = Option (ConsoleSession × List Op)

abbrev pub buf_size : ℕ
buf_size = 1048576

unfoldable pub add_output : Bytes → OutputType → ConsoleSession → ConsoleSession
add_output value kind s =
    let o : Output = record { value = value; kind = kind } in
    record s {
      command_response_arr = s.command_response_arr ++ o ∷ [];
      page = s.page ++ render_output s.id o;
    }

unfoldable pub exit_session : ConsoleSession → ConsoleSession
exit_session s = record s { exit = true; is_open = false }

-- The branch of an error, which every handler has.
abbrev pub give_up : Bytes → Bytes → ConsoleSession → Effect
give_up what error s = some (exit_session (add_output (what ++ (error ++ 10 ∷ [])) errormsg s), [])

-- `script` is the content of the file, or `none` if it cannot be opened.
unfoldable pub start : Option Bytes → ConsoleSession → Effect
start none s = some (
  exit_session (
      add_output
        (codes "File Open Error! Cannot open file "
          ++ (codes "./test_case/" ++ (s.filename ++ codes ".\n")))
        errormsg (record s { exit = false })),
  [],
)
start (some script) s = some (record s { exit = false; script_file = script }, resolve ∷ [])

unfoldable pub on_resolve : Answer → ConsoleSession → Effect
on_resolve (failed e) s = give_up (codes "Resolve Error: ") e s
on_resolve (resolved (_ ∷ rest)) s = some (record s { is_open = true }, connect rest ∷ [])
on_resolve _ s = none

abbrev pub write_request : ConsoleSession → Op
write_request s = write_socks4 (socks4_request s.port s.host)

-- With endpoints left, the socket is closed and connected again, and the request is written all the same.
unfoldable pub on_connect : List ℕ → Answer → ConsoleSession → Effect
on_connect rest (failed e) s = give_up (codes "Connect Error: ") e s
on_connect [] done s = some (s, write_request s ∷ [])
on_connect (_ ∷ rest) done s = some (s, connect rest ∷ write_request s ∷ [])
on_connect rest _ s = none

unfoldable pub on_write_socks4 : Answer → ConsoleSession → Effect
on_write_socks4 (failed e) s = give_up (codes "SOCKS4 Error: ") e s
on_write_socks4 done s = some (s, read_socks4 ∷ [])
on_write_socks4 _ s = none

-- The buffer was filled with zeros.
unfoldable pub on_read_socks4 : Answer → ConsoleSession → Effect
on_read_socks4 (failed e) s = give_up (codes "SOCKS4 Error: ") e s
on_read_socks4 (got reply) s =
    if reply_accepts (reply ++ 0 ∷ 0 ∷ [])
    then some (s, read ∷ [])
    else some (record s { is_open = false }, [])
on_read_socks4 _ s = none

-- `find("% ") != npos`.
unfoldable pub has_prompt : Bytes → Bool
has_prompt [] = false
has_prompt (c ∷ []) = false
has_prompt (c ∷ d ∷ s) = c == b'%' && d == 32 || has_prompt (d ∷ s)

-- A carriage return at the end goes.
unfoldable pub strip_return : Bytes → Bytes
strip_return [] = []
strip_return (c ∷ []) = if c == 13 then [] else c ∷ []
strip_return (c ∷ d ∷ s) = c ∷ strip_return (d ∷ s)

-- The line that is sent; `none` if it is empty, where the source looks in front of it, or does not fit.
unfoldable pub next_command : Bytes → Option Bytes
next_command [] = none
next_command line =
    let text = strip_return line ++ 10 ∷ [] in
    if ltb (length (before 0 text)) buf_size then some text else none

unfoldable pub do_write : ConsoleSession → Effect
do_write s = do
  text ← next_command (before 10 s.script_file)
  some (record s { script_file = after 10 s.script_file }, write (before 0 text) text ∷ [])

-- What `string(data)` is: the bytes up to a NUL, which the buffer has unless it is full.
unfoldable pub text_of : Bytes → Option Bytes
text_of bytes = let text = before 0 bytes in if ltb (length text) buf_size then some text else none

unfoldable pub on_read : Answer → ConsoleSession → Effect
on_read (failed e) s = give_up (codes "Read Error: ") e s
on_read (got bytes) s = do
  text ← text_of bytes
  let s' = add_output text response s
  let written = do_write s'
  (if has_prompt text then written else some (s', read ∷ []))
on_read _ s = none

unfoldable pub on_write : Bytes → Answer → ConsoleSession → Effect
on_write text (failed e) s = give_up (codes "Write Error: ") e s
on_write text done s =
    let s' = add_output text command s in
    if str_eq text (codes "exit\r\n") || str_eq text (codes "exit\n")
    then some (exit_session s', [])
    else some (s', read ∷ [])
on_write text _ s = none

unfoldable pub complete : Op → Answer → ConsoleSession → Effect
complete resolve a s = on_resolve a s
complete (connect rest) a s = on_connect rest a s
complete (write_socks4 r) a s = on_write_socks4 a s
complete read_socks4 a s = on_read_socks4 a s
complete read a s = on_read a s
complete (write sent text) a s = on_write text a s
