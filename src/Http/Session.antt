-- ===== src/Http/Session.antt =====
-- HttpSession (project3/src/part1-http/src/HttpSession.cpp): one function for each handler. `none` is an
-- exception of stoi, which ends the server, or a read behind the buffer.
use nycu_csic30091_netw.Prelude.{
  ℕ, Option, none, some, List, [], ◌∷◌, ◌++◌, ◌>>=◌, ltb, length, if◌then◌else◌,
}
use nycu_csic30091_netw.Prelude.Bytes.{Bytes, codes}
use nycu_csic30091_netw.Cxx.Decimal.{to_string}
use nycu_csic30091_netw.Cxx.Stream.{before}
use nycu_csic30091_netw.Cxx.TextMap.{TextMap, set_text}
use nycu_csic30091_netw.Http.Request.{HttpRequest, parse}

-- The address and port of the client, and the request.
pub record HttpSession : Type 0 where
  pub remote_addr : Bytes
  pub remote_port : ℕ
  pub request : HttpRequest

-- An operation that was started, and the program with its environment whose standard descriptors are the
-- socket; the server has closed its own.
pub data Op : Type 0 where
  read : Op
  write : Bytes → Op
  executed : Bytes → TextMap → Op

-- How an operation ends: with an error, with the content of the buffer and what stands behind it, or
-- written.
pub data Answer : Type 0 where
  failed : Answer
  filled : Bytes → Answer
  done : Answer

abbrev pub buf_size : ℕ
buf_size = 1048576

abbrev pub Effect : Type 0
Effect = Option (HttpSession × List Op)

abbrev pub ok_line : Bytes
ok_line = codes "HTTP/1.1 200 OK\r\n"

unfoldable pub start : HttpSession → Effect
start s = some (s, read ∷ [])

-- `string(data)`.
unfoldable pub text_of : Bytes → Option Bytes
text_of buffer =
    let text = before 0 buffer in if ltb (length text) buf_size then some text else none

unfoldable pub recv_request : Bytes → HttpSession → Option HttpSession
recv_request raw s = do request ← parse raw; some (record s { request = request })

unfoldable pub on_read : Answer → HttpSession → Effect
on_read failed s = some (s, [])
on_read (filled buffer) s = do
  raw ← text_of buffer
  s' ← recv_request raw s
  some (s', write ok_line ∷ [])
on_read done s = none

-- The values hold no NUL, as `string(data)` has none.
unfoldable pub set_cgi_env : HttpSession → TextMap → TextMap
set_cgi_env s vars =
    let r = s.request in
    set_text (codes "REMOTE_PORT") (to_string s.remote_port) (
      set_text (codes "REMOTE_ADDR") s.remote_addr (
        set_text (codes "SERVER_PORT") (to_string r.port) (
          set_text (codes "SERVER_ADDR") r.addr (
            set_text (codes "HTTP_HOST") r.host (
              set_text (codes "SERVER_PROTOCOL") r.version (
                set_text (codes "QUERY_STRING") r.query_str (
                  set_text (codes "REQUEST_URI") r.uri
                    (set_text (codes "REQUEST_METHOD") r.method vars))))))))

-- `vars` is the environment of the server. `fork` is tried until it succeeds.
unfoldable pub on_write : TextMap → Answer → HttpSession → Effect
on_write vars failed s = some (s, [])
on_write vars done s =
    some (s, executed (codes "." ++ s.request.uri_only) (set_cgi_env s vars) ∷ [])
on_write vars (filled buffer) s = none

-- A request that is read and answered without errors: what the client gets first, and what is executed.
unfoldable pub serve : TextMap → Bytes → HttpSession → Option (List Op)
serve vars buffer s = do
  (s1, ops1) ← start s
  (s2, ops2) ← on_read (filled buffer) s1
  (s3, ops3) ← on_write vars done s2
  some (ops2 ++ ops3)
