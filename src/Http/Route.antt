-- ===== src/Http/Route.antt =====
-- HttpSession (project3/src/part2/src/HttpSession.cpp), which serves the pages itself: the handlers that
-- differ from part1-http.
use nycu_csic30091_netw.Prelude.{Option, none, some, List, [], ◌∷◌, ◌++◌, ◌>>=◌, if◌then◌else◌}
use nycu_csic30091_netw.Prelude.Bytes.{Bytes, codes, str_eq}
use nycu_csic30091_netw.Http.Request.{HttpRequest, parse}
use nycu_csic30091_netw.Http.Session.{text_of, ok_line}

-- What a session does with its socket: texts that it writes, or a Panel or Console that it is moved to.
pub data Op : Type 0 where
  read : Op
  write write_last : Bytes → Op
  panel console : HttpRequest → Op

pub data Answer : Type 0 where
  failed : Answer
  filled : Bytes → Answer
  done : Answer

abbrev pub not_found : Bytes
not_found =
    codes "HTTP/1.1 404 Not Found\r\n"
    ++ (codes "Content-type:text/html\r\n\r\n"
        ++ (codes "<h1>404 Not Found!</h1>" ++ codes "<h2>CGI does not exist.</h2>"))

abbrev pub Effect : Type 0
Effect = Option (HttpRequest × List Op)

unfoldable pub on_read : Answer → HttpRequest → Effect
on_read failed r = some (r, [])
on_read (filled buffer) r = do
  raw ← text_of buffer
  request ← parse raw
  some (request, write ok_line ∷ [])
on_read done r = none

unfoldable pub on_write : Answer → HttpRequest → Effect
on_write failed r = some (r, [])
on_write done r = some (
  r,
  (if str_eq r.uri_only (codes "/panel.cgi")
        then panel r
        else if str_eq r.uri_only (codes "/console.cgi")
        then console r
        else write_last not_found)
      ∷ [],
)
on_write (filled buffer) r = none

-- The handler of doWrite(string).
unfoldable pub on_write_last : Answer → HttpRequest → Effect
on_write_last (filled buffer) r = none
on_write_last _ r = some (r, [])

-- A request that is read and answered without errors.
unfoldable pub serve : Bytes → HttpRequest → Option (List Op)
serve buffer r = do
  (r1, ops1) ← on_read (filled buffer) r
  (r2, ops2) ← on_write done r1
  some (ops1 ++ ops2)
