-- ===== src/Http/Served.antt =====
-- What a printed request brings about in the servers of project 3.
use nycu_csic30091_netw.Prelude.{
  ℕ, ◌<◌, length, lt→ltb, none, some, [], ◌∷◌, ◌++◌, ◌≡◌, refl, arith, if◌then◌else◌, Bool-cases,
  inl, inr, ltb,
}
use nycu_csic30091_netw.Prelude.Bytes.{Bytes, Free, codes, str_eq}
use nycu_csic30091_netw.Cxx.Decimal.{to_string, read_number}
use nycu_csic30091_netw.Cxx.Stream.{before, after, skip_ws}
use nycu_csic30091_netw.Cxx.TextMap.{find_text}
use nycu_csic30091_netw.Http.Request.{HttpRequest, parse, port_of}
use nycu_csic30091_netw.Http.Query.{path_text, query_text, set_all}
use nycu_csic30091_netw.Http.Print.{
  Sent, IsSent, uri_text, request_text, headers_text, parse-request_text, word-front, word-behind,
  word-cr, behind_line, read_headers-headers_text, host_of-found,
}
use nycu_csic30091_netw.Http.Session.{
  HttpSession, filled, on_read, text_of, recv_request, buf_size, ok_line,
}
use nycu_csic30091_netw.Http.Route as Route

after-Free : (d : ℕ) (s : Bytes) → Free d s → after d s ≡ []
unfolding after
after-Free d [] f = refl
after-Free d (c ∷ s) f = ground (arith, after-Free d s f.1, f.0)

no_number : port_of (before 10 []) ≡ none
unfolding port_of before read_number skip_ws
no_number = refl

-- A printed request whose header Host names no port: parse throws.
parse-no_port :
    (r : Sent) (addr : Bytes)
    → IsSent r
    → find_text (codes "Host") (set_all r.headers []) ≡ some addr
    → Free b':' addr
    → parse (request_text r) ≡ none
unfolding parse
parse-no_port r addr v found plain = rw (word-front r.method _ v.method_word) (
    rw (word-behind (uri_text r) _ v.uri_word) (
      rw (word-cr r.version _ v.version_word) (
        rw (behind_line (headers_text r.headers)) (
          rw (read_headers-headers_text r.headers [] v.headers_plain) (
            rw (host_of-found (set_all r.headers []) _ found)
              (rw (after-Free b':' addr plain) (rw no_number refl)))))))

-- What stands in the buffer behind a printed request.
abbrev pub received : Sent → Bytes → Bytes
received r rest = request_text r ++ 0 ∷ rest

-- A printed request whose header Host names no port: in part1-http and in part2, whether it fits into
-- the buffer or not, the handler of the read does not come to its end, and nothing is written.
pub on_read_throws :
    (r : Sent) (addr rest : Bytes) (s : HttpSession) (q : HttpRequest)
    → IsSent r
    → find_text (codes "Host") (set_all r.headers []) ≡ some addr
    → Free b':' addr
    → before 0 (received r rest) ≡ request_text r
    → (on_read (filled (received r rest)) s ≡ none)
      × (Route.on_read (Route.filled (received r rest)) q ≡ none)
unfolding on_read text_of recv_request Route.on_read
on_read_throws r addr rest s q v found plain clean =
    let thrown = parse-no_port r addr v found plain in
    elim (Bool-cases (ltb (length (request_text r)) buf_size)) [
      | inl e ↦ rw (clean, e) (rw thrown (refl, refl))
      | inr e ↦ rw (clean, e) (refl, refl)
    ]

-- The request that is read back.
abbrev pub read_back : Sent → Bytes → ℕ → HttpRequest
read_back r addr port = record {
  version = r.version;
  method = r.method;
  host = addr ++ b':' ∷ to_string port;
  addr = addr;
  port = port;
  uri = uri_text r;
  uri_only = path_text r.path;
  query_str = query_text r.query;
  parsed_uri = r.path;
  query_map = set_all r.query [];
  header_map = set_all r.headers [];
}

-- A printed request, as parse-request_text has it, that fits into the buffer of part2 is answered with the
-- line 200 OK whatever its path is, and behind it a path other than /panel.cgi and /console.cgi with a
-- second status line, that of the page 404; the panel and the console are started with the request that
-- was printed.
pub serve-request_text :
    (r : Sent) (addr rest : Bytes) (port : ℕ) (q : HttpRequest)
    → IsSent r
    → find_text (codes "Host") (set_all r.headers []) ≡ some (addr ++ b':' ∷ to_string port)
    → Free b':' addr
    → port < 2147483648
    → before 0 (received r rest) ≡ request_text r
    → length (request_text r) < buf_size
    → Route.serve (received r rest) q
      ≡ some (
          Route.write ok_line
          ∷ (if str_eq (path_text r.path) (codes "/panel.cgi")
              then Route.panel (read_back r addr port)
              else if str_eq (path_text r.path) (codes "/console.cgi")
              then Route.console (read_back r addr port)
              else Route.write_last Route.not_found)
          ∷ [])
unfolding Route.serve Route.on_read Route.on_write text_of
serve-request_text r addr rest port q v found plain small clean fits =
    rw (clean, lt→ltb (length (request_text r)) buf_size fits)
      (rw (parse-request_text r addr port v found plain small) refl)
