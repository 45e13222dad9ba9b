-- ===== src/Http/Passed.antt =====
-- What a CGI program gets of a request: setCgiEnv of the server against getCgiEnv of the console.
use nycu_csic30091_netw.Prelude.{
  ℕ, ◌<◌, length, lt→ltb, subst, Option, some, [], ◌∷◌, ◌++◌, ◌>>=◌, ◌≡◌, refl, arith, >>=-eq-some,
  eq_of_some,
}
use nycu_csic30091_netw.Prelude.Bytes.{Bytes, codes, str_eq}
use nycu_csic30091_netw.Cxx.Decimal.{to_string, read_number}
use nycu_csic30091_netw.Cxx.Stream.{fields, word_or_empty, skip_ws, before, after}
use nycu_csic30091_netw.Cxx.TextMap.{TextMap, find_text, find_text-set_text}
use nycu_csic30091_netw.Http.Request.{
  HttpRequest, parse, read_query, port_of, read_headers, host_of,
}
use nycu_csic30091_netw.Http.Print.{port_of-to_string}
use nycu_csic30091_netw.Http.Session.{
  HttpSession, write, executed, set_cgi_env, ok_line, buf_size, serve, text_of, start, recv_request,
  on_read, on_write,
}
use nycu_csic30091_netw.Console.Start.{CgiEnv, get_cgi_env}

-- `getenv` of the seven variables; without one of them the source makes a string of a null pointer.
unfoldable pub variables_of : TextMap → Option CgiEnv
variables_of vars = do
  request_method ← find_text (codes "REQUEST_METHOD") vars
  request_uri ← find_text (codes "REQUEST_URI") vars
  query_string ← find_text (codes "QUERY_STRING") vars
  server_protocol ← find_text (codes "SERVER_PROTOCOL") vars
  http_host ← find_text (codes "HTTP_HOST") vars
  server_addr ← find_text (codes "SERVER_ADDR") vars
  server_port ← find_text (codes "SERVER_PORT") vars
  some (record {
    request_method = request_method;
    request_uri = request_uri;
    query_string = query_string;
    server_protocol = server_protocol;
    http_host = http_host;
    server_addr = server_addr;
    server_port = server_port;
  })

passed_variables :
    (s : HttpSession) (vars : TextMap)
    → variables_of (set_cgi_env s vars)
      ≡ some (record {
        request_method = s.request.method;
        request_uri = s.request.uri;
        query_string = s.request.query_str;
        server_protocol = s.request.version;
        http_host = s.request.host;
        server_addr = s.request.addr;
        server_port = to_string s.request.port;
      })
unfolding variables_of set_cgi_env str_eq
passed_variables s vars = simp find_text-set_text refl

port_of-small : (s : Bytes) (n : ℕ) → port_of s ≡ some n → n < 2147483648
unfolding port_of
port_of-small s n e =
    let (m, read, e1) = >>=-eq-some (read_number (skip_ws s)) _ e in ground (arith, e1)

-- What holds of any request that the parser gives.
parsed :
    (raw : Bytes) (r : HttpRequest)
    → parse raw ≡ some r
    → (r.port < 2147483648) × (r.query_map ≡ read_query (fields b'&' r.query_str) [])
unfolding parse
parsed raw r e =
    let (method, s1) = word_or_empty raw in
    let (uri, s2) = word_or_empty s1 in
    let (version, s3) = word_or_empty s2 in
    let headers = read_headers (fields 10 (after 10 s3)) [] in
    let (host, header_map) = host_of headers in
    let (port, small, e1) = >>=-eq-some (port_of (before 10 (after b':' host))) _ e in
    subst
      (λ (r : HttpRequest).
        (r.port < 2147483648) × (r.query_map ≡ read_query (fields b'&' r.query_str) []))
      (eq_of_some e1) (port_of-small (before 10 (after b':' host)) port small, refl)

-- The request that the console has, with what getCgiEnv leaves out.
abbrev pub passed : HttpRequest → HttpRequest
passed r = record r { uri_only = []; parsed_uri = []; header_map = [] }

-- A request that fits into the buffer and is parsed is answered with the line 200 OK, and the program at
-- its path is executed; getCgiEnv of the program gives the request back, with all of its fields but the
-- path, its parts and the headers.
pub cgi_gets_request :
    (vars : TextMap) (buffer : Bytes) (s : HttpSession) (r : HttpRequest)
    → length (before 0 buffer) < buf_size
    → parse (before 0 buffer) ≡ some r
    → (env : TextMap) × (serve vars buffer s
        ≡ some (write ok_line ∷ executed (codes "." ++ r.uri_only) env ∷ []))
      × ((variables_of env >>= get_cgi_env) ≡ some (passed r))
unfolding serve start on_read on_write text_of recv_request get_cgi_env
cgi_gets_request vars buffer s r fits e =
    let (small, same) = parsed (before 0 buffer) r e in
    let s' : HttpSession = record s { request = r } in
    (
      set_cgi_env s' vars,
      rw (lt→ltb (length (before 0 buffer)) buf_size fits, e) refl,
      rw (passed_variables s' vars) (rw (port_of-to_string r.port small, same) refl),
    )
