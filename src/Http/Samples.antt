-- ===== src/Http/Samples.antt =====
-- A request at fixed inputs.
use nycu_csic30091_netw.Prelude.{
  ◌≡◌, refl, arith, some, none, [], ◌∷◌, ◌++◌, ◌>>=◌, ◌<◌, length, if◌then◌else◌,
}
use nycu_csic30091_netw.Prelude.Bytes.{Bytes, codes, str_eq}
use nycu_csic30091_netw.Cxx.Decimal.{to_string}
use nycu_csic30091_netw.Cxx.Stream.{is_space, before}
use nycu_csic30091_netw.Cxx.TextMap.{TextMap, find_text, set_text}
use nycu_csic30091_netw.Http.Request.{parse}
use nycu_csic30091_netw.Http.Query.{path_text, query_text, set_all}
use nycu_csic30091_netw.Http.Print.{Sent, IsSent, uri_text, request_text, parse-request_text}
use nycu_csic30091_netw.Http.Session.{
  HttpSession, write, executed, filled, on_read, ok_line, buf_size, serve,
}
use nycu_csic30091_netw.Http.Passed.{variables_of, passed, cgi_gets_request}
use nycu_csic30091_netw.Http.Route as Route
use nycu_csic30091_netw.Http.Served.{received, read_back, on_read_throws, serve-request_text}
use nycu_csic30091_netw.Console.Start.{get_cgi_env}

-- GET /a.cgi?h=x& with the host np:80.
abbrev sample_sent : Sent
sample_sent = record {
  method = codes "GET";
  path = codes "a.cgi" ∷ [];
  query = (codes "h", codes "x") ∷ [];
  version = codes "HTTP";
  headers = (codes "Host", codes "np:80") ∷ [];
}

sample-IsSent : IsSent sample_sent
unfolding is_space
sample-IsSent = record {
  method_word = (refl, (refl, (refl, tt)));
  uri_word =
      (refl, (refl, (refl, (refl, (refl, (refl, (refl, (refl, (refl, (refl, (refl, tt)))))))))));
  version_word = (refl, (refl, (refl, (refl, tt))));
  path_plain = (refl, (refl, (refl, (refl, (refl, (refl, tt))))));
  parts = ((refl, (refl, (refl, (refl, (refl, tt))))), tt);
  query_line = (refl, (refl, (refl, (refl, tt))));
  queries = ((refl, tt), (refl, tt), (refl, tt), (refl, tt), tt);
  headers_plain = (
    (refl, (refl, (refl, (refl, tt)))),
    (refl, (refl, (refl, (refl, tt)))),
    (refl, (refl, (refl, (refl, (refl, tt))))),
    (refl, (refl, (refl, (refl, (refl, tt))))),
    refl,
    tt,
  );
}

sample_host :
    find_text (codes "Host") (set_all sample_sent.headers [])
    ≡ some (codes "np" ++ b':' ∷ to_string 80)
unfolding find_text set_text str_eq to_string
sample_host = refl

parse-request_text_example :
    parse (request_text sample_sent)
    ≡ some (record {
      version = codes "HTTP";
      method = codes "GET";
      host = codes "np" ++ b':' ∷ to_string 80;
      addr = codes "np";
      port = 80;
      uri = uri_text sample_sent;
      uri_only = path_text sample_sent.path;
      query_str = query_text sample_sent.query;
      parsed_uri = sample_sent.path;
      query_map = set_all sample_sent.query [];
      header_map = set_all sample_sent.headers [];
    })
parse-request_text_example =
    parse-request_text sample_sent (codes "np") 80 sample-IsSent sample_host (refl, (refl, tt))
      (omega arith)

abbrev sample_buffer : Bytes
sample_buffer = received sample_sent (1 ∷ [])

sample_clean : before 0 sample_buffer ≡ request_text sample_sent
unfolding before
sample_clean = refl

sample_fits : length (request_text sample_sent) < buf_size
sample_fits = omega arith

sample_parsed : parse (before 0 sample_buffer) ≡ some (read_back sample_sent (codes "np") 80)
sample_parsed = rw sample_clean parse-request_text_example

abbrev sample_session : HttpSession
sample_session = record {
  remote_addr = codes "1.2.3.4";
  remote_port = 5000;
  request = read_back sample_sent [] 0;
}

cgi_gets_request_example :
    (env : TextMap) × (serve [] sample_buffer sample_session
      ≡ some (write ok_line ∷ executed (codes "./a.cgi") env ∷ []))
    × ((variables_of env >>= get_cgi_env) ≡ some (passed (read_back sample_sent (codes "np") 80)))
cgi_gets_request_example =
    cgi_gets_request [] sample_buffer sample_session (read_back sample_sent (codes "np") 80)
      (rw sample_clean sample_fits) sample_parsed

serve-request_text_example :
    Route.serve sample_buffer (read_back sample_sent [] 0)
    ≡ some (
        Route.write ok_line
        ∷ (if str_eq (path_text sample_sent.path) (codes "/panel.cgi")
            then Route.panel (read_back sample_sent (codes "np") 80)
            else if str_eq (path_text sample_sent.path) (codes "/console.cgi")
            then Route.console (read_back sample_sent (codes "np") 80)
            else Route.write_last Route.not_found)
        ∷ [])
serve-request_text_example =
    serve-request_text sample_sent (codes "np") (1 ∷ []) 80 (read_back sample_sent [] 0)
      sample-IsSent sample_host (refl, (refl, tt)) (omega arith) sample_clean sample_fits

-- The same request with the host np alone.
abbrev no_port : Sent
no_port = record sample_sent { headers = (codes "Host", codes "np") ∷ [] }

no_port-IsSent : IsSent no_port
unfolding is_space
no_port-IsSent = record {
  method_word = sample-IsSent.method_word;
  uri_word = sample-IsSent.uri_word;
  version_word = sample-IsSent.version_word;
  path_plain = sample-IsSent.path_plain;
  parts = sample-IsSent.parts;
  query_line = sample-IsSent.query_line;
  queries = sample-IsSent.queries;
  headers_plain = (
    (refl, (refl, (refl, (refl, tt)))),
    (refl, (refl, (refl, (refl, tt)))),
    (refl, (refl, tt)),
    (refl, (refl, tt)),
    refl,
    tt,
  );
}

no_port_host : find_text (codes "Host") (set_all no_port.headers []) ≡ some (codes "np")
unfolding find_text set_text str_eq
no_port_host = refl

no_port_clean : before 0 (received no_port []) ≡ request_text no_port
unfolding before
no_port_clean = refl

on_read_throws_example :
    (on_read (filled (received no_port [])) sample_session ≡ none)
    × (Route.on_read (Route.filled (received no_port [])) (read_back no_port [] 0) ≡ none)
on_read_throws_example =
    on_read_throws no_port (codes "np") [] sample_session (read_back no_port [] 0) no_port-IsSent
      no_port_host (refl, (refl, tt)) no_port_clean
