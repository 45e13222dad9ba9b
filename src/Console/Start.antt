-- ===== src/Console/Start.antt =====
-- Console::start and getCgiEnv (project4/src/consoleCgi/src/Console.cpp): the sessions that a query asks
-- for. `none` is an exception of stoi, which start catches.
use nycu_csic30091_netw.Prelude.{
  ℕ, Bool, true, false, not, ◌||◌, Option, none, some, List, [], ◌∷◌, ◌++◌, ◌==◌, ltb,
  if◌then◌else◌, ◌>>=◌, ◌≡◌, arith, sym, ap, ◌∙◌, >>=-eq-some, eq_of_some, Bool-cases, inl, inr,
  subst,
}
use nycu_csic30091_netw.Prelude.Bytes.{Bytes, codes, str_eq}
use nycu_csic30091_netw.Cxx.Decimal.{to_string}
use nycu_csic30091_netw.Cxx.Map.{Map, find, insert, find-insert}
use nycu_csic30091_netw.Cxx.Stream.{fields}
use nycu_csic30091_netw.Cxx.TextMap.{TextMap, find_text}
use nycu_csic30091_netw.Http.Request.{HttpRequest, read_query, port_of}
use nycu_csic30091_netw.Console.Session.{ConsoleSession}

-- The variables of the environment that getCgiEnv reads.
pub record CgiEnv : Type 0 where
  pub request_method : Bytes
  pub request_uri : Bytes
  pub query_string : Bytes
  pub server_protocol : Bytes
  pub http_host : Bytes
  pub server_addr : Bytes
  pub server_port : Bytes

unfoldable pub get_cgi_env : CgiEnv → Option HttpRequest
get_cgi_env e = do
  port ← port_of e.server_port
  some (record {
    version = e.server_protocol;
    method = e.request_method;
    host = e.http_host;
    addr = e.server_addr;
    port = port;
    uri = e.request_uri;
    uri_only = [];
    query_str = e.query_string;
    parsed_uri = [];
    query_map = read_query (fields b'&' e.query_string) [];
    header_map = [];
  })

-- The order of std::string.
unfoldable pub text_lt : Bytes → Bytes → Bool
text_lt s [] = false
text_lt [] (d ∷ t) = true
text_lt (c ∷ s) (d ∷ t) = let rest = text_lt s t in if c == d then rest else ltb c d

unfoldable pub insert_entry : Bytes × Bytes → List (Bytes × Bytes) → List (Bytes × Bytes)
insert_entry e [] = e ∷ []
insert_entry e (f ∷ m) =
    let rest = insert_entry e m in if text_lt e.0 f.0 then e ∷ f ∷ m else f ∷ rest

-- The entries of a std::map<string, string> as a loop over it sees them.
unfoldable pub in_order : TextMap → List (Bytes × Bytes)
in_order [] = []
in_order (e ∷ m) = insert_entry e (in_order m)

-- `queryMap[key]`. The entry that is made for an unknown key is not one of a host.
abbrev pub at_key : Bytes → TextMap → Bytes
at_key k m = elim (find_text k m) [ none ↦ [] | some v ↦ v ]

abbrev pub new_session : ℕ → Bytes → ℕ → Bytes → ConsoleSession
new_session id host port filename = record {
  id = id;
  host = host;
  port = port;
  filename = filename;
  script_file = [];
  command_response_arr = [];
  page = [];
  is_open = false;
  exit = false;
}

-- The body of the loop over the query.
unfoldable pub add_session :
    TextMap → Bytes × Bytes → Map ConsoleSession → Option (Map ConsoleSession)
add_session q ([], value) sessions = some sessions
add_session q (c ∷ number, value) sessions =
    let added = (do
      id ← port_of number
      port ← port_of (at_key (codes "p" ++ to_string id) q)
      some (
          insert id (new_session id value port (at_key (codes "f" ++ to_string id) q)) sessions)) in
    if not (c == b'h') || str_eq value [] then some sessions else added

unfoldable pub add_sessions :
    TextMap → List (Bytes × Bytes) → Map ConsoleSession → Option (Map ConsoleSession)
add_sessions q [] sessions = some sessions
add_sessions q (e ∷ es) sessions = add_session q e sessions >>= add_sessions q es

-- The host and port of the proxy, and the sessions by their ids.
unfoldable pub sessions_of : CgiEnv → Option (Bytes × ℕ × Map ConsoleSession)
sessions_of e = do
  request ← get_cgi_env e
  socks_port ← port_of (at_key (codes "sp") request.query_map)
  sessions ← add_sessions request.query_map (in_order request.query_map) []
  some (at_key (codes "sh") request.query_map, socks_port, sessions)

-- Each session bears the id that it stands under, and its record is empty.
pub record AreOwn (sessions : Map ConsoleSession) : Type 0 where
  pub own :
      (id : ℕ) (s : ConsoleSession)
      → find id sessions ≡ some s
      → (s.id ≡ id) × (s.command_response_arr ≡ [])

insert-AreOwn :
    (id : ℕ) (host : Bytes) (port : ℕ) (filename : Bytes) (sessions : Map ConsoleSession)
    → AreOwn sessions
    → AreOwn (insert id (new_session id host port filename) sessions)
insert-AreOwn id host port filename sessions v = record {
  own = λ j s h.
      let look = find-insert id j (new_session id host port filename) sessions in
      elim (Bool-cases (id == j)) [
        | inl same ↦
            let s_is : new_session id host port filename ≡ s = ground (arith, look, same, h) in
            (
              ap (λ (x : ConsoleSession). x.id) (sym s_is) ∙ ground (arith, same),
              ap (λ (x : ConsoleSession). x.command_response_arr) (sym s_is),
            )
        | inr other ↦ v.own j s (ground (arith, look, other, h))
      ];
}

add_session-AreOwn :
    (q : TextMap) (e : Bytes × Bytes) (sessions sessions' : Map ConsoleSession)
    → AreOwn sessions
    → add_session q e sessions ≡ some sessions'
    → AreOwn sessions'
unfolding add_session
add_session-AreOwn q ([], value) sessions sessions' v h = subst AreOwn (eq_of_some h) v
add_session-AreOwn q (c ∷ number, value) sessions sessions' v h =
    elim (Bool-cases (not (c == b'h') || str_eq value [])) [
      | inl skip ↦ subst AreOwn (eq_of_some (ground (arith, skip, h))) v
      | inr asked ↦
          let added = (do
            id ← port_of number
            port ← port_of (at_key (codes "p" ++ to_string id) q)
            some (
                insert id (new_session id value port (at_key (codes "f" ++ to_string id) q))
                  sessions)) in
          let e : added ≡ some sessions' = ground (arith, asked, h) in
          let (id, read, e1) = >>=-eq-some (port_of number) _ e in
          let (port, read1, e2) =
            >>=-eq-some (port_of (at_key (codes "p" ++ to_string id) q)) _ e1 in
          subst AreOwn (eq_of_some e2)
            (insert-AreOwn id value port (at_key (codes "f" ++ to_string id) q) sessions v)
    ]

-- A loop over the query keeps the sessions their own.
pub add_sessions-AreOwn :
    (q : TextMap) (es : List (Bytes × Bytes)) (sessions sessions' : Map ConsoleSession)
    → AreOwn sessions
    → add_sessions q es sessions ≡ some sessions'
    → AreOwn sessions'
unfolding add_sessions
add_sessions-AreOwn q [] sessions sessions' v h = subst AreOwn (eq_of_some h) v
add_sessions-AreOwn q (e ∷ es) sessions sessions' v h =
    let (between, first, rest) = >>=-eq-some (add_session q e sessions) (add_sessions q es) h in
    add_sessions-AreOwn q es between sessions' (add_session-AreOwn q e sessions between v first)
      rest
