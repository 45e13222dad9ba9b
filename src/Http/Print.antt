-- ===== src/Http/Print.antt =====
-- HttpRequest::parse reads back a printed request.
use nycu_csic30091_netw.Prelude.{
  ℕ, ◌<◌, ◌≡◌, refl, arith, false, some, List, [], ◌∷◌, ◌++◌, ◌∙◌, length, append-nil,
  length-append, ◌==◌, lt→ltb,
}
use nycu_csic30091_netw.Prelude.Bytes.{Bytes, Free, codes}
use nycu_csic30091_netw.Cxx.Decimal.{to_string, to_string-Free, is_digit, read_number-to_string}
use nycu_csic30091_netw.Cxx.Numbers.{skip_ws-to_string}
use nycu_csic30091_netw.Cxx.Stream.{
  before-append, after-append, before-all, fields, fields-append, before, after, skip_ws,
  skip_ws-word, is_space, Free-append, IsWord, NoSpace, word_or_empty, read_word, read_word-append,
  read_word-space, take_word, drop_word,
}
use nycu_csic30091_netw.Cxx.TextMap.{TextMap, find_text, set_text}
use nycu_csic30091_netw.Http.Request.{read_headers, host_of, port_of, parse}
use nycu_csic30091_netw.Http.Query.{
  path_text, AllParts, not_empty-path_text, query_text, AllQueries, set_all, read_query-query_text,
}

-- `key: value` with a carriage return.
abbrev pub header_line : Bytes → Bytes → Bytes
header_line k v = k ++ b':' ∷ 32 ∷ (v ++ 13 ∷ [])

-- The headers and the empty line behind them.
abbrev pub headers_text : TextMap → Bytes
headers_text [] = 13 ∷ 10 ∷ []
headers_text ((k, v) ∷ hs) = header_line k v ++ 10 ∷ headers_text hs

-- No white space at the front.
abbrev pub StartsPlain : Bytes → Type 0
StartsPlain [] = Unit {0}
StartsPlain (c ∷ s) = is_space c ≡ false

abbrev pub AllHeaders : TextMap → Type 0
AllHeaders [] = Unit {0}
AllHeaders ((k, v) ∷ hs) =
    Free b':' k × Free 10 k × Free 10 v × Free 13 v × StartsPlain v × AllHeaders hs

read_value : (v : Bytes) → Free 13 v → StartsPlain v → before 13 (skip_ws (32 ∷ (v ++ 13 ∷ []))) ≡ v
read_value [] f h = unfold skip_ws before in refl
read_value (c ∷ v) f h =
    rw (drop_space (v ++ 13 ∷ []))
      (rw (skip_ws-word c (v ++ 13 ∷ []) h) (before-append 13 (c ∷ v) [] f))
  where
    drop_space : (t : Bytes) → skip_ws (32 ∷ c ∷ t) ≡ skip_ws (c ∷ t)
    drop_space t = unfold skip_ws in refl

not_one : (k v : Bytes) → (length (header_line k v) == 1) ≡ false
not_one k v =
    ground (arith, length-append k (b':' ∷ 32 ∷ (v ++ 13 ∷ [])), length-append v (13 ∷ []))

-- Printed headers are read back.
pub read_headers-headers_text :
    (hs m : TextMap) → AllHeaders hs → read_headers (fields 10 (headers_text hs)) m ≡ set_all hs m
unfolding read_headers
read_headers-headers_text [] m a = unfold fields in ground arith
read_headers-headers_text ((k, v) ∷ hs) m a =
    let line : Free 10 (header_line k v) =
      Free-append 10 k _ a.1 (refl, (refl, Free-append 10 v (13 ∷ []) a.2 (refl, tt))) in
    rw (fields-append 10 (header_line k v) (headers_text hs) line) (
      rw (not_one k v) (
        rw (before-append b':' k (32 ∷ (v ++ 13 ∷ [])) a.0) (
          rw (after-append b':' k (32 ∷ (v ++ 13 ∷ [])) a.0)
            (rw (read_value v a.3 a.4) (read_headers-headers_text hs (set_text k v m) a.5)))))

-- A request as a client sends it.
pub record Sent : Type 0 where
  pub method : Bytes
  pub path : List Bytes
  pub query : TextMap
  pub version : Bytes
  pub headers : TextMap

abbrev pub uri_text : Sent → Bytes
uri_text r = path_text r.path ++ b'?' ∷ query_text r.query

abbrev pub request_text : Sent → Bytes
request_text r =
    r.method ++ 32 ∷ (uri_text r ++ 32 ∷ (r.version ++ 13 ∷ 10 ∷ headers_text r.headers))

pub record IsSent (r : Sent) : Type 0 where
  pub method_word : IsWord r.method
  pub uri_word : IsWord (uri_text r)
  pub version_word : IsWord r.version
  pub path_plain : Free b'?' (path_text r.path)
  pub parts : AllParts r.path
  pub query_line : Free 10 (query_text r.query)
  pub queries : AllQueries r.query
  pub headers_plain : AllHeaders r.headers

pub word-front : (w s : Bytes) → IsWord w → word_or_empty (w ++ 32 ∷ s) ≡ (w, 32 ∷ s)
unfolding word_or_empty
word-front w s h = rw (read_word-append w s h, word_or_empty)

pub word-behind : (w s : Bytes) → IsWord w → word_or_empty (32 ∷ (w ++ 32 ∷ s)) ≡ (w, 32 ∷ s)
unfolding word_or_empty
word-behind w s h = rw (read_word-space (w ++ 32 ∷ s) ∙ read_word-append w s h, word_or_empty)

take_word-cr : (w s : Bytes) → NoSpace w → take_word (w ++ 13 ∷ s) ≡ w
unfolding take_word
take_word-cr [] s h = refl
take_word-cr (c ∷ w) s h = ground (arith, take_word-cr w s)

drop_word-cr : (w s : Bytes) → NoSpace w → drop_word (w ++ 13 ∷ s) ≡ 13 ∷ s
unfolding drop_word
drop_word-cr [] s h = refl
drop_word-cr (c ∷ w) s h = ground (arith, drop_word-cr w s)

pub word-cr : (w s : Bytes) → IsWord w → word_or_empty (32 ∷ (w ++ 13 ∷ s)) ≡ (w, 13 ∷ s)
unfolding word_or_empty read_word
word-cr [] s h = absurd h
word-cr (c ∷ w) s h = ground (arith, take_word-cr w s h.1, drop_word-cr w s h.1)

pub host_of-found :
    (m : TextMap) (host : Bytes) → find_text (codes "Host") m ≡ some host → host_of m ≡ (host, m)
unfolding host_of
host_of-found m host e = rw (e, host_of)

pub port_of-to_string : (n : ℕ) → n < 2147483648 → port_of (to_string n) ≡ some n
unfolding port_of
port_of-to_string n h =
    let front : skip_ws (to_string n) ≡ to_string n =
      rw (append-nil (to_string n)) at (skip_ws-to_string n []) in
    rw front (rw (read_number-to_string n) (rw (lt→ltb n 2147483648 h)))

pub behind_line : (s : Bytes) → after 10 (13 ∷ 10 ∷ s) ≡ s
behind_line s = unfold after in refl

-- What the parser makes of the target.
fields_read :
    (r : Sent)
    → IsSent r
    → (before b'?' (uri_text r) ≡ path_text r.path)
      × (before 10 (after b'?' (uri_text r)) ≡ query_text r.query)
fields_read r v = (
  before-append b'?' (path_text r.path) (query_text r.query) v.path_plain,
  rw (after-append b'?' (path_text r.path) (query_text r.query) v.path_plain)
      (before-all 10 (query_text r.query) v.query_line),
)

-- A printed request, whose parts hold no separator of theirs and whose headers name the host as
-- `addr:port` with a port below 2^31, is read back field by field: method, path, query, version
-- and headers, and the address and port of the host.
pub parse-request_text :
    (r : Sent) (addr : Bytes) (port : ℕ)
    → IsSent r
    → find_text (codes "Host") (set_all r.headers []) ≡ some (addr ++ b':' ∷ to_string port)
    → Free b':' addr
    → port < 2147483648
    → parse (request_text r)
      ≡ some (record {
        version = r.version;
        method = r.method;
        host = addr ++ b':' ∷ to_string port;
        addr = addr;
        port = port;
        uri = uri_text r;
        uri_only = path_text r.path;
        query_str = query_text r.query;
        parsed_uri = r.path;
        query_map = set_all r.query [];
        header_map = set_all r.headers [];
      })
unfolding parse
parse-request_text r addr port v found plain small = rw (word-front r.method _ v.method_word) (
    rw (word-behind (uri_text r) _ v.uri_word) (
      rw (word-cr r.version _ v.version_word) (
        rw (behind_line (headers_text r.headers)) (
          rw (read_headers-headers_text r.headers [] v.headers_plain) (
            rw (host_of-found (set_all r.headers []) _ found) (
              rw (after-append b':' addr (to_string port) plain) (
                rw (before-append b':' addr (to_string port) plain) (
                  rw
                    (before-all 10 (to_string port)
                      (to_string-Free 10 port (unfold is_digit in refl)))
                    (rw (port_of-to_string port small) (
                      rw (fields_read r v).0 (
                        rw (fields_read r v).1 (
                          rw (not_empty-path_text r.path v.parts)
                            (rw (read_query-query_text r.query [] v.queries))))))))))))))
