-- ===== src/Http/Request.antt =====
-- HttpRequest::parse of project3/src/part1-http/src/HttpRequest.cpp. The same file stands in
-- part1-cgi, in part2 and in project4/src/consoleCgi.
use nycu_csic30091_netw.Prelude.{
  ℕ, Option, none, some, List, [], ◌∷◌, ◌>>=◌, ◌==◌, ltb, if◌then◌else◌, length,
}
use nycu_csic30091_netw.Prelude.Bytes.{Bytes, codes}
use nycu_csic30091_netw.Cxx.Decimal.{read_number}
use nycu_csic30091_netw.Cxx.Stream.{fields, word_or_empty, skip_ws, before, after}
use nycu_csic30091_netw.Cxx.TextMap.{TextMap, find_text, set_text}

pub record HttpRequest : Type 0 where
  pub version : Bytes
  pub method : Bytes
  pub host : Bytes
  pub addr : Bytes
  pub port : ℕ
  pub uri : Bytes
  pub uri_only : Bytes
  pub query_str : Bytes
  pub parsed_uri : List Bytes
  pub query_map : TextMap
  pub header_map : TextMap

-- The loop over the lines behind the first one. A line of one byte is passed over.
unfoldable pub read_headers : List Bytes → TextMap → TextMap
read_headers [] m = m
read_headers (l ∷ ls) m =
    let passed = read_headers ls m in
    let taken = read_headers ls (set_text (before b':' l) (before 13 (skip_ws (after b':' l))) m) in
    if length l == 1 then passed else taken

-- The loop over the parts of the path: the parts that are not empty.
unfoldable pub not_empty : List Bytes → List Bytes
not_empty [] = []
not_empty (t ∷ ts) = let rest = not_empty ts in if length t == 0 then rest else t ∷ rest

-- The loop over the parts of the query.
unfoldable pub read_query : List Bytes → TextMap → TextMap
read_query [] m = m
read_query (t ∷ ts) m =
    let passed = read_query ts m in
    let taken = read_query ts (set_text (before b'=' t) (before 10 (after b'=' t)) m) in
    if length t == 0 then passed else taken

-- `headerMap["Host"]`: the value, and the map, which has a new entry if there was none.
unfoldable pub host_of : TextMap → Bytes × TextMap
host_of m = elim (find_text (codes "Host") m) [
  | none ↦ ([], set_text (codes "Host") [] m)
  | some host ↦ (host, m)
]

-- `stoi`; `none` is its exception, and a number with a sign, which is not modelled.
unfoldable pub port_of : Bytes → Option ℕ
port_of text = do n ← read_number (skip_ws text); if ltb n 2147483648 then some n else none

unfoldable pub parse : Bytes → Option HttpRequest
parse raw =
    let (method, s1) = word_or_empty raw in
    let (uri, s2) = word_or_empty s1 in
    let (version, s3) = word_or_empty s2 in
    let headers = read_headers (fields 10 (after 10 s3)) [] in
    let uri_only = before b'?' uri in
    let query_str = before 10 (after b'?' uri) in
    let (host, header_map) = host_of headers in
    (do
      port ← port_of (before 10 (after b':' host))
      some (record {
        version = version;
        method = method;
        host = host;
        addr = before b':' host;
        port = port;
        uri = uri;
        uri_only = uri_only;
        query_str = query_str;
        parsed_uri = not_empty (fields b'/' uri_only);
        query_map = read_query (fields b'&' query_str) [];
        header_map = header_map;
      }))
