-- ===== src/Http/Query.antt =====
-- The loops of HttpRequest::parse on printed paths, queries and headers.
use nycu_csic30091_netw.Prelude.{
  ℕ, ◌≡◌, refl, arith, false, List, [], ◌∷◌, ◌++◌, length, append-nil, length-append, ◌==◌,
}
use nycu_csic30091_netw.Prelude.Bytes.{Bytes, Free}
use nycu_csic30091_netw.Cxx.Stream.{
  before-append, after-append, before-all, fields, fields-append, Free-append,
}
use nycu_csic30091_netw.Cxx.TextMap.{TextMap, set_text}
use nycu_csic30091_netw.Http.Request.{not_empty, read_query}

fields-all : (d : ℕ) (c : ℕ) (s : Bytes) → Free d (c ∷ s) → fields d (c ∷ s) ≡ (c ∷ s) ∷ []
unfolding fields
fields-all d c [] h = ground arith
fields-all d c (b ∷ s) h = ground (arith, fields-all d b s h.1)

-- Parts of a path: not empty, and with no slash.
abbrev pub IsPart : Bytes → Type 0
IsPart [] = ⊥
IsPart (c ∷ t) = Free b'/' (c ∷ t)

abbrev pub AllParts : List Bytes → Type 0
AllParts [] = Unit {0}
AllParts (t ∷ ts) = IsPart t × AllParts ts

-- A slash before each part.
abbrev pub path_text : List Bytes → Bytes
path_text [] = []
path_text (t ∷ ts) = b'/' ∷ (t ++ path_text ts)

fields-part :
    (t : Bytes) (ts : List Bytes)
    → IsPart t
    → AllParts ts
    → not_empty (fields b'/' (t ++ path_text ts)) ≡ t ∷ ts
unfolding not_empty
fields-part [] ts h a = absurd h
fields-part (c ∷ t) [] h a = rw (append-nil (c ∷ t)) (rw (fields-all b'/' c t h) (ground arith))
fields-part (c ∷ t) (u ∷ us) h a =
    rw (fields-append b'/' (c ∷ t) (u ++ path_text us) h)
      (rw (fields-part u us a.0 a.1) (ground arith))

-- The parts of a printed path.
pub not_empty-path_text :
    (ts : List Bytes) → AllParts ts → not_empty (fields b'/' (path_text ts)) ≡ ts
unfolding not_empty
not_empty-path_text [] a = unfold fields in refl
not_empty-path_text (t ∷ ts) a =
    rw (fields-append b'/' [] (t ++ path_text ts) tt) (fields-part t ts a.0 a.1)

-- `key=value&` for each entry.
abbrev pub query_text : TextMap → Bytes
query_text [] = []
query_text ((k, v) ∷ q) = (k ++ b'=' ∷ v) ++ b'&' ∷ query_text q

abbrev pub AllQueries : TextMap → Type 0
AllQueries [] = Unit {0}
AllQueries ((k, v) ∷ q) = Free b'=' k × Free b'&' k × Free b'&' v × Free 10 v × AllQueries q

-- The assignments of the entries, the first one first.
abbrev pub set_all : TextMap → TextMap → TextMap
set_all [] m = m
set_all ((k, v) ∷ q) m = set_all q (set_text k v m)

not_nil : (k v : Bytes) (d : ℕ) → (length (k ++ d ∷ v) == 0) ≡ false
not_nil k v d = ground (arith, length-append k (d ∷ v))

-- A printed query is read back.
pub read_query-query_text :
    (q m : TextMap) → AllQueries q → read_query (fields b'&' (query_text q)) m ≡ set_all q m
unfolding read_query
read_query-query_text [] m a = unfold fields in refl
read_query-query_text ((k, v) ∷ q) m a =
    rw
      (fields-append b'&' (k ++ b'=' ∷ v) (query_text q)
        (Free-append b'&' k (b'=' ∷ v) a.1 (refl, a.2)))
      (rw (not_nil k v b'=') (
        rw (before-append b'=' k v a.0) (
          rw (after-append b'=' k v a.0)
            (rw (before-all 10 v a.3) (read_query-query_text q (set_text k v m) a.4)))))
