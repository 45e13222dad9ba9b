-- ===== src/Socks/Wire.antt =====
-- What the two sides of the protocol make of each other's bytes: byteArr against parse, and the
-- reply object against the test of readSocks4.
use nycu_csic30091_netw.Prelude.{ℕ, zero, suc, ◌+◌, ◌-◌, ◌%◌, ◌^◌, ◌≤◌, ◌<◌, ◌≡◌, refl}
use nycu_csic30091_netw.Prelude.{arith, Option, some, [], ◌∷◌, ◌++◌, ◌⊎◌, inl}
use nycu_csic30091_netw.Prelude.{true, false, ◌>>=◌, ◌==◌, if◌then◌else◌, length, drop}
use nycu_csic30091_netw.Prelude.{length-append, length-drop, append_assoc, append-nil}
use nycu_csic30091_netw.Prelude.Bytes.{Bytes, Free}
use nycu_csic30091_netw.Cxx.Net.{swap16, swap32, store16, store32}
use nycu_csic30091_netw.Cxx.Net.{load16-store16, load32-store32, swap16_twice, swap32_twice}
use nycu_csic30091_netw.Socks.Request.{Socks4aRequest, need_domain_resolve, parse}
use nycu_csic30091_netw.Socks.Request.{c_string-append, drop-past_nul}
use nycu_csic30091_netw.Socks.Client.{overwrite, size, object_head, byte_arr, socks4_request}

overwrite_front :
    (src buf : Bytes)
    → length src ≤ length buf
    → overwrite 0 src buf ≡ some (src ++ drop (length src) buf)
unfolding overwrite
overwrite_front [] buf h = refl
overwrite_front (x ∷ src) [] h = absurd (omega arith)
overwrite_front (x ∷ src) (b ∷ buf) h = rw (overwrite_front src buf (omega arith))

-- A write behind a prefix keeps the prefix.
overwrite_behind :
    (i : ℕ) (pre src buf : Bytes)
    → i ≡ length pre
    → length src ≤ length buf
    → overwrite i src (pre ++ buf) ≡ some ((pre ++ src) ++ drop (length src) buf)
unfolding overwrite
overwrite_behind zero [] src buf e h = overwrite_front src buf h
overwrite_behind zero (p ∷ pre) src buf e h = absurd (omega arith)
overwrite_behind (suc i) [] src buf e h = absurd (omega arith)
overwrite_behind (suc i) (p ∷ pre) src buf e h = rw (overwrite_behind i pre src buf (omega arith) h)

-- The packet: eight bytes of head, the user, a NUL, and a domain with its NUL where there is one.
abbrev pub domain_bytes : Bytes → Bytes
domain_bytes [] = []
domain_bytes (c ∷ s) = (c ∷ s) ++ 0 ∷ []

abbrev pub packet : Socks4aRequest → Bytes
packet r = object_head r ++ (r.user_id ++ 0 ∷ domain_bytes r.domain_name)

nil_of_length : (xs : Bytes) → length xs ≡ 0 → xs ≡ []
nil_of_length [] h = refl
nil_of_length (x ∷ xs) h = absurd (omega arith)

module _ (head user : Bytes) where
  -- The writes behind the head, for a domain `d`, with the last one at `last`.
  abbrev writes : Bytes → ℕ → Bytes → Option Bytes
  writes d last b0 = do
    b1 ← overwrite (length head) user b0
    b2 ← overwrite (length head + length user) (0 ∷ []) b1
    b3 ← overwrite (length head + length user + 1) d b2
    overwrite last (0 ∷ []) b3

  abbrev through_nul : Bytes
  through_nul = (head ++ user) ++ 0 ∷ []

  length-through_nul : length through_nul ≡ length head + length user + 1
  length-through_nul = omega (arith, length-append (head ++ user) (0 ∷ []), length-append head user)

  -- All writes but the last.
  writes_but_last :
      (d : Bytes) (last : ℕ) (mem : Bytes)
      → length user + 1 + length d ≤ length mem
      → writes d last (head ++ mem)
        ≡ overwrite last
            (0 ∷ [])
            ((through_nul ++ d) ++ drop (length d) (drop 1 (drop (length user) mem)))
  writes_but_last d last mem h =
      let l = length-drop (length user) mem in
      let l' = length-drop 1 (drop (length user) mem) in
      rw (overwrite_behind (length head) head user mem refl (omega arith)) (
        rw
          (overwrite_behind (length head + length user) (head ++ user) (0 ∷ [])
            (drop (length user) mem) (omega (arith, length-append head user)) (omega (arith, l)))
          (rw (
            overwrite_behind (length head + length user + 1) through_nul d
              (drop 1 (drop (length user) mem)) (omega (arith, length-through_nul))
              (omega (arith, l, l')))))

  writes_lem :
      (d mem : Bytes)
      → length mem ≡ length user + 1 + length (domain_bytes d)
      → writes d (length head + length user + length (domain_bytes d)) (head ++ mem)
        ≡ some (head ++ (user ++ 0 ∷ domain_bytes d))
  writes_lem [] mem h =
      let l = length-drop (length user) mem in
      let l' = length-drop 1 (drop (length user) mem) in
      let at = length head + length user + 0 in
      rw (writes_but_last [] at mem (omega arith)) (
        rw (nil_of_length (drop 1 (drop (length user) mem)) (omega (arith, l, l'))) (
          simp append-nil (
            rw
              (overwrite_behind at (head ++ user) (0 ∷ []) (0 ∷ [])
                (omega (arith, length-append head user)) (omega arith))
              (simp (append-nil, append_assoc)))))
  writes_lem (c ∷ s) mem h =
      let l = length-drop (length user) mem in
      let l' = length-drop 1 (drop (length user) mem) in
      let left = drop (length (c ∷ s)) (drop 1 (drop (length user) mem)) in
      let l'' = length-drop (length (c ∷ s)) (drop 1 (drop (length user) mem)) in
      let n = length-append s (0 ∷ []) in
      let at = length head + length user + length (domain_bytes (c ∷ s)) in
      rw (writes_but_last (c ∷ s) at mem (omega (arith, n))) (
        rw
          (overwrite_behind at (through_nul ++ c ∷ s) (0 ∷ []) left
            (omega (arith, n, length-append through_nul (c ∷ s), length-through_nul))
            (omega (arith, n, l, l', l'')))
          (rw (nil_of_length (drop 1 left) (omega (arith, n, l, l', l'', length-drop 1 left)))
            (simp (append-nil, append_assoc))))

size-length :
    (r : Socks4aRequest) → size r ≡ 9 + length r.user_id + length (domain_bytes r.domain_name)
unfolding size
size-length r = go r.domain_name
  where
    go :
        (d : Bytes)
        → 9 + length r.user_id + length d + (if length d == 0 then 0 else 1)
          ≡ 9 + length r.user_id + length (domain_bytes d)
    go [] = omega arith
    go (c ∷ s) = ground (arith, length-append s (0 ∷ []))

-- `byteArr` stays inside the memory that it asked for, whatever that held, and fills it with the
-- packet.
pub byte_arr-packet :
    (r : Socks4aRequest) (fresh : Bytes)
    → length fresh ≡ size r
    → byte_arr fresh r ≡ some (packet r)
unfolding byte_arr object_head store16 store32
byte_arr-packet r fresh h =
    let z = size-length r in
    let last : size r - 1 ≡ 8 + length r.user_id + length (domain_bytes r.domain_name) =
      omega (arith, z) in
    rw (overwrite_front (object_head r) fresh (omega (arith, z))) (
      rw last (
        writes_lem (object_head r) r.user_id r.domain_name (drop 8 fresh)
          (omega (arith, z, length-drop 8 fresh))))

-- The request as the server sees it: host order, no domain unless the address asks for one.
abbrev pub received : Socks4aRequest → Socks4aRequest
received r = record r { dst_port = swap16 r.dst_port; dst_ip = swap32 r.dst_ip }

-- A request carries a domain exactly when its address says so, and its fields are words and texts.
pub record IsSendable (r : Socks4aRequest) : Type 0 where
  pub port_range : r.dst_port < 65536
  pub ip_range : r.dst_ip < 2 ^ 32
  pub user_text : Free 0 r.user_id
  pub domain_text : Free 0 r.domain_name
  pub domain_there :
      ((need_domain_resolve (received r) ≡ true) × (0 < length r.domain_name))
      ⊎ ((need_domain_resolve (received r) ≡ false) × (r.domain_name ≡ []))

-- The server's parser on a packet and whatever follows it in its buffer.
parse-packet :
    (r : Socks4aRequest) (d rest : Bytes)
    → IsSendable (record r { domain_name = d })
    → parse (packet (record r { domain_name = d }) ++ rest)
      ≡ some (received (record r { domain_name = d }))
unfolding parse object_head store16 store32 need_domain_resolve
parse-packet r [] rest v = rw (append_assoc r.user_id (0 ∷ []) rest) (
    rw (c_string-append r.user_id rest v.user_text) (
      rw (load16-store16 r.dst_port v.port_range)
        (rw (load32-store32 r.dst_ip v.ip_range) (ground arith))))
parse-packet r (c ∷ d) rest v = rw (append_assoc r.user_id (0 ∷ c ∷ (d ++ 0 ∷ [])) rest) (
    rw (c_string-append r.user_id (c ∷ (d ++ 0 ∷ []) ++ rest) v.user_text) (
      rw (drop-past_nul r.user_id (c ∷ (d ++ 0 ∷ []) ++ rest)) (
        rw (append_assoc d (0 ∷ []) rest) (
          rw (c_string-append (c ∷ d) rest v.domain_text) (
            rw (load16-store16 r.dst_port v.port_range)
              (rw (load32-store32 r.dst_ip v.ip_range) (ground arith)))))))

-- For a request whose port and address are in range, whose texts hold no NUL, and which has a
-- domain exactly if its address asks for one: byteArr makes a packet, and the server's parser
-- reads it, out of a buffer in which anything may follow, as the request with port and address in
-- host order.
pub parse-byte_arr :
    (r : Socks4aRequest) (fresh rest : Bytes)
    → length fresh ≡ size r
    → IsSendable r
    → (pkt : Bytes) × (byte_arr fresh r ≡ some pkt) × (parse (pkt ++ rest) ≡ some (received r))
parse-byte_arr r fresh rest h v =
    (packet r, byte_arr-packet r fresh h, parse-packet r r.domain_name rest v)

-- What writeSocks4 builds can be sent, for a host name that is a text and not empty.
pub socks4_request-IsSendable :
    (port : ℕ) (host : Bytes)
    → 0 < length host
    → Free 0 host
    → IsSendable (socks4_request port host)
unfolding socks4_request need_domain_resolve swap16 swap32
socks4_request-IsSendable port host h f = record {
  port_range = omega arith;
  ip_range = omega arith;
  user_text = tt;
  domain_text = f;
  domain_there = inl (refl, h);
}

-- For a host that is not empty and holds no NUL, the CONNECT request of a console session reaches
-- the server as version 4, command 1, the port modulo 2^16, the address 0.0.0.1 and the host as
-- the domain to resolve.
pub parse-socks4_request :
    (port : ℕ) (host fresh rest : Bytes)
    → length fresh ≡ size (socks4_request port host)
    → 0 < length host
    → Free 0 host
    → (pkt : Bytes) × (byte_arr fresh (socks4_request port host) ≡ some pkt)
      × (parse (pkt ++ rest)
          ≡ some (record {
            vn = 4;
            cd = 1;
            dst_port = port % 65536;
            dst_ip = 1;
            user_id = [];
            domain_name = host;
          }))
unfolding socks4_request
parse-socks4_request port host fresh rest h n f =
    let sent = socks4_request-IsSendable port host n f in
    let (pkt, written, read) = parse-byte_arr (socks4_request port host) fresh rest h sent in
    (pkt, written, ground (arith, read, swap16_twice (port % 65536), swap32_twice 1))
