-- ===== src/Socks/Samples.antt =====
-- Runs of the SOCKS server and of its client at fixed inputs.
use nycu_csic30091_netw.Prelude.{ℕ, ◌/◌, ◌%◌, true, false, ◌≡◌, refl, arith, ◌↔◌}
use nycu_csic30091_netw.Prelude.{Option, List, some, [], ◌∷◌, ◌++◌, length, replicate}
use nycu_csic30091_netw.Prelude.Bytes.{Bytes, codes, Free, str_eq}
use nycu_csic30091_netw.Cxx.Stream.{fields}
use nycu_csic30091_netw.Cxx.Regex.{Item, compile, regex_match, is_special}
use nycu_csic30091_netw.Socks.Request.{
  Socks4aRequest, parse, get_dst_ip_string, resolve_domain_name,
}
use nycu_csic30091_netw.Cxx.Net.{load16, load32}
use nycu_csic30091_netw.Socks.Response.{of_success}
use nycu_csic30091_netw.Socks.Client.{size, byte_arr, socks4_request}
use nycu_csic30091_netw.Socks.Through.{answer, connect_through}
use nycu_csic30091_netw.Prelude.{Bool}
use nycu_csic30091_netw.Cxx.Net.{dotted}
use nycu_csic30091_netw.Socks.Wire.{packet, received, byte_arr-packet, parse-byte_arr}
use nycu_csic30091_netw.Socks.Wire.{socks4_request-IsSendable}
use nycu_csic30091_netw.Socks.Firewall.Defs.{filter_regex}
use nycu_csic30091_netw.Socks.Firewall.Model.{fresh_firewall, read_rule, is_permit}
use nycu_csic30091_netw.Socks.Firewall.Wildcard.{AllPlain, Covers, filter_regex-Covers}
use nycu_csic30091_netw.Socks.Firewall.Rules.{Any, AllFilters, filters_of}
use nycu_csic30091_netw.Socks.Firewall.Rules.{is_permit_iff}
use nycu_csic30091_netw.Socks.Session.Model.{Session, Effect, connect, on_request}
use nycu_csic30091_netw.Socks.Session.Model.{create_bind_tunnel, on_accept}
use nycu_csic30091_netw.Socks.Session.Replies.{replies, bind_replies}
use nycu_csic30091_netw.Socks.Session.Gate.{Gated, on_request-Gated}
use nycu_csic30091_netw.Socks.Session.Tunnel.{Tunnel, opened, on_read_client, on_write_server}
use nycu_csic30091_netw.Socks.Session.Tunnel.{on_read_server, done, error, Reach, here, next}
use nycu_csic30091_netw.Socks.Session.Tunnel.{
  client_read, server_written, server_fails, Inv, Reach-Inv,
}

-- The file of project4/working_dir.
abbrev sample_conf : Bytes
sample_conf = codes "permit c 140.113.*.*\npermit b *.*.*.*\ndeny c *.*.*.*\n"

abbrev sample_request : ℕ → ℕ → Socks4aRequest
sample_request cd ip = record {
  vn = 4;
  cd = cd;
  dst_port = 80;
  dst_ip = ip;
  user_id = [];
  domain_name = [];
}

connect_inside :
    (is_permit fresh_firewall (some sample_conf) (sample_request 1 2356235265)).0 ≡ some true
unfolding is_permit
connect_inside = refl

connect_outside :
    (is_permit fresh_firewall (some sample_conf) (sample_request 1 16843009)).0 ≡ some false
unfolding is_permit
connect_outside = refl

abbrev sample_resolve : Bytes → Bytes → Option ℕ
sample_resolve host service = some 2356217601

abbrev sample_session : Session
sample_session = record {
  request = sample_request 0 0;
  response = record { vn = 0; cd = 91; dst_port = 0; dst_ip = 0 };
  firewall = fresh_firewall;
}

-- CONNECT to 140.113.1.1, port 80.
abbrev sample_packet : Bytes
sample_packet = 4 ∷ 1 ∷ 0 ∷ 80 ∷ 140 ∷ 113 ∷ 1 ∷ 1 ∷ 0 ∷ []

abbrev sample_effect : Effect
sample_effect = (
  record {
    request = sample_request 1 2356216065;
    response = record { vn = 0; cd = 90; dst_port = 0; dst_ip = 0 };
    firewall = record {
      connect_ip_filters = codes "140\\.113\\..*\\..*" ∷ [];
      bind_ip_filters = codes ".*\\..*\\..*\\..*" ∷ [];
    };
  },
  connect (codes "140.113.1.1") 80 ∷ [],
)

sample_run :
    on_request sample_resolve (some sample_conf) 7001 sample_packet sample_session
    ≡ some sample_effect
unfolding on_request filter_regex is_permit parse load16 load32 resolve_domain_name of_success
sample_run = refl

on_request-Gated_example : Gated (some sample_conf) 7001 fresh_firewall sample_effect
on_request-Gated_example =
    on_request-Gated sample_resolve (some sample_conf) 7001 sample_packet sample_session
      sample_effect (omega arith) sample_run

abbrev sample_host : Bytes
sample_host = codes "a.b"

abbrev sample_memory : Bytes
sample_memory = replicate 13 170

sample-size : length sample_memory ≡ size (socks4_request 8080 sample_host)
unfolding size socks4_request
sample-size = refl

host-Free : Free 0 sample_host
host-Free = (refl, (refl, (refl, tt)))

byte_arr-packet_example :
    byte_arr sample_memory (socks4_request 8080 sample_host)
    ≡ some (packet (socks4_request 8080 sample_host))
byte_arr-packet_example =
    byte_arr-packet (socks4_request 8080 sample_host) sample_memory sample-size

parse-byte_arr_example :
    (pkt : Bytes) × (byte_arr sample_memory (socks4_request 8080 sample_host) ≡ some pkt)
    × (parse (pkt ++ 9 ∷ []) ≡ some (received (socks4_request 8080 sample_host)))
parse-byte_arr_example =
    parse-byte_arr (socks4_request 8080 sample_host) sample_memory (9 ∷ []) sample-size
      (socks4_request-IsSendable 8080 sample_host (omega arith) host-Free)

abbrev small_conf : Bytes
small_conf = codes "permit c 1.*\n"

small_filters : filters_of (codes "c") (fields 10 small_conf) ≡ codes "1.*" ∷ []
unfolding read_rule fields str_eq
small_filters = refl

sample-AllPlain : AllPlain (codes "1.*")
unfolding is_special
sample-AllPlain = ((refl, refl, refl), ((refl, refl, refl), ((refl, refl, refl), tt)))

small-AllFilters : AllFilters AllPlain (filters_of (codes "c") (fields 10 small_conf))
small-AllFilters = rw small_filters (sample-AllPlain, tt)

is_permit_iff_example :
    ((is_permit fresh_firewall (some small_conf) (sample_request 1 16843009)).0 ≡ some true)
    ↔ Any
        (λ f. Covers f (get_dst_ip_string (sample_request 1 16843009)))
        (filters_of (codes "c") (fields 10 small_conf))
is_permit_iff_example =
    is_permit_iff small_conf (codes "c") (sample_request 1 16843009) refl small-AllFilters

filter_regex-Covers_example :
    (items : List Item) × (compile (filter_regex (codes "1.*")) ≡ some items)
    × ((regex_match items (codes "1.23") ≡ true) ↔ Covers (codes "1.*") (codes "1.23"))
filter_regex-Covers_example = filter_regex-Covers (codes "1.*") (codes "1.23") sample-AllPlain

abbrev accepted_session : Session
accepted_session = record sample_session { response = of_success true }

bind_replies_example :
    let (s', ops) = create_bind_tunnel 7001 accepted_session in
    (replies ops ≡ (0 ∷ 90 ∷ 7001 / 256 ∷ 7001 % 256 ∷ 0 ∷ 0 ∷ 0 ∷ 0 ∷ []) ∷ [])
    × (replies (on_accept false s').1
        ≡ (0 ∷ 90 ∷ 7001 % 256 ∷ 7001 / 256 ∷ 0 ∷ 0 ∷ 0 ∷ 0 ∷ []) ∷ [])
bind_replies_example = bind_replies 7001 accepted_session (omega arith) refl

-- A chunk goes up, and then the server hangs up.
abbrev chunk : Bytes
chunk = codes "GET"

abbrev after_chunk : Tunnel
after_chunk = on_write_server (done chunk) (on_read_client (done chunk) opened)

sample-Reach : Reach opened (on_read_server error after_chunk)
unfolding on_read_client on_write_server on_read_server
sample-Reach =
    next
      (next (next here (client_read opened chunk refl refl (omega arith)))
        (server_written (on_read_client (done chunk) opened) chunk refl refl))
      (server_fails after_chunk refl)

Reach-Inv_example : Inv (on_read_server error after_chunk)
Reach-Inv_example = Reach-Inv sample-Reach

connect_through_example :
    (pkt : Bytes) × (b : Bool) × (d : Effect) × (byte_arr sample_memory
        (socks4_request 8080 sample_host)
      ≡ some pkt)
    × (on_request sample_resolve
          (some small_conf)
          7001
          (pkt ++ 9 ∷ [])
          (record sample_session { firewall = fresh_firewall })
        ≡ some d)
    × (d.1 ≡ answer b (dotted 2356217601) (8080 % 65536))
    × ((b ≡ true)
        ↔ Any (λ f. Covers f (dotted 2356217601)) (filters_of (codes "c") (fields 10 small_conf)))
connect_through_example =
    connect_through sample_resolve small_conf 7001 8080 2356217601 sample_host sample_memory
      (9 ∷ []) sample_session (omega arith) sample-size (omega arith) host-Free refl
      small-AllFilters
