-- ===== src/Socks/Through.antt =====
-- From the console's packet to what the server starts.
use nycu_csic30091_netw.Prelude.{
  ℕ, ◌%◌, ◌<◌, Bool, true, false, ◌≡◌, refl, arith, ap, ◌∙◌, sym, Option, some, eq_of_some, List,
  [], ◌∷◌, ◌++◌, ◌↔◌, length, inl, inr,
}
use nycu_csic30091_netw.Prelude.Bytes.{Bytes, Free, codes}
use nycu_csic30091_netw.Cxx.Decimal.{to_string}
use nycu_csic30091_netw.Cxx.Net.{dotted}
use nycu_csic30091_netw.Cxx.Stream.{fields}
use nycu_csic30091_netw.Socks.Request.{
  Socks4aRequest, parse, need_domain_resolve, resolve_domain_name, get_dst_ip_string,
}
use nycu_csic30091_netw.Socks.Response.{of_success}
use nycu_csic30091_netw.Socks.Client.{size, byte_arr, socks4_request}
use nycu_csic30091_netw.Socks.Wire.{parse-socks4_request}
use nycu_csic30091_netw.Socks.Firewall.Model.{fresh_firewall, is_permit}
use nycu_csic30091_netw.Socks.Firewall.Wildcard.{AllPlain, Covers}
use nycu_csic30091_netw.Socks.Firewall.Rules.{
  Any, AllFilters, filters_of, is_permit_iff, is_permit_answers,
}
use nycu_csic30091_netw.Socks.Session.Model.{
  Session, Effect, Op, connect, write_reply, on_request, dispatch,
}
use nycu_csic30091_netw.Socks.Session.Gate.{refusal, dispatch_refused, dispatch_permitted}

on_request-steps :
    (resolve : Bytes → Bytes → Option ℕ) (file : Option Bytes) (port : ℕ) (buf : Bytes)
    (s : Session) (p r : Socks4aRequest) (b : Bool)
    → parse buf ≡ some p
    → resolve_domain_name resolve p ≡ some r
    → (is_permit s.firewall file r).0 ≡ some b
    → on_request resolve file port buf s
      ≡ some (
          dispatch port (record {
            request = r;
            response = of_success b;
            firewall = (is_permit s.firewall file r).1;
          }))
unfolding on_request
on_request-steps resolve file port buf s p r b e f g = rw e (rw f (rw g))

-- What the server starts for a CONNECT to an address: the connection, or the refusal.
abbrev pub answer : Bool → Bytes → ℕ → List Op
answer true ip port = connect ip port ∷ []
answer false ip port = write_reply refusal ∷ []

dispatch-answer :
    (acceptor : ℕ) (s : Session) (b : Bool)
    → acceptor < 65536
    → s.response ≡ of_success b
    → s.request.cd ≡ 1
    → (dispatch acceptor s).1 ≡ answer b (get_dst_ip_string s.request) s.request.dst_port
dispatch-answer acceptor s false h e c = dispatch_refused acceptor s e
dispatch-answer acceptor s true h e c = elim (dispatch_permitted acceptor s h e (inl c)) [
  | inl (_, ops) ↦ ops
  | inr (two, _) ↦ absurd (omega (arith, two, c))
]

answered :
    {o : Option Bool} {b : Bool} {A : Type 0} → o ≡ some b → (o ≡ some true) ↔ A → (b ≡ true) ↔ A
answered e iff = (λ t. iff.0 (e ∙ ap some t), λ a. eq_of_some (sym e ∙ iff.1 a))

-- The console asks for a host that is not empty and holds no NUL, the resolver knows its address,
-- and the filters of the `permit c` rules in the file of a fresh firewall hold no operator but `*`
-- and `.`. Then byteArr makes a packet, the server handles it, whatever follows it in the buffer, and
-- it starts the connection to this address and port if a rule covers the address, and else the
-- refusal alone.
pub connect_through :
    (resolve : Bytes → Bytes → Option ℕ) (content : Bytes) (acceptor port ip : ℕ)
    (host fresh rest : Bytes) (s : Session)
    → acceptor < 65536
    → length fresh ≡ size (socks4_request port host)
    → 0 < length host
    → Free 0 host
    → resolve host (to_string (port % 65536)) ≡ some ip
    → AllFilters AllPlain (filters_of (codes "c") (fields 10 content))
    → (pkt : Bytes) × (b : Bool) × (d : Effect) × (byte_arr fresh (socks4_request port host)
        ≡ some pkt)
      × (on_request resolve
            (some content)
            acceptor
            (pkt ++ rest)
            (record s { firewall = fresh_firewall })
          ≡ some d)
      × (d.1 ≡ answer b (dotted ip) (port % 65536))
      × ((b ≡ true) ↔ Any (λ f. Covers f (dotted ip)) (filters_of (codes "c") (fields 10 content)))
connect_through resolve content acceptor port ip host fresh rest s small h n f known plain =
    let p : Socks4aRequest = record {
      vn = 4;
      cd = 1;
      dst_port = port % 65536;
      dst_ip = 1;
      user_id = [];
      domain_name = host;
    } in
    let r : Socks4aRequest = record p { dst_ip = ip } in
    let (pkt, written, read) = parse-socks4_request port host fresh rest h n f in
    let resolved : resolve_domain_name resolve p ≡ some r =
      unfold resolve_domain_name need_domain_resolve in rw known in
    let (b, verdict) = is_permit_answers content (codes "c") r refl plain in
    let iff = is_permit_iff content (codes "c") r refl plain in
    let run =
      on_request-steps resolve (some content) acceptor (pkt ++ rest)
        (record s { firewall = fresh_firewall }) p r b read resolved verdict in
    (
      pkt,
      b,
      _,
      written,
      run,
      (unfold get_dst_ip_string in dispatch-answer acceptor _ b small refl refl),
      (unfold get_dst_ip_string in answered verdict iff),
    )
