-- ===== src/Socks/Session/Model.antt =====
-- The negotiation of project4/src/socksServer/src/SocksSession.cpp.
use nycu_csic30091_netw.Prelude.{ℕ, Bool, false, not, Option, none, some, List, [], ◌∷◌, ◌++◌}
use nycu_csic30091_netw.Prelude.{if◌then◌else◌, ◌>>=◌}
use nycu_csic30091_netw.Prelude.Bytes.{Bytes, codes, str_eq}
use nycu_csic30091_netw.Socks.Request.{Socks4aRequest, parse, resolve_domain_name}
use nycu_csic30091_netw.Socks.Request.{get_dst_ip_string, get_command_string}
use nycu_csic30091_netw.Socks.Response.{Socks4aResponse, of_success, is_accept, set_accept}
use nycu_csic30091_netw.Socks.Response.{set_dst_port, set_hton, object_bytes}
use nycu_csic30091_netw.Socks.Firewall.Model.{Firewall, is_permit}

pub data Op : Type 0 where
  write_reply : Bytes → Op
  connect : Bytes → ℕ → Op
  listen accept : Op
  read_client read_server : Op
  close_client : Op

pub record Session : Type 0 where
  pub request : Socks4aRequest
  pub response : Socks4aResponse
  pub firewall : Firewall

abbrev pub Effect : Type 0
Effect = Session × List Op

-- replySocks: the response is put in network order in place, then written.
unfoldable pub reply_socks : Session → Effect
unfolding set_hton object_bytes
reply_socks s =
    let r = set_hton s.response in (record s { response = r }, write_reply (object_bytes r) ∷ [])

-- What a handler does behind a reply.
abbrev pub and_then : Effect → List Op → Effect
and_then (s, ops) more = (s, ops ++ more)

-- The completion of the write of a reply.
unfoldable pub on_reply : Bool → Session → List Op
unfolding is_accept
on_reply error s =
    if error then [] else if not (is_accept s.response) then close_client ∷ [] else []

unfoldable pub create_connect_tunnel : Session → Effect
unfolding get_dst_ip_string
create_connect_tunnel s = (s, connect (get_dst_ip_string s.request) s.request.dst_port ∷ [])

unfoldable pub on_connect : Bool → Session → Effect
unfolding reply_socks set_accept
on_connect error s =
    if error
    then and_then (reply_socks (record s { response = set_accept false s.response }))
        (close_client ∷ [])
    else and_then (reply_socks s) (read_client ∷ read_server ∷ [])

-- `port` is the port that the system gave the acceptor.
unfoldable pub create_bind_tunnel : ℕ → Session → Effect
unfolding reply_socks set_dst_port
create_bind_tunnel port s =
    let (s', ops) = reply_socks (record s { response = set_dst_port port s.response }) in
    (s', listen ∷ (ops ++ accept ∷ []))

unfoldable pub on_accept : Bool → Session → Effect
unfolding reply_socks
on_accept error s =
    if error
    then (s, close_client ∷ [])
    else and_then (reply_socks s) (read_client ∷ read_server ∷ [])

-- The branches of readSocks's handler behind the verdict.
unfoldable pub dispatch : ℕ → Session → Effect
unfolding reply_socks create_connect_tunnel create_bind_tunnel is_accept get_command_string str_eq
dispatch port s =
    if not (is_accept s.response)
    then reply_socks s
    else if str_eq (get_command_string s.request) (codes "CONNECT")
    then create_connect_tunnel s
    else if str_eq (get_command_string s.request) (codes "BIND")
    then create_bind_tunnel port s
    else (s, close_client ∷ [])

-- The handler of readSocks on a buffer that was read. `resolve` is the resolver, `file` what
-- socks.conf holds and `port` the port of the acceptor. `none` is a read past the buffer, an
-- exception of the resolver, or a filter outside the modelled regular expressions.
unfoldable pub on_request :
    (Bytes → Bytes → Option ℕ) → Option Bytes → ℕ → Bytes → Session → Option Effect
unfolding dispatch
on_request resolve file port buf s = do
  parsed ← parse buf
  request ← resolve_domain_name resolve parsed
  let verdict = is_permit s.firewall file request
  permit ← verdict.0
  some (
      dispatch port
        (record { request = request; response = of_success permit; firewall = verdict.1 }))

-- The whole handler: on an error it does nothing.
unfoldable pub on_read_socks :
    (Bytes → Bytes → Option ℕ) → Option Bytes → ℕ → Option Bytes → Session → Option Effect
unfolding on_request
on_read_socks resolve file port none s = some (s, [])
on_read_socks resolve file port (some buf) s = on_request resolve file port buf s
