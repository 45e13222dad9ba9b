-- ===== src/Socks/Session/Gate.antt =====
-- No tunnel without the firewall's permission: what the handler of a request starts.
use nycu_csic30091_netw.Prelude.{
  ℕ, ◌/◌, ◌%◌, ◌<◌, Bool, true, false, ◌≡◌, refl, arith, ◌⊎◌, inl, inr,
}
use nycu_csic30091_netw.Prelude.{Option, none, some, List, [], ◌∷◌}
use nycu_csic30091_netw.Prelude.{>>=-eq-some, eq_of_some, subst}
use nycu_csic30091_netw.Prelude.Bytes.{Bytes, str_eq}
use nycu_csic30091_netw.Socks.Request.{
  Socks4aRequest, parse, resolve_domain_name, get_dst_ip_string,
}
use nycu_csic30091_netw.Socks.Request.{get_command_string}
use nycu_csic30091_netw.Socks.Response.{of_success}
use nycu_csic30091_netw.Socks.Firewall.Model.{Firewall, is_permit}
use nycu_csic30091_netw.Socks.Firewall.Rules.{kind_of, is_permit_refuses}
use nycu_csic30091_netw.Socks.Session.Model.{
  Op, write_reply, connect, listen, accept, Session, Effect,
}
use nycu_csic30091_netw.Socks.Session.Model.{dispatch, on_request}

-- The eight bytes of a refusal, and of an acceptance with a port.
abbrev pub refusal : Bytes
refusal = 0 ∷ 91 ∷ 0 ∷ 0 ∷ 0 ∷ 0 ∷ 0 ∷ 0 ∷ []

abbrev pub acceptance : ℕ → Bytes
acceptance port = 0 ∷ 90 ∷ port / 256 ∷ port % 256 ∷ 0 ∷ 0 ∷ 0 ∷ 0 ∷ []

-- What a permitted request starts.
abbrev pub Started : ℕ → Socks4aRequest → List Op → Type 0
Started port r ops =
    ((r.cd ≡ 1) × (ops ≡ connect (get_dst_ip_string r) r.dst_port ∷ []))
    ⊎ ((r.cd ≡ 2) × (ops ≡ listen ∷ write_reply (acceptance port) ∷ accept ∷ []))

pub dispatch_refused :
    (port : ℕ) (s : Session)
    → s.response ≡ of_success false
    → (dispatch port s).1 ≡ write_reply refusal ∷ []
unfolding dispatch of_success
dispatch_refused port s e = ground arith

pub dispatch_permitted :
    (port : ℕ) (s : Session)
    → port < 65536
    → s.response ≡ of_success true
    → (s.request.cd ≡ 1) ⊎ (s.request.cd ≡ 2)
    → Started port s.request (dispatch port s).1
unfolding dispatch of_success get_command_string str_eq
dispatch_permitted port s h e (inl c) = inl (c, ground arith)
dispatch_permitted port s h e (inr c) = inr (c, ground arith)

request-dispatch : (port : ℕ) (s : Session) → (dispatch port s).0.request ≡ s.request
unfolding dispatch
request-dispatch port s = ground arith

kind_cases : (cd : ℕ) → (cd ≡ 1) ⊎ (cd ≡ 2) ⊎ (kind_of cd ≡ none)
kind_cases cd = ground arith

module _ (file : Option Bytes) (port : ℕ) (fw : Firewall) where
  -- A refused request starts the refusal alone; a permitted one starts its tunnel.
  abbrev pub Gated : Effect → Type 0
  Gated (s, ops) =
      (((is_permit fw file s.request).0 ≡ some false) × (ops ≡ write_reply refusal ∷ []))
      ⊎ (((is_permit fw file s.request).0 ≡ some true) × Started port s.request ops)

  dispatch-Gated :
      (permit : Bool) (s : Session)
      → port < 65536
      → (is_permit fw file s.request).0 ≡ some permit
      → s.response ≡ of_success permit
      → Gated (dispatch port s)
  dispatch-Gated false s h e r = inl (rw (request-dispatch port s) e, dispatch_refused port s r)
  dispatch-Gated true s h e r = rw (request-dispatch port s) (elim (kind_cases s.request.cd) [
    | inl c ↦ inr (e, dispatch_permitted port s h r (inl c))
    | inr (inl c) ↦ inr (e, dispatch_permitted port s h r (inr c))
    | inr (inr k) ↦ absurd (clash (is_permit_refuses fw file s.request (inl k)) e)
  ])
    where
      clash : {o : Option Bool} → o ≡ some false → o ≡ some true → ⊥
      clash p q = cc

-- Let the port of the acceptor be below 2^16. Whenever the handler of a request comes to a result:
-- if the request that it then holds is refused, the handler starts the refusal reply and nothing
-- else; if it is permitted, the request is a CONNECT and the handler connects to its address and
-- port, or a BIND and the handler listens, announces the port and accepts. The request is either
-- refused or permitted.
pub on_request-Gated :
    (resolve : Bytes → Bytes → Option ℕ) (file : Option Bytes) (port : ℕ) (buf : Bytes)
    (s : Session) (d : Effect)
    → port < 65536
    → on_request resolve file port buf s ≡ some d
    → Gated file port s.firewall d
unfolding on_request
on_request-Gated resolve file port buf s d h run =
    let (parsed, _, h1) = >>=-eq-some (parse buf) _ run in
    let (r, _, h2) = >>=-eq-some (resolve_domain_name resolve parsed) _ h1 in
    let (permit, verdict, h3) = >>=-eq-some (is_permit s.firewall file r).0 _ h2 in
    subst (Gated file port s.firewall) (eq_of_some h3)
      (dispatch-Gated file port s.firewall permit _ h verdict refl)
