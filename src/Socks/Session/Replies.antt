-- ===== src/Socks/Session/Replies.antt =====
-- What the client reads of the replies of a session.
use nycu_csic30091_netw.Prelude.{ℕ, ◌/◌, ◌%◌, ◌<◌, true, false, ◌≡◌, arith}
use nycu_csic30091_netw.Prelude.{List, [], ◌∷◌, map}
use nycu_csic30091_netw.Prelude.Bytes.{Bytes}
use nycu_csic30091_netw.Socks.Response.{is_accept, reply_accepts}
use nycu_csic30091_netw.Socks.Response.{of_success}
use nycu_csic30091_netw.Socks.Session.Model.{Op, write_reply}
use nycu_csic30091_netw.Socks.Session.Model.{Session, reply_socks}
use nycu_csic30091_netw.Socks.Session.Model.{create_bind_tunnel, on_accept}

-- The bytes of the replies among the operations.
abbrev pub replies : List Op → List Bytes
replies [] = []
replies (write_reply b ∷ ops) = b ∷ replies ops
replies (_ ∷ ops) = replies ops

-- Let the version of a response be 0. Then replySocks writes one reply, and the client takes it
-- for an acceptance exactly if the response is one.
pub reply_accepts-reply_socks :
    (s : Session)
    → s.response.vn ≡ 0
    → map reply_accepts (replies (reply_socks s).1) ≡ is_accept s.response ∷ []
unfolding reply_socks reply_accepts is_accept
reply_accepts-reply_socks s h = ground arith

-- Let the response of a session be a fresh acceptance, and the port of its acceptor be below 2^16.
-- Then BIND sends two replies; the first holds the port high byte first, and the second, sent when
-- the connection is accepted, low byte first: replySocks swaps in place, so that its second call
-- undoes the first.
pub bind_replies :
    (port : ℕ) (s : Session)
    → port < 65536
    → s.response ≡ of_success true
    → let (s', ops) = create_bind_tunnel port s in
      (replies ops ≡ (0 ∷ 90 ∷ port / 256 ∷ port % 256 ∷ 0 ∷ 0 ∷ 0 ∷ 0 ∷ []) ∷ [])
      × (replies (on_accept false s').1
          ≡ (0 ∷ 90 ∷ port % 256 ∷ port / 256 ∷ 0 ∷ 0 ∷ 0 ∷ 0 ∷ []) ∷ [])
unfolding create_bind_tunnel on_accept of_success
bind_replies port s h e = ground arith
