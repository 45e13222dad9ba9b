-- ===== src/Socks/Response.antt =====
-- project4/src/socksServer/src/Socks4aResponse.cpp, and the reply as ConsoleSession.cpp reads it.
use nycu_csic30091_netw.Prelude.{ℕ, Bool, false, ◌&&◌}
use nycu_csic30091_netw.Prelude.{◌==◌, if◌then◌else◌, ◌∷◌, ◌++◌}
use nycu_csic30091_netw.Prelude.Bytes.{Bytes, codes}
use nycu_csic30091_netw.Cxx.Net.{swap16, swap32, store16, store32, dotted}

pub record Socks4aResponse : Type 0 where
  pub vn : ℕ
  pub cd : ℕ
  pub dst_port : ℕ
  pub dst_ip : ℕ

-- Socks4aResponse(bool success)
unfoldable pub of_success : Bool → Socks4aResponse
of_success success = record { vn = 0; cd = if success then 90 else 91; dst_port = 0; dst_ip = 0 }

unfoldable pub is_accept : Socks4aResponse → Bool
is_accept r = r.cd == 90

unfoldable pub get_accept_string : Socks4aResponse → Bytes
unfolding is_accept
get_accept_string r = if is_accept r then codes "Accept" else codes "Reject"

-- inet_ntoa on the field as it stands, with no htonl before it.
unfoldable pub get_dst_ip_string : Socks4aResponse → Bytes
unfolding dotted swap32
get_dst_ip_string r = dotted (swap32 r.dst_ip)

unfoldable pub set_accept : Bool → Socks4aResponse → Socks4aResponse
set_accept success r = record r { cd = if success then 90 else 91 }

unfoldable pub set_dst_port : ℕ → Socks4aResponse → Socks4aResponse
set_dst_port port r = record r { dst_port = port }

unfoldable pub set_dst_ip : ℕ → Socks4aResponse → Socks4aResponse
set_dst_ip ip r = record r { dst_ip = ip }

unfoldable pub set_hton : Socks4aResponse → Socks4aResponse
unfolding swap16 swap32
set_hton r = record r { dst_port = swap16 r.dst_port; dst_ip = swap32 r.dst_ip }

-- The eight bytes of the object, which `replySocks` writes.
unfoldable pub object_bytes : Socks4aResponse → Bytes
unfolding store16 store32
object_bytes r = r.vn ∷ r.cd ∷ (store16 r.dst_port ++ store32 r.dst_ip)

-- The test of ConsoleSession::readSocks4 on what it read. A `char` above 127 is negative, and so
-- differs from both constants as its byte does.
unfoldable pub reply_accepts : Bytes → Bool
reply_accepts (a ∷ b ∷ rest) = a == 0 && b == 90
reply_accepts _ = false
