-- ===== src/Socks/Client.antt =====
-- The client's side of the protocol: Socks4aRequest::size and byteArr of
-- project4/src/consoleCgi/src/Socks4aRequest.cpp, and the request that
-- ConsoleSession::writeSocks4 builds. Memory from `new` holds arbitrary bytes.
use nycu_csic30091_netw.Prelude.{ℕ, zero, suc, ◌+◌, ◌-◌, ◌%◌, Option, none, some}
use nycu_csic30091_netw.Prelude.{[], ◌∷◌, ◌++◌, ◌>>=◌, ◌==◌, if◌then◌else◌, length}
use nycu_csic30091_netw.Prelude.Bytes.{Bytes}
use nycu_csic30091_netw.Cxx.Net.{swap16, swap32, store16, store32}
use nycu_csic30091_netw.Socks.Request.{Socks4aRequest}

-- `memcpy(&buf[i], src, n)`; `none` is a write past the end of the buffer.
unfoldable pub overwrite : ℕ → Bytes → Bytes → Option Bytes
overwrite zero [] buf = some buf
overwrite zero (x ∷ src) [] = none
overwrite zero (x ∷ src) (b ∷ buf) = do rest ← overwrite zero src buf; some (x ∷ rest)
overwrite (suc i) src [] = none
overwrite (suc i) src (b ∷ buf) = do rest ← overwrite i src buf; some (b ∷ rest)

unfoldable pub size : Socks4aRequest → ℕ
size r = 9 + length r.user_id + length r.domain_name + (if length r.domain_name == 0 then 0 else 1)

-- The first eight bytes of the object.
unfoldable pub object_head : Socks4aRequest → Bytes
unfolding store16 store32
object_head r = r.vn ∷ r.cd ∷ (store16 r.dst_port ++ store32 r.dst_ip)

-- `fresh` is the memory that `new char[size()]` gives.
unfoldable pub byte_arr : Bytes → Socks4aRequest → Option Bytes
unfolding overwrite size object_head
byte_arr fresh r = do
  b ← overwrite 0 (object_head r) fresh
  b' ← overwrite 8 r.user_id b
  b'' ← overwrite (8 + length r.user_id) (0 ∷ []) b'
  b''' ← overwrite (8 + length r.user_id + 1) r.domain_name b''
  overwrite (size r - 1) (0 ∷ []) b'''

-- 0.0.0.1 is the number 1.
unfoldable pub socks4_request : ℕ → Bytes → Socks4aRequest
socks4_request port host = record {
  vn = 4;
  cd = 1;
  dst_port = swap16 (port % 65536);
  dst_ip = swap32 1;
  user_id = [];
  domain_name = host;
}
