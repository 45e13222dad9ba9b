-- ===== src/Cxx/Net.antt =====
-- Byte order and addresses. The host is little-endian, as x86-64 is.
use nycu_csic30091_netw.Prelude.{ℕ, ◌+◌, ◌*◌, ◌/◌, ◌%◌, ◌^◌, ◌<◌, ◌≡◌, arith}
use nycu_csic30091_netw.Prelude.{[], ◌∷◌, ◌++◌}
use nycu_csic30091_netw.Prelude.Bytes.{Bytes}
use nycu_csic30091_netw.Cxx.Decimal.{to_string}

-- A word as it lies in memory, and a word read from memory.
unfoldable pub store16 : ℕ → Bytes
store16 w = w % 256 ∷ w / 256 % 256 ∷ []

unfoldable pub load16 : ℕ → ℕ → ℕ
load16 a b = a + b * 256

unfoldable pub store32 : ℕ → Bytes
store32 w = w % 256 ∷ w / 256 % 256 ∷ w / 65536 % 256 ∷ w / 16777216 % 256 ∷ []

unfoldable pub load32 : ℕ → ℕ → ℕ → ℕ → ℕ
load32 a b c d = a + b * 256 + c * 65536 + d * 16777216

-- htons and ntohs, htonl and ntohl: on this host all four reverse the bytes.
unfoldable pub swap16 : ℕ → ℕ
swap16 w = w % 256 * 256 + w / 256 % 256

unfoldable pub swap32 : ℕ → ℕ
swap32 w = w % 256 * 16777216 + w / 256 % 256 * 65536 + w / 65536 % 256 * 256 + w / 16777216 % 256

pub swap16_twice : (w : ℕ) → w < 65536 → swap16 (swap16 w) ≡ w
unfolding swap16
swap16_twice w h = omega arith

pub swap32_twice : (w : ℕ) → w < 2 ^ 32 → swap32 (swap32 w) ≡ w
unfolding swap32
swap32_twice w h = omega arith

-- A word in network order lies in memory high byte first.
pub load16-swap16 : (a b : ℕ) → a < 256 → b < 256 → swap16 (load16 a b) ≡ a * 256 + b
unfolding swap16 load16
load16-swap16 a b ha hb = omega arith

pub load16-store16 : (w : ℕ) → w < 65536 → load16 (w % 256) (w / 256 % 256) ≡ w
unfolding load16
load16-store16 w h = omega arith

pub load32-store32 :
    (w : ℕ)
    → w < 2 ^ 32
    → load32 (w % 256) (w / 256 % 256) (w / 65536 % 256) (w / 16777216 % 256) ≡ w
unfolding load32
load32-store32 w h = omega arith

-- inet_ntoa of an address in network order, given in host order.
unfoldable pub dotted : ℕ → Bytes
unfolding to_string
dotted ip =
    to_string (ip / 16777216 % 256)
    ++ (b'.'
        ∷ (to_string (ip / 65536 % 256)
            ++ (b'.' ∷ (to_string (ip / 256 % 256) ++ (b'.' ∷ to_string (ip % 256))))))
