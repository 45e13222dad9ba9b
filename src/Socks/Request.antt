-- ===== src/Socks/Request.antt =====
-- project4/src/socksServer/src/Socks4aRequest.cpp: a request as it is read from the socket's buffer.
use nycu_csic30091_netw.Prelude.{ℕ, suc, ◌+◌, Bool, ◌&&◌, Option, none, some, [], ◌∷◌, ◌++◌}
use nycu_csic30091_netw.Prelude.{◌≡◌, refl, arith, ◌==◌, ltb, if◌then◌else◌, ◌>>=◌, length, drop}
use nycu_csic30091_netw.Prelude.Bytes.{Bytes, codes, Free}
use nycu_csic30091_netw.Cxx.Net.{swap16, swap32, load16, load32, dotted}
use nycu_csic30091_netw.Cxx.Decimal.{to_string}

pub record Socks4aRequest : Type 0 where
  pub vn : ℕ
  pub cd : ℕ
  pub dst_port : ℕ
  pub dst_ip : ℕ
  pub user_id : Bytes
  pub domain_name : Bytes

-- `string(&raw[i])`: the bytes up to the next NUL. `none` is a read past the end of the buffer.
unfoldable pub c_string : Bytes → Option Bytes
c_string [] = none
c_string (c ∷ s) = let rest = c_string s in if c == 0 then some [] else do t ← rest; some (c ∷ t)

unfoldable pub need_domain_resolve : Socks4aRequest → Bool
need_domain_resolve r = ltb 0 r.dst_ip && ltb r.dst_ip 256

domain_part : Socks4aRequest → Bytes → Option Socks4aRequest
unfolding need_domain_resolve c_string
domain_part r rest =
    let with_domain = (do
      domain ← c_string (drop (length r.user_id + 1) rest)
      some (record r { domain_name = domain })) in
    if need_domain_resolve r then with_domain else some r

-- The argument is the whole receive buffer; `none` is a read past its end.
unfoldable pub parse : Bytes → Option Socks4aRequest
unfolding domain_part c_string
parse (vn ∷ cd ∷ p0 ∷ p1 ∷ i0 ∷ i1 ∷ i2 ∷ i3 ∷ rest) = do
  user ← c_string rest
  domain_part
      (record {
        vn = vn;
        cd = cd;
        dst_port = swap16 (load16 p0 p1);
        dst_ip = swap32 (load32 i0 i1 i2 i3);
        user_id = user;
        domain_name = [];
      })
      rest
parse _ = none

unfoldable pub get_dst_ip_string : Socks4aRequest → Bytes
unfolding dotted
get_dst_ip_string r = dotted r.dst_ip

unfoldable pub get_command_string : Socks4aRequest → Bytes
get_command_string r = if r.cd == 1 then codes "CONNECT" else if r.cd == 2 then codes "BIND" else []

-- `resolve` stands for the resolver: the first address of a name and a service; `none` is its
-- exception.
unfoldable pub resolve_domain_name :
    (Bytes → Bytes → Option ℕ) → Socks4aRequest → Option Socks4aRequest
unfolding need_domain_resolve
resolve_domain_name resolve r =
    if need_domain_resolve r
    then (do ip ← resolve r.domain_name (to_string r.dst_port); some (record r { dst_ip = ip }))
    else some r

-- A NUL-terminated text is read back, whatever stands behind it.
pub c_string-append : (s rest : Bytes) → Free 0 s → c_string (s ++ 0 ∷ rest) ≡ some s
unfolding c_string
c_string-append [] rest h = refl
c_string-append (c ∷ s) rest h = ground (arith, c_string-append s rest)

pub drop-past_nul : (s rest : Bytes) → drop (length s + 1) (s ++ 0 ∷ rest) ≡ rest
drop-past_nul [] rest = refl
drop-past_nul (c ∷ s) rest =
    let e : suc (length s) + 1 ≡ suc (length s + 1) = omega arith in rw e (drop-past_nul s rest)
