-- ===== src/Cxx/Numbers.antt =====
-- `iss >> n` for an int that is not negative. Values beyond INT_MAX do not arise in the program.
use nycu_csic30091_netw.Prelude.{ℕ, true, false, Option, some, ◌∷◌, ◌++◌}
use nycu_csic30091_netw.Prelude.{◌≡◌, refl, arith, ◌>>=◌}
use nycu_csic30091_netw.Prelude.Bytes.{Bytes}
use nycu_csic30091_netw.Cxx.Decimal.{to_string, read_number, drop_digits, is_digit, to_string-cons}
use nycu_csic30091_netw.Cxx.Decimal.{drop_digits-to_string, read_number-to_string_append}
use nycu_csic30091_netw.Cxx.Stream.{skip_ws, skip_ws-word, is_space}

-- `lineIss >> n`
unfoldable pub read_int : Bytes → Option (ℕ × Bytes)
read_int s = do n ← read_number (skip_ws s); some (n, drop_digits (skip_ws s))

digit-no_space : (c : ℕ) → is_digit c ≡ true → is_space c ≡ false
unfolding is_digit is_space
digit-no_space c h = ground arith

pub skip_ws-to_string : (n : ℕ) (rest : Bytes) → skip_ws (to_string n ++ rest) ≡ to_string n ++ rest
skip_ws-to_string n rest =
    let (c, s, e, d) = to_string-cons n in rw e (skip_ws-word c (s ++ rest) (digit-no_space c d))

-- A printed number with a space behind it is read back.
pub read_int-to_string :
    (n : ℕ) (rest : Bytes) → read_int (to_string n ++ 32 ∷ rest) ≡ some (n, 32 ∷ rest)
unfolding read_int
read_int-to_string n rest = rw (skip_ws-to_string n (32 ∷ rest)) (
    rw (read_number-to_string_append n 32 rest (unfold is_digit in refl))
      (rw (drop_digits-to_string n 32 rest (unfold is_digit in refl))))

pub read_int-space : (s : Bytes) → read_int (32 ∷ s) ≡ read_int s
unfolding read_int skip_ws
read_int-space s = refl
