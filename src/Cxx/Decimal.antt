-- ===== src/Cxx/Decimal.antt =====
-- Decimal text: std::to_string of a number, and the digits that stoi and sscanf's %d read back.
use nycu_csic30091_netw.Prelude.{ℕ, zero, suc, ◌+◌, ◌-◌, ◌*◌, ◌/◌, ◌%◌, ◌<◌, Bool, true, false}
use nycu_csic30091_netw.Prelude.{◌&&◌, ◌≡◌, refl, arith, ltb, leb, [], ◌∷◌, ◌++◌}
use nycu_csic30091_netw.Prelude.{
  Option, none, some, if◌then◌else◌, append-nil, length, ap, length-append,
}
use nycu_csic30091_netw.Prelude.Bytes.{Bytes, Free, codes}

unfoldable pub is_digit : ℕ → Bool
is_digit c = leb b'0' c && leb c b'9'

abbrev pub AllDigits : Bytes → Type 0
AllDigits [] = Unit {0}
AllDigits (c ∷ s) = (is_digit c ≡ true) × AllDigits s

-- `f` bounds the number of digits.
unfoldable pub digits : ℕ → ℕ → Bytes
digits zero n = []
digits (suc f) n = elim (ltb n 10) [
  | true ↦ (b'0' + n) ∷ []
  | false ↦ digits f (n / 10) ++ (b'0' + n % 10) ∷ []
]

unfoldable pub to_string : ℕ → Bytes
unfolding digits
to_string n = digits (suc n) n

-- The value of the digits at the front, on top of those read before.
unfoldable pub digits_value : ℕ → Bytes → ℕ
unfolding is_digit
digits_value acc [] = acc
digits_value acc (c ∷ s) = if is_digit c then digits_value (acc * 10 + (c - b'0')) s else acc

-- What a conversion reads: `none` where no digit stands at the front.
unfoldable pub read_number : Bytes → Option ℕ
unfolding digits_value
read_number [] = none
read_number (c ∷ s) = if is_digit c then some (digits_value 0 (c ∷ s)) else none

digit-is_digit : (d : ℕ) → d < 10 → is_digit (b'0' + d) ≡ true
unfolding is_digit
digit-is_digit d h = ground arith

AllDigits-append : (s t : Bytes) → AllDigits s → AllDigits t → AllDigits (s ++ t)
AllDigits-append [] t a b = b
AllDigits-append (c ∷ s) t a b = (a.0, AllDigits-append s t a.1 b)

digits-AllDigits : (f n : ℕ) → AllDigits (digits f n)
unfolding digits
digits-AllDigits zero n = tt
digits-AllDigits (suc f) n = ground (
  arith,
  digit-is_digit n,
  digit-is_digit (n % 10),
  AllDigits-append (digits f (n / 10)) ((b'0' + n % 10) ∷ []) (digits-AllDigits f (n / 10)),
)

-- A printed number holds digits only.
pub to_string-AllDigits : (n : ℕ) → AllDigits (to_string n)
unfolding to_string
to_string-AllDigits n = digits-AllDigits (suc n) n

AllDigits-Free : (d : ℕ) (s : Bytes) → is_digit d ≡ false → AllDigits s → Free d s
unfolding is_digit
AllDigits-Free d [] h a = tt
AllDigits-Free d (c ∷ s) h a = (ground arith, AllDigits-Free d s h a.1)

-- So it holds no separator.
pub to_string-Free : (d n : ℕ) → is_digit d ≡ false → Free d (to_string n)
to_string-Free d n h = AllDigits-Free d (to_string n) h (to_string-AllDigits n)

digits_value-append :
    (acc : ℕ) (s t : Bytes)
    → AllDigits s
    → digits_value acc (s ++ t) ≡ digits_value (digits_value acc s) t
unfolding digits_value
digits_value-append acc [] t a = refl
digits_value-append acc (c ∷ s) t a =
    ground (arith, digits_value-append (acc * 10 + (c - b'0')) s t)

digits_value-digit :
    (acc d : ℕ) (rest : Bytes)
    → d < 10
    → digits_value acc ((b'0' + d) ∷ rest) ≡ digits_value (acc * 10 + d) rest
unfolding digits_value
digits_value-digit acc d rest h = ground (arith, digit-is_digit d)

digits_value-stop :
    (acc d : ℕ) (rest : Bytes) → is_digit d ≡ false → digits_value acc (d ∷ rest) ≡ acc
unfolding digits_value
digits_value-stop acc d rest h = ground arith

digits_value-digits : (f n : ℕ) → n < f → digits_value 0 (digits f n) ≡ n
unfolding digits digits_value
digits_value-digits zero n h = absurd (omega arith)
digits_value-digits (suc f) n h = ground (
  arith,
  digit-is_digit n,
  digit-is_digit (n % 10),
  digits_value-append 0 (digits f (n / 10)) ((b'0' + n % 10) ∷ []) (digits-AllDigits f (n / 10)),
  digits_value-digits f (n / 10),
)

digits-ne-nil : (f n : ℕ) → n < f → 0 < length (digits f n)
unfolding digits
digits-ne-nil zero n h = absurd (omega arith)
digits-ne-nil (suc f) n h = ground (arith, length-append (digits f (n / 10)) ((b'0' + n % 10) ∷ []))

read_number-digits :
    (s rest : Bytes)
    → 0 < length s
    → AllDigits s
    → read_number (s ++ rest) ≡ some (digits_value 0 (s ++ rest))
unfolding read_number
read_number-digits [] rest h a = absurd (omega arith)
read_number-digits (c ∷ s) rest h a = ground arith

-- A printed number is read back, up to the first byte that is no digit.
pub read_number-to_string_append :
    (n d : ℕ) (rest : Bytes) → is_digit d ≡ false → read_number (to_string n ++ d ∷ rest) ≡ some n
unfolding to_string
read_number-to_string_append n d rest h =
    rw
      (read_number-digits (digits (suc n) n) (d ∷ rest) (digits-ne-nil (suc n) n (omega arith))
        (digits-AllDigits (suc n) n))
      (rw (digits_value-append 0 (digits (suc n) n) (d ∷ rest) (digits-AllDigits (suc n) n))
        (rw (digits_value-digits (suc n) n (omega arith)) (ap some (digits_value-stop n d rest h))))

pub read_number-to_string : (n : ℕ) → read_number (to_string n) ≡ some n
unfolding to_string
read_number-to_string n = rw (← append-nil (digits (suc n) n)) (
    rw
      (read_number-digits (digits (suc n) n) [] (digits-ne-nil (suc n) n (omega arith))
        (digits-AllDigits (suc n) n))
      (rw (append-nil (digits (suc n) n)) (ap some (digits_value-digits (suc n) n (omega arith)))))

to_string_sample : to_string 1405 ≡ codes "1405"
unfolding to_string
to_string_sample = refl

-- What stands behind the digits at the front.
unfoldable pub drop_digits : Bytes → Bytes
unfolding is_digit
drop_digits [] = []
drop_digits (c ∷ s) = if is_digit c then drop_digits s else c ∷ s

drop_digits-all :
    (s rest : Bytes) (d : ℕ)
    → AllDigits s
    → is_digit d ≡ false
    → drop_digits (s ++ d ∷ rest) ≡ d ∷ rest
unfolding drop_digits
drop_digits-all [] rest d a h = ground arith
drop_digits-all (c ∷ s) rest d a h = ground (arith, drop_digits-all s rest d a.1 h)

pub drop_digits-to_string :
    (n d : ℕ) (rest : Bytes) → is_digit d ≡ false → drop_digits (to_string n ++ d ∷ rest) ≡ d ∷ rest
drop_digits-to_string n d rest h = drop_digits-all (to_string n) rest d (to_string-AllDigits n) h

length-to_string : (n : ℕ) → 0 < length (to_string n)
unfolding to_string
length-to_string n = digits-ne-nil (suc n) n (omega arith)

-- A printed number has a first digit.
pub to_string-cons : (n : ℕ) → (c : ℕ) × (s : Bytes) × (to_string n ≡ c ∷ s) × (is_digit c ≡ true)
to_string-cons n = go (to_string n) refl (to_string-AllDigits n)
  where
    go :
        (t : Bytes)
        → to_string n ≡ t
        → AllDigits t
        → (c : ℕ) × (s : Bytes) × (to_string n ≡ c ∷ s) × (is_digit c ≡ true)
    go [] e a = absurd (omega (arith, ap length e, length-to_string n))
    go (c ∷ s) e a = (c, s, e, a.0)
