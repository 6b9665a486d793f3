-- ===== src/Base/Radix.antt =====
-- `from_str_radix` and `parse` for unsigned integers, and the format `{:016x}`.
pub mod Decimal
use golang_profiling.Base.{
  ℕ, zero, suc, ◌+◌, ◌-◌, ◌*◌, ◌/◌, ◌%◌, ◌^◌, ◌<◌, ◌≡◌, refl, sym, ap, ◌∙◌, ◌≢◌, ◌&&◌, Option, none,
  some, [], ◌∷◌, ◌++◌, arith, ltb, leb, ◌==◌, if◌then◌else◌, is_empty,
}
use native.Mathlib.Nat.{pow-suc}
use golang_profiling.Base.Bytes.{Bytes, u32_mod, u64_mod}

-- A digit's value, of either case.
unfoldable pub digit_value : ℕ → ℕ
digit_value b =
    if leb b'0' b && leb b b'9'
    then b - b'0'
    else if leb b'a' b && leb b b'z'
    then b - b'a' + 10
    else if leb b'A' b && leb b b'Z'
    then b - b'A' + 10
    else 36

-- The digits behind a number that has been read, below `limit`.
unfoldable pub digits_value : ℕ → ℕ → ℕ → Bytes → Option ℕ
digits_value base limit acc [] = some acc
digits_value base limit acc (b ∷ bs) =
    let d = digit_value b in
    let v = acc * base + d in
    let rest = digits_value base limit v bs in if ltb d base && ltb v limit then rest else none

-- One leading `+` is allowed; there must be a digit.
unfoldable pub from_str_radix : ℕ → ℕ → Bytes → Option ℕ
from_str_radix base limit [] = none
from_str_radix base limit (b ∷ bs) =
    if b == b'+'
    then (if is_empty bs then none else digits_value base limit 0 bs)
    else digits_value base limit 0 (b ∷ bs)

-- `u64::from_str_radix(s, 16)`
unfoldable pub parse_hex : Bytes → Option ℕ
parse_hex s = from_str_radix 16 u64_mod s

-- `parse::<u32>()`
unfoldable pub parse_u32 : Bytes → Option ℕ
parse_u32 s = from_str_radix 10 u32_mod s

unfoldable pub hex_digit : ℕ → ℕ
hex_digit d = if ltb d 10 then d + b'0' else d - 10 + b'a'

-- The last `k` hexadecimal digits.
unfoldable pub hex_fixed : ℕ → ℕ → Bytes
hex_fixed zero n = []
hex_fixed (suc k) n = hex_fixed k (n / 16) ++ (hex_digit (n % 16) ∷ [])

-- `{:016x}` of a `u64`
unfoldable pub hex16 : ℕ → Bytes
hex16 n = hex_fixed 16 n

digits_value-append :
    (base limit acc v : ℕ) (s t : Bytes)
    → digits_value base limit acc s ≡ some v
    → digits_value base limit acc (s ++ t) ≡ digits_value base limit v t
unfolding digits_value
digits_value-append base limit acc v [] t h = ground arith
digits_value-append base limit acc v (b ∷ s) t h =
    ground (arith, digits_value-append base limit (acc * base + digit_value b) v s t)

digit_value-hex_digit : (d : ℕ) → d < 16 → digit_value (hex_digit d) ≡ d
unfolding digit_value hex_digit
digit_value-hex_digit d h = ground arith

digits_value-hex_fixed :
    (k n limit : ℕ) → n < 16 ^ k → n < limit → digits_value 16 limit 0 (hex_fixed k n) ≡ some n
unfolding hex_fixed digits_value
digits_value-hex_fixed zero n limit h small = ap some (let z : 0 ≡ n = omega arith in z)
digits_value-hex_fixed (suc k) n limit h small =
    digits_value-append 16 limit 0 (n / 16) (hex_fixed k (n / 16)) (hex_digit (n % 16) ∷ [])
      (digits_value-hex_fixed k (n / 16) limit (omega (arith, pow-suc 16 k)) (omega arith))
    ∙ ground (arith, digit_value-hex_digit (n % 16) (omega arith))

hex_fixed-cons :
    (k n : ℕ) → (m : ℕ) × (rest : Bytes) × (m < 16) × (hex_fixed (suc k) n ≡ hex_digit m ∷ rest)
unfolding hex_fixed
hex_fixed-cons zero n = (n % 16, [], omega arith, refl)
hex_fixed-cons (suc k) n =
    let (m, rest, small, e) = hex_fixed-cons k (n / 16) in
    (m, rest ++ (hex_digit (n % 16) ∷ []), small, ap (λ t. t ++ (hex_digit (n % 16) ∷ [])) e)

-- A sign is no digit.
from_str_radix-digits :
    (base limit b : ℕ) (bs : Bytes)
    → b ≢ b'+'
    → from_str_radix base limit (b ∷ bs) ≡ digits_value base limit 0 (b ∷ bs)
unfolding from_str_radix
from_str_radix-digits base limit b bs h = ground arith

-- Any number of digits is read back.
pub parse_hex-hex_fixed :
    (k n : ℕ) → n < 16 ^ suc k → n < u64_mod → parse_hex (hex_fixed (suc k) n) ≡ some n
unfolding parse_hex
parse_hex-hex_fixed k n wide h =
    let (m, rest, small, e) = hex_fixed-cons k n in
    rw e (from_str_radix-digits 16 u64_mod (hex_digit m) rest (unfold hex_digit in ground arith))
    ∙ ap (digits_value 16 u64_mod 0) (sym e)
    ∙ digits_value-hex_fixed (suc k) n u64_mod wide h

-- The padded format is read back.
pub parse_hex-hex16 : (n : ℕ) → n < u64_mod → parse_hex (hex16 n) ≡ some n
unfolding hex16
parse_hex-hex16 n h = parse_hex-hex_fixed 15 n (omega (arith, h)) h
