-- ===== src/Base/Radix/Decimal.antt =====
-- The format `{}` of a `u32`, read back by `parse`.
use golang_profiling.Base.{
  ℕ, zero, suc, ◌+◌, ◌-◌, ◌*◌, ◌/◌, ◌%◌, ◌^◌, ◌≤◌, ◌<◌, ◌≡◌, refl, ◌∙◌, inl, inr, true, false, some,
  [], ◌∷◌, arith, ltb, ◌==◌, if◌then◌else◌, Bool-cases, is_empty, All,
}
use native.Mathlib.Nat.{pow-suc}
use golang_profiling.Base.Bytes.{Bytes, u32_mod}
use golang_profiling.Base.Text.{digits_loop, decimal}
use golang_profiling.Base.Lines.Words.{IsWord}
use golang_profiling.Base.Radix.{digit_value, digits_value, from_str_radix, parse_u32}

-- The digits of the decimal system.
abbrev pub IsDigits : Bytes → Type 0
IsDigits s = All (λ b. (b'0' ≤ b) × (b ≤ b'9')) s

digits_loop-IsDigits :
    (fuel n : ℕ) (acc : Bytes) → IsDigits acc → IsDigits (digits_loop fuel 10 n acc)
unfolding digits_loop
digits_loop-IsDigits zero n acc h = h
digits_loop-IsDigits (suc fuel) n acc h =
    let d : IsDigits ((if ltb (n % 10) 10 then n % 10 + b'0' else n % 10 - 10 + b'a') ∷ acc) =
      ((ground arith), h) in
    elim (Bool-cases (n / 10 == 0)) [
      | inl e ↦ rw e d
      | inr e ↦ rw e (digits_loop-IsDigits fuel (n / 10) _ d)
    ]

pub decimal-IsDigits : (n : ℕ) → IsDigits (decimal n)
unfolding decimal
decimal-IsDigits n = digits_loop-IsDigits 64 n [] tt

-- The character of the last digit.
abbrev last_digit : ℕ → ℕ
last_digit n = if ltb (n % 10) 10 then n % 10 + b'0' else n % 10 - 10 + b'a'

digit_value-last_digit : (n : ℕ) → digit_value (last_digit n) ≡ n % 10
unfolding digit_value
digit_value-last_digit n = ground arith

digits_value-last_digit :
    (limit a n : ℕ) (acc : Bytes)
    → a ≡ n / 10
    → n < limit
    → digits_value 10 limit a (last_digit n ∷ acc) ≡ digits_value 10 limit n acc
unfolding digits_value
digits_value-last_digit limit a n acc e small =
    let whole : a * 10 + n % 10 ≡ n = omega (arith, e) in
    let low : ltb (n % 10) 10 ≡ true = ground arith in
    let fits : ltb n limit ≡ true = ground arith in
    rw (digit_value-last_digit n, whole, low, fits) refl

digits_value-digits_loop :
    (fuel n limit : ℕ) (acc : Bytes)
    → n < 10 ^ fuel
    → n < limit
    → 0 < fuel
    → digits_value 10 limit 0 (digits_loop fuel 10 n acc) ≡ digits_value 10 limit n acc
unfolding digits_loop digits_value
digits_value-digits_loop zero n limit acc h small pos = absurd (omega arith)
digits_value-digits_loop (suc fuel) n limit acc h small pos = elim (Bool-cases (n / 10 == 0)) [
  | inl e ↦ rw e (digits_value-last_digit limit 0 n acc (ground (arith, e)) small)
  | inr e ↦ rw e (
      digits_value-digits_loop fuel (n / 10) limit (last_digit n ∷ acc)
        (omega (arith, pow-suc 10 fuel)) (omega arith)
        (more fuel (n / 10) (ground (arith, e)) (omega (arith, pow-suc 10 fuel)))
      ∙ digits_value-last_digit limit (n / 10) n acc refl small)
]
  where
    more : (k m : ℕ) → 0 < m → m < 10 ^ k → 0 < k
    more zero m pos h = absurd (omega arith)
    more (suc k) m pos h = omega arith

digits_loop-keeps :
    (fuel n : ℕ) (acc : Bytes) → is_empty acc ≡ false → is_empty (digits_loop fuel 10 n acc) ≡ false
unfolding digits_loop
digits_loop-keeps zero n acc h = h
digits_loop-keeps (suc fuel) n acc h = elim (Bool-cases (n / 10 == 0)) [
  | inl e ↦ rw e refl
  | inr e ↦ rw e (digits_loop-keeps fuel (n / 10) _ refl)
]

digits_loop-full :
    (fuel n : ℕ) (acc : Bytes) → 0 < fuel → is_empty (digits_loop fuel 10 n acc) ≡ false
unfolding digits_loop
digits_loop-full zero n acc pos = absurd (omega arith)
digits_loop-full (suc fuel) n acc pos = elim (Bool-cases (n / 10 == 0)) [
  | inl e ↦ rw e refl
  | inr e ↦ rw e (digits_loop-keeps fuel (n / 10) _ refl)
]

pub decimal_full : (n : ℕ) → is_empty (decimal n) ≡ false
unfolding decimal
decimal_full n = digits_loop-full 64 n [] (omega arith)

pub IsDigits-IsWord : (s : Bytes) → IsDigits s → IsWord s
IsDigits-IsWord [] h = tt
IsDigits-IsWord (b ∷ s) h = ((omega (arith, h.0), omega (arith, h.0)), IsDigits-IsWord s h.1)

from_str_radix-IsDigits :
    (base limit : ℕ) (s : Bytes)
    → IsDigits s
    → is_empty s ≡ false
    → from_str_radix base limit s ≡ digits_value base limit 0 s
unfolding from_str_radix
from_str_radix-IsDigits base limit [] h e = cc
from_str_radix-IsDigits base limit (b ∷ s) h e = ground (arith, h.0)

pub parse_u32-decimal : (n : ℕ) → n < u32_mod → parse_u32 (decimal n) ≡ some n
unfolding parse_u32 decimal digits_value
parse_u32-decimal n h =
    from_str_radix-IsDigits 10 u32_mod (decimal n) (decimal-IsDigits n) (decimal_full n)
    ∙ digits_value-digits_loop 64 n u32_mod [] (omega arith) h (omega arith)
