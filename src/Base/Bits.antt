-- ===== src/Base/Bits.antt =====
-- Facts about the bitwise operations that the program applies to bytes and to 32-bit words.
use Prim.Native.Nat.{max, min, digits, bit_or-bitwise, bit_and-bitwise}
use native.Mathlib.Nat.{pow-suc}
use golang_profiling.Base.{
  ℕ, zero, suc, ◌+◌, ◌*◌, ◌/◌, ◌%◌, ◌^◌, ◌≤◌, ◌<◌, bit_and, bit_or, ◌≡◌, refl, ap, arith, Bool,
  true, ◌&&◌, ◌==◌, ==_iff,
}

-- The count of digits may be any number that is large enough.
module _ (z : ℕ → ℕ) (f : ℕ → ℕ → ℕ) where
  digits-enough : (m n a b : ℕ) → a ≤ m → a ≤ n → digits z f m a b ≡ digits z f n a b
  digits-enough zero zero a b p q = refl
  digits-enough zero (suc n) zero b p q = refl
  digits-enough (suc m) zero zero b p q = refl
  digits-enough (suc m) (suc n) zero b p q = refl
  digits-enough zero n (suc a) b p q = absurd (omega arith)
  digits-enough (suc m) zero (suc a) b p q = absurd (omega arith)
  digits-enough (suc m) (suc n) (suc a) b p q =
      rw (digits-enough m n (suc a / 2) (b / 2) (omega arith) (omega arith))

zero-bit_or : (b : ℕ) → bit_or 0 b ≡ b
zero-bit_or b = bit_or-bitwise 0 b

bit_or_digit : (a b : ℕ) → bit_or a b ≡ bit_or (a / 2) (b / 2) * 2 + max (a % 2) (b % 2)
bit_or_digit zero b = omega (arith, zero-bit_or b, zero-bit_or (b / 2))
bit_or_digit (suc a) b = omega (
  arith,
  bit_or-bitwise (suc a) b,
  bit_or-bitwise (suc a / 2) (b / 2),
  digits-enough (λ d. d) max a (suc a / 2) (suc a / 2) (b / 2) (omega arith) (omega arith),
)

bit_and_digit : (a b : ℕ) → bit_and a b ≡ bit_and (a / 2) (b / 2) * 2 + min (a % 2) (b % 2)
bit_and_digit zero b = omega (arith, bit_and-bitwise 0 b, bit_and-bitwise 0 (b / 2))
bit_and_digit (suc a) b = omega (
  arith,
  bit_and-bitwise (suc a) b,
  bit_and-bitwise (suc a / 2) (b / 2),
  digits-enough (λ d. 0) min a (suc a / 2) (suc a / 2) (b / 2) (omega arith) (omega arith),
)

-- `r | q << k` is a sum where `r` has only `k` bits.
pub bit_or_high : (k r q : ℕ) → r < 2 ^ k → bit_or r (q * 2 ^ k) ≡ r + q * 2 ^ k
bit_or_high zero r q h =
    let e : r ≡ 0 = omega arith in rw e (omega (arith, zero-bit_or (q * 2 ^ 0)))
bit_or_high (suc k) r q h = omega (
  arith,
  pow-suc 2 k,
  ap (λ (t : ℕ). q * t) (pow-suc 2 k),
  bit_or_digit r (q * 2 ^ suc k),
  ap (λ (t : ℕ). bit_or (r / 2) t) half,
  bit_or_high k (r / 2) q (omega (arith, pow-suc 2 k)),
)
  where
    half : q * 2 ^ suc k / 2 ≡ q * 2 ^ k
    half = omega (arith, ap (λ (t : ℕ). q * t) (pow-suc 2 k))

bit_and-zero_enough : (n a : ℕ) → a ≤ n → bit_and a 0 ≡ 0
bit_and-zero_enough n zero h = refl
bit_and-zero_enough zero (suc a) h = absurd (omega arith)
bit_and-zero_enough (suc n) (suc a) h =
    omega (arith, bit_and_digit (suc a) 0, bit_and-zero_enough n (suc a / 2) (omega arith))

-- `d & 1`
pub bit_and-one : (d : ℕ) → bit_and d 1 ≡ d % 2
bit_and-one d = omega (arith, bit_and_digit d 1, bit_and-zero_enough (d / 2) (d / 2) (omega arith))

-- Facts about one byte, checked at each of its values.
every : ℕ → (ℕ → Bool) → Bool
every zero p = true
every (suc n) p = p n && every n p

every-at : (n : ℕ) (p : ℕ → Bool) (x : ℕ) → every n p ≡ true → x < n → p x ≡ true
unfolding every
every-at zero p x h lt = absurd (omega arith)
every-at (suc n) p x h lt = ground (arith, every-at n p x)

low_seven_table : every 256 (λ b. bit_and b 0x7f == b % 128) ≡ true
unfolding every
low_seven_table = refl

pub low_seven : (b : ℕ) → b < 256 → bit_and b 0x7f ≡ b % 128
low_seven b h = (==_iff _ _).0 (every-at 256 _ b low_seven_table h)

top_bit_table : every 256 (λ b. bit_and b 0x80 == b / 128 * 128) ≡ true
unfolding every
top_bit_table = refl

pub top_bit : (b : ℕ) → b < 256 → bit_and b 0x80 ≡ b / 128 * 128
top_bit b h = (==_iff _ _).0 (every-at 256 _ b top_bit_table h)
