-- ===== src/Base/Words.antt =====
-- Machine arithmetic with its wrap-around: `usize` and `u64` have 64 bits, `u32` and `i32` 32. An
-- `i32` is its bit pattern.
use golang_profiling.Base.{ℕ, ◌+◌, ◌-◌, ◌*◌, ◌%◌, ◌^◌, ◌≤◌, ◌<◌, ◌≡◌, arith}
use golang_profiling.Base.Bytes.{u32_mod, u64_mod}

unfoldable pub add64 : ℕ → ℕ → ℕ
add64 a b = (a + b) % u64_mod

unfoldable pub mul64 : ℕ → ℕ → ℕ
mul64 a b = a * b % u64_mod

unfoldable pub sub64 : ℕ → ℕ → ℕ
sub64 a b = (a + (u64_mod - b)) % u64_mod

unfoldable pub add32 : ℕ → ℕ → ℕ
add32 a b = (a + b) % u32_mod

unfoldable pub mul32 : ℕ → ℕ → ℕ
mul32 a b = a * b % u32_mod

-- `x << s` on a `u32`: the release build takes the shift modulo 32.
unfoldable pub shl32 : ℕ → ℕ → ℕ
shl32 x s = x * 2 ^ (s % 32) % u32_mod

-- `!x` on a `u32`
unfoldable pub not32 : ℕ → ℕ
not32 x = u32_mod - 1 - x

pub add64_exact : (a b : ℕ) → a + b < u64_mod → add64 a b ≡ a + b
unfolding add64
add64_exact a b h = omega arith

pub mul64_exact : (a b : ℕ) → a * b < u64_mod → mul64 a b ≡ a * b
unfolding mul64
mul64_exact a b h = omega arith

pub sub64_exact : (a b : ℕ) → b ≤ a → a < u64_mod → sub64 a b ≡ a - b
unfolding sub64
sub64_exact a b h k = omega arith
