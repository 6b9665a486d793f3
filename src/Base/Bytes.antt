-- ===== src/Base/Bytes.antt =====
-- Byte strings as lists of numbers below 256: little-endian words, zero-terminated strings, and the
-- conversions between machine integers, whose wrap-around is written out.
use mathlib.Core.Path.{refl, ◌≡◌}
use Prim.Native.Nat.{◌/◌, ◌%◌, ℕ, zero, suc, ◌+◌, ◌*◌, ◌^◌, ◌<◌}
use mathlib.Core.List.{◌++◌, List, [], ◌∷◌}
use native.Mathlib.Omega.{arith}
use native.Mathlib.Nat.{pow-suc}
use golang_profiling.Base.Tests.{ltb, if◌then◌else◌}
use golang_profiling.Base.Lists.{length, All}

abbrev pub Bytes : Type 0
Bytes = List ℕ

abbrev pub IsByte : ℕ → Type 0
IsByte b = b < 256

abbrev pub u32_mod : ℕ
u32_mod = 0x1_0000_0000

abbrev pub u64_mod : ℕ
u64_mod = 0x1_0000_0000_0000_0000

-- The little-endian number of the first `n` bytes; bytes that are not there count as 0, and every
-- caller has checked the length.
unfoldable pub from_le : ℕ → Bytes → ℕ
from_le zero bs = 0
from_le (suc n) [] = 0
from_le (suc n) (b ∷ bs) = b + 256 * from_le n bs

-- `i32 as usize` for the bit pattern `x` of an `i32`: sign extension.
unfoldable pub i32_as_usize : ℕ → ℕ
i32_as_usize x = if ltb x 0x8000_0000 then x else x + 0xffff_ffff_0000_0000

pub from_le-lt : (n : ℕ) (bs : Bytes) → All IsByte bs → from_le n bs < 256 ^ n
unfolding from_le
from_le-lt zero bs h = omega arith
from_le-lt (suc n) [] h = omega (arith, pow-suc 256 n, from_le-lt n [] h)
from_le-lt (suc n) (b ∷ bs) h = omega (arith, pow-suc 256 n, from_le-lt n bs h.1)

-- The `n` bytes of a number, lowest first.
unfoldable pub to_le : ℕ → ℕ → Bytes
to_le zero v = []
to_le (suc n) v = v % 256 ∷ to_le n (v / 256)

pub from_le-to_le : (n v : ℕ) (rest : Bytes) → v < 256 ^ n → from_le n (to_le n v ++ rest) ≡ v
unfolding from_le to_le
from_le-to_le zero v rest h = omega arith
from_le-to_le (suc n) v rest h =
    omega (arith, pow-suc 256 n, from_le-to_le n (v / 256) rest (omega (arith, pow-suc 256 n)))

pub length-to_le : (n v : ℕ) → length (to_le n v) ≡ n
unfolding to_le
length-to_le zero v = refl
length-to_le (suc n) v = omega (arith, length-to_le n (v / 256))
