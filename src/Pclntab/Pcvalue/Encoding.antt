-- ===== src/Pclntab/Pcvalue/Encoding.antt =====
-- The variable-length numbers of a pc-value table: an encoder, and `get_int` as its inverse.
use golang_profiling.Base.{
  ℕ, zero, suc, ◌+◌, ◌*◌, ◌/◌, ◌%◌, ◌^◌, ◌<◌, ◌≡◌, ap, [], ◌∷◌, ◌++◌, arith, ltb, if◌then◌else◌,
}
use golang_profiling.Base.Bytes.{Bytes, u32_mod}
use golang_profiling.Base.Bits.{low_seven, top_bit, bit_or_high}
use golang_profiling.Base.Words.{shl32, add32}
use golang_profiling.Pclntab.Pcvalue.{get_int_loop, get_int}
use native.Mathlib.Numerals.{towards_suc}
use native.Mathlib.Nat.{div-add-mod}

-- Groups of seven bits, lowest first; the top bit marks every byte but the last. `k` + 1 groups at most.
unfoldable pub encode_groups : ℕ → ℕ → Bytes
encode_groups zero v = v ∷ []
encode_groups (suc k) v =
    let more = encode_groups k (v / 128) in if ltb v 128 then v ∷ [] else (v % 128 + 128) ∷ more

-- A `u32` takes five groups at most.
unfoldable pub encode_int : ℕ → Bytes
unfolding encode_groups
encode_int v = encode_groups 4 v

pub two_pow-add_seven : (s : ℕ) → 2 ^ (s + 7) ≡ 128 * 2 ^ s
two_pow-add_seven s = simp towards_suc (omega arith)

shl32_exact : (g s : ℕ) → s < 32 → g * 2 ^ s < u32_mod → shl32 g s ≡ g * 2 ^ s
unfolding shl32
shl32_exact g s h k = let e : s % 32 ≡ s = omega arith in rw e (omega arith)

-- One round, on a byte that ends the number and on one that does not.
last_byte :
    (v acc s : ℕ) (rest : Bytes)
    → v < 128
    → acc < 2 ^ s
    → s < 32
    → acc + v * 2 ^ s < u32_mod
    → get_int_loop (v ∷ rest) acc s ≡ (acc + v * 2 ^ s, rest)
unfolding get_int_loop
last_byte v acc s rest hv ha hs fits =
    ground (arith, low_seven v, top_bit v, shl32_exact v s hs (omega arith), bit_or_high s acc v ha)

inner_byte :
    (g acc s : ℕ) (rest : Bytes)
    → g < 128
    → acc < 2 ^ s
    → s < 25
    → acc + g * 2 ^ s < u32_mod
    → get_int_loop ((g + 128) ∷ rest) acc s ≡ get_int_loop rest (acc + g * 2 ^ s) (s + 7)
unfolding get_int_loop add32
inner_byte g acc s rest hg ha hs fits = ground (
  arith,
  low_seven (g + 128),
  top_bit (g + 128),
  shl32_exact g s (omega arith) (omega arith),
  bit_or_high s acc g ha,
)

-- A number is its lowest group and the rest, both shifted by `s`.
split_group : (v s : ℕ) → v * 2 ^ s ≡ v % 128 * 2 ^ s + v / 128 * 2 ^ (s + 7)
split_group v s = omega (
  arith,
  ap (λ (t : ℕ). t * 2 ^ s) (div-add-mod v 128),
  ap (λ (t : ℕ). v / 128 * t) (two_pow-add_seven s),
)

group_fits : (g acc s : ℕ) → g < 128 → acc < 2 ^ s → acc + g * 2 ^ s < 2 ^ (s + 7)
group_fits g acc s hg ha = grind (arith, two_pow-add_seven s)

pub get_int_loop-encode_groups :
    (k v acc s : ℕ) (rest : Bytes)
    → v < 128 ^ suc k
    → acc < 2 ^ s
    → s + 7 * k < 32
    → acc + v * 2 ^ s < u32_mod
    → get_int_loop (encode_groups k v ++ rest) acc s ≡ (acc + v * 2 ^ s, rest)
unfolding encode_groups
get_int_loop-encode_groups zero v acc s rest hv ha hs fits =
    last_byte v acc s rest (omega arith) ha (omega arith) fits
get_int_loop-encode_groups (suc k) v acc s rest hv ha hs fits = ground (
  arith,
  last_byte v acc s rest,
  split_group v s,
  group_fits (v % 128) acc s (omega arith) ha,
  inner_byte (v % 128) acc s (encode_groups k (v / 128) ++ rest),
  get_int_loop-encode_groups k (v / 128) (acc + v % 128 * 2 ^ s) (s + 7) rest (omega (arith)),
)

-- `get_int` reads each `u32` in its variable-length encoding back, and leaves whatever follows it.
pub get_int-encode_int :
    (v : ℕ) (rest : Bytes) → v < u32_mod → get_int (encode_int v ++ rest) ≡ (v, rest)
unfolding get_int encode_int
get_int-encode_int v rest h =
    ground (arith, get_int_loop-encode_groups 4 v 0 0 rest (omega arith) (omega arith))
