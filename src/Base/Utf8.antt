-- ===== src/Base/Utf8.antt =====
-- `String::from_utf8_lossy` and `String::from_utf8` of the standard library. A string is its UTF-8
-- bytes. The decoder reads the bytes once; each maximal ill-formed part becomes U+FFFD.
use golang_profiling.Base.{
  ℕ, zero, suc, ◌<◌, ◌≡◌, refl, ap, Bool, true, false, ◌&&◌, Option, none, some, [], ◌∷◌, ◌++◌,
  arith, ltb, leb, ◌==◌, if◌then◌else◌, All,
}
use golang_profiling.Base.Bytes.{Bytes}

-- Between characters, or inside one: the bytes of it so far, the range that the next byte must lie
-- in, and how many continuation bytes are wanted behind that one.
pub data Decoder : Type 0 where
  start : Decoder
  inside : Bytes → ℕ → ℕ → ℕ → Decoder

abbrev pub replacement : Bytes
replacement = 0xef ∷ 0xbf ∷ 0xbd ∷ []

in_range : ℕ → ℕ → ℕ → Bool
in_range lo hi b = leb lo b && leb b hi

-- A character's first byte: what it makes known, what is put out, and whether it is well formed.
pub first_byte : ℕ → Decoder × Bytes × Bool
unfolding in_range
first_byte b =
    if ltb b 0x80
    then (start, b ∷ [], true)
    else if in_range 0xc2 0xdf b
    then (inside (b ∷ []) 0x80 0xbf 0, [], true)
    else if b == 0xe0
    then (inside (b ∷ []) 0xa0 0xbf 1, [], true)
    else if b == 0xed
    then (inside (b ∷ []) 0x80 0x9f 1, [], true)
    else if in_range 0xe1 0xef b
    then (inside (b ∷ []) 0x80 0xbf 1, [], true)
    else if b == 0xf0
    then (inside (b ∷ []) 0x90 0xbf 2, [], true)
    else if in_range 0xf1 0xf3 b
    then (inside (b ∷ []) 0x80 0xbf 2, [], true)
    else if b == 0xf4
    then (inside (b ∷ []) 0x80 0x8f 2, [], true)
    else (start, replacement, false)

abbrev close : Bytes → ℕ → ℕ → Decoder × Bytes × Bool
close seen b zero = (start, seen ++ (b ∷ []), true)
close seen b (suc more) = (inside (seen ++ (b ∷ [])) 0x80 0xbf more, [], true)

abbrev broken : Decoder × Bytes × Bool → Decoder × Bytes × Bool
broken (d, out, good) = (d, replacement ++ out, false)

pub next_byte : Decoder → ℕ → Decoder × Bytes × Bool
unfolding first_byte
next_byte start b = first_byte b
next_byte (inside seen lo hi more) b =
    if in_range lo hi b then close seen b more else broken (first_byte b)

-- The whole text: the output, and whether no part of it was ill formed.
decode : Decoder → Bytes → Bytes × Bool
unfolding next_byte
decode start [] = ([], true)
decode (inside seen lo hi more) [] = (replacement, false)
decode d (b ∷ bs) =
    let (d', out, good) = next_byte d b in
    let (rest, fine) = decode d' bs in (out ++ rest, good && fine)

unfoldable pub from_utf8_lossy : Bytes → Bytes
unfolding decode
from_utf8_lossy bs = (decode start bs).0

-- `String::from_utf8(…).ok()`
unfoldable pub from_utf8 : Bytes → Option Bytes
unfolding decode
from_utf8 bs = if (decode start bs).1 then some bs else none

ascii_decode : (bs : Bytes) → All (λ b. b < 0x80) bs → decode start bs ≡ (bs, true)
unfolding decode
ascii_decode [] h = refl
ascii_decode (b ∷ bs) h = ground (arith, ascii_decode bs h.1)

-- ASCII text is kept as it is.
pub from_utf8_lossy_ascii : (bs : Bytes) → All (λ b. b < 0x80) bs → from_utf8_lossy bs ≡ bs
unfolding from_utf8_lossy
from_utf8_lossy_ascii bs h = ap (λ p. p.0) (ascii_decode bs h)

pub from_utf8_ascii : (bs : Bytes) → All (λ b. b < 0x80) bs → from_utf8 bs ≡ some bs
unfolding from_utf8
from_utf8_ascii bs h = rw (ascii_decode bs h)
