-- ===== src/Pclntab/Read/Strings.antt =====
-- `get_string` on a table of names that end in a zero byte.
use golang_profiling.Base.{
  ◌<◌, ◌≡◌, refl, some, [], ◌∷◌, ◌++◌, arith, length, length-append, drop-append, All,
}
use golang_profiling.Base.Bytes.{Bytes}
use golang_profiling.Base.Utf8.{from_utf8_lossy_ascii}
use golang_profiling.Pclntab.Read.{until_zero, get_string}

-- ASCII bytes other than 0.
abbrev pub IsName : Bytes → Type 0
IsName name = All (λ b. (0 < b) × (b < 0x80)) name

pub IsName-ascii : (name : Bytes) → IsName name → All (λ b. b < 0x80) name
IsName-ascii [] h = tt
IsName-ascii (b ∷ name) h = (h.0.1, IsName-ascii name h.1)

until_zero-append : (name back : Bytes) → IsName name → until_zero (name ++ (0 ∷ back)) ≡ some name
unfolding until_zero
until_zero-append [] back h = refl
until_zero-append (b ∷ name) back h = ground (arith, h.0, until_zero-append name back h.1)

-- `get_string` at the offset of a name of ASCII bytes other than 0, with a zero byte behind it,
-- returns this name, whatever stands before and after.
pub get_string-append :
    (front name back : Bytes)
    → IsName name
    → get_string (front ++ (name ++ (0 ∷ back))) (length front) ≡ name
unfolding get_string
get_string-append front name back h = ground (
  arith,
  length-append {0} front (name ++ (0 ∷ back)),
  length-append {0} name (0 ∷ back),
  drop-append front (name ++ (0 ∷ back)) (length front) refl,
  until_zero-append name back h,
  from_utf8_lossy_ascii name (IsName-ascii name h),
)
