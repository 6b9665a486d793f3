-- ===== src/Base/Text.antt =====
-- Strings as their UTF-8 bytes, with what the program uses of the standard library's `str`: equality,
-- search, `replace`, and the decimal and hexadecimal formats.
use golang_profiling.Base.{
  ℕ, zero, suc, ◌+◌, ◌-◌, ◌/◌, ◌%◌, ◌≡◌, refl, ap, inl, inr, Bool, true, false, ◌&&◌, Option, none,
  some, [], ◌∷◌, ◌++◌, arith, ltb, ◌==◌, if◌then◌else◌, Bool-cases, length, drop, is_empty,
}
use golang_profiling.Base.Bytes.{Bytes}
use Prim.Native.Char.{code}
use Prim.Native.String.{String}

-- The bytes of an ASCII literal.
abbrev pub codes : String → Bytes
codes String.[] = []
codes (String.◌∷◌ c s) = code c ∷ codes s

unfoldable pub bytes_eq : Bytes → Bytes → Bool
bytes_eq [] [] = true
bytes_eq [] (b ∷ t) = false
bytes_eq (a ∷ s) [] = false
bytes_eq (a ∷ s) (b ∷ t) = a == b && bytes_eq s t

pub bytes_eq_refl : (s : Bytes) → bytes_eq s s ≡ true
unfolding bytes_eq
bytes_eq_refl [] = refl
bytes_eq_refl (a ∷ s) = ground (arith, bytes_eq_refl s)

pub bytes_eq→eq : (s t : Bytes) → bytes_eq s t ≡ true → s ≡ t
unfolding bytes_eq
bytes_eq→eq [] [] h = refl
bytes_eq→eq [] (b ∷ t) h = cc
bytes_eq→eq (a ∷ s) [] h = cc
bytes_eq→eq (a ∷ s) (b ∷ t) h = ground (arith, bytes_eq→eq s t (ground arith))

-- `starts_with`, with the pattern first.
unfoldable pub begins_with : Bytes → Bytes → Bool
begins_with [] bs = true
begins_with (s ∷ sig) [] = false
begins_with (s ∷ sig) (b ∷ bs) = b == s && begins_with sig bs

-- What begins with a pattern is the pattern and the rest.
pub begins_with-split :
    (sig bs : Bytes) → begins_with sig bs ≡ true → bs ≡ sig ++ drop (length sig) bs
unfolding begins_with
begins_with-split [] bs h = refl
begins_with-split (s ∷ sig) [] h = cc
begins_with-split (s ∷ sig) (b ∷ bs) h = ground (arith, begins_with-split sig bs (ground arith))

-- `find` of a pattern.
unfoldable pub find : Bytes → Bytes → Option ℕ
find pat [] = if is_empty pat then some 0 else none
find pat (b ∷ bs) =
    if begins_with pat (b ∷ bs)
    then some 0
    else elim (find pat bs) [ none ↦ none | some n ↦ some (suc n) ]

abbrev pub is_some : Option ℕ → Bool
is_some none = false
is_some (some n) = true

unfoldable pub contains : Bytes → Bytes → Bool
contains pat bs = is_some (find pat bs)

-- `ends_with` of one byte.
unfoldable pub ends_with : ℕ → Bytes → Bool
ends_with c [] = false
ends_with c (b ∷ []) = b == c
ends_with c (b ∷ d ∷ bs) = ends_with c (d ∷ bs)

-- `replace`: each match, from the left, becomes `to`. `skip` bytes belong to the match before.
unfoldable pub replace_loop : Bytes → Bytes → ℕ → Bytes → Bytes
replace_loop from to skip [] = []
replace_loop from to (suc skip) (b ∷ bs) = replace_loop from to skip bs
replace_loop from to zero (b ∷ bs) =
    let hit = begins_with from (b ∷ bs) in
    let rest = replace_loop from to (if hit then length from - 1 else 0) bs in
    if hit then to ++ rest else b ∷ rest

unfoldable pub replace : Bytes → Bytes → Bytes → Bytes
replace from to bs = replace_loop from to 0 bs

-- A text in which the pattern does not occur is kept.
pub replace-absent : (from to bs : Bytes) → contains from bs ≡ false → replace from to bs ≡ bs
unfolding replace replace_loop contains find
replace-absent from to [] h = refl
replace-absent from to (b ∷ bs) h = elim (Bool-cases (begins_with from (b ∷ bs))) [
  | inl e ↦ absurd (ground arith)
  | inr e ↦ rw e (ap (λ t. b ∷ t) (replace-absent from to bs (ground arith)))
]

-- The digits of a number in base `base`, for enough fuel.
unfoldable pub digits_loop : ℕ → ℕ → ℕ → Bytes → Bytes
digits_loop zero base n acc = acc
digits_loop (suc fuel) base n acc =
    let d = n % base in
    let acc' = (if ltb d 10 then d + b'0' else d - 10 + b'a') ∷ acc in
    let more = digits_loop fuel base (n / base) acc' in if n / base == 0 then acc' else more

-- `{}` and `{:x}`; 64 rounds are enough for 64 bits in each base from 2 on.
unfoldable pub decimal : ℕ → Bytes
decimal n = digits_loop 64 10 n []

unfoldable pub hex : ℕ → Bytes
hex n = digits_loop 64 16 n []

decimal_run : decimal 90210 ≡ codes "90210"
unfolding decimal digits_loop
decimal_run = refl

hex_run : hex 0x500000 ≡ codes "500000"
unfolding hex digits_loop
hex_run = refl

replace_run : replace (codes "runtime.") [] (codes "runtime.mstart") ≡ codes "mstart"
unfolding replace replace_loop begins_with
replace_run = refl
