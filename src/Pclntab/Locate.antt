-- ===== src/Pclntab/Locate.antt =====
-- `search_go_pclntab`: finding the table in a binary that has no section of its own for it.
pub mod Sound
use golang_profiling.Base.{
  ℕ, zero, suc, ◌+◌, ◌-◌, Bool, true, false, not, ◌&&◌, Option, none, some, [], ◌∷◌, ltb, leb, ◌==◌,
  if◌then◌else◌, length,
}
use golang_profiling.Base.Text.{begins_with}
use golang_profiling.Base.Bytes.{Bytes}
use golang_profiling.Base.Run.{Run, done, stuck, ◌>>=◌, slice_from}
use golang_profiling.Pclntab.Header.{header_size, go_magic_to_version, go_invalid}
use golang_profiling.Pclntab.Table.{read_word}
use text.Mathlib.Text.{◌==◌ as str_eq}
use Prim.Native.String.{String}

-- The first byte of the magic number differs by version and is left out.
unfoldable pub pclntab_header_signature : String → Bytes
pclntab_header_signature arch =
    let quantum =
      if str_eq arch "x86_64" then 0x1 else if str_eq arch "aarch64" then 0x4 else 0x1 in
    0xff ∷ 0xff ∷ 0xff ∷ 0x00 ∷ 0x00 ∷ quantum ∷ 0x08 ∷ []

-- `windows(signature.len()).position(|window| window == signature)`
unfoldable pub window_position : Bytes → Bytes → Option ℕ
window_position sig [] = none
window_position sig (b ∷ bs) =
    if begins_with sig (b ∷ bs)
    then some 0
    else elim (window_position sig bs) [ none ↦ none | some n ↦ some (suc n) ]

-- The test at a match: the number that begins one byte before it.
unfoldable pub magic_at : Bytes → ℕ → Run Bool
magic_at bs i =
    if leb 1 i && leb (i - 1 + 4) (length bs)
    then (do magic ← read_word 4 bs (i - 1); done (not (go_magic_to_version magic == go_invalid)))
    else done false

-- The `while` loop at index `i`. Offsets into a slice do not wrap: they are at most its length + 8.
unfoldable pub scan_loop : ℕ → Bytes → Bytes → ℕ → Run (Option Bytes)
scan_loop zero sig bs i = stuck
scan_loop (suc fuel) sig bs i =
    let again = λ (j : ℕ). scan_loop fuel sig bs j in
    if ltb i (length bs - header_size)
    then (do
      tail ← slice_from bs i
      elim (window_position sig tail) [
        | none ↦ done none
        | some n ↦ magic_at bs (i + n) >>= λ good. elim good [
          | true ↦ slice_from bs (i + n - 1) >>= λ r. done (some r)
          | false ↦ again (i + n + 8)
        ]
      ])
    else done none

-- The index grows by 8 in each round.
unfoldable pub search_go_pclntab : Bytes → String → Run (Option Bytes)
search_go_pclntab bs arch =
    if ltb (length bs) header_size
    then done none
    else scan_loop (length bs) (pclntab_header_signature arch) bs 1
