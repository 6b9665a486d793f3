-- ===== src/Pclntab/Read.antt =====
-- The helpers of elfgopclntab.rs that read the section's bytes: `get_int32` and `get_string`.
pub mod Strings
use golang_profiling.Base.{
  ℕ, ◌+◌, Option, none, some, [], ◌∷◌, leb, ◌==◌, if◌then◌else◌, length, drop,
}
use golang_profiling.Base.Bytes.{Bytes, from_le}
use golang_profiling.Base.Words.{add64}
use golang_profiling.Base.Run.{Run, done, panic}
use golang_profiling.Base.Utf8.{from_utf8_lossy}

-- The four reads `data[offset]`, …, `data[offset + 3]` panic if the last lies outside, which the test
-- rules out unless `offset + 4` wraps around.
unfoldable pub get_int32 : Bytes → ℕ → Run (Option ℕ)
get_int32 bs offset =
    if leb (add64 offset 4) (length bs)
    then if leb (offset + 4) (length bs) then done (some (from_le 4 (drop offset bs))) else panic
    else done none

-- The bytes before the first zero, if there is one: `slice.iter().position(|&b| b == 0)`.
unfoldable pub until_zero : Bytes → Option Bytes
until_zero [] = none
until_zero (b ∷ bs) =
    if b == 0 then some [] else elim (until_zero bs) [ none ↦ none | some s ↦ some (b ∷ s) ]

unfoldable pub get_string : Bytes → ℕ → Bytes
get_string bs offset =
    if leb (length bs) offset
    then []
    else elim (until_zero (drop offset bs)) [ none ↦ [] | some s ↦ from_utf8_lossy s ]
