-- ===== src/Runtime/Version.antt =====
-- The version of Go: `is_valid_go_version`, `find_version_in_data`, `extract_build_info_version` and
-- `extract_go_version`.
pub mod Sound
pub mod Found
use golang_profiling.Base.{
  Bool, true, false, not, ◌&&◌, Option, none, some, List, [], ◌∷◌, leb, if◌then◌else◌, length, take,
  drop,
}
use golang_profiling.Base.Bytes.{Bytes}
use golang_profiling.Base.Text.{codes, begins_with, find, contains}
use golang_profiling.Base.Utf8.{from_utf8_lossy}
use golang_profiling.Base.Lines.{lines, find_whitespace, split_at}
use golang_profiling.Base.Radix.{parse_u32}
use golang_profiling.ObjectFile.{Section, ObjectFile}

-- `parse::<u32>().is_ok()`
abbrev pub is_number : Bytes → Bool
is_number part = elim (parse_u32 part) [ none ↦ false | some n ↦ true ]

-- Two parts at least, and the first two of them numbers.
unfoldable pub numbered : List Bytes → Bool
numbered [] = false
numbered (major ∷ []) = false
numbered (major ∷ (minor ∷ more)) = is_number major && is_number minor

unfoldable pub is_valid_go_version : Bytes → Bool
is_valid_go_version version =
    if not (begins_with (codes "go1.") version)
    then false
    else numbered (split_at b'.' (drop 4 version))

-- Up to white space; a part without any is taken whole if it is short, and skipped otherwise.
unfoldable pub version_text : Bytes → Option Bytes
version_text part = elim (find_whitespace part) [
  | some end ↦ some (take end part)
  | none ↦ if leb (length part) 10 then some part else none
]

unfoldable pub checked_version : Option Bytes → Option Bytes
checked_version none = none
checked_version (some version) = if is_valid_go_version version then some version else none

unfoldable pub version_in_line : Bytes → Option Bytes
version_in_line line = elim (find (codes "go1.") line) [
  | none ↦ none
  | some start ↦ checked_version (version_text (drop start line))
]

abbrev pub first_version : Option Bytes → Option Bytes → Option Bytes
first_version none other = other
first_version (some version) other = some version

unfoldable pub version_in_lines : List Bytes → Option Bytes
version_in_lines [] = none
version_in_lines (line ∷ ls) =
    first_version (if contains (codes "go1.") line then version_in_line line else none)
      (version_in_lines ls)

unfoldable pub find_version_in_data : Bytes → Option Bytes
find_version_in_data bs = version_in_lines (lines (from_utf8_lossy bs))

-- The lossy text is read as bytes again.
unfoldable pub extract_build_info_version : ObjectFile → Option Bytes
extract_build_info_version obj = elim (obj.section_by_name (codes ".go.buildinfo")) [
  | none ↦ none
  | some section ↦ elim section.contents [
    | none ↦ none
    | some bs ↦
        if leb 32 (length bs) then find_version_in_data (from_utf8_lossy (drop 16 bs)) else none
  ]
]

abbrev pub version_in_section : Section → Option Bytes
version_in_section s = elim s.contents [ none ↦ none | some bs ↦ find_version_in_data bs ]

unfoldable pub version_in_sections : List Section → Option Bytes
version_in_sections [] = none
version_in_sections (s ∷ ss) = first_version (version_in_section s) (version_in_sections ss)

-- There is always an answer.
unfoldable pub extract_go_version : ObjectFile → Option Bytes
extract_go_version obj =
    first_version (version_in_sections obj.sections)
      (first_version (extract_build_info_version obj) (some (codes "go1.21")))
