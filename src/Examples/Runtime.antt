-- ===== src/Examples/Runtime.antt =====
-- The Go runtime of a small process.
use golang_profiling.Base.{
  ℕ, ◌+◌, ◌≤◌, ◌≡◌, refl, ap, ◌∙◌, ◌⊎◌, Bool, true, false, ◌&&◌, none, some, List, [], ◌∷◌, ◌++◌,
  arith, leb, All,
}
use golang_profiling.Base.Bytes.{Bytes}
use golang_profiling.Base.Text.{codes, begins_with, find, contains}
use golang_profiling.Base.Utf8.{from_utf8_ascii, from_utf8_lossy_ascii}
use golang_profiling.Base.Lines.{
  lines, lines_loop, strip_return, find_whitespace, whitespace_length, split_at, split_loop,
}
use golang_profiling.Base.Lines.Words.{below, word, all_below, all_visible}
use golang_profiling.Base.Radix.{parse_u32, from_str_radix, digits_value, digit_value}
use golang_profiling.ObjectFile.{ObjectFile}
use golang_profiling.Runtime.Version.{
  numbered, version_in_lines, version_in_line, version_text, checked_version, version_in_sections,
  is_valid_go_version, find_version_in_data, extract_go_version,
}
use golang_profiling.Runtime.Version.Sound.{IsGoVersion, extract_go_version-IsGoVersion}
use golang_profiling.Runtime.Version.Found.{text_of, find_version_in_data-text_of}
use golang_profiling.Runtime.Process.{parse_process}
use golang_profiling.Runtime.Process.Info.{in_32_bytes}
use golang_profiling.Runtime.Process.Mappings.{
  Mapping, IsMapping, address_range, mapping_line, print_mappings, sum_addresses,
  parse_process-print_mappings,
}
use golang_profiling.Base.Radix.{hex_fixed, hex_digit}

abbrev binary : ObjectFile
binary = record {
  section_by_name = λ name. some (record { address = 0x1000; size = 64; contents = none });
  sections =
      record { address = 0; size = 4; contents = none }
      ∷ record { address = 0x2000; size = 16; contents = some (codes "x go1.21.0 y") }
      ∷ [];
  symbols = [];
}

two_parts : is_valid_go_version (codes "go1.21") ≡ false
unfolding is_valid_go_version begins_with numbered split_at split_loop
two_parts = refl

three_parts : is_valid_go_version (codes "go1.21.0") ≡ true
unfolding is_valid_go_version begins_with numbered split_at split_loop parse_u32 from_str_radix
    digits_value digit_value
three_parts = refl

extract_go_version-IsGoVersion_example :
    (v : Bytes) × (extract_go_version binary ≡ some v) × (IsGoVersion v ⊎ (v ≡ codes "go1.21"))
extract_go_version-IsGoVersion_example = extract_go_version-IsGoVersion binary

find_version_in_data-text_of_example :
    find_version_in_data (
      text_of
        (codes "path" ∷ [])
        ((codes "x " ++ (codes "go1.21.0" ++ (32 ∷ codes "y"))) ++ (10 ∷ codes "z")))
    ≡ some (codes "go1.21.0")
unfolding text_of contains find begins_with all_below all_visible
find_version_in_data-text_of_example =
    find_version_in_data-text_of (codes "path" ∷ []) (codes "x ") (codes "go1.21.0") (codes "y")
      (codes "z")
      (below 128 (codes "path" ++ (10 ∷ (codes "x go1.21.0 y" ++ (10 ∷ codes "z")))) refl)
      (((omega arith, (omega arith, (omega arith, (omega arith, tt)))), refl), tt)
      (omega arith, (omega arith, tt)) (omega arith, (omega arith, tt))
      (word (codes "go1.21.0") refl) three_parts (omega arith, tt)

abbrev all_above : ℕ → Bytes → Bool
all_above n [] = true
all_above n (b ∷ s) = leb n b && all_above n s

text_line : (s : Bytes) → all_above 32 s ≡ true → All (λ b. 32 ≤ b) s
text_line [] e = tt
text_line (b ∷ s) e = (ground arith, text_line s (ground arith))

section_data : find_version_in_data (codes "x go1.21.0 y") ≡ some (codes "go1.21.0")
unfolding find_version_in_data lines lines_loop strip_return version_in_lines version_in_line
    version_text checked_version contains find begins_with find_whitespace whitespace_length
    all_below
section_data =
    ap (λ t. version_in_lines (lines t))
      (from_utf8_lossy_ascii (codes "x go1.21.0 y") (below 128 (codes "x go1.21.0 y") refl))
    ∙ rw three_parts refl

section_version : extract_go_version binary ≡ some (codes "go1.21.0")
unfolding extract_go_version version_in_sections
section_version = rw section_data refl

-- The heap, the Go program and a library.
abbrev heap : Mapping
heap = record { digits = 7; start = 0x50; end = 0x60; rest = codes "rw-p 00:00 0 [heap]" }

abbrev go_path : Mapping
go_path = record {
  digits = 11;
  start = 0x7f00_0000_0070;
  end = 0x7f00_0000_0080;
  rest = codes "r-xp /go/a";
}

abbrev library : Mapping
library = record { digits = 7; start = 0x90; end = 0x91; rest = codes "r--p /lib/c" }

heap-IsMapping : IsMapping heap
unfolding mapping_line address_range hex_fixed hex_digit all_below all_visible
heap-IsMapping = (
  omega arith,
  omega arith,
  text_line heap.rest refl,
  from_utf8_ascii (mapping_line heap) (below 128 (mapping_line heap) refl),
)

go_path-IsMapping : IsMapping go_path
unfolding mapping_line address_range hex_fixed hex_digit all_below
go_path-IsMapping = (
  omega arith,
  omega arith,
  text_line go_path.rest refl,
  from_utf8_ascii (mapping_line go_path) (below 128 (mapping_line go_path) refl),
)

library-IsMapping : IsMapping library
unfolding mapping_line address_range hex_fixed hex_digit all_below
library-IsMapping = (
  omega arith,
  omega arith,
  text_line library.rest refl,
  from_utf8_ascii (mapping_line library) (below 128 (mapping_line library) refl),
)

abbrev maps : List Mapping
maps = heap ∷ go_path ∷ library ∷ []

moved_by : sum_addresses maps ≡ 0x7f00_0000_00c0
unfolding sum_addresses mapping_line address_range hex_fixed hex_digit contains find begins_with
moved_by = refl

parse_process-print_mappings_example :
    parse_process (some binary) (some (print_mappings maps))
    ≡ some (record {
      version = in_32_bytes (codes "go1.21.0");
      g_offset = 0x30;
      stack_base_offset = 0x10;
      stack_size_offset = 0x18;
      func_tab_base = 0x1000 + sum_addresses maps;
      func_tab_size = 64;
      pc_quantum = 1;
    })
parse_process-print_mappings_example =
    parse_process-print_mappings binary (record { address = 0x1000; size = 64; contents = none })
      maps (codes "go1.21.0") section_version refl
      (heap-IsMapping, (go_path-IsMapping, (library-IsMapping, tt))) (omega (arith, moved_by))
