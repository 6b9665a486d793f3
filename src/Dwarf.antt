-- ===== src/Dwarf.antt =====
-- golang-profiling/src/dwarf_parser.rs: the source locations of addresses. What the library gimli
-- reads from the binary comes in as data: the rows of a line program and the attributes of a function.
pub mod Functions
pub mod Units
use golang_profiling.Base.{
  ℕ, zero, suc, ◌+◌, ◌-◌, ◌%◌, Bool, false, ◌&&◌, ◌||◌, Option, none, some, List, [], ◌∷◌, ◌++◌,
  ltb, leb, if◌then◌else◌,
}
use golang_profiling.Base.Bytes.{Bytes, u32_mod}
use golang_profiling.Base.Words.{add64}
use golang_profiling.Base.Text.{bytes_eq, ends_with}
use golang_profiling.Base.AddrMap.{lookup, insert, modify, closest}

pub record SourceLocation : Type 0 where
  pub file_path : Bytes
  pub line : ℕ
  pub column : ℕ
  pub function_name : Option Bytes

-- `function_ranges` is a `HashMap<String, Vec<(u64, u64)>>`.
pub record DwarfParser : Type 0 where
  pub address_to_location : List (ℕ × SourceLocation)
  pub function_ranges : List (Bytes × List (ℕ × ℕ))

abbrev pub new : DwarfParser
new = record { address_to_location = []; function_ranges = [] }

-- The file entry of a row: the directory and the name, where gimli finds them.
pub record FileEntry : Type 0 where
  pub directory : Option Bytes
  pub path_name : Option Bytes

-- A row of a line program. A line or column that is missing is `none`.
pub record LineRow : Type 0 where
  pub address : ℕ
  pub file : Option FileEntry
  pub line : Option ℕ
  pub column : Option ℕ

abbrev pub or_empty : Option Bytes → Bytes
or_empty none = []
or_empty (some s) = s

-- The directory, with a `/` behind it.
unfoldable pub directory_part : Option Bytes → Bytes
directory_part none = []
directory_part (some dir) = if ends_with b'/' dir then dir else dir ++ (b'/' ∷ [])

unfoldable pub get_file_path : FileEntry → Bytes
get_file_path file = directory_part file.directory ++ or_empty file.path_name

-- `as u32` of a number that may be missing.
abbrev pub as_u32 : Option ℕ → ℕ
as_u32 none = 0
as_u32 (some n) = n % u32_mod

unfoldable pub row_location : LineRow → FileEntry → SourceLocation
row_location row file = record {
  file_path = get_file_path file;
  line = as_u32 row.line;
  column = as_u32 row.column;
  function_name = none;
}

unfoldable pub parse_row : LineRow → Option FileEntry → DwarfParser → DwarfParser
parse_row row none p = p
parse_row row (some file) p = record p {
  address_to_location = insert row.address (row_location row file) p.address_to_location;
}

unfoldable pub parse_line_program : List LineRow → DwarfParser → DwarfParser
parse_line_program [] p = p
parse_line_program (row ∷ rows) p = parse_line_program rows (parse_row row row.file p)

-- The attributes of a function that the code looks at, in the order of the entry.
pub data Attribute : Type 0 where
  name : Bytes → Attribute
  low_pc : ℕ → Attribute
  high_pc_addr : ℕ → Attribute
  high_pc_offset : ℕ → Attribute
  ranges : List (ℕ × ℕ) → Attribute
  other : Attribute

pub record FunctionAttributes : Type 0 where
  pub function_name : Option Bytes
  pub low : Option ℕ
  pub high : Option ℕ
  pub range_list : Option (List (ℕ × ℕ))

abbrev pub no_attributes : FunctionAttributes
no_attributes = record { function_name = none; low = none; high = none; range_list = none }

-- An offset counts from `low_pc`, if that has been read before it.
unfoldable pub high_from : Option ℕ → ℕ → Option ℕ → Option ℕ
high_from none offset high = high
high_from (some low) offset high = some (add64 low offset)

unfoldable pub read_attribute : Attribute → FunctionAttributes → FunctionAttributes
read_attribute (name s) a = record a { function_name = some s }
read_attribute (low_pc addr) a = record a { low = some addr }
read_attribute (high_pc_addr addr) a = record a { high = some addr }
read_attribute (high_pc_offset offset) a = record a { high = high_from a.low offset a.high }
read_attribute (ranges rs) a = record a { range_list = some rs }
read_attribute other a = a

unfoldable pub read_attributes : List Attribute → FunctionAttributes → FunctionAttributes
read_attributes [] a = a
read_attributes (x ∷ xs) a = read_attributes xs (read_attribute x a)

abbrev pub or_no_ranges : Option (List (ℕ × ℕ)) → List (ℕ × ℕ)
or_no_ranges none = []
or_no_ranges (some rs) = rs

-- `low` and `high` together, or else the range list.
unfoldable pub ranges_of : Option ℕ → Option ℕ → Option (List (ℕ × ℕ)) → List (ℕ × ℕ)
ranges_of (some low) (some high) rs = (low, high) ∷ []
ranges_of (some low) none rs = or_no_ranges rs
ranges_of none high rs = or_no_ranges rs

unfoldable pub set_function_name : Bytes → SourceLocation → SourceLocation
set_function_name s location = record location { function_name = some s }

-- `for addr in start..end`: `count` addresses from `start` on.
unfoldable pub mark_range : Bytes → ℕ → ℕ → List (ℕ × SourceLocation) → List (ℕ × SourceLocation)
mark_range s start zero m = m
mark_range s start (suc count) m =
    mark_range s (start + 1) count (modify start (set_function_name s) m)

unfoldable pub mark_ranges :
    Bytes → List (ℕ × ℕ) → List (ℕ × SourceLocation) → List (ℕ × SourceLocation)
mark_ranges s [] m = m
mark_ranges s ((start, end) ∷ rs) m = mark_ranges s rs (mark_range s start (end - start) m)

unfoldable pub insert_ranges :
    Bytes → List (ℕ × ℕ) → List (Bytes × List (ℕ × ℕ)) → List (Bytes × List (ℕ × ℕ))
insert_ranges s rs [] = (s, rs) ∷ []
insert_ranges s rs ((t, old) ∷ m) =
    if bytes_eq t s then (s, rs) ∷ m else (t, old) ∷ insert_ranges s rs m

-- `self.function_ranges.get(function_name)`
unfoldable pub get_function_ranges : Bytes → List (Bytes × List (ℕ × ℕ)) → Option (List (ℕ × ℕ))
get_function_ranges s [] = none
get_function_ranges s ((t, rs) ∷ m) = if bytes_eq t s then some rs else get_function_ranges s m

-- The end of `parse_function_die`, for a function with a name.
unfoldable pub add_function : Option Bytes → List (ℕ × ℕ) → DwarfParser → DwarfParser
add_function none rs p = p
add_function (some s) [] p = p
add_function (some s) (r ∷ rs) p = record {
  address_to_location = mark_ranges s (r ∷ rs) p.address_to_location;
  function_ranges = insert_ranges s (r ∷ rs) p.function_ranges;
}

unfoldable pub parse_function_die : List Attribute → DwarfParser → DwarfParser
parse_function_die attrs p =
    let a = read_attributes attrs no_attributes in
    add_function a.function_name (ranges_of a.low a.high a.range_list) p

unfoldable pub get_location : DwarfParser → ℕ → Option SourceLocation
get_location p address = lookup address p.address_to_location

unfoldable pub get_nearest_location : DwarfParser → ℕ → Option SourceLocation
get_nearest_location p address = elim (lookup address p.address_to_location) [
  | some location ↦ some location
  | none ↦ (closest address p.address_to_location).1
]

-- Whether one of the ranges holds the address; each excludes its end.
unfoldable pub in_ranges : ℕ → List (ℕ × ℕ) → Bool
in_ranges address [] = false
in_ranges address ((start, end) ∷ rs) =
    (leb start address && ltb address end) || in_ranges address rs

unfoldable pub is_address_in_function : DwarfParser → ℕ → Bytes → Bool
is_address_in_function p address s = elim (get_function_ranges s p.function_ranges) [
  | none ↦ false
  | some rs ↦ in_ranges address rs
]
