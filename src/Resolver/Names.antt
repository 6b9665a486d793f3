-- ===== src/Resolver/Names.antt =====
-- The names, files and lines of functions, and the clean-up of Go names.
pub mod Strings
use golang_profiling.Base.{
  ℕ, ◌-◌, min, Bool, ◌&&◌, ◌||◌, Option, none, some, List, [], ◌∷◌, ◌++◌, ltb, leb, ◌==◌,
  if◌then◌else◌, length, get_elem?, take, drop, is_empty,
}
use golang_profiling.Base.Bytes.{Bytes}
use golang_profiling.Base.AddrMap.{lookup}
use golang_profiling.Base.Run.{Run, done, panic, ◌>>=◌}
use golang_profiling.Base.Text.{codes, begins_with, replace, decimal}
use golang_profiling.Base.Utf8.{from_utf8}
use golang_profiling.Resolver.FuncTable.{FuncInfo}

-- The bytes up to the first zero or the end.
unfoldable pub before_zero : Bytes → Bytes
before_zero [] = []
before_zero (b ∷ bs) = if b == 0 then [] else b ∷ before_zero bs

-- `String::from_utf8(…).ok()` of such bytes, if there are any.
unfoldable pub string_at : Bytes → ℕ → Option Bytes
string_at table offset =
    if leb (length table) offset
    then none
    else let s = before_zero (drop offset table) in if is_empty s then none else from_utf8 s

-- `name_off` 1 marks a function whose name is in the cache.
unfoldable pub cached_name : List (ℕ × Bytes) → FuncInfo → Option Bytes
cached_name cache func = if func.name_off == 1 then lookup func.entry cache else none

unfoldable pub get_function_name : List (ℕ × Bytes) → Bytes → FuncInfo → Option Bytes
get_function_name cache table func = elim (cached_name cache func) [
  | some name ↦ some name
  | none ↦ string_at table func.name_off
]

unfoldable pub get_file_path : Bytes → FuncInfo → Option Bytes
get_file_path table func = if func.file_off == 0 then none else string_at table func.file_off

unfoldable pub get_line_number : FuncInfo → Option ℕ
get_line_number func = if ltb 0 func.line then some func.line else none

-- Whether a string may be cut before byte `i`: at its end, or where no continuation byte follows.
unfoldable pub is_char_boundary : Bytes → ℕ → Bool
is_char_boundary bs i = elim (get_elem? bs i) [
  | none ↦ length bs == i
  | some b ↦ ltb b 0x80 || leb 0xc0 b
]

-- `&cleaned[2..min(cleaned.len(), 10)]`
unfoldable pub hex_part : Bytes → Run Bytes
hex_part cleaned =
    let end = min (length cleaned) 10 in
    if is_char_boundary cleaned 2 && is_char_boundary cleaned end
    then done (take (end - 2) (drop 2 cleaned))
    else panic

-- The five replacements; `·` is U+00B7.
unfoldable pub replace_all : Bytes → Bytes
replace_all name = replace (codes ")") (codes ")") (
    replace (codes "(*") (codes "(") (
      replace (0xc2 ∷ 0xb7 ∷ []) (codes "::")
        (replace (codes ".func") (codes "::func") (replace (codes "runtime.") [] name))))

unfoldable pub clean_go_function_name : Bytes → Run Bytes
clean_go_function_name name =
    let cleaned = replace_all name in
    if begins_with (codes "0x") cleaned
    then (do part ← hex_part cleaned; done (codes "[unknown:" ++ (part ++ codes "]")))
    else done cleaned

-- `funcname /abs/path/file.go:123`
unfoldable pub describe_function : Bytes → Option Bytes → Option ℕ → Bytes
describe_function name (some file) (some line) =
    name ++ (codes " " ++ (file ++ (codes ":" ++ decimal line)))
describe_function name (some file) none = name ++ (codes " " ++ file)
describe_function name none line = name

unfoldable pub describe_named : Bytes → FuncInfo → Option Bytes → Run (Option Bytes)
describe_named table func none = done none
describe_named table func (some name) = do
  cleaned ← clean_go_function_name name
  done (some (describe_function cleaned (get_file_path table func) (get_line_number func)))

unfoldable pub get_complete_function_info : List (ℕ × Bytes) → Bytes → FuncInfo → Run (Option Bytes)
get_complete_function_info cache table func =
    describe_named table func (get_function_name cache table func)
