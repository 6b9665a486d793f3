-- ===== src/Examples/Units.antt =====
-- The unit tests of symbol_resolver.rs and golang_parser.rs, on the model.
use golang_profiling.Base.{ℕ, ◌+◌, ◌≡◌, refl, none, some, List, [], ◌∷◌, ◌++◌}
use golang_profiling.Base.Bytes.{Bytes}
use golang_profiling.Base.Words.{add64}
use golang_profiling.Base.Run.{done}
use golang_profiling.Base.Utf8.{from_utf8, from_utf8_lossy}
use golang_profiling.Base.Text.{
  hex, digits_loop, codes, begins_with, find, contains, replace, replace_loop,
}
use golang_profiling.Base.AddrMap.{lookup}
use golang_profiling.Base.Lines.{
  lines, lines_loop, strip_return, words_loop, split_whitespace, find_whitespace, whitespace_length,
  split_at, split_loop,
}
use golang_profiling.Base.Radix.{parse_hex, parse_u32, from_str_radix, digits_value, digit_value}
use golang_profiling.Resolver.FuncTable.{
  FuncInfo, find_function_by_pc, find_loop, next_begins, within_function,
}
use golang_profiling.Resolver.Names.{
  get_function_name, cached_name, string_at, before_zero, clean_go_function_name, replace_all,
  get_complete_function_info, describe_named, describe_function, get_file_path, get_line_number,
}
use golang_profiling.Resolver.Resolve.{
  resolve_nearby, nearby, SymbolResolver, resolve_pc, resolve_kernel, nearest_location,
  symbolize_with, resolve_symbol, resolve_tables, resolve_function, resolve_info,
}
use golang_profiling.Resolver.Load.{empty_resolver}
use golang_profiling.Runtime.Process.{
  empty_info, parse_goroutine_offsets, update_runtime_addresses, update_lines, update_line,
  relocate, start_address,
}
use golang_profiling.Runtime.Version.{
  numbered, version_in_lines, version_in_line, version_text, checked_version, is_valid_go_version,
  find_version_in_data,
}

abbrev function : ℕ → ℕ → FuncInfo
function entry name_off = record { entry = entry; name_off = name_off; file_off = 0; line = 0 }

abbrev string_table : Bytes
string_table = codes "main" ++ (0 ∷ (codes "test" ++ (0 ∷ [])))

-- test_get_function_name
first_name : get_function_name [] string_table (function 0x401100 0) ≡ some (codes "main")
unfolding get_function_name cached_name string_at before_zero from_utf8
first_name = refl

second_name : get_function_name [] string_table (function 0x401200 5) ≡ some (codes "test")
unfolding get_function_name cached_name string_at before_zero from_utf8
second_name = refl

name_outside : get_function_name [] string_table (function 0x401300 100) ≡ none
unfolding get_function_name cached_name string_at before_zero from_utf8
name_outside = refl

-- test_find_function_by_pc
abbrev table : List FuncInfo
table = function 0x401000 0 ∷ function 0x401100 5 ∷ function 0x401200 10 ∷ []

exact_match : find_function_by_pc table 0x401100 ≡ done (some (function 0x401100 5))
unfolding find_function_by_pc find_loop next_begins within_function add64
exact_match = refl

inside_match : find_function_by_pc table 0x401150 ≡ done (some (function 0x401100 5))
unfolding find_function_by_pc find_loop next_begins within_function add64
inside_match = refl

before_first : find_function_by_pc table 0x400500 ≡ done none
unfolding find_function_by_pc find_loop next_begins within_function add64
before_first = refl

after_last : find_function_by_pc table 0x401300 ≡ done (some (function 0x401200 10))
unfolding find_function_by_pc find_loop next_begins within_function add64
after_last = refl

-- test_resolve_pc
abbrev resolver : SymbolResolver
resolver = record empty_resolver {
  func_table = function 0x401100 0 ∷ [];
  string_table = codes "main" ++ (0 ∷ []);
}

resolved : resolve_pc resolver 0x401100 ≡ done (codes "main")
unfolding resolve_pc resolve_kernel nearest_location symbolize_with resolve_symbol resolve_tables
    resolve_function resolve_info get_complete_function_info describe_named describe_function
    get_file_path get_line_number clean_go_function_name replace_all replace replace_loop
    begins_with lookup get_function_name cached_name string_at before_zero from_utf8
    find_function_by_pc find_loop next_begins within_function add64
resolved = refl

unresolved : resolve_pc resolver 0x500000 ≡ done (codes "[unknown:0x500000]")
unfolding resolve_pc resolve_kernel nearest_location symbolize_with resolve_symbol resolve_tables
    resolve_function resolve_info get_complete_function_info describe_named describe_function
    get_file_path get_line_number clean_go_function_name replace_all replace replace_loop
    begins_with lookup get_function_name cached_name string_at before_zero from_utf8
    find_function_by_pc find_loop next_begins within_function add64 resolve_nearby nearby hex
    digits_loop
unresolved = refl

-- test_parse_goroutine_offsets
new_offsets :
    parse_goroutine_offsets (codes "go1.21.0") empty_info
    ≡ record empty_info { g_offset = 0x30; stack_base_offset = 0x10; stack_size_offset = 0x18 }
unfolding parse_goroutine_offsets begins_with
new_offsets = refl

old_offsets :
    parse_goroutine_offsets (codes "go1.15.0") empty_info
    ≡ record empty_info { g_offset = 0x30; stack_base_offset = 0x10; stack_size_offset = 0x18 }
unfolding parse_goroutine_offsets begins_with
old_offsets = refl

-- test_update_runtime_addresses: the heap and the path with `/go/` both move the address.
abbrev mappings : Bytes
mappings =
    codes "7f8b40000000-7f8b40001000 r-xp 00000000 08:01 123456 /usr/bin/test\n"
    ++ (codes "7f8b50000000-7f8b50001000 rw-p 00000000 00:00 0 [heap]\n"
        ++ codes "7f8b60000000-7f8b60001000 r-xp 00000000 08:01 789012 /go/bin/app\n")

moved_twice :
    update_runtime_addresses (some mappings) (record empty_info { func_tab_base = 0x1000 })
    ≡ some (record empty_info { func_tab_base = 0x1000 + 0x7f8b50000000 + 0x7f8b60000000 })
unfolding update_runtime_addresses update_lines update_line relocate start_address lines lines_loop
    strip_return from_utf8 contains find begins_with split_whitespace words_loop find_whitespace
    whitespace_length parse_hex from_str_radix digits_value digit_value add64
moved_twice = refl

-- test_find_version_in_data
version_found :
    find_version_in_data (codes "some data go1.21.0 more data") ≡ some (codes "go1.21.0")
unfolding find_version_in_data version_in_lines version_in_line version_text checked_version
    is_valid_go_version numbered lines lines_loop strip_return from_utf8_lossy contains find
    begins_with split_whitespace words_loop find_whitespace whitespace_length split_at split_loop
    parse_u32 from_str_radix digits_value digit_value
version_found = refl

other_version : find_version_in_data (codes "prefix go1.24.0 suffix") ≡ some (codes "go1.24.0")
unfolding find_version_in_data version_in_lines version_in_line version_text checked_version
    is_valid_go_version numbered lines lines_loop strip_return from_utf8_lossy contains find
    begins_with split_whitespace words_loop find_whitespace whitespace_length split_at split_loop
    parse_u32 from_str_radix digits_value digit_value
other_version = refl

no_version : find_version_in_data (codes "no version here") ≡ none
unfolding find_version_in_data version_in_lines version_in_line version_text checked_version
    is_valid_go_version numbered lines lines_loop strip_return from_utf8_lossy contains find
    begins_with split_whitespace words_loop find_whitespace whitespace_length split_at split_loop
    parse_u32 from_str_radix digits_value digit_value
no_version = refl

malformed_version : find_version_in_data (codes "go1.x.y invalid") ≡ none
unfolding find_version_in_data version_in_lines version_in_line version_text checked_version
    is_valid_go_version numbered lines lines_loop strip_return from_utf8_lossy contains find
    begins_with split_whitespace words_loop find_whitespace whitespace_length split_at split_loop
    parse_u32 from_str_radix digits_value digit_value
malformed_version = refl
