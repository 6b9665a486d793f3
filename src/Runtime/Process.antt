-- ===== src/Runtime/Process.antt =====
-- `GoRuntimeParser::parse_process`, with the function table, the offsets and the addresses.
pub mod Info
pub mod Mappings
use golang_profiling.Base.{
  ℕ, zero, suc, min, ◌||◌, Option, none, some, List, [], ◌∷◌, ◌++◌, ◌==◌, if◌then◌else◌, length,
  take, drop,
}
use golang_profiling.Base.Bytes.{Bytes}
use golang_profiling.Base.Words.{add64}
use golang_profiling.Base.Text.{codes, begins_with, find, contains, bytes_eq}
use golang_profiling.Base.Utf8.{from_utf8}
use golang_profiling.Base.Lines.{lines, split_whitespace}
use golang_profiling.Base.Radix.{parse_hex}
use golang_profiling.ObjectFile.{Section, ObjectSymbol, ObjectFile}
use golang_profiling.Runtime.Version.{extract_go_version}

pub record GoRuntimeInfo : Type 0 where
  pub version : Bytes
  pub g_offset : ℕ
  pub stack_base_offset : ℕ
  pub stack_size_offset : ℕ
  pub func_tab_base : ℕ
  pub func_tab_size : ℕ
  pub pc_quantum : ℕ

unfoldable pub zeros : ℕ → Bytes
zeros zero = []
zeros (suc n) = 0 ∷ zeros n

abbrev pub empty_info : GoRuntimeInfo
empty_info = record {
  version = zeros 32;
  g_offset = 0;
  stack_base_offset = 0;
  stack_size_offset = 0;
  func_tab_base = 0;
  func_tab_size = 0;
  pc_quantum = 1;
}

-- `version[..copy_len].copy_from_slice(…)`, 31 bytes at most.
unfoldable pub copy_version : Bytes → Bytes → Bytes
copy_version text version = let n = min (length text) 31 in take n text ++ drop n version

unfoldable pub set_version : Option Bytes → GoRuntimeInfo → GoRuntimeInfo
set_version none info = info
set_version (some text) info = record info { version = copy_version text info.version }

unfoldable pub find_pclntab_symbol : List ObjectSymbol → Option (ℕ × ℕ)
find_pclntab_symbol [] = none
find_pclntab_symbol (s ∷ symbols) =
    let rest = find_pclntab_symbol symbols in
    elim s.name [
      | none ↦ rest
      | some name ↦
          if bytes_eq name (codes "runtime.pclntab") || contains (codes "pclntab") name
          then some (s.address, s.size)
          else rest
    ]

unfoldable pub find_func_table : ObjectFile → Option (ℕ × ℕ)
find_func_table obj = elim (obj.section_by_name (codes ".gopclntab")) [
  | some section ↦ some (section.address, section.size)
  | none ↦ find_pclntab_symbol obj.symbols
]

unfoldable pub set_func_table : Option (ℕ × ℕ) → GoRuntimeInfo → GoRuntimeInfo
set_func_table none info = info
set_func_table (some (base, size)) info = record info { func_tab_base = base; func_tab_size = size }

unfoldable pub parse_goroutine_offsets : Bytes → GoRuntimeInfo → GoRuntimeInfo
parse_goroutine_offsets version info =
    if begins_with (codes "go1.21") version
      || begins_with (codes "go1.22") version
      || begins_with (codes "go1.23") version
    then record info {
      g_offset = 0x30;
      stack_base_offset = 0x10;
      stack_size_offset = 0x18;
      pc_quantum = 1;
    }
    else if begins_with (codes "go1.20") version
    then record info {
      g_offset = 0x30;
      stack_base_offset = 0x10;
      stack_size_offset = 0x18;
      pc_quantum = 1;
    }
    else record info {
      g_offset = 0x30;
      stack_base_offset = 0x10;
      stack_size_offset = 0x18;
      pc_quantum = 1;
    }

-- The first address of a line's first word, up to the dash.
unfoldable pub start_address : List Bytes → Option ℕ
start_address [] = none
start_address (addr_range ∷ parts) = elim (find (codes "-") addr_range) [
  | none ↦ none
  | some dash_pos ↦ parse_hex (take dash_pos addr_range)
]

unfoldable pub relocate : Option ℕ → GoRuntimeInfo → GoRuntimeInfo
relocate none info = info
relocate (some addr) info = record info {
  func_tab_base = (if info.func_tab_base == 0 then 0 else add64 info.func_tab_base addr);
}

unfoldable pub update_line : Bytes → GoRuntimeInfo → GoRuntimeInfo
update_line line info =
    if contains (codes "[heap]") line || contains (codes "/go/") line
    then relocate (start_address (split_whitespace line)) info
    else info

-- A line that is not UTF-8 is an error.
unfoldable pub update_lines : List Bytes → GoRuntimeInfo → Option GoRuntimeInfo
update_lines [] info = some info
update_lines (l ∷ ls) info = elim (from_utf8 l) [
  | none ↦ none
  | some line ↦ update_lines ls (update_line line info)
]

-- `maps` is the content of the file, if it can be opened.
unfoldable pub update_runtime_addresses : Option Bytes → GoRuntimeInfo → Option GoRuntimeInfo
update_runtime_addresses none info = none
update_runtime_addresses (some content) info = update_lines (lines content) info

-- `unwrap_or_default`
abbrev pub or_default : Option Bytes → Bytes
or_default none = []
or_default (some version) = version

unfoldable pub parse_object : ObjectFile → Option Bytes → Option GoRuntimeInfo
parse_object obj maps =
    let version = extract_go_version obj in
    update_runtime_addresses maps (
      parse_goroutine_offsets (or_default version)
        (set_func_table (find_func_table obj) (set_version version empty_info)))

-- `obj` is the executable, if it can be opened and parsed.
unfoldable pub parse_process : Option ObjectFile → Option Bytes → Option GoRuntimeInfo
parse_process none maps = none
parse_process (some obj) maps = parse_object obj maps
