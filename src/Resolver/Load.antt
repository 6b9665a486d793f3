-- ===== src/Resolver/Load.antt =====
-- `SymbolResolver::new`: what it loads, and from where.
pub mod Fallback
pub mod Kallsyms
pub mod Sorted
use golang_profiling.Base.{
  ℕ, Bool, false, ◌&&◌, ◌||◌, Option, none, some, List, [], ◌∷◌, ◌++◌, ltb, ◌==◌, if◌then◌else◌,
  length,
}
use golang_profiling.Base.Bytes.{Bytes}
use golang_profiling.Base.Run.{Run, done, panic, stuck, ◌>>=◌}
use golang_profiling.Base.AddrMap.{insert}
use golang_profiling.Base.Lines.{lines, split_whitespace}
use golang_profiling.Base.Radix.{parse_hex}
use golang_profiling.Base.Sort.{sort_by_key}
use golang_profiling.Base.Text.{codes, contains, bytes_eq}
use golang_profiling.ObjectFile.{Section, ObjectSymbol, ObjectFile}
use golang_profiling.Pclntab.Parse.{Parsed, new}
use golang_profiling.Dwarf.{DwarfParser}
use golang_profiling.Resolver.FuncTable.{FuncInfo}
use golang_profiling.Resolver.Resolve.{SymbolResolver}
use golang_profiling.Resolver.Legacy.{Tables, parse_pclntab_legacy}

-- The text symbols that have a name, in the order of the file.
unfoldable pub text_symbols : List ObjectSymbol → List (ℕ × Bytes)
text_symbols [] = []
text_symbols (s ∷ symbols) = elim s.name [
  | none ↦ text_symbols symbols
  | some name ↦ if s.is_text then (s.address, name) ∷ text_symbols symbols else text_symbols symbols
]

-- A function whose name is in the cache.
abbrev pub cached_function : ℕ → FuncInfo
cached_function addr = record { entry = addr; name_off = 1; file_off = 0; line = 0 }

unfoldable pub add_cached : List (ℕ × Bytes) → SymbolResolver → SymbolResolver
add_cached [] r = r
add_cached ((addr, name) ∷ entries) r = add_cached entries (record r {
  func_table = r.func_table ++ (cached_function addr ∷ []);
  symbol_cache = insert addr name r.symbol_cache;
})

unfoldable pub load_symbols_fallback : ObjectFile → SymbolResolver → SymbolResolver
load_symbols_fallback obj r = add_cached (sort_by_key (λ e. e.0) (text_symbols obj.symbols)) r

unfoldable pub store_tables : SymbolResolver → Tables → Option SymbolResolver
store_tables r t = some (record r { func_table = t.func_table; string_table = t.string_table })

-- The older parser, on the resolver's own tables.
unfoldable pub fall_back_to_legacy : Bytes → SymbolResolver → Run (Option SymbolResolver)
fall_back_to_legacy bs r =
    parse_pclntab_legacy bs r.base_address
      (record { func_table = r.func_table; string_table = r.string_table })
    >>= λ t. done (store_tables r t)

-- `none` is an error.
unfoldable pub parse_pclntab : Bytes → SymbolResolver → Run (Option SymbolResolver)
parse_pclntab bs r = if ltb (length bs) 16 then done none else elim (new bs) [
  | Parsed.ok g ↦ done (some (record r { gopclntab = some g }))
  | Parsed.err e ↦ fall_back_to_legacy bs r
  | Parsed.panicked ↦ panic
  | Parsed.stuck ↦ stuck
]

-- `section.data()?` and the parser.
unfoldable pub parse_section : Option Bytes → SymbolResolver → Run (Option SymbolResolver)
parse_section none r = done none
parse_section (some bs) r = parse_pclntab bs r

unfoldable pub try_load_pclntab : Option Section → SymbolResolver → Run (Option SymbolResolver)
try_load_pclntab none r = done (some r)
try_load_pclntab (some section) r = parse_section section.contents r

-- Without debug information the Go table comes first, and the symbol table of the file second.
unfoldable pub load_without_dwarf :
    ObjectFile → Option Section → SymbolResolver → Run (Option SymbolResolver)
load_without_dwarf obj none r = done (some (load_symbols_fallback obj r))
load_without_dwarf obj (some section) r = parse_section section.contents r

-- A memory mapping of the process: its path as text, if it has one, the text that shows its permissions, and
-- its first address.
pub record MemoryMap : Type 0 where
  pub pathname : Option Bytes
  pub perms : Bytes
  pub address : ℕ

unfoldable pub is_main_executable : MemoryMap → Bool
is_main_executable m = elim m.pathname [
  | none ↦ false
  | some path ↦
      (contains (codes "test_program") path || contains (codes "golang-profile") path)
      && contains (codes "x") m.perms
      && contains (codes "r") m.perms
]

-- The first such mapping, or the address from before.
unfoldable pub find_base_address : List MemoryMap → ℕ → ℕ
find_base_address [] base = base
find_base_address (m ∷ maps) base =
    if is_main_executable m then m.address else find_base_address maps base

-- `maps` is what procfs gives for the process, if it can be opened and read.
unfoldable pub load_process_maps : Option (List MemoryMap) → SymbolResolver → Option SymbolResolver
load_process_maps none r = none
load_process_maps (some maps) r =
    let base = find_base_address maps r.base_address in
    some (record r { base_address = (if base == 0 then 0x40_0000 else base) })

-- Behind `self.load_process_maps()?`. `dwarf` is the parser, if it could read the file.
unfoldable pub load_tables :
    ObjectFile → Option DwarfParser → Option SymbolResolver → Run (Option SymbolResolver)
load_tables obj dwarf none = done none
load_tables obj dwarf (some r) =
    let r' = record r { dwarf_parser = dwarf } in
    let section = obj.section_by_name (codes ".gopclntab") in
    elim dwarf [
      | none ↦ load_without_dwarf obj section r'
      | some parser ↦ try_load_pclntab section r'
    ]

unfoldable pub load_symbols :
    ObjectFile
    → Option (List MemoryMap)
    → Option DwarfParser
    → SymbolResolver
    → Run (Option SymbolResolver)
load_symbols obj maps dwarf r = load_tables obj dwarf (load_process_maps maps r)

-- `T`, `t`, `W` and `w`
unfoldable pub is_function_type : Bytes → Bool
is_function_type t =
    bytes_eq t (codes "T")
    || bytes_eq t (codes "t")
    || bytes_eq t (codes "W")
    || bytes_eq t (codes "w")

-- One line of `/proc/kallsyms`: three words at least, and a hexadecimal address.
unfoldable pub add_kernel_symbol : List Bytes → List (ℕ × Bytes) → List (ℕ × Bytes)
add_kernel_symbol (addr ∷ (symbol_type ∷ (name ∷ more))) symbols = elim (parse_hex addr) [
  | none ↦ symbols
  | some a ↦ if is_function_type symbol_type then insert a name symbols else symbols
]
add_kernel_symbol parts symbols = symbols

unfoldable pub add_kernel_lines : List Bytes → List (ℕ × Bytes) → List (ℕ × Bytes)
add_kernel_lines [] symbols = symbols
add_kernel_lines (l ∷ ls) symbols =
    add_kernel_lines ls (add_kernel_symbol (split_whitespace l) symbols)

-- `content` is `none` where the file cannot be read as text; that is only a warning.
unfoldable pub load_kernel_symbols : Option Bytes → SymbolResolver → SymbolResolver
load_kernel_symbols none r = r
load_kernel_symbols (some content) r = record r {
  kernel_symbols = add_kernel_lines (lines content) r.kernel_symbols;
}

abbrev pub empty_resolver : SymbolResolver
empty_resolver = record {
  func_table = [];
  string_table = [];
  symbol_cache = [];
  base_address = 0;
  kernel_symbols = [];
  dwarf_parser = none;
  gopclntab = none;
}

unfoldable pub new_resolver :
    Option Bytes
    → ObjectFile
    → Option (List MemoryMap)
    → Option DwarfParser
    → Run (Option SymbolResolver)
new_resolver kallsyms obj maps dwarf =
    load_symbols obj maps dwarf (load_kernel_symbols kallsyms empty_resolver)
