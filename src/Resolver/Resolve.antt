-- ===== src/Resolver/Resolve.antt =====
-- `SymbolResolver`, `resolve_kernel_symbol` and `resolve_pc`.
pub mod Kernel
pub mod Ends
pub mod Safe
use golang_profiling.Base.{
  ℕ, ◌-◌, Bool, not, ◌&&◌, ◌||◌, Option, none, some, List, [], ◌∷◌, ◌++◌, ltb, leb, ◌==◌,
  if◌then◌else◌, length, is_empty,
}
use golang_profiling.Base.Bytes.{Bytes}
use golang_profiling.Base.Words.{add64}
use golang_profiling.Base.AddrMap.{lookup, closest}
use golang_profiling.Base.Run.{Run, done, ◌>>=◌}
use golang_profiling.Base.Text.{codes, decimal, hex, begins_with}
use golang_profiling.Pclntab.Parse.{Gopclntab}
use golang_profiling.Pclntab.Symbolize.{Symbol, symbolize}
use golang_profiling.Dwarf.{DwarfParser, SourceLocation, get_nearest_location}
use golang_profiling.Resolver.FuncTable.{FuncInfo, find_function_by_pc}
use golang_profiling.Resolver.Names.{
  get_function_name, get_complete_function_info, clean_go_function_name,
}

-- The fields that look-ups read; the process id, the mapped binary and the memory maps are left out.
pub record SymbolResolver : Type 0 where
  pub func_table : List FuncInfo
  pub string_table : Bytes
  pub symbol_cache : List (ℕ × Bytes)
  pub base_address : ℕ
  pub kernel_symbols : List (ℕ × Bytes)
  pub dwarf_parser : Option DwarfParser
  pub gopclntab : Option Gopclntab

-- The closest symbol, if the address is within 64 KB behind it.
unfoldable pub near_symbol : ℕ → ℕ × Option Bytes → Option Bytes
near_symbol addr (best_addr, none) = none
near_symbol addr (best_addr, some symbol) =
    if ltb (addr - best_addr) 0x10000 then some symbol else none

unfoldable pub resolve_kernel_symbol : List (ℕ × Bytes) → ℕ → Option Bytes
resolve_kernel_symbol symbols addr = elim (lookup addr symbols) [
  | some symbol ↦ some symbol
  | none ↦ near_symbol addr (closest addr symbols)
]

abbrev pub kernel_start : ℕ
kernel_start = 0xffff_ffff_8000_0000

unfoldable pub resolve_kernel : SymbolResolver → ℕ → Option Bytes
resolve_kernel r pc =
    if leb kernel_start pc then resolve_kernel_symbol r.kernel_symbols pc else none

-- `ends_with("main.go")`
unfoldable pub ends_with_text : Bytes → Bytes → Bool
ends_with_text pat [] = is_empty pat
ends_with_text pat (b ∷ bs) =
    (length pat == length (b ∷ bs) && begins_with pat (b ∷ bs)) || ends_with_text pat bs

unfoldable pub location_name : Option Bytes → Bytes → Bytes
location_name (some name) file_path = name
location_name none file_path =
    if ends_with_text (codes "main.go") file_path
    then codes "main.func"
    else codes "<anonymous_function>"

-- ` file:line`, where both are known.
unfoldable pub position : Bytes → ℕ → Bytes
position file line =
    if not (is_empty file) && ltb 0 line
    then codes " " ++ (file ++ (codes ":" ++ decimal line))
    else []

unfoldable pub location_text : SourceLocation → Bytes
location_text l = location_name l.function_name l.file_path ++ position l.file_path l.line

unfoldable pub nearest_location : Option DwarfParser → ℕ → Option SourceLocation
nearest_location none pc = none
nearest_location (some dwarf) pc = get_nearest_location dwarf pc

unfoldable pub symbolize_with : Option Gopclntab → ℕ → Run Symbol
symbolize_with none pc = done (record { file = []; line = 0; name = [] })
symbolize_with (some g) pc = symbolize g pc

-- `for (&addr, symbol) in &self.symbol_cache { if addr <= pc && pc < addr + 4096 { … } }`
unfoldable pub nearby : ℕ → List (ℕ × Bytes) → Option (ℕ × Bytes)
nearby pc [] = none
nearby pc ((addr, symbol) ∷ m) =
    if leb addr pc && ltb pc (add64 addr 4096) then some (addr, symbol) else nearby pc m

-- The last resorts: a symbol that begins up to 4 KB before, or the address itself.
unfoldable pub resolve_nearby : ℕ → Option (ℕ × Bytes) → Run Bytes
resolve_nearby pc none = done (codes "[unknown:0x" ++ (hex pc ++ codes "]"))
resolve_nearby pc (some (addr, symbol)) = do
  cleaned ← clean_go_function_name symbol
  done (cleaned ++ (codes " +0x" ++ hex (pc - addr)))

-- A function of the table without a cached name: all that is known of it, or its name alone. The
-- second look-up of the name fails where the first has.
unfoldable pub resolve_info : SymbolResolver → ℕ → FuncInfo → Option Bytes → Run Bytes
resolve_info r pc func (some text) = done text
resolve_info r pc func none = elim (get_function_name r.symbol_cache r.string_table func) [
  | some name ↦ clean_go_function_name name
  | none ↦ resolve_nearby pc (nearby pc r.symbol_cache)
]

unfoldable pub resolve_function : SymbolResolver → ℕ → Option FuncInfo → Run Bytes
resolve_function r pc none = resolve_nearby pc (nearby pc r.symbol_cache)
resolve_function r pc (some func) = elim (lookup func.entry r.symbol_cache) [
  | some cached_name ↦ clean_go_function_name cached_name
  | none ↦ get_complete_function_info r.symbol_cache r.string_table func >>= λ info.
      resolve_info r pc func info
]

-- The cache and the table of functions.
unfoldable pub resolve_tables : SymbolResolver → ℕ → Run Bytes
resolve_tables r pc = elim (lookup pc r.symbol_cache) [
  | some name ↦ clean_go_function_name name
  | none ↦ find_function_by_pc r.func_table pc >>= λ func. resolve_function r pc func
]

unfoldable pub resolve_symbol : SymbolResolver → ℕ → Symbol → Run Bytes
resolve_symbol r pc s =
    if is_empty s.name
    then resolve_tables r pc
    else clean_go_function_name (s.name ++ position s.file s.line)

-- The sources in their order: the kernel's symbols, DWARF, the Go table, the rest.
unfoldable pub resolve_pc : SymbolResolver → ℕ → Run Bytes
resolve_pc r pc = elim (resolve_kernel r pc) [
  | some kernel_symbol ↦ done (kernel_symbol ++ codes "_[k]")
  | none ↦ elim (nearest_location r.dwarf_parser pc) [
    | some location ↦ done (location_text location)
    | none ↦ symbolize_with r.gopclntab pc >>= λ s. resolve_symbol r pc s
  ]
]
