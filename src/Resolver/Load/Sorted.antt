-- ===== src/Resolver/Load/Sorted.antt =====
-- A resolver that is made has a table that the binary search can use.
use golang_profiling.Base.{
  ℕ, ◌+◌, ◌≤◌, ◌<◌, ◌≡◌, refl, ◌≢◌, inl, inr, Option, none, some, List, [], arith, ltb, Bool-cases,
  length, drop, All,
}
use golang_profiling.Resolver.Load.Fallback.{load_symbols_fallback-Ascending}
use golang_profiling.Base.Bytes.{Bytes, IsByte, u64_mod, from_le}
use golang_profiling.Base.Run.{Run, done, panic, stuck, Returns, ◌>>=◌}
use golang_profiling.Base.Sort.{Ascending, Ascending-get_elem?}
use golang_profiling.Base.Text.{codes}
use golang_profiling.ObjectFile.{Section, ObjectFile}
use golang_profiling.Pclntab.Header.{go_magic_to_version, read_header, go1_2}
use golang_profiling.Pclntab.Parse.{Gopclntab, ParseError, Parsed, new}
use golang_profiling.Pclntab.Parse.Branches.{Safe, IsValid}
use golang_profiling.Pclntab.Parse.Valid.{new-Safe}
use golang_profiling.Dwarf.{DwarfParser}
use golang_profiling.Resolver.FuncTable.{FuncInfo, find_function_by_pc}
use golang_profiling.Resolver.FuncTable.Search.{Located, find_function_by_pc-Located}
use golang_profiling.Resolver.Resolve.{SymbolResolver}
use golang_profiling.Resolver.Legacy.{Tables, parse_pclntab_legacy}
use golang_profiling.Resolver.Legacy.Indexed.{IsIndexed, parse_pclntab_legacy-IsIndexed}
use golang_profiling.Resolver.Load.{
  store_tables, fall_back_to_legacy, parse_pclntab, parse_section, try_load_pclntab,
  load_without_dwarf, MemoryMap, load_process_maps, load_tables, load_symbols, load_kernel_symbols,
  new_resolver,
}

-- No word behind the header is within 4 of 2^64.
abbrev pub HasPlainWords : Bytes → Type 0
HasPlainWords bs = (at : ℕ) → 16 ≤ at → at + 8 ≤ length bs → from_le 8 (drop at bs) + 4 < u64_mod

-- The bytes are bytes, not of Go 1.2, and if the newer parser refuses them, no word behind the header is
-- within 4 of 2^64.
abbrev pub IsPlain : Bytes → Type 0
IsPlain bs =
    All IsByte bs
    × (go_magic_to_version (read_header bs).magic ≢ go1_2)
    × ((e : ParseError) → new bs ≡ Parsed.err e → HasPlainWords bs)

abbrev pub HasSortedTable : Option SymbolResolver → Type 0
HasSortedTable none = Unit
HasSortedTable (some r) = Ascending (λ f. f.entry) r.func_table

stored :
    (m : Run Tables) (r : SymbolResolver) (n : ℕ)
    → Returns m (IsIndexed n)
    → Returns (m >>= λ t. done (store_tables r t)) HasSortedTable
unfolding store_tables
stored (done t) r n h = h.0
stored panic r n h = h
stored stuck r n h = h

fall_back_to_legacy-Sorted :
    (bs : Bytes) (r : SymbolResolver)
    → 16 ≤ length bs
    → All IsByte bs
    → HasPlainWords bs
    → r.func_table ≡ []
    → Returns (fall_back_to_legacy bs r) HasSortedTable
unfolding fall_back_to_legacy
fall_back_to_legacy-Sorted bs r long b p e =
    stored
      (parse_pclntab_legacy bs r.base_address
        (record { func_table = r.func_table; string_table = r.string_table }))
      r 1000
      (parse_pclntab_legacy-IsIndexed bs r.base_address 0
        (record { func_table = r.func_table; string_table = r.string_table }) long b p
        (rw e (tt, (λ k. omega arith), omega arith)))

-- The enhanced parser leaves the table alone, and is safe on such bytes.
parsed_or_legacy :
    (bs : Bytes) (r : SymbolResolver) (m : Parsed Gopclntab)
    → 16 ≤ length bs
    → IsPlain bs
    → r.func_table ≡ []
    → new bs ≡ m
    → Safe m (IsValid bs)
    → Returns
        (elim m [
          | Parsed.ok g ↦ done (some (record r { gopclntab = some g }))
          | Parsed.err e ↦ fall_back_to_legacy bs r
          | Parsed.panicked ↦ panic
          | Parsed.stuck ↦ stuck
        ])
        HasSortedTable
parsed_or_legacy bs r (Parsed.ok g) long p e q h = rw e tt
parsed_or_legacy bs r (Parsed.err x) long p e q h =
    fall_back_to_legacy-Sorted bs r long p.0 (p.2 x q) e
parsed_or_legacy bs r Parsed.panicked long p e q h = h
parsed_or_legacy bs r Parsed.stuck long p e q h = h

parse_pclntab-Sorted :
    (bs : Bytes) (r : SymbolResolver)
    → IsPlain bs
    → r.func_table ≡ []
    → Returns (parse_pclntab bs r) HasSortedTable
unfolding parse_pclntab
parse_pclntab-Sorted bs r p e = elim (Bool-cases (ltb (length bs) 16)) [
  | inl short ↦ rw short tt
  | inr long ↦ rw long (parsed_or_legacy bs r (new bs) (ground arith) p e refl (new-Safe bs p.1))
]

-- The section's bytes, if it has any, are plain.
abbrev pub HasPlainBytes : Section → Type 0
HasPlainBytes s = (bs : Bytes) → s.contents ≡ some bs → IsPlain bs

parse_section-Sorted :
    (contents : Option Bytes) (r : SymbolResolver)
    → ((bs : Bytes) → contents ≡ some bs → IsPlain bs)
    → r.func_table ≡ []
    → Returns (parse_section contents r) HasSortedTable
unfolding parse_section
parse_section-Sorted none r p e = tt
parse_section-Sorted (some bs) r p e = parse_pclntab-Sorted bs r (p bs refl) e

module _ (obj : ObjectFile)
    (plain : (s : Section)
      → obj.section_by_name (codes ".gopclntab") ≡ some s
      → HasPlainBytes s) where
  try_load_pclntab-Sorted :
      (section : Option Section) (r : SymbolResolver)
      → obj.section_by_name (codes ".gopclntab") ≡ section
      → r.func_table ≡ []
      → Returns (try_load_pclntab section r) HasSortedTable
  unfolding try_load_pclntab
  try_load_pclntab-Sorted none r h e = rw e tt
  try_load_pclntab-Sorted (some s) r h e = parse_section-Sorted s.contents r (plain s h) e

  load_without_dwarf-Sorted :
      (section : Option Section) (r : SymbolResolver)
      → obj.section_by_name (codes ".gopclntab") ≡ section
      → r.func_table ≡ []
      → Returns (load_without_dwarf obj section r) HasSortedTable
  unfolding load_without_dwarf
  load_without_dwarf-Sorted none r h e = load_symbols_fallback-Ascending obj r e
  load_without_dwarf-Sorted (some s) r h e = parse_section-Sorted s.contents r (plain s h) e

  load_symbols-Sorted :
      (maps : Option (List MemoryMap)) (dwarf : Option DwarfParser) (r : SymbolResolver)
      → r.func_table ≡ []
      → Returns (load_symbols obj maps dwarf r) HasSortedTable
  unfolding load_symbols load_tables load_process_maps
  load_symbols-Sorted none dwarf r e = tt
  load_symbols-Sorted (some maps) none r e = load_without_dwarf-Sorted _ _ refl e
  load_symbols-Sorted (some maps) (some parser) r e = try_load_pclntab-Sorted _ _ refl e

  pub new_resolver-Sorted :
      (kallsyms : Option Bytes) (maps : Option (List MemoryMap)) (dwarf : Option DwarfParser)
      → Returns (new_resolver kallsyms obj maps dwarf) HasSortedTable
  unfolding new_resolver load_kernel_symbols
  new_resolver-Sorted none maps dwarf = load_symbols-Sorted maps dwarf _ refl
  new_resolver-Sorted (some content) maps dwarf = load_symbols-Sorted maps dwarf _ refl

-- The search on the resolver's table, where there is a resolver.
abbrev pub Searchable : ℕ → Option SymbolResolver → Type 0
Searchable pc none = Unit
Searchable pc (some r) = Returns (find_function_by_pc r.func_table pc) (Located r.func_table pc)

searchable :
    (pc : ℕ) (m : Run (Option SymbolResolver))
    → Returns m HasSortedTable
    → Returns m (Searchable pc)
searchable pc (done none) h = tt
searchable pc (done (some r)) h =
    find_function_by_pc-Located r.func_table pc
      (λ i j f g le p q. Ascending-get_elem? (λ (f : FuncInfo). f.entry) r.func_table i j h le p q)
searchable pc panic h = h
searchable pc stuck h = h

-- For every binary whose `.gopclntab` section, if it has one, holds bytes without the magic number
-- of Go 1.2 and, if `Gopclntab::new` refuses them, with no eight bytes behind offset 16 that read
-- within 4 of 2^64, and whatever the kernel's symbols, the mappings and the debug information are:
-- `SymbolResolver::new` returns without a panic, with an error or with a table of functions on
-- which `find_function_by_pc` returns for every pc: the last function that begins at or before the
-- pc, less than 64 KB before it, with the sum of its entry and 64 KB below 2^64, or nothing, and
-- then no function begins at or before the pc, or the last one that does is 64 KB or more before
-- it, or that sum reaches 2^64.
pub new_resolver-Searchable :
    (kallsyms : Option Bytes) (obj : ObjectFile) (maps : Option (List MemoryMap))
    (dwarf : Option DwarfParser) (pc : ℕ)
    → ((s : Section) → obj.section_by_name (codes ".gopclntab") ≡ some s → HasPlainBytes s)
    → Returns (new_resolver kallsyms obj maps dwarf) (Searchable pc)
new_resolver-Searchable kallsyms obj maps dwarf pc plain =
    searchable pc (new_resolver kallsyms obj maps dwarf)
      (new_resolver-Sorted obj plain kallsyms maps dwarf)
