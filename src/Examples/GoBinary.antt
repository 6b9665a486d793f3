-- ===== src/Examples/GoBinary.antt =====
-- A run of the whole program on a binary with a Go table of two functions.
use golang_profiling.Base.{
  ℕ, ◌≡◌, refl, sym, Bool, true, false, Option, none, some, [], ◌∷◌, ◌++◌, arith, if◌then◌else◌,
  drop, All,
}
use golang_profiling.Base.Bytes.{Bytes, IsByte, to_le, from_le}
use golang_profiling.Base.Lines.Words.{all_below, below}
use golang_profiling.Base.Run.{Run, done, panic, stuck, Allows, slice_from}
use golang_profiling.Base.Text.{codes, bytes_eq}
use golang_profiling.ObjectFile.{Section, ObjectFile}
use golang_profiling.Pclntab.Header.{go_magic_to_version, read_header, read_header118, field_at}
use golang_profiling.Pclntab.Parse.{
  Gopclntab, ParseError, Parsed, fresh, new, parse_version, parse_go1_18, offsets_outside,
  take_slices,
}
use golang_profiling.Resolver.Resolve.{SymbolResolver}
use golang_profiling.Resolver.Resolve.Safe.{HasCompactTable}
use golang_profiling.Resolver.Load.{
  new_resolver, load_symbols, load_tables, load_kernel_symbols, load_process_maps,
  find_base_address, load_without_dwarf, parse_section, parse_pclntab,
}
use golang_profiling.Resolver.Load.Sorted.{IsPlain}
use golang_profiling.Main.{Machine, start_resolver, main}
use golang_profiling.Main.Safe.{Culprit, main-Allows}
use golang_profiling.Examples.Kernel.{counts, stamps}
use golang_profiling.Examples.Sessions.{machine, args, events, no_files}
use mathlib.Core.Path.{subst}

-- The header of Go 1.20: two functions, one file, the text at 4096, and the offsets of the five parts.
abbrev header : Bytes
header =
    0xf1
    ∷ (0xff
        ∷ (0xff
            ∷ (0xff
                ∷ (0
                    ∷ (0
                        ∷ (1
                            ∷ (8
                                ∷ (to_le 8 2
                                    ++ to_le 8 1
                                    ++ to_le 8 4096
                                    ++ to_le 8 72
                                    ++ to_le 8 77
                                    ++ to_le 8 81
                                    ++ to_le 8 89
                                    ++ to_le 8 96))))))))

-- The name, one compilation unit, one file, the lines, two rows with the end of the text, and the data of
-- the two functions, each with two offsets of -1 in a row, as Go writes for tables that are missing.
abbrev table : Bytes
table =
    header
    ++ (codes "main"
        ++ (0
            ∷ (to_le 4 0
                ++ codes "main.go"
                ++ (0
                    ∷ (0
                        ∷ (14
                            ∷ (32
                                ∷ (4
                                    ∷ (16
                                        ∷ (0
                                            ∷ (0
                                                ∷ (to_le 4 0
                                                    ++ to_le 4 20
                                                    ++ to_le 4 32
                                                    ++ to_le 4 64
                                                    ++ to_le 4 64
                                                    ++ to_le 4 0
                                                    ++ to_le 4 0
                                                    ++ to_le 4 0
                                                    ++ to_le 4 0
                                                    ++ to_le 4 0
                                                    ++ to_le 4 0
                                                    ++ to_le 4 1
                                                    ++ to_le 4 0
                                                    ++ to_le 4 0
                                                    ++ to_le 4 0xffff_ffff
                                                    ++ to_le 4 0xffff_ffff
                                                    ++ to_le 4 32
                                                    ++ to_le 4 0
                                                    ++ to_le 4 0
                                                    ++ to_le 4 0
                                                    ++ to_le 4 0
                                                    ++ to_le 4 0
                                                    ++ to_le 4 1
                                                    ++ to_le 4 0
                                                    ++ to_le 4 0
                                                    ++ to_le 4 0xffff_ffff
                                                    ++ to_le 4 0xffff_ffff))))))))))))

table-IsByte : All IsByte table
unfolding to_le all_below
table-IsByte = below 256 table refl

abbrev is_refused : Parsed Gopclntab → Bool
is_refused (Parsed.err e) = true
is_refused m = false

-- The newer parser takes it.
table_taken : is_refused (new table) ≡ false
unfolding new fresh read_header parse_version parse_go1_18 read_header118 offsets_outside
    take_slices field_at from_le to_le go_magic_to_version slice_from
table_taken = refl

refused : (m : Parsed Gopclntab) → is_refused m ≡ false → (e : ParseError) → m ≡ Parsed.err e → ⊥
refused (Parsed.ok g) h e q = absurd (cc)
refused (Parsed.err x) h e q = absurd (cc)
refused Parsed.panicked h e q = absurd (cc)
refused Parsed.stuck h e q = absurd (cc)

table-IsPlain : IsPlain table
table-IsPlain = (
  table-IsByte,
  (unfold go_magic_to_version read_header field_at to_le from_le in omega arith),
  λ e q. absurd (refused (new table) table_taken e q),
)

abbrev go_section : Section
go_section = record { address = 0x10_0000; size = 228; contents = some table }

abbrev section_of : Bytes → Option Section
section_of name = if bytes_eq name (codes ".gopclntab") then some go_section else none

abbrev go_binary : ObjectFile
go_binary = record { section_by_name = section_of; sections = []; symbols = [] }

abbrev go_machine : Machine counts stamps
go_machine = record machine { executable = λ pid. some go_binary }

-- The bytes of a `.gopclntab` section are those of the table.
same_table :
    (obj : ObjectFile) (s : Section) (bs : Bytes)
    → some go_binary ≡ some obj
    → obj.section_by_name (codes ".gopclntab") ≡ some s
    → s.contents ≡ some bs
    → table ≡ bs
unfolding bytes_eq
same_table obj s bs e q c =
    let same : go_binary ≡ obj = cc in
    let found : some go_section ≡ some s =
      subst (λ (o : ObjectFile). o.section_by_name (codes ".gopclntab") ≡ some s) (sym same) q in
    cc

-- What a resolver that is made has for a Go table.
abbrev HasCompact : Run (Option SymbolResolver) → Type 0
HasCompact (done (some r)) = HasCompactTable r.gopclntab
HasCompact (done none) = ⊥
HasCompact panic = ⊥
HasCompact stuck = ⊥

started : (pid : ℕ) → HasCompact (start_resolver counts stamps go_machine pid (some go_binary))
unfolding start_resolver new_resolver load_symbols load_tables load_kernel_symbols load_process_maps
    find_base_address load_without_dwarf parse_section parse_pclntab bytes_eq new fresh read_header
    parse_version parse_go1_18 read_header118 offsets_outside take_slices field_at from_le to_le
    go_magic_to_version slice_from all_below
started pid = record {
  version = refl;
  rows = refl;
  bytes = below 256 (drop 96 table) refl;
  functab_short = omega arith;
  funcdata_short = omega arith;
  cutab_short = omega arith;
  few = omega arith;
}

table-IsCompact :
    (pid : ℕ) (r : SymbolResolver)
    → start_resolver counts stamps go_machine pid (some go_binary) ≡ done (some r)
    → HasCompactTable r.gopclntab
table-IsCompact pid r e = subst HasCompact e (started pid)

main-Allows_example :
    Allows (Culprit counts stamps go_machine) (main counts stamps go_machine args events no_files)
main-Allows_example =
    main-Allows counts stamps go_machine
      (λ pid obj s e q bs c. subst IsPlain (same_table obj s bs e q c) table-IsPlain)
      table-IsCompact args events no_files
