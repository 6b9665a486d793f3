-- ===== src/Examples/Loading.antt =====
-- Loading the symbols of a small binary.
use mathlib.Core.Path.{subst}
use golang_profiling.Base.{
  ◌+◌, ◌<◌, ◌≡◌, refl, ◌≢◌, true, false, none, some, List, [], ◌∷◌, ◌++◌, arith, length, drop, All,
}
use golang_profiling.Base.Bytes.{from_le, Bytes, to_le, IsByte}
use golang_profiling.Base.Lines.Words.{all_below, below, all_visible, word, IsWord}
use golang_profiling.Pclntab.Header.{go1_2, go_magic_to_version, field_at, read_header}
use golang_profiling.Resolver.Load.{MemoryMap, empty_resolver, load_kernel_symbols, new_resolver}
use golang_profiling.Resolver.Load.Sorted.{IsPlain, Searchable, new_resolver-Searchable}
use golang_profiling.Base.Run.{Returns}
use golang_profiling.Base.Text.{codes}
use golang_profiling.ObjectFile.{Section, ObjectSymbol, ObjectFile}
use golang_profiling.Resolver.Legacy.{Tables, parse_pclntab_legacy}
use golang_profiling.Resolver.Legacy.Indexed.{
  IsIndexed, plain_words, parse_pclntab_legacy-IsIndexed,
}
use golang_profiling.Resolver.Load.Kallsyms.{
  KernelSymbol, print_symbols, insert_functions, load_kernel_symbols-print_symbols,
}

-- A header, two rows of eight-byte numbers, what the offset 48 leads to, and a table of names.
abbrev pclntab : Bytes
pclntab =
    to_le 4 0xfffffff1
    ++ to_le 4 0x80000
    ++ to_le 8 2
    ++ to_le 8 0x2000
    ++ to_le 8 48
    ++ to_le 8 0x1000
    ++ to_le 8 0
    ++ to_le 8 9
    ++ codes "main.main"

pclntab-IsByte : All IsByte pclntab
unfolding to_le all_below
pclntab-IsByte = below 256 pclntab refl

pclntab_rest : All (λ b. b < 255) (drop 16 pclntab)
unfolding to_le all_below
pclntab_rest = below 255 (drop 16 pclntab) refl

pclntab-length : length pclntab ≡ 65
unfolding to_le
pclntab-length = refl

abbrev no_tables : Tables
no_tables = record { func_table = []; string_table = [] }

parse_pclntab_legacy-IsIndexed_example :
    Returns (parse_pclntab_legacy pclntab 0x40_0000 no_tables) (IsIndexed (0 + 1000))
parse_pclntab_legacy-IsIndexed_example =
    parse_pclntab_legacy-IsIndexed pclntab 0x40_0000 0 no_tables (omega (arith, pclntab-length))
      pclntab-IsByte (plain_words pclntab pclntab_rest) (tt, (λ k. omega arith), omega arith)

abbrev symbols : List ObjectSymbol
symbols =
    record { name = some (codes "main.main"); is_text = true; address = 0x2000; size = 64 }
    ∷ record { name = none; is_text = true; address = 0x1800; size = 64 }
    ∷ record { name = some (codes "main.data"); is_text = false; address = 0x9000; size = 8 }
    ∷ record { name = some (codes "main.init"); is_text = true; address = 0x1000; size = 16 }
    ∷ record { name = some (codes "main.alias"); is_text = true; address = 0x2000; size = 64 }
    ∷ []

abbrev binary : ObjectFile
binary = record {
  section_by_name =
      λ name. some (record { address = 0x10_0000; size = 73; contents = some pclntab });
  sections = [];
  symbols = symbols;
}

abbrev mapping : MemoryMap
mapping = record {
  pathname = some (codes "/bin/test_program");
  perms = codes "rx";
  address = 0x55_0000;
}

pclntab_format : go_magic_to_version (read_header pclntab).magic ≢ go1_2
unfolding go_magic_to_version read_header to_le from_le field_at
pclntab_format = omega arith

pclntab-IsPlain : IsPlain pclntab
pclntab-IsPlain = (pclntab-IsByte, pclntab_format, λ e q. plain_words pclntab pclntab_rest)

-- The table's section has the bytes of the table.
same_bytes :
    (s : Section) (bs : Bytes)
    → binary.section_by_name (codes ".gopclntab") ≡ some s
    → s.contents ≡ some bs
    → pclntab ≡ bs
same_bytes s bs e q = cc

new_resolver-Searchable_example :
    Returns (new_resolver none binary (some (mapping ∷ [])) none) (Searchable 0x55_1010)
new_resolver-Searchable_example =
    new_resolver-Searchable none binary (some (mapping ∷ [])) none 0x55_1010
      (λ s e bs q. subst IsPlain (same_bytes s bs e q) pclntab-IsPlain)

abbrev kernel_symbols : List KernelSymbol
kernel_symbols =
    record { address = 0xffff_ffff_8100_0000; letter = b'T'; name = codes "schedule" }
    ∷ record { address = 0xffff_ffff_8200_0000; letter = b'D'; name = codes "jiffies" }
    ∷ []

schedule_IsWord : IsWord (codes "schedule")
unfolding all_visible
schedule_IsWord = word (codes "schedule") refl

jiffies_IsWord : IsWord (codes "jiffies")
unfolding all_visible
jiffies_IsWord = word (codes "jiffies") refl

load_kernel_symbols-print_symbols_example :
    load_kernel_symbols (some (print_symbols kernel_symbols)) empty_resolver
    ≡ record empty_resolver { kernel_symbols = insert_functions kernel_symbols [] }
load_kernel_symbols-print_symbols_example =
    load_kernel_symbols-print_symbols kernel_symbols empty_resolver (
      (omega arith, (omega arith, omega arith), refl, schedule_IsWord),
      ((omega arith, (omega arith, omega arith), refl, jiffies_IsWord), tt),
    )
