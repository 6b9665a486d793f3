-- ===== src/Examples/Commands.antt =====
-- The process found, the units of a small binary, and a small perf script.
use golang_profiling.Base.{
  ℕ, ◌≡◌, refl, true, Option, none, some, List, [], ◌∷◌, ◌++◌, arith, length,
}
use golang_profiling.Base.Bytes.{Bytes}
use golang_profiling.Base.Run.{done}
use golang_profiling.Base.Text.{codes, hex, ends_with}
use golang_profiling.Command.{find_process_by_name}
use golang_profiling.Command.Pid.{print_pids, find_process_by_name-print_pids}
use golang_profiling.Base.Words.{add64}
use golang_profiling.Base.AddrMap.{insert, modify}
use golang_profiling.Dwarf.{
  parse_function_die, add_function, read_attributes, read_attribute, ranges_of, high_from,
  mark_ranges, insert_ranges, mark_range, parse_line_program, parse_row, row_location,
  get_file_path, directory_part, set_function_name, DwarfParser, FileEntry, Attribute, new,
}
use golang_profiling.Dwarf.Units.{
  parse_units, parse_compilation_unit, parse_line_programs, parse_entries, parse_entries,
  parse_line_programs, parse_compilation_unit, parse_units, CompilationUnit, parse_from_object,
}
use golang_profiling.Dwarf.Units.Named.{IsNamed, in_units, parse_from_object-IsNamed}
use golang_profiling.Collect.Perf.{perf_header, export_perf_script}
use golang_profiling.Collect.Perf.Samples.{numbered, stacks_of, sum_of, export_perf_script-numbered}

find_process_by_name-print_pids_example :
    find_process_by_name (some (record { success = true; stdout = print_pids (4711 ∷ (12 ∷ [])) }))
    ≡ some 4711
find_process_by_name-print_pids_example =
    find_process_by_name-print_pids 4711 (12 ∷ []) (omega arith)

abbrev file : FileEntry
file = record { directory = some (codes "/src"); path_name = some (codes "main.go") }

abbrev units : List (Option CompilationUnit)
units =
    some (record {
      line_program =
          some (
            some
              (record { address = 0x1002; file = some file; line = some 7; column = none } ∷ []));
      entries = some (
          record {
            is_subprogram = true;
            attributes =
                Attribute.name (codes "main.main")
                ∷ (Attribute.low_pc 0x1000 ∷ (Attribute.high_pc_offset 4 ∷ []));
          }
          ∷ []);
    })
    ∷ []

abbrev parser : DwarfParser
parser = record {
  address_to_location =
      (
        0x1002,
        record {
          file_path = codes "/src/main.go";
          line = 7;
          column = 0;
          function_name = some (codes "main.main");
        },
      )
      ∷ [];
  function_ranges = (codes "main.main", (0x1000, 0x1004) ∷ []) ∷ [];
}

parsed : parse_from_object (some units) new ≡ some parser
unfolding parse_from_object parse_units parse_compilation_unit parse_line_programs parse_entries
    parse_function_die add_function read_attributes read_attribute ranges_of high_from mark_ranges
    insert_ranges mark_range parse_line_program add64 parse_row row_location get_file_path
    directory_part ends_with insert modify set_function_name
parsed = refl

parse_from_object-IsNamed_example : IsNamed (λ s a. in_units s a units) parser
parse_from_object-IsNamed_example = parse_from_object-IsNamed units parsed

abbrev symbol_of : ℕ → Bytes
symbol_of pc = codes "f" ++ hex pc

abbrev samples : List (List ℕ × ℕ)
samples = ((0x10 ∷ (0x20 ∷ [])), 3) ∷ (((0x30 ∷ []), 1) ∷ [])

export_perf_script-numbered_example :
    (export_perf_script (λ pc. done (symbol_of pc)) 1700000000 samples
      ≡ done (perf_header 1700000000 ++ numbered symbol_of 1 (stacks_of samples)))
    × (length (stacks_of samples) ≡ sum_of samples)
export_perf_script-numbered_example =
    export_perf_script-numbered (λ pc. done (symbol_of pc)) symbol_of 1700000000 samples
      (λ pc. refl)
