-- ===== src/Dwarf/Units.antt =====
-- `parse_compilation_unit`, `parse_from_object` and `parse_from_memory` of dwarf_parser.rs, on the units
-- that the library gimli decodes. An error discards the parser, so what was read before it is not kept.
pub mod Named
use golang_profiling.Base.{Bool, Option, none, some, List, [], ◌∷◌, if◌then◌else◌}
use golang_profiling.Dwarf.{
  DwarfParser, LineRow, Attribute, new, parse_line_program, parse_function_die,
}

-- An entry of a unit, in the order of the depth-first walk.
pub record DieEntry : Type 0 where
  pub is_subprogram : Bool
  pub attributes : List Attribute

-- `line_program` is `none` for a unit without one; its rows, and the entries, are `none` where one of
-- them cannot be decoded.
pub record CompilationUnit : Type 0 where
  pub line_program : Option (Option (List LineRow))
  pub entries : Option (List DieEntry)

unfoldable pub parse_line_programs :
    Option (Option (List LineRow)) → DwarfParser → Option DwarfParser
parse_line_programs none p = some p
parse_line_programs (some none) p = none
parse_line_programs (some (some rows)) p = some (parse_line_program rows p)

unfoldable pub parse_entries : List DieEntry → DwarfParser → DwarfParser
parse_entries [] p = p
parse_entries (entry ∷ entries) p =
    parse_entries entries (if entry.is_subprogram then parse_function_die entry.attributes p else p)

unfoldable pub parse_compilation_unit : CompilationUnit → DwarfParser → Option DwarfParser
parse_compilation_unit unit p = elim (parse_line_programs unit.line_program p) [
  | none ↦ none
  | some p' ↦ elim unit.entries [ none ↦ none | some entries ↦ some (parse_entries entries p') ]
]

-- The units, with `none` for one that cannot be decoded.
unfoldable pub parse_units : List (Option CompilationUnit) → DwarfParser → Option DwarfParser
parse_units [] p = some p
parse_units (none ∷ units) p = none
parse_units (some unit ∷ units) p = elim (parse_compilation_unit unit p) [
  | none ↦ none
  | some p' ↦ parse_units units p'
]

-- The sections are `none` where they cannot be loaded. A section that the file does not have is empty,
-- and so are then the units.
unfoldable pub parse_from_object :
    Option (List (Option CompilationUnit)) → DwarfParser → Option DwarfParser
parse_from_object none p = none
parse_from_object (some units) p = parse_units units p

-- The object is `none` where the bytes are no object file.
unfoldable pub parse_from_memory :
    Option (Option (List (Option CompilationUnit))) → DwarfParser → Option DwarfParser
parse_from_memory none p = none
parse_from_memory (some object) p = parse_from_object object p
