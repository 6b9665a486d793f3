-- ===== src/Examples/Profiles.antt =====
-- Function tables, debug information, and flame graphs.
use golang_profiling.Base.{
  ℕ, zero, suc, ◌+◌, ◌≡◌, refl, none, List, [], ◌∷◌, map, arith, if◌then◌else◌,
}
use golang_profiling.Base.Bytes.{Bytes}
use golang_profiling.Base.Run.{Returns}
use golang_profiling.Base.Words.{add64}
use golang_profiling.Base.AddrMap.{lookup, map_option}
use golang_profiling.Base.AddrMap.Closest.{SameMap}
use golang_profiling.Resolver.FuncTable.{FuncInfo, find_function_by_pc}
use golang_profiling.Resolver.FuncTable.Search.{IsSorted, Located, find_function_by_pc-Located}
use golang_profiling.Dwarf.{
  high_from, read_attribute, SourceLocation, DwarfParser, Attribute, parse_function_die,
  set_function_name, get_location, get_nearest_location, is_address_in_function, read_attributes,
  ranges_of,
}
use golang_profiling.Dwarf.Functions.{
  parse_function_die-marks, get_nearest_location-SameMap, IsNearest, get_nearest_location-IsNearest,
}
use golang_profiling.Flame.{new, to_folded}
use golang_profiling.Flame.Totals.{add_all, sample_total, inner_total}
use golang_profiling.Flame.Lines.{show_row, row_total, to_folded-add_all}

abbrev table : List FuncInfo
table =
    record { entry = 16; name_off = 0; file_off = 0; line = 0 }
    ∷ record { entry = 64; name_off = 5; file_off = 0; line = 0 }
    ∷ []

table-IsSorted : IsSorted table
table-IsSorted zero zero f g p q r = ground arith
table-IsSorted zero (suc zero) f g p q r = ground arith
table-IsSorted (suc zero) (suc zero) f g p q r = ground arith
table-IsSorted (suc i) zero f g p q r = absurd (omega arith)
table-IsSorted (suc (suc i)) (suc zero) f g p q r = absurd (omega arith)
table-IsSorted i (suc (suc j)) f g p q r = absurd (cc)

find_function_by_pc-Located_example : Returns (find_function_by_pc table 40) (Located table 40)
find_function_by_pc-Located_example = find_function_by_pc-Located table 40 table-IsSorted

-- "main.f" and "g".
abbrev stack : List Bytes
stack = (109 ∷ 46 ∷ 102 ∷ []) ∷ (103 ∷ []) ∷ []

abbrev samples : List (List Bytes × ℕ)
samples = (stack, 7) ∷ ((109 ∷ 46 ∷ 102 ∷ []) ∷ [], 2) ∷ []

to_folded-add_all_example :
    (rows : List (Bytes × ℕ)) × (to_folded (add_all samples (new [])) [] ≡ map show_row rows)
    × (row_total rows + inner_total (add_all samples (new [])) ≡ sample_total samples)
unfolding sample_total
to_folded-add_all_example = to_folded-add_all samples [] [] (omega arith)

abbrev at_four : SourceLocation
at_four = record { file_path = 97 ∷ []; line = 3; column = 0; function_name = none }

abbrev at_nine : SourceLocation
at_nine = record { file_path = 98 ∷ []; line = 5; column = 2; function_name = none }

abbrev parsed : DwarfParser
parsed = record { address_to_location = (4, at_four) ∷ (9, at_nine) ∷ []; function_ranges = [] }

abbrev parsed_other : DwarfParser
parsed_other = record {
  address_to_location = (9, at_nine) ∷ (4, at_four) ∷ [];
  function_ranges = [];
}

either_order : SameMap parsed.address_to_location parsed_other.address_to_location
unfolding lookup
either_order k = ground arith

get_nearest_location-SameMap_example :
    get_nearest_location parsed 7 ≡ get_nearest_location parsed_other 7
get_nearest_location-SameMap_example =
    get_nearest_location-SameMap parsed parsed_other 7 either_order

get_nearest_location-IsNearest_example : IsNearest parsed 7 (get_nearest_location parsed 7)
get_nearest_location-IsNearest_example = get_nearest_location-IsNearest parsed 7

-- `main`, from 4 up to 8.
abbrev attributes : List Attribute
attributes = Attribute.name (109 ∷ []) ∷ Attribute.low_pc 4 ∷ Attribute.high_pc_offset 4 ∷ []

parse_function_die-marks_example : get_location (parse_function_die attributes parsed) 9 ≡ (
    if is_address_in_function (parse_function_die attributes parsed) 9 (109 ∷ [])
    then map_option (set_function_name (109 ∷ [])) (get_location parsed 9)
    else get_location parsed 9)
unfolding read_attributes read_attribute ranges_of high_from add64
parse_function_die-marks_example =
    parse_function_die-marks attributes parsed (109 ∷ []) (4, 8) [] 9 refl refl
