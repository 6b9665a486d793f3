-- ===== src/Pclntab/Symbolize.antt =====
-- `Gopclntab::symbolize`: from a pc to its file, line and function.
pub mod Rows
pub mod Correct
pub mod Encoded
pub mod Panics
pub mod Ends
pub mod Safe
use golang_profiling.Base.{
  ℕ, zero, suc, ◌-◌, ◌/◌, not, Option, none, some, [], ltb, leb, ◌==◌, if◌then◌else◌,
}
use golang_profiling.Base.Bytes.{Bytes, i32_as_usize}
use golang_profiling.Base.Words.{add64, mul64, add32}
use golang_profiling.Base.Run.{Run, done, stuck, ◌>>=◌}
use golang_profiling.Pclntab.Header.{go1_16}
use golang_profiling.Pclntab.Read.{get_int32, get_string}
use golang_profiling.Pclntab.Parse.{Gopclntab}
use golang_profiling.Pclntab.Table.{PclntabFunc, get_func_map_entry, get_func}
use golang_profiling.Pclntab.Pcvalue.{map_pcval}

-- The `while left < right` loop: the first row past `pc`.
unfoldable pub search_loop : ℕ → Gopclntab → ℕ → ℕ → ℕ → Run ℕ
search_loop zero g pc left right = stuck
search_loop (suc fuel) g pc left right =
    let mid = add64 left right / 2 in
    let lower = search_loop fuel g pc left mid in
    let upper = search_loop fuel g pc (add64 mid 1) right in
    if ltb left right
    then (do row ← get_func_map_entry g mid; if ltb pc row.0 then lower else upper)
    else done left

-- The range shrinks in each round.
unfoldable pub search_rows : Gopclntab → ℕ → Run ℕ
search_rows g pc = search_loop (suc g.num_funcs) g pc 0 g.num_funcs

-- The source file, the line and the function.
pub record Symbol : Type 0 where
  pub file : Bytes
  pub line : ℕ
  pub name : Bytes

abbrev pub no_symbol : Symbol
no_symbol = record { file = []; line = 0; name = [] }

unfoldable pub read_file_name : Gopclntab → Option ℕ → Bytes
read_file_name g none = []
read_file_name g (some offset) = get_string g.filetab (i32_as_usize offset)

-- The file of the index that the pc-value table gives.
unfoldable pub file_at : Gopclntab → PclntabFunc → Option ℕ → Run Bytes
file_at g func none = done []
file_at g func (some index) = do
  let file_index = if leb go1_16 g.version then add32 index func.npc_data else index
  file_offset ← get_int32 g.cutab (mul64 4 (i32_as_usize file_index))
  done (read_file_name g file_offset)

unfoldable pub source_file : Gopclntab → PclntabFunc → ℕ → ℕ → Run Bytes
source_file g func func_pc pc =
    if func.pcfile_off == 0
    then done []
    else do index ← map_pcval g func.pcfile_off func_pc pc; file_at g func index

abbrev pub or_zero : Option ℕ → ℕ
or_zero none = 0
or_zero (some n) = n

unfoldable pub line_number : Gopclntab → PclntabFunc → ℕ → ℕ → Run ℕ
line_number g func func_pc pc =
    if func.pcln_off == 0
    then done 0
    else do line ← map_pcval g func.pcln_off func_pc pc; done (or_zero line)

-- The function found, if its data agrees with its row about the entry pc.
unfoldable pub describe : Gopclntab → ℕ → ℕ → Option (ℕ × PclntabFunc) → Run Symbol
describe g pc map_pc none = done no_symbol
describe g pc map_pc (some (func_pc, func)) = if not (map_pc == func_pc) then done no_symbol else do
  file ← source_file g func func_pc pc
  line ← line_number g func func_pc pc
  done (record {
    file = file;
    line = line;
    name = get_string g.funcnametab (i32_as_usize func.name_off);
  })

unfoldable pub symbolize_row : Gopclntab → ℕ → ℕ → Run Symbol
symbolize_row g pc left =
    if left == 0
    then done no_symbol
    else do row ← get_func_map_entry g (left - 1); func ← get_func g row.1; describe g pc row.0 func

unfoldable pub symbolize : Gopclntab → ℕ → Run Symbol
symbolize g pc = do left ← search_rows g pc; symbolize_row g pc left
