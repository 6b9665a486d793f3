-- ===== src/Pclntab/Symbolize/Ends.antt =====
-- The loops of `symbolize`, on any bytes: a parser with fewer than 2^63 functions is asked for.
use golang_profiling.Base.{
  ℕ, zero, suc, ◌+◌, ◌-◌, ◌/◌, ◌<◌, ◌≡◌, inl, inr, not, Option, none, some, [], arith, ltb, leb,
  ◌==◌, Bool-cases, length, drop,
}
use golang_profiling.Base.Bytes.{Bytes, from_le}
use golang_profiling.Base.Words.{add64, add64_exact, mul64}
use golang_profiling.Base.Run.{slice_from-Ends, done, panic, Ends, Ends-bind, Ends-if, slice_from}
use golang_profiling.Pclntab.Header.{go1_18}
use golang_profiling.Pclntab.Read.{get_int32}
use golang_profiling.Pclntab.Parse.{Gopclntab}
use golang_profiling.Pclntab.Table.{
  PclntabFunc, func_struct_size, read_word, entry118, entry_old, get_func_map_entry,
  get_func_struct, get_func118, get_func_old, get_func,
}
use golang_profiling.Pclntab.Pcvalue.{map_pcval}
use golang_profiling.Pclntab.Pcvalue.Ends.{map_pcval-Ends}
use golang_profiling.Pclntab.Symbolize.{
  search_loop, search_rows, file_at, source_file, line_number, describe, symbolize_row, symbolize,
}

get_func_map_entry-Ends : (g : Gopclntab) (index : ℕ) → Ends (get_func_map_entry g index)
unfolding get_func_map_entry entry118 entry_old
get_func_map_entry-Ends g index =
    let offset = mul64 index g.func_map_size in
    Ends-if (leb go1_18 g.version) (entry118 g offset) (entry_old g offset)
      (Ends-if (leb (add64 offset 8) (length g.functab)) _ (done (0, 0))
        (Ends-bind (slice_from g.functab offset) _ (slice_from-Ends g.functab offset) (λ row. tt))
        tt)
      (Ends-if (leb (add64 offset 16) (length g.functab)) _ (done (0, 0))
        (Ends-bind (slice_from g.functab offset) _ (slice_from-Ends g.functab offset) (λ row. tt))
        tt)

search_loop-Ends :
    (fuel : ℕ) (g : Gopclntab) (pc left right : ℕ)
    → right < 0x8000_0000_0000_0000
    → right - left < fuel
    → Ends (search_loop fuel g pc left right)
unfolding search_loop
search_loop-Ends zero g pc left right small h = omega arith
search_loop-Ends (suc fuel) g pc left right small h = elim (Bool-cases (ltb left right)) [
  | inr e ↦ rw e tt
  | inl e ↦
      let lt : left < right = ground (arith, e) in
      let exact : add64 left right ≡ left + right = add64_exact left right (omega arith) in
      let up : add64 ((left + right) / 2) 1 ≡ (left + right) / 2 + 1 =
        add64_exact _ 1 (omega arith) in
      rw (e, exact, up)
        (Ends-bind (get_func_map_entry g ((left + right) / 2)) _ (get_func_map_entry-Ends g _)
          (λ row.
            Ends-if (ltb pc row.0) _ _
              (search_loop-Ends fuel g pc left ((left + right) / 2) (omega arith) (omega arith))
              (search_loop-Ends fuel g pc ((left + right) / 2 + 1) right small (omega arith))))
]

read_word-Ends : (n : ℕ) (bs : Bytes) (offset : ℕ) → Ends (read_word n bs offset)
unfolding read_word
read_word-Ends n bs offset =
    Ends-if (leb (offset + n) (length bs)) (done (from_le n (drop offset bs))) panic tt tt

get_func_struct-Ends : (g : Gopclntab) (func_off pc : ℕ) → Ends (get_func_struct g func_off pc)
unfolding get_func_struct
get_func_struct-Ends g func_off pc =
    Ends-if (ltb (length g.funcdata) (add64 func_off func_struct_size)) (done none) _ tt (
      Ends-bind (slice_from g.funcdata func_off) _ (slice_from-Ends g.funcdata func_off)
        (λ row. tt))

get_func-Ends : (g : Gopclntab) (func_off : ℕ) → Ends (get_func g func_off)
unfolding get_func get_func118 get_func_old
get_func-Ends g func_off =
    Ends-if (ltb (length g.funcdata) (add64 func_off g.fun_size)) (done none) _ tt (
      Ends-if (leb go1_18 g.version) (get_func118 g func_off) (get_func_old g func_off)
        (Ends-if (ltb (length g.funcdata) (add64 func_off 4)) (done none) _ tt (
          Ends-bind (read_word 4 g.funcdata func_off) _ (read_word-Ends 4 g.funcdata func_off)
            (λ pc_offset. get_func_struct-Ends g _ _)))
        (Ends-if (ltb (length g.funcdata) (add64 func_off 8)) (done none) _ tt (
          Ends-bind (read_word 8 g.funcdata func_off) _ (read_word-Ends 8 g.funcdata func_off)
            (λ pc. get_func_struct-Ends g _ _))))

get_int32-Ends : (bs : Bytes) (offset : ℕ) → Ends (get_int32 bs offset)
unfolding get_int32
get_int32-Ends bs offset =
    Ends-if (leb (add64 offset 4) (length bs)) _ (done none)
      (Ends-if (leb (offset + 4) (length bs)) (done (some (from_le 4 (drop offset bs)))) panic tt
        tt)
      tt

pub file_at-Ends : (g : Gopclntab) (func : PclntabFunc) (o : Option ℕ) → Ends (file_at g func o)
unfolding file_at
file_at-Ends g func none = tt
file_at-Ends g func (some index) =
    Ends-bind (get_int32 g.cutab _) _ (get_int32-Ends g.cutab _) (λ offset. tt)

source_file-Ends :
    (g : Gopclntab) (func : PclntabFunc) (func_pc pc : ℕ) → Ends (source_file g func func_pc pc)
unfolding source_file
source_file-Ends g func func_pc pc = Ends-if (func.pcfile_off == 0) (done []) _ tt (
    Ends-bind (map_pcval g func.pcfile_off func_pc pc) _
      (map_pcval-Ends g func.pcfile_off func_pc pc) (file_at-Ends g func))

line_number-Ends :
    (g : Gopclntab) (func : PclntabFunc) (func_pc pc : ℕ) → Ends (line_number g func func_pc pc)
unfolding line_number
line_number-Ends g func func_pc pc = Ends-if (func.pcln_off == 0) (done 0) _ tt (
    Ends-bind (map_pcval g func.pcln_off func_pc pc) _ (map_pcval-Ends g func.pcln_off func_pc pc)
      (λ line. tt))

describe-Ends :
    (g : Gopclntab) (pc map_pc : ℕ) (o : Option (ℕ × PclntabFunc)) → Ends (describe g pc map_pc o)
unfolding describe
describe-Ends g pc map_pc none = tt
describe-Ends g pc map_pc (some (func_pc, func)) = Ends-if (not (map_pc == func_pc)) (done _) _ tt (
    Ends-bind (source_file g func func_pc pc) _ (source_file-Ends g func func_pc pc) (λ file.
      Ends-bind (line_number g func func_pc pc) _ (line_number-Ends g func func_pc pc)
        (λ line. tt)))

symbolize_row-Ends : (g : Gopclntab) (pc left : ℕ) → Ends (symbolize_row g pc left)
unfolding symbolize_row
symbolize_row-Ends g pc left = Ends-if (left == 0) (done _) _ tt (
    Ends-bind (get_func_map_entry g (left - 1)) _ (get_func_map_entry-Ends g (left - 1))
      (λ row. Ends-bind (get_func g row.1) _ (get_func-Ends g row.1) (describe-Ends g pc row.0)))

pub symbolize-Ends :
    (g : Gopclntab) (pc : ℕ) → g.num_funcs < 0x8000_0000_0000_0000 → Ends (symbolize g pc)
unfolding symbolize search_rows
symbolize-Ends g pc small =
    Ends-bind (search_rows g pc) (symbolize_row g pc)
      (search_loop-Ends (suc g.num_funcs) g pc 0 g.num_funcs small (omega arith))
      (symbolize_row-Ends g pc)
