-- ===== src/Pclntab/Table.antt =====
-- `get_func_map_entry` and `get_func`.
pub mod Encoding
pub mod Func
pub mod Lookup
use golang_profiling.Base.{ℕ, ◌+◌, Option, none, some, ltb, leb, if◌then◌else◌, length, drop}
use golang_profiling.Base.Bytes.{Bytes, from_le}
use golang_profiling.Base.Words.{add64, mul64}
use golang_profiling.Base.Run.{Run, done, panic, ◌>>=◌, slice_from}
use golang_profiling.Pclntab.Header.{go1_18, field_at}
use golang_profiling.Pclntab.Parse.{Gopclntab}

-- A row of the function table in the compact format: two `u32`.
pub record PclntabFuncMap118 : Type 0 where
  pub pc : ℕ
  pub func_off : ℕ

-- The same in the older format: two `usize`.
pub record PclntabFuncMap : Type 0 where
  pub pc : ℕ
  pub func_off : ℕ

unfoldable pub read_func_map118 : Bytes → PclntabFuncMap118
read_func_map118 bs = record { pc = field_at 4 0 bs; func_off = field_at 4 4 bs }

unfoldable pub read_func_map : Bytes → PclntabFuncMap
read_func_map bs = record { pc = field_at 8 0 bs; func_off = field_at 8 8 bs }

-- The row at `offset` in each format, which the bounds test has found inside the table.
unfoldable pub entry118 : Gopclntab → ℕ → Run (ℕ × ℕ)
entry118 g offset =
    if leb (add64 offset 8) (length g.functab)
    then (do
      row ← slice_from g.functab offset
      let fmap = read_func_map118 row
      done (add64 g.text_start fmap.pc, fmap.func_off))
    else done (0, 0)

unfoldable pub entry_old : Gopclntab → ℕ → Run (ℕ × ℕ)
entry_old g offset =
    if leb (add64 offset 16) (length g.functab)
    then (do
      row ← slice_from g.functab offset
      let fmap = read_func_map row
      done (fmap.pc, fmap.func_off))
    else done (0, 0)

unfoldable pub get_func_map_entry : Gopclntab → ℕ → Run (ℕ × ℕ)
get_func_map_entry g index =
    let offset = mul64 index g.func_map_size in
    if leb go1_18 g.version then entry118 g offset else entry_old g offset

-- The common portion of a function's data: eight `i32`.
pub record PclntabFunc : Type 0 where
  pub name_off : ℕ
  pub args_size : ℕ
  pub frame_size : ℕ
  pub pcsp_off : ℕ
  pub pcfile_off : ℕ
  pub pcln_off : ℕ
  pub nfunc_data : ℕ
  pub npc_data : ℕ

abbrev pub func_struct_size : ℕ
func_struct_size = 32

unfoldable pub read_func : Bytes → PclntabFunc
read_func bs = record {
  name_off = field_at 4 0 bs;
  args_size = field_at 4 4 bs;
  frame_size = field_at 4 8 bs;
  pcsp_off = field_at 4 12 bs;
  pcfile_off = field_at 4 16 bs;
  pcln_off = field_at 4 20 bs;
  nfunc_data = field_at 4 24 bs;
  npc_data = field_at 4 28 bs;
}

-- The reads of the entry pc index the slice byte by byte, and panic as `slice_from` does here for
-- `n` bytes at `func_off`.
unfoldable pub read_word : ℕ → Bytes → ℕ → Run ℕ
read_word n bs offset =
    if leb (offset + n) (length bs) then done (from_le n (drop offset bs)) else panic

-- The tail of `get_func`, from the advanced offset on.
unfoldable pub get_func_struct : Gopclntab → ℕ → ℕ → Run (Option (ℕ × PclntabFunc))
get_func_struct g func_off pc =
    if ltb (length g.funcdata) (add64 func_off func_struct_size)
    then done none
    else do row ← slice_from g.funcdata func_off; done (some (pc, read_func row))

-- The entry pc in each format, and the rest behind it.
unfoldable pub get_func118 : Gopclntab → ℕ → Run (Option (ℕ × PclntabFunc))
get_func118 g func_off = if ltb (length g.funcdata) (add64 func_off 4) then done none else do
  pc_offset ← read_word 4 g.funcdata func_off
  get_func_struct g (add64 func_off 4) (add64 g.text_start pc_offset)

unfoldable pub get_func_old : Gopclntab → ℕ → Run (Option (ℕ × PclntabFunc))
get_func_old g func_off =
    if ltb (length g.funcdata) (add64 func_off 8)
    then done none
    else do pc ← read_word 8 g.funcdata func_off; get_func_struct g (add64 func_off g.ptr_size) pc

unfoldable pub get_func : Gopclntab → ℕ → Run (Option (ℕ × PclntabFunc))
get_func g func_off =
    if ltb (length g.funcdata) (add64 func_off g.fun_size)
    then done none
    else if leb go1_18 g.version
    then get_func118 g func_off
    else get_func_old g func_off
