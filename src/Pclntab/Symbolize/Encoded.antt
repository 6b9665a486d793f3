-- ===== src/Pclntab/Symbolize/Encoded.antt =====
-- `symbolize` on a table that a linker has written: rows, function data, lines and files, each encoded.
use golang_profiling.Pclntab.Symbolize.Rows.{IsTable, Splits}
use golang_profiling.Pclntab.Symbolize.Correct.{symbolize_lem}
use golang_profiling.Pclntab.Table.{PclntabFunc, get_func}
use golang_profiling.Pclntab.Header.{go1_18, go1_16}
use golang_profiling.Pclntab.Table.Func.{encode_words, func_words, get_func-encode118}
use golang_profiling.Base.{
  suc, drop, All, ℕ, ◌+◌, ◌-◌, ◌*◌, ◌≤◌, ◌<◌, ◌≡◌, some, List, ◌++◌, arith, length,
}
use golang_profiling.Base.Bytes.{to_le, Bytes, i32_as_usize, u32_mod}
use golang_profiling.Base.Words.{add64, add32, mul64_exact}
use golang_profiling.Base.Run.{done}
use golang_profiling.Pclntab.Read.{get_string, get_int32}
use golang_profiling.Pclntab.Parse.{Gopclntab}
use golang_profiling.Pclntab.Pcvalue.Lookup.{Row, encode_rows, value_at, Fits, map_pcval-rows}
use golang_profiling.Pclntab.Symbolize.{
  symbolize, or_zero, read_file_name, file_at, source_file, line_number,
}

-- The pc-value table at an offset encodes the rows.
abbrev pub Holds : Gopclntab → ℕ → ℕ → List Row → Type 0
Holds g off start rows =
    (front : Bytes) × (back : Bytes) × (g.pctab ≡ front ++ encode_rows (u32_mod - 1) rows back)
    × (length front ≡ off)
    × (0 < off)
    × (off < 0x8000_0000)
    × Fits g.quantum (u32_mod - 1) start rows

module _ (g : Gopclntab) (func : PclntabFunc) (start pc : ℕ) (after : start ≤ pc) where
  pub line_number-rows :
      (rows : List Row)
      → Holds g func.pcln_off start rows
      → line_number g func start pc ≡ done (or_zero (value_at g.quantum start rows pc))
  unfolding line_number
  line_number-rows rows (front, back, e, at, pos, small, fits) =
      ground (arith, map_pcval-rows g front back rows start pc e (omega arith) fits after, at)

  -- The index of the file is relative to the function's compilation unit.
  pub source_file-rows :
      (rows : List Row) (index offset : ℕ)
      → Holds g func.pcfile_off start rows
      → go1_16 ≤ g.version
      → value_at g.quantum start rows pc ≡ some index
      → index + func.npc_data < 0x8000_0000
      → get_int32 g.cutab (4 * (index + func.npc_data)) ≡ done (some offset)
      → source_file g func start pc ≡ done (get_string g.filetab (i32_as_usize offset))
  unfolding source_file file_at read_file_name add32 i32_as_usize
  source_file-rows rows index offset (front, back, e, at, pos, small, fits) v found low read =
      ground (
        arith,
        map_pcval-rows g front back rows start pc e (omega arith) fits after,
        at,
        mul64_exact 4 (index + func.npc_data) (omega arith),
      )

-- On a table of Go 1.18 or later that the search can use: if the data of the last function that
-- begins at or before the pc is encoded at the offset of its row, its file and line tables encode
-- lists of rows that fit, the file table gives an index for the pc, and the file's offset can be
-- read at that index plus the function's own (a sum below 2^31), then `symbolize` returns the file
-- name at that offset, the line that the list of lines gives for the pc (0 for none), and the
-- function's name.
pub symbolize-encode118 :
    (g : Gopclntab) (row : ℕ → ℕ × ℕ) (pc left off entry : ℕ) (func : PclntabFunc) (rest : Bytes)
    (files lines : List Row) (index offset : ℕ)
    → IsTable g row
    → Splits row g.num_funcs pc (suc left)
    → row left ≡ (add64 g.text_start entry, off)
    → go1_18 ≤ g.version
    → g.fun_size ≡ 36
    → length g.funcdata < 0x8000_0000_0000_0000
    → off < length g.funcdata
    → drop off g.funcdata ≡ to_le 4 entry ++ encode_words (func_words func) rest
    → entry < u32_mod
    → All (λ y. y < u32_mod) (func_words func)
    → Holds g func.pcfile_off (row left).0 files
    → value_at g.quantum (row left).0 files pc ≡ some index
    → index + func.npc_data < 0x8000_0000
    → get_int32 g.cutab (4 * (index + func.npc_data)) ≡ done (some offset)
    → Holds g func.pcln_off (row left).0 lines
    → symbolize g pc
      ≡ done (record {
        file = get_string g.filetab (i32_as_usize offset);
        line = or_zero (value_at g.quantum (row left).0 lines pc);
        name = get_string g.funcnametab (i32_as_usize func.name_off);
      })
symbolize-encode118 g row pc left off entry func rest files lines index offset t s e v size small
      inside bytes fits words hf found low read hl =
    let after : (row left).0 ≤ pc = s.1 left (omega arith) in
    let got : get_func g (row left).1 ≡ done (some ((row left).0, func)) =
      rw e (get_func-encode118 g off entry func rest v size small inside bytes fits words) in
    symbolize_lem g row pc t left func (get_string g.filetab (i32_as_usize offset))
      (or_zero (value_at g.quantum (row left).0 lines pc)) s got
      (source_file-rows g func (row left).0 pc after files index offset hf (omega arith) found low
        read)
      (line_number-rows g func (row left).0 pc after lines hl)
