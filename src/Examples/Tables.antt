-- ===== src/Examples/Tables.antt =====
-- A table of two functions in the format of Go 1.18, and the symbols found in it.
use golang_profiling.Base.{
  ℕ, zero, suc, ◌+◌, ◌-◌, ◌*◌, ◌≤◌, ◌<◌, ◌≡◌, refl, some, List, [], ◌∷◌, ◌++◌, arith, length,
  get_or, All,
}
use golang_profiling.Base.Bytes.{from_le, Bytes, i32_as_usize, to_le, u32_mod}
use golang_profiling.Base.Words.{add64}
use golang_profiling.Base.Run.{done, Returns}
use golang_profiling.Pclntab.Read.{get_int32, get_string}
use golang_profiling.Pclntab.Parse.{Gopclntab}
use golang_profiling.Pclntab.Table.{PclntabFunc, get_func}
use golang_profiling.Pclntab.Table.Encoding.{encode_table, RowsFit}
use golang_profiling.Pclntab.Table.Func.{encode_words, func_words, get_func-encode118}
use golang_profiling.Pclntab.Pcvalue.{map_pcval}
use golang_profiling.Pclntab.Pcvalue.Encoding.{encode_groups, encode_int}
use golang_profiling.Pclntab.Pcvalue.Lookup.{
  delta, Fits, Row, encode_rows, value_at, map_pcval-rows,
}
use golang_profiling.Pclntab.Symbolize.{or_zero, search_rows, source_file, line_number, symbolize}
use golang_profiling.Pclntab.Symbolize.Rows.{IsTable, Splits, search_rows-Splits}
use golang_profiling.Pclntab.Symbolize.Encoded.{Holds, symbolize-encode118}
use golang_profiling.Pclntab.Symbolize.Correct.{row118, encode_table-IsTable, symbolize_lem}

abbrev rows : List (ℕ × ℕ)
rows = (0, 40) ∷ (32, 0) ∷ []

-- "main" and the end mark.
abbrev names : Bytes
names = 109 ∷ 97 ∷ 105 ∷ 110 ∷ 0 ∷ []

abbrev pub func : PclntabFunc
func = record {
  name_off = 0;
  args_size = 0;
  frame_size = 0;
  pcsp_off = 0;
  pcfile_off = 0;
  pcln_off = 1;
  nfunc_data = 0;
  npc_data = 0;
}

-- Line 7 for 16 bytes, then line 9 for 16.
abbrev lines : List Row
lines = record { value = 7; width = 16 } ∷ record { value = 9; width = 16 } ∷ []

abbrev pub g : Gopclntab
g = record {
  bytes = [];
  text_start = 4096;
  num_funcs = 2;
  version = 18;
  quantum = 1;
  ptr_size = 8;
  fun_size = 36;
  func_map_size = 8;
  functab = encode_table 4 rows [];
  funcdata = to_le 4 32 ++ encode_words (func_words func) [];
  funcnametab = names;
  filetab = [];
  pctab = (0 ∷ []) ++ encode_rows (u32_mod - 1) lines [];
  cutab = [];
}

rows_fit : RowsFit 4 rows
rows_fit = ((omega arith, omega arith), ((omega arith, omega arith), tt))

rows_ascend :
    (i j : ℕ) → i ≤ j → j < length rows → (get_or rows i (0, 0)).0 ≤ (get_or rows j (0, 0)).0
rows_ascend zero zero p h = omega arith
rows_ascend zero (suc zero) p h = omega arith
rows_ascend (suc i) zero p h = absurd (omega arith)
rows_ascend (suc zero) (suc zero) p h = omega arith
rows_ascend (suc (suc i)) (suc zero) p h = absurd (omega arith)
rows_ascend i (suc (suc j)) p h = absurd (omega arith)

table : IsTable g (row118 g rows)
unfolding encode_table to_le
table =
    encode_table-IsTable g rows [] (omega arith) refl (omega arith) refl rows_fit (omega arith)
      (omega arith) (omega arith) rows_ascend

encode_table-IsTable_example : IsTable g (row118 g rows)
unfolding encode_table to_le
encode_table-IsTable_example =
    encode_table-IsTable g rows [] (omega arith) refl (omega arith) refl rows_fit (omega arith)
      (omega arith) (omega arith) rows_ascend

search_rows-Splits_example : Returns (search_rows g 4150) (Splits (row118 g rows) 2 4150)
search_rows-Splits_example = search_rows-Splits g (row118 g rows) 4150 table

row_at : (i : ℕ) → i < 2 → (row118 g rows i).0 ≡ 4096 + 32 * i
unfolding add64
row_at zero h = refl
row_at (suc zero) h = refl
row_at (suc (suc i)) h = absurd (omega arith)

second_split : Splits (row118 g rows) 2 4150 2
second_split = (omega arith, λ i h. omega (arith, row_at i h), λ i p h. absurd (omega arith))

func_fits : All (λ y. y < u32_mod) (func_words func)
func_fits = (
  omega arith,
  (
    omega arith,
    (omega arith, (omega arith, (omega arith, (omega arith, (omega arith, (omega arith, tt)))))),
  ),
)

found : get_func g 0 ≡ done (some (4128, func))
unfolding add64 encode_words to_le
found =
    get_func-encode118 g 0 32 func [] (omega arith) refl (omega arith) (omega arith) refl
      (omega arith) func_fits

lines_fit : Fits 1 (u32_mod - 1) 4128 lines
lines_fit = (
  omega arith,
  (λ e. omega arith),
  omega arith,
  omega arith,
  omega arith,
  (omega arith, (λ e. omega arith), omega arith, omega arith, omega arith, tt),
)

map_pcval-rows_example : map_pcval g 1 4128 4150 ≡ done (value_at 1 4128 lines 4150)
map_pcval-rows_example =
    map_pcval-rows g (0 ∷ []) [] lines 4128 4150 refl (omega arith) lines_fit (omega arith)

line_nine : line_number g func 4128 4150 ≡ done 9
unfolding line_number value_at
line_nine =
    rw (map_pcval-rows g (0 ∷ []) [] lines 4128 4150 refl (omega arith) lines_fit (omega arith))
      refl

no_file : source_file g func 4128 4150 ≡ done []
unfolding source_file
no_file = refl

symbolize_lem_example :
    symbolize g 4150
    ≡ done (record { file = []; line = 9; name = get_string names (i32_as_usize 0) })
unfolding add64
symbolize_lem_example =
    symbolize_lem g (row118 g rows) 4150 table 1 func [] 9 second_split found no_file line_nine

-- The table with a file: index 0 up to pc 4160, whose name stands at offset 1 of the file table.
abbrev filed_func : PclntabFunc
filed_func = record func { pcfile_off = 1; pcln_off = 4 }

abbrev files : List Row
files = record { value = 0; width = 32 } ∷ []

abbrev filed : Gopclntab
filed = record g {
  funcdata = to_le 4 32 ++ encode_words (func_words filed_func) [];
  filetab = 0 ∷ 103 ∷ 111 ∷ 0 ∷ [];
  pctab = (0 ∷ []) ++ encode_rows (u32_mod - 1) files (encode_rows (u32_mod - 1) lines []);
  cutab = to_le 4 1;
}

filed_table : IsTable filed (row118 filed rows)
unfolding encode_table to_le
filed_table =
    encode_table-IsTable filed rows [] (omega arith) refl (omega arith) refl rows_fit (omega arith)
      (omega arith) (omega arith) rows_ascend

filed_fits : All (λ y. y < u32_mod) (func_words filed_func)
filed_fits = func_fits_filed
  where
    func_fits_filed : All (λ y. y < u32_mod) (func_words filed_func)
    func_fits_filed = (
      omega arith,
      (
        omega arith,
        (
          omega arith,
          (omega arith, (omega arith, (omega arith, (omega arith, (omega arith, tt))))),
        ),
      ),
    )

files_held : Holds filed 1 4128 files
files_held = (
  0 ∷ [],
  encode_rows (u32_mod - 1) lines [],
  refl,
  refl,
  omega arith,
  omega arith,
  (omega arith, (λ e. omega arith), omega arith, omega arith, omega arith, tt),
)

lines_held : Holds filed 4 4128 lines
unfolding encode_rows encode_int encode_groups delta
lines_held = (0 ∷ 2 ∷ 32 ∷ 0 ∷ [], [], refl, refl, omega arith, omega arith, lines_fit)

symbolize-encode118_example :
    symbolize filed 4150
    ≡ done (record {
      file = get_string (0 ∷ 103 ∷ 111 ∷ 0 ∷ []) (i32_as_usize 1);
      line = or_zero (value_at 1 4128 lines 4150);
      name = get_string names (i32_as_usize 0);
    })
unfolding add64 encode_words to_le value_at get_int32 from_le
symbolize-encode118_example =
    symbolize-encode118 filed (row118 filed rows) 4150 1 0 32 filed_func [] files lines 0 1
      filed_table second_split refl (omega arith) refl (omega arith) (omega arith) refl
      (omega arith) filed_fits files_held refl (omega arith) refl lines_held
