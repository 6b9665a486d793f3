-- ===== src/Pclntab/Table/Lookup.antt =====
-- `get_func_map_entry` on an encoded table gives the row, in both formats; so a sorted list of rows
-- makes a table that the binary search can use.
use golang_profiling.Base.{
  ℕ, suc, ◌+◌, ◌*◌, ◌^◌, ◌≤◌, ◌<◌, ◌≡◌, refl, some, List, arith, length, get_elem?, drop,
  drop-get_elem?, All-get_elem?, get_elem?-length,
}
use golang_profiling.Base.Bytes.{Bytes}
use golang_profiling.Base.Words.{add64, add64_exact, mul64_exact}
use golang_profiling.Base.Run.{done, slice_from}
use golang_profiling.Pclntab.Header.{go1_18, field_at}
use golang_profiling.Pclntab.Parse.{Gopclntab}
use golang_profiling.Pclntab.Table.{
  entry118, entry_old, get_func_map_entry, read_func_map118, read_func_map,
}
use golang_profiling.Pclntab.Table.Encoding.{
  encode_table, RowsFit, drop-encode_table, length-encode_table, first_row,
}

-- Row `i` stands at the head of what is left behind `i` rows.
row_bytes :
    (w : ℕ) (rows : List (ℕ × ℕ)) (back : Bytes) (i : ℕ) {pc off : ℕ}
    → RowsFit w rows
    → get_elem? rows i ≡ some (pc, off)
    → (field_at w 0 (drop (i * (w + w)) (encode_table w rows back)) ≡ pc)
      × (field_at w w (drop (i * (w + w)) (encode_table w rows back)) ≡ off)
row_bytes w rows back i {pc} {off} fit h =
    let bound = get_elem?-length rows i (pc, off) h in
    let ok = All-get_elem? (λ r. (r.0 < 256 ^ w) × (r.1 < 256 ^ w)) rows i fit h in
    rw (drop-encode_table w i (i * (w + w)) rows back refl (omega arith), drop-get_elem? rows i h)
      (first_row w pc off (drop (suc i) rows) back ok.0 ok.1)

module _ (g : Gopclntab) (rows : List (ℕ × ℕ)) (back : Bytes)
    (small : length g.functab < 0x8000_0000_0000_0000) where
  -- In the format of Go 1.18 and later, `get_func_map_entry` reads row `i` of an encoded table
  -- shorter than 2^63 bytes back, its pc made absolute by the text address.
  pub get_func_map_entry-encode118 :
      (i : ℕ) {pc off : ℕ}
      → go1_18 ≤ g.version
      → g.func_map_size ≡ 8
      → g.functab ≡ encode_table 4 rows back
      → RowsFit 4 rows
      → get_elem? rows i ≡ some (pc, off)
      → get_func_map_entry g i ≡ done (add64 g.text_start pc, off)
  unfolding get_func_map_entry entry118 slice_from read_func_map118
  get_func_map_entry-encode118 i {pc} {off} v size e fit h =
      let bound = get_elem?-length rows i (pc, off) h in
      let len : length g.functab ≡ length rows * 8 + length back =
        rw e (length-encode_table 4 rows back) in
      let bytes = row_bytes 4 rows back i fit h in
      ground (arith, mul64_exact i 8 (omega arith), add64_exact (i * 8) 8 (omega arith), bytes, len)

  -- In the formats before Go 1.18, `get_func_map_entry` reads row `i` of an encoded table shorter
  -- than 2^63 bytes back as it is.
  pub get_func_map_entry-encode_old :
      (i : ℕ) {pc off : ℕ}
      → g.version < go1_18
      → g.func_map_size ≡ 16
      → g.functab ≡ encode_table 8 rows back
      → RowsFit 8 rows
      → get_elem? rows i ≡ some (pc, off)
      → get_func_map_entry g i ≡ done (pc, off)
  unfolding get_func_map_entry entry_old slice_from read_func_map
  get_func_map_entry-encode_old i {pc} {off} v size e fit h =
      let bound = get_elem?-length rows i (pc, off) h in
      let len : length g.functab ≡ length rows * 16 + length back =
        rw e (length-encode_table 8 rows back) in
      let bytes = row_bytes 8 rows back i fit h in
      ground
        (arith, mul64_exact i 16 (omega arith), add64_exact (i * 16) 16 (omega arith), bytes, len)
