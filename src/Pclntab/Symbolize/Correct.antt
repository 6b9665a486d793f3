-- ===== src/Pclntab/Symbolize/Correct.antt =====
-- `symbolize` as a whole, on a table that the search can use.
use golang_profiling.Base.{
  ℕ, suc, ◌^◌, ◌≤◌, ◌<◌, ◌≡◌, ap, ◌∙◌, ◌≢◌, some, List, arith, length, get_or, All-get_elem?,
  get_elem?-get_or,
}
use golang_profiling.Base.Bytes.{Bytes, i32_as_usize}
use golang_profiling.Base.Words.{add64, add64_exact}
use golang_profiling.Base.Run.{Returns→done, done}
use golang_profiling.Pclntab.Header.{go1_18}
use golang_profiling.Pclntab.Read.{get_string}
use golang_profiling.Pclntab.Parse.{Gopclntab}
use golang_profiling.Pclntab.Table.{PclntabFunc, get_func}
use golang_profiling.Pclntab.Table.Encoding.{encode_table, RowsFit}
use golang_profiling.Pclntab.Table.Lookup.{get_func_map_entry-encode118}
use golang_profiling.Pclntab.Symbolize.{
  no_symbol, search_rows, source_file, line_number, describe, symbolize_row, symbolize,
}
use golang_profiling.Pclntab.Symbolize.Rows.{IsTable, Splits, search_rows-Splits}

-- The split point is unique.
Splits-unique : (row : ℕ → ℕ × ℕ) (n pc l m : ℕ) → Splits row n pc l → Splits row n pc m → l ≡ m
Splits-unique row n pc l m p q = ground (arith, p.1 m, q.2 m, q.1 l, p.2 l)

module _ (g : Gopclntab) (row : ℕ → ℕ × ℕ) (pc : ℕ) (t : IsTable g row) where
  pub search_rows-eq : (left : ℕ) → Splits row g.num_funcs pc left → search_rows g pc ≡ done left
  search_rows-eq left s =
      let (l, e, p) = Returns→done (search_rows g pc) (search_rows-Splits g row pc t) in
      e ∙ ap done (Splits-unique row g.num_funcs pc l left p s)

  -- On a table that the search can use, a pc before every function has no symbol.
  symbolize_before : Splits row g.num_funcs pc 0 → symbolize g pc ≡ done no_symbol
  unfolding symbolize symbolize_row
  symbolize_before s = rw (search_rows-eq 0 s)

  -- On a table that the search can use (its entries read back as rows sorted by pc, fewer than
  -- 2^63 of them), if the row of the last function that begins at or before the pc leads to data
  -- with the same entry pc, `symbolize` returns the file and the line that the tables of that
  -- function give for the pc, and the name at its name offset.
  pub symbolize_lem :
      (left : ℕ) (func : PclntabFunc) (file : Bytes) (line : ℕ)
      → Splits row g.num_funcs pc (suc left)
      → get_func g (row left).1 ≡ done (some ((row left).0, func))
      → source_file g func (row left).0 pc ≡ done file
      → line_number g func (row left).0 pc ≡ done line
      → symbolize g pc
        ≡ done (record {
          file = file;
          line = line;
          name = get_string g.funcnametab (i32_as_usize func.name_off);
        })
  unfolding symbolize symbolize_row describe
  symbolize_lem left func file line s hf hs hl =
      ground (arith, search_rows-eq (suc left) s, t.reads left (omega (arith, s.0)))

  -- On a table that the search can use, if the data that the found row leads to has another entry
  -- pc than the row, there is no symbol.
  symbolize_mismatch :
      (left : ℕ) (func : PclntabFunc) (func_pc : ℕ)
      → Splits row g.num_funcs pc (suc left)
      → get_func g (row left).1 ≡ done (some (func_pc, func))
      → (row left).0 ≢ func_pc
      → symbolize g pc ≡ done no_symbol
  unfolding symbolize symbolize_row describe
  symbolize_mismatch left func func_pc s hf h =
      ground (arith, search_rows-eq (suc left) s, t.reads left (omega (arith, s.0)))

-- The rows as the code reports them: pcs made absolute.
abbrev pub row118 : Gopclntab → List (ℕ × ℕ) → ℕ → ℕ × ℕ
row118 g rows i = (add64 g.text_start (get_or rows i (0, 0)).0, (get_or rows i (0, 0)).1)

-- A function table of the format of Go 1.18 or later that encodes rows sorted by pc, with the
-- sizes and the text address below the bounds where sums would wrap, is one that the search of
-- `symbolize` can use.
pub encode_table-IsTable :
    (g : Gopclntab) (rows : List (ℕ × ℕ)) (back : Bytes)
    → go1_18 ≤ g.version
    → g.func_map_size ≡ 8
    → length g.functab < 0x8000_0000_0000_0000
    → g.functab ≡ encode_table 4 rows back
    → RowsFit 4 rows
    → g.num_funcs ≤ length rows
    → g.num_funcs < 0x8000_0000_0000_0000
    → g.text_start < 0x8000_0000_0000_0000
    → ((i j : ℕ) → i ≤ j → j < length rows → (get_or rows i (0, 0)).0 ≤ (get_or rows j (0, 0)).0)
    → IsTable g (row118 g rows)
encode_table-IsTable g rows back v size small e fit enough few low sorted = record {
  reads = λ i h.
      get_func_map_entry-encode118 g rows back small i v size e fit
        (get_elem?-get_or rows i (0, 0) (omega arith));
  sorted = λ i j p h. omega (
    arith,
    sorted i j p (omega arith),
    pc_small j (omega arith),
    pc_small i (omega arith),
    add64_exact g.text_start (get_or rows i (0, 0)).0,
    add64_exact g.text_start (get_or rows j (0, 0)).0,
  );
  small = few;
}
  where
    pc_small : (k : ℕ) → k < length rows → (get_or rows k (0, 0)).0 < 0x1_0000_0000
    pc_small k h =
        let b =
          All-get_elem? (λ r. (r.0 < 256 ^ 4) × (r.1 < 256 ^ 4)) rows k fit
            (get_elem?-get_or rows k (0, 0) h) in
        omega (arith, b.0)
