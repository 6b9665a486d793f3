-- ===== src/Pclntab/Symbolize/Safe.antt =====
-- Where `symbolize` panics, on any table of Go 1.18 or later.
use golang_profiling.Base.{
  All-drop, ℕ, zero, suc, ◌+◌, ◌-◌, ◌*◌, ◌/◌, ◌%◌, ◌≤◌, ◌<◌, ◌≡◌, refl, sym, ◌∙◌, inl, inr, true,
  not, Option, none, some, arith, ltb, leb, ◌==◌, ==_iff, Bool-cases, length, All,
}
use golang_profiling.Base.Bytes.{Bytes, IsByte, u32_mod, u64_mod, from_le-lt}
use golang_profiling.Base.Words.{add64, add64_exact, mul64}
use golang_profiling.Base.Run.{
  Ends, Run, done, panic, stuck, Returns, Returns-bind, Allows, Allows-bind, Allows-then,
  slice_from-inside,
}
use golang_profiling.Pclntab.Header.{go1_18, field_at}
use golang_profiling.Pclntab.Parse.{Gopclntab}
use golang_profiling.Pclntab.Table.{
  PclntabFunc, read_word, read_func_map118, entry118, get_func_map_entry, get_func_struct,
  get_func118, get_func,
}
use golang_profiling.Pclntab.Pcvalue.{map_pcval}
use golang_profiling.Pclntab.Pcvalue.Safe.{IsWord, map_pcval-IsWord}
use golang_profiling.Pclntab.Symbolize.{
  search_loop, search_rows, file_at, source_file, line_number, describe, symbolize_row, symbolize,
}
use golang_profiling.Pclntab.Symbolize.Panics.{is_panic, file_index, file_at-is_panic}
use golang_profiling.Pclntab.Symbolize.Ends.{file_at-Ends}

-- A parser of Go 1.18 or later over bytes, fewer than 2^63 of them, with fewer than 2^60 functions.
pub record IsCompact (g : Gopclntab) : Type 0 where
  pub version : leb go1_18 g.version ≡ true
  pub rows : g.func_map_size ≡ 8
  pub bytes : All IsByte g.functab
  pub functab_short : length g.functab < 0x8000_0000_0000_0000
  pub funcdata_short : length g.funcdata < 0x8000_0000_0000_0000
  pub cutab_short : length g.cutab < 0x8000_0000_0000_0000
  pub few : g.num_funcs < 0x1000_0000_0000_0000

-- The function of some row of the table has the file index -1 for the pc.
abbrev pub HasBadIndex : Gopclntab → ℕ → Type 0
HasBadIndex g pc =
    (i : ℕ) × (row : ℕ × ℕ) × (func_pc : ℕ) × (func : PclntabFunc) × (index : ℕ) × (i < g.num_funcs)
    × (get_func_map_entry g i ≡ done row)
    × (get_func g row.1 ≡ done (some (func_pc, func)))
    × (map_pcval g func.pcfile_off func_pc pc ≡ done (some index))
    × (file_index g func index ≡ 0xffff_ffff)

module _ (g : Gopclntab) (h : IsCompact g) where
  get_func_map_entry-lt :
      (i : ℕ)
      → i < 0x1000_0000_0000_0000
      → Returns (get_func_map_entry g i) (λ row. row.1 < u32_mod)
  unfolding get_func_map_entry entry118 read_func_map118 field_at mul64
  get_func_map_entry-lt i small =
      let exact : i * 8 % u64_mod ≡ i * 8 = omega arith in
      let offset : add64 (i * 8) 8 ≡ i * 8 + 8 = add64_exact (i * 8) 8 (omega arith) in
      elim (Bool-cases (leb (i * 8 + 8) (length g.functab))) [
        | inr e ↦ rw (h.version, h.rows, exact, offset, e) (omega arith)
        | inl e ↦
            rw
              (
                h.version,
                h.rows,
                exact,
                offset,
                e,
                slice_from-inside g.functab (i * 8) (ground (arith, e)),
              )
              (from_le-lt 4 _ (All-drop IsByte 4 _ (All-drop IsByte (i * 8) g.functab h.bytes)))
      ]

  search_loop-le :
      (fuel pc left right : ℕ)
      → right < 0x1000_0000_0000_0000
      → left ≤ right
      → right - left < fuel
      → Returns (search_loop fuel g pc left right) (λ n. n ≤ right)
  unfolding search_loop
  search_loop-le zero pc left right small le enough = omega arith
  search_loop-le (suc fuel) pc left right small le enough = elim (Bool-cases (ltb left right)) [
    | inr e ↦ rw e le
    | inl e ↦
        let lt : left < right = ground (arith, e) in
        let exact : add64 left right ≡ left + right = add64_exact left right (omega arith) in
        let up : add64 ((left + right) / 2) 1 ≡ (left + right) / 2 + 1 =
          add64_exact _ 1 (omega arith) in
        rw (e, exact, up)
          (Returns-bind (λ row. row.1 < u32_mod) (λ n. n ≤ right)
            (get_func_map_entry g ((left + right) / 2)) _
            (get_func_map_entry-lt ((left + right) / 2) (omega arith))
            (λ row w. elim (Bool-cases (ltb pc row.0)) [
              | inl f ↦ rw f (
                  lower (search_loop fuel g pc left ((left + right) / 2)) (omega arith) (
                    search_loop-le fuel pc left ((left + right) / 2) (omega arith) (omega arith)
                      (omega arith)))
              | inr f ↦ rw f (
                  search_loop-le fuel pc ((left + right) / 2 + 1) right small (omega arith)
                    (omega arith))
            ]))
  ]
    where
      lower : {a b : ℕ} (r : Run ℕ) → a ≤ b → Returns r (λ n. n ≤ a) → Returns r (λ n. n ≤ b)
      lower (done n) le h = omega arith
      lower panic le h = h
      lower stuck le h = h

  read_word-Returns :
      (n : ℕ) (bs : Bytes) (offset : ℕ)
      → offset + n ≤ length bs
      → Returns (read_word n bs offset) (λ w. Unit {0})
  unfolding read_word
  read_word-Returns n bs offset inside =
      let e : leb (offset + n) (length bs) ≡ true = ground arith in rw e tt

  get_func_struct-Returns :
      (func_off pc : ℕ)
      → func_off < 0x2_0000_0000
      → Returns (get_func_struct g func_off pc) (λ o. Unit {0})
  unfolding get_func_struct
  get_func_struct-Returns func_off pc small =
      let exact : add64 func_off 32 ≡ func_off + 32 = add64_exact func_off 32 (omega arith) in
      elim (Bool-cases (ltb (length g.funcdata) (func_off + 32))) [
        | inl e ↦ rw (exact, e) tt
        | inr e ↦ rw (exact, e, slice_from-inside g.funcdata func_off (ground (arith, e))) tt
      ]

  get_func118-Returns :
      (func_off : ℕ) → func_off < u32_mod → Returns (get_func118 g func_off) (λ o. Unit {0})
  unfolding get_func118
  get_func118-Returns func_off small =
      let exact : add64 func_off 4 ≡ func_off + 4 = add64_exact func_off 4 (omega arith) in
      elim (Bool-cases (ltb (length g.funcdata) (func_off + 4))) [
        | inl e ↦ rw (exact, e) tt
        | inr e ↦
            rw (exact, e)
              (Returns-bind (λ w. Unit {0}) (λ o. Unit {0}) (read_word 4 g.funcdata func_off) _
                (read_word-Returns 4 g.funcdata func_off (ground (arith, e)))
                (λ w u. get_func_struct-Returns (func_off + 4) _ (omega arith)))
      ]

  get_func-Returns :
      (func_off : ℕ) → func_off < u32_mod → Returns (get_func g func_off) (λ o. Unit {0})
  unfolding get_func
  get_func-Returns func_off small =
      elim (Bool-cases (ltb (length g.funcdata) (add64 func_off g.fun_size))) [
        | inl e ↦ rw e tt
        | inr e ↦ rw (e, h.version) (get_func118-Returns func_off small)
      ]

  file_at-Allows :
      (pc i : ℕ) (row : ℕ × ℕ) (func_pc : ℕ) (func : PclntabFunc) (o : Option ℕ)
      → i < g.num_funcs
      → get_func_map_entry g i ≡ done row
      → get_func g row.1 ≡ done (some (func_pc, func))
      → map_pcval g func.pcfile_off func_pc pc ≡ done o
      → IsWord o
      → Allows (HasBadIndex g pc) (file_at g func o)
  file_at-Allows pc i row func_pc func none le q f m w = unfold file_at in tt
  file_at-Allows pc i row func_pc func (some index) le q f m w =
      by_panic (file_at g func (some index)) (file_at-Ends g func (some index)) (λ p. (
        i,
        row,
        func_pc,
        func,
        index,
        le,
        q,
        f,
        m,
        (==_iff (file_index g func index) 0xffff_ffff).0
            (sym (file_at-is_panic g func index h.cutab_short w) ∙ p),
      ))
    where
      by_panic :
          (r : Run Bytes)
          → Ends r
          → (is_panic r ≡ true → HasBadIndex g pc)
          → Allows (HasBadIndex g pc) r
      by_panic (done a) e k = tt
      by_panic panic e k = k refl
      by_panic stuck e k = e

  source_file-Allows :
      (pc i : ℕ) (row : ℕ × ℕ) (func_pc : ℕ) (func : PclntabFunc)
      → i < g.num_funcs
      → get_func_map_entry g i ≡ done row
      → get_func g row.1 ≡ done (some (func_pc, func))
      → Allows (HasBadIndex g pc) (source_file g func func_pc pc)
  unfolding source_file
  source_file-Allows pc i row func_pc func le q f = elim (Bool-cases (func.pcfile_off == 0)) [
    | inl e ↦ rw e tt
    | inr e ↦ rw e (
        Allows-bind (HasBadIndex g pc) IsWord (map_pcval g func.pcfile_off func_pc pc) _
          (map_pcval-IsWord g func.pcfile_off func_pc pc)
          (λ o m w. file_at-Allows pc i row func_pc func o le q f m w))
  ]

  line_number-Allows :
      (P : Type 0) (pc func_pc : ℕ) (func : PclntabFunc) → Allows P (line_number g func func_pc pc)
  unfolding line_number
  line_number-Allows P pc func_pc func = elim (Bool-cases (func.pcln_off == 0)) [
    | inl e ↦ rw e tt
    | inr e ↦ rw e (
        Allows-bind P IsWord (map_pcval g func.pcln_off func_pc pc) _
          (map_pcval-IsWord g func.pcln_off func_pc pc) (λ o m w. tt))
  ]

  describe-Allows :
      (pc map_pc i : ℕ) (row : ℕ × ℕ) (o : Option (ℕ × PclntabFunc))
      → i < g.num_funcs
      → get_func_map_entry g i ≡ done row
      → get_func g row.1 ≡ done o
      → Allows (HasBadIndex g pc) (describe g pc map_pc o)
  unfolding describe
  describe-Allows pc map_pc i row none le q f = tt
  describe-Allows pc map_pc i row (some (func_pc, func)) le q f =
      elim (Bool-cases (not (map_pc == func_pc))) [
        | inl e ↦ rw e tt
        | inr e ↦ rw e (
            Allows-then (HasBadIndex g pc) (source_file g func func_pc pc) _
              (source_file-Allows pc i row func_pc func le q f)
              (λ file e.
                Allows-then (HasBadIndex g pc) (line_number g func func_pc pc) _
                  (line_number-Allows (HasBadIndex g pc) pc func_pc func) (λ line e. tt)))
      ]

  symbolize_row-Allows :
      (pc left : ℕ) → left ≤ g.num_funcs → Allows (HasBadIndex g pc) (symbolize_row g pc left)
  unfolding symbolize_row
  symbolize_row-Allows pc left le =
      let few = h.few in
      elim (Bool-cases (left == 0)) [
        | inl e ↦ rw e tt
        | inr e ↦ rw e (
            Allows-bind (HasBadIndex g pc) (λ row. row.1 < u32_mod)
              (get_func_map_entry g (left - 1)) _ (get_func_map_entry-lt (left - 1) (omega arith))
              (λ row q w.
                Allows-bind (HasBadIndex g pc) (λ o. Unit {0}) (get_func g row.1) _
                  (get_func-Returns row.1 w)
                  (λ o f u. describe-Allows pc row.0 (left - 1) row o (ground (arith, e, le)) q f)))
      ]

  pub symbolize-Allows : (pc : ℕ) → Allows (HasBadIndex g pc) (symbolize g pc)
  unfolding symbolize search_rows
  symbolize-Allows pc =
      Allows-bind (HasBadIndex g pc) (λ n. n ≤ g.num_funcs) (search_rows g pc) (symbolize_row g pc)
        (search_loop-le (suc g.num_funcs) pc 0 g.num_funcs h.few (omega arith) (omega arith))
        (λ left q le. symbolize_row-Allows pc left le)
