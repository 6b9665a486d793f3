-- ===== src/Pclntab/Pcvalue/Lookup.antt =====
-- A pc-value table as a list of rows, its encoding, and `map_pcval` as the search in that list.
use mathlib.Core.Path.{subst}
use golang_profiling.Base.{
  drop-append, sym, Bool, ap, drop, ℕ, zero, suc, ◌+◌, ◌-◌, ◌*◌, ◌%◌, ◌≤◌, ◌<◌, ◌≡◌, refl, ◌≢◌,
  true, false, Option, none, some, List, [], ◌∷◌, ◌++◌, arith, ltb, if◌then◌else◌, length,
  length-append,
}
use golang_profiling.Base.Bytes.{i32_as_usize, Bytes, u32_mod, u64_mod}
use golang_profiling.Base.Bits.{bit_and-one}
use golang_profiling.Base.Words.{add32, add64, mul32, not32, add64_exact}
use golang_profiling.Base.Run.{slice_from, done}
use golang_profiling.Pclntab.Pcvalue.{
  get_pcval, pcval_new, Gopclntab, search_pcval, map_pcval, Pcval, get_int, zigzag, advance, at_end,
  step, map_pcval_loop,
}
use golang_profiling.Pclntab.Pcvalue.Encoding.{encode_groups, encode_int, get_int-encode_int}

-- A row: the value, as the bit pattern of an `i32`, and the number of quanta that it covers.
pub record Row : Type 0 where
  pub value : ℕ
  pub width : ℕ

-- The zig-zag number of the step from `prev` to `value`, both modulo 2^32.
unfoldable pub delta : ℕ → ℕ → ℕ
delta prev value =
    let d = (value + (u32_mod - prev)) % u32_mod in
    if ltb d 0x8000_0000 then 2 * d else 2 * (u32_mod - 1 - d) + 1

-- The rows as a linker writes them; a zero byte ends the table.
unfoldable pub encode_rows : ℕ → List Row → Bytes → Bytes
unfolding delta encode_int
encode_rows prev [] back = 0 ∷ back
encode_rows prev (r ∷ rows) back =
    encode_int (delta prev r.value) ++ (encode_int r.width ++ encode_rows r.value rows back)

-- The value of the first row that ends past `pc`.
unfoldable pub value_at : ℕ → ℕ → List Row → ℕ → Option ℕ
value_at quantum start [] pc = none
value_at quantum start (r ∷ rows) pc =
    if ltb pc (start + r.width * quantum)
    then some r.value
    else value_at quantum (start + r.width * quantum) rows pc

-- Rows that the format can hold: each value differs from the one before, and no pc overflows.
abbrev pub Fits : ℕ → ℕ → ℕ → List Row → Type 0
Fits quantum prev start [] = Unit {0}
Fits quantum prev start (r ∷ rows) =
    (r.value < u32_mod)
    × (r.value ≢ prev)
    × (r.width < u32_mod)
    × (r.width * quantum < u32_mod)
    × (start + r.width * quantum < u64_mod)
    × Fits quantum r.value (start + r.width * quantum) rows

delta_range :
    (prev value : ℕ)
    → prev < u32_mod
    → value < u32_mod
    → value ≢ prev
    → (0 < delta prev value) × (delta prev value < u32_mod)
unfolding delta
delta_range prev value hp hv h = ground arith

zigzag-delta :
    (prev value : ℕ)
    → prev < u32_mod
    → value < u32_mod
    → add32 prev (zigzag (delta prev value)) ≡ value
unfolding delta zigzag add32 not32
zigzag-delta prev value hp hv = ground (arith, bit_and-one (delta prev value))

length-encode_int : (v : ℕ) → 1 ≤ length (encode_int v)
unfolding encode_int encode_groups
length-encode_int v = ground arith

at_end-encode_int : (v : ℕ) (rest : Bytes) → 0 < v → at_end (encode_int v ++ rest) ≡ false
unfolding at_end encode_int
at_end-encode_int v rest h = ground arith

-- `advance`, once both numbers are known.
advance_lem :
    (p : Pcval) (d n : ℕ) (mid rest : Bytes)
    → get_int p.ptr ≡ (d, mid)
    → get_int mid ≡ (n, rest)
    → advance p ≡ record {
      ptr = rest;
      pc_start = p.pc_end;
      pc_end = add64 p.pc_end (mul32 n p.quantum);
      val = add32 p.val (zigzag d);
      quantum = p.quantum;
    }
unfolding advance
advance_lem p d n mid rest e f = rw (e, f)

mul32_exact : (a b : ℕ) → a * b < u32_mod → mul32 a b ≡ a * b
unfolding mul32
mul32_exact a b h = omega arith

module _ (quantum : ℕ) (back : Bytes) where
  -- One step on an encoded row.
  step-row :
      (p : Pcval) (r : Row) (rows : List Row)
      → p.quantum ≡ quantum
      → p.val < u32_mod
      → p.ptr ≡ encode_rows p.val (r ∷ rows) back
      → Fits quantum p.val p.pc_end (r ∷ rows)
      → step p ≡ (
        record {
          ptr = encode_rows r.value rows back;
          pc_start = p.pc_end;
          pc_end = p.pc_end + r.width * quantum;
          val = r.value;
          quantum = p.quantum;
        },
        true,
      )
  unfolding step encode_rows
  step-row p r rows hq hp e fits =
      let (positive, small) = delta_range p.val r.value hp fits.0 fits.1 in
      let tail : Bytes = encode_rows r.value rows back in
      let first : get_int p.ptr ≡ (delta p.val r.value, encode_int r.width ++ tail) =
        rw e (get_int-encode_int (delta p.val r.value) (encode_int r.width ++ tail) small) in
      let second : get_int (encode_int r.width ++ tail) ≡ (r.width, tail) =
        get_int-encode_int r.width tail fits.2 in
      ground (
        arith,
        at_end-encode_int (delta p.val r.value) (encode_int r.width ++ tail) positive,
        advance_lem p (delta p.val r.value) r.width (encode_int r.width ++ tail) tail first second,
        zigzag-delta p.val r.value hp fits.0,
        mul32_exact r.width quantum fits.3,
        add64_exact p.pc_end (r.width * quantum) fits.4,
      )

  -- From a state between two rows the loop gives the value of the row that covers `pc`.
  map_pcval_loop-rows :
      (rows : List Row) (fuel : ℕ) (p : Pcval) (pc : ℕ)
      → length rows < fuel
      → p.quantum ≡ quantum
      → p.val < u32_mod
      → p.ptr ≡ encode_rows p.val rows back
      → Fits quantum p.val p.pc_end rows
      → map_pcval_loop fuel p pc
        ≡ done (if ltb pc p.pc_end then some p.val else value_at quantum p.pc_end rows pc)
  unfolding map_pcval_loop value_at
  map_pcval_loop-rows rows zero p pc h hq hp e fits = absurd (omega arith)
  map_pcval_loop-rows [] (suc fuel) p pc h hq hp e fits =
      unfold step encode_rows at_end in ground arith
  map_pcval_loop-rows (r ∷ rows) (suc fuel) p pc h hq hp e fits = ground (
    arith,
    step-row p r rows hq hp e fits,
    map_pcval_loop-rows rows fuel
        (record {
          ptr = encode_rows r.value rows back;
          pc_start = p.pc_end;
          pc_end = p.pc_end + r.width * quantum;
          val = r.value;
          quantum = p.quantum;
        })
        pc (omega arith) hq fits.0 refl fits.5,
  )

length-encode_rows :
    (prev : ℕ) (rows : List Row) (back : Bytes) → length rows ≤ length (encode_rows prev rows back)
unfolding encode_rows
length-encode_rows prev [] back = omega arith
length-encode_rows prev (r ∷ rows) back = omega (
  arith,
  length-append {0} (encode_int (delta prev r.value))
      (encode_int r.width ++ encode_rows r.value rows back),
  length-append {0} (encode_int r.width) (encode_rows r.value rows back),
  length-encode_rows r.value rows back,
  length-encode_int (delta prev r.value),
)

-- What `search_pcval` finds from a fresh reader on an encoded table.
search_pcval-rows :
    (quantum : ℕ) (back : Bytes) (rows : List Row) (start pc : ℕ)
    → Fits quantum (u32_mod - 1) start rows
    → start ≤ pc
    → search_pcval (some (pcval_new (encode_rows (u32_mod - 1) rows back) start quantum)) pc
      ≡ done (value_at quantum start rows pc)
unfolding search_pcval pcval_new value_at
search_pcval-rows quantum back [] start pc fits h =
    unfold step encode_rows at_end map_pcval_loop in ground arith
search_pcval-rows quantum back (r ∷ rows) start pc fits h =
    subst
      (λ (q : Pcval × Bool).
        map_pcval_loop (suc (length q.0.ptr)) q.0 pc ≡ done (value_at quantum start (r ∷ rows) pc))
      (sym (step-row quantum back (fresh_pcval (u32_mod - 1)) r rows refl (omega arith) refl fits))
      (map_pcval_loop-rows quantum back rows (suc (length (encode_rows r.value rows back)))
        (record {
          ptr = encode_rows r.value rows back;
          pc_start = start;
          pc_end = start + r.width * quantum;
          val = r.value;
          quantum = quantum;
        })
        pc (omega (arith, length-encode_rows r.value rows back)) refl fits.0 refl fits.5)
  where
    fresh_pcval : ℕ → Pcval
    fresh_pcval v = record {
      ptr = encode_rows (u32_mod - 1) (r ∷ rows) back;
      pc_start = 0;
      pc_end = start;
      val = v;
      quantum = quantum;
    }

-- The offset is inside the table, since an encoding has its end mark at least.
get_pcval-append :
    (g : Gopclntab) (front tail : Bytes) (start : ℕ)
    → g.pctab ≡ front ++ tail
    → 0 < length tail
    → length front < 0x8000_0000
    → get_pcval g (length front) start ≡ done (some (pcval_new tail start g.quantum))
unfolding get_pcval slice_from i32_as_usize
get_pcval-append g front tail start e h small = ground (
  arith,
  ap {B = ℕ} length e,
  length-append {0} front tail,
  ap (drop (length front)) e,
  drop-append {0} front tail (length front) refl,
)

length-encode_rows_pos :
    (prev : ℕ) (rows : List Row) (back : Bytes) → 0 < length (encode_rows prev rows back)
unfolding encode_rows
length-encode_rows_pos prev [] back = omega arith
length-encode_rows_pos prev (r ∷ rows) back = omega (
  arith,
  length-append {0} (encode_int (delta prev r.value))
      (encode_int r.width ++ encode_rows r.value rows back),
  length-encode_int (delta prev r.value),
)

-- On a pc-value table that encodes a list of rows, each with a value other than the one before and
-- with no overflow, `map_pcval` ends and gives the value of the first row that ends past the pc,
-- or none if there is no such row, for every pc from the start of the function on.
pub map_pcval-rows :
    (g : Gopclntab) (front back : Bytes) (rows : List Row) (start pc : ℕ)
    → g.pctab ≡ front ++ encode_rows (u32_mod - 1) rows back
    → length front < 0x8000_0000
    → Fits g.quantum (u32_mod - 1) start rows
    → start ≤ pc
    → map_pcval g (length front) start pc ≡ done (value_at g.quantum start rows pc)
unfolding map_pcval
map_pcval-rows g front back rows start pc e small fits h =
    rw
      (get_pcval-append g front (encode_rows (u32_mod - 1) rows back) start e
        (length-encode_rows_pos (u32_mod - 1) rows back) small)
      (search_pcval-rows g.quantum back rows start pc fits h)
