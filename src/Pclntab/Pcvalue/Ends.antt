-- ===== src/Pclntab/Pcvalue/Ends.antt =====
-- The loop of `map_pcval`, on any table: a step uses up a byte.
use golang_profiling.Base.{
  ℕ, zero, suc, ◌≤◌, ◌<◌, bit_and, bit_or, ◌≡◌, inl, inr, false, Option, none, some, [], ◌∷◌, arith,
  ltb, leb, ◌==◌, Bool-cases, length,
}
use golang_profiling.Base.Words.{add32, shl32}
use golang_profiling.Base.Bytes.{Bytes, i32_as_usize}
use golang_profiling.Base.Run.{done, Ends, Ends-bind, Ends-if, slice_from-Ends, slice_from}
use golang_profiling.Pclntab.Parse.{Gopclntab}
use golang_profiling.Pclntab.Pcvalue.{
  Pcval, get_int_loop, get_int, advance, at_end, step, get_pcval, map_pcval_loop, search_pcval,
  map_pcval,
}

get_int_loop-shorter :
    (b : ℕ) (bs : Bytes) (v shift : ℕ) → length (get_int_loop (b ∷ bs) v shift).1 ≤ length bs
unfolding get_int_loop
get_int_loop-shorter b [] v shift = ground arith
get_int_loop-shorter b (c ∷ bs) v shift =
    let v' = bit_or v (shl32 (bit_and b 0x7f) shift) in
    elim (Bool-cases (bit_and b 0x80 == 0)) [
      | inl e ↦ rw e (omega arith)
      | inr e ↦
          rw e (let rest = get_int_loop-shorter c bs v' (add32 shift 7) in omega (arith, rest))
    ]

get_int-shorter : (b : ℕ) (bs : Bytes) → length (get_int (b ∷ bs)).1 ≤ length bs
unfolding get_int
get_int-shorter b bs = get_int_loop-shorter b bs 0 0

get_int-no_longer : (bs : Bytes) → length (get_int bs).1 ≤ length bs
unfolding get_int get_int_loop
get_int-no_longer [] = omega arith
get_int-no_longer (b ∷ bs) = omega (arith, get_int-shorter b bs)

pub advance-shorter : (p : Pcval) → at_end p.ptr ≡ false → length (advance p).ptr < length p.ptr
unfolding advance at_end
advance-shorter p h = shorter p.ptr h
  where
    shorter : (bs : Bytes) → at_end bs ≡ false → length (get_int (get_int bs).1).1 < length bs
    shorter [] h = cc
    shorter (b ∷ bs) h =
        let first : length (get_int (b ∷ bs)).1 ≤ length bs = get_int-shorter b bs in
        omega (arith, first, get_int-no_longer (get_int (b ∷ bs)).1)

map_pcval_loop-Ends :
    (fuel : ℕ) (p : Pcval) (pc : ℕ) → length p.ptr < fuel → Ends (map_pcval_loop fuel p pc)
unfolding map_pcval_loop step
map_pcval_loop-Ends zero p pc h = omega arith
map_pcval_loop-Ends (suc fuel) p pc h = elim (Bool-cases (at_end p.ptr)) [
  | inl e ↦ rw e (Ends-if (leb p.pc_end pc) (done none) (done (some p.val)) tt tt)
  | inr e ↦ rw e (
      Ends-if (leb p.pc_end pc) (map_pcval_loop fuel (advance p) pc) (done (some p.val))
        (map_pcval_loop-Ends fuel (advance p) pc (omega (arith, advance-shorter p e))) tt)
]

search_pcval-Ends : (o : Option Pcval) (pc : ℕ) → Ends (search_pcval o pc)
unfolding search_pcval
search_pcval-Ends none pc = tt
search_pcval-Ends (some p) pc = map_pcval_loop-Ends (suc (length p.ptr)) p pc (omega arith)

pub map_pcval-Ends : (g : Gopclntab) (offs start_pc pc : ℕ) → Ends (map_pcval g offs start_pc pc)
unfolding map_pcval get_pcval
map_pcval-Ends g offs start_pc pc =
    Ends-bind (get_pcval g offs start_pc) (λ p. search_pcval p pc)
      (Ends-if (ltb (i32_as_usize offs) (length g.pctab)) _ (done none)
        (Ends-bind (slice_from g.pctab (i32_as_usize offs)) _
          (slice_from-Ends g.pctab (i32_as_usize offs)) (λ bs. tt))
        tt)
      (λ p. search_pcval-Ends p pc)
