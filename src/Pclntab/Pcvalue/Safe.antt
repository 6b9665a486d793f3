-- ===== src/Pclntab/Pcvalue/Safe.antt =====
-- `map_pcval` returns on any bytes, and its values are 32 bits wide.
use golang_profiling.Base.{
  ℕ, zero, suc, ◌<◌, ◌≡◌, refl, inl, inr, Option, none, some, arith, ltb, leb, Bool-cases, length,
  drop,
}
use golang_profiling.Base.Bytes.{Bytes, u32_mod, i32_as_usize}
use golang_profiling.Base.Words.{add32}
use golang_profiling.Base.Run.{Returns, slice_from-inside}
use golang_profiling.Pclntab.Parse.{Gopclntab}
use golang_profiling.Pclntab.Pcvalue.{
  Pcval, advance, at_end, step, pcval_new, get_pcval, map_pcval_loop, search_pcval, map_pcval,
}
use golang_profiling.Pclntab.Pcvalue.Ends.{advance-shorter}

abbrev pub IsWord : Option ℕ → Type 0
IsWord none = Unit {0}
IsWord (some v) = v < u32_mod

advance-lt : (p : Pcval) → (advance p).val < u32_mod
unfolding advance add32
advance-lt p = omega arith

map_pcval_loop-IsWord :
    (fuel : ℕ) (p : Pcval) (pc : ℕ)
    → length p.ptr < fuel
    → p.val < u32_mod
    → Returns (map_pcval_loop fuel p pc) IsWord
unfolding map_pcval_loop step
map_pcval_loop-IsWord zero p pc h v = omega arith
map_pcval_loop-IsWord (suc fuel) p pc h v = elim (Bool-cases (leb p.pc_end pc)) [
  | inr e ↦ rw e v
  | inl e ↦ elim (Bool-cases (at_end p.ptr)) [
    | inl f ↦ rw (e, f) tt
    | inr f ↦
        rw (e, f)
          (map_pcval_loop-IsWord fuel (advance p) pc (omega (arith, advance-shorter p f))
            (advance-lt p))
  ]
]

step-lt : (p : Pcval) → p.val < u32_mod → (step p).0.val < u32_mod
unfolding step
step-lt p h = elim (Bool-cases (at_end p.ptr)) [ inl e ↦ rw e h | inr e ↦ rw e (advance-lt p) ]

pcval_new-lt : (bs : Bytes) (pc quantum : ℕ) → (pcval_new bs pc quantum).val < u32_mod
unfolding pcval_new
pcval_new-lt bs pc quantum = step-lt _ (omega arith)

search_pcval-IsWord :
    (o : Option Pcval) (pc : ℕ)
    → ((p : Pcval) → o ≡ some p → p.val < u32_mod)
    → Returns (search_pcval o pc) IsWord
unfolding search_pcval
search_pcval-IsWord none pc h = tt
search_pcval-IsWord (some p) pc h =
    map_pcval_loop-IsWord (suc (length p.ptr)) p pc (omega arith) (h p refl)

pub map_pcval-IsWord :
    (g : Gopclntab) (offs start_pc pc : ℕ) → Returns (map_pcval g offs start_pc pc) IsWord
unfolding map_pcval get_pcval
map_pcval-IsWord g offs start_pc pc = elim (Bool-cases (ltb (i32_as_usize offs) (length g.pctab))) [
  | inr e ↦ rw e (unfold search_pcval in tt)
  | inl e ↦
      rw (e, slice_from-inside g.pctab (i32_as_usize offs) (ground (arith, e)))
        (search_pcval-IsWord
          (some (pcval_new (drop (i32_as_usize offs) g.pctab) start_pc g.quantum)) pc
          (λ p q.
            let same : pcval_new (drop (i32_as_usize offs) g.pctab) start_pc g.quantum ≡ p = cc in
            rw (← same) (pcval_new-lt _ _ _)))
]
