-- ===== src/Resolver/FuncTable/Ends.antt =====
-- The loop of `find_function_by_pc` on any table, sorted or not.
use golang_profiling.Base.{
  ℕ, zero, suc, ◌+◌, ◌-◌, ◌/◌, ◌<◌, inl, inr, none, some, List, arith, ltb, Bool-cases,
  Option-cases, length, get_elem?,
}
use golang_profiling.Base.Run.{done, Ends, Ends-if}
use golang_profiling.Resolver.FuncTable.{
  FuncInfo, within_function, next_begins, find_loop, find_function_by_pc,
}

find_loop-Ends :
    (fuel : ℕ) (table : List FuncInfo) (pc left right : ℕ)
    → right - left < fuel
    → Ends (find_loop fuel table pc left right)
unfolding find_loop
find_loop-Ends zero table pc left right h = omega arith
find_loop-Ends (suc fuel) table pc left right h = elim (Bool-cases (ltb left right)) [
  | inr e ↦ rw e tt
  | inl e ↦
      let mid = (left + right) / 2 in
      let lt : left < right = ground (arith, e) in
      elim (Option-cases (get_elem? table mid)) [
        | inl q ↦ rw (e, q, Ends) tt
        | inr (func, q) ↦
            rw (e, q, Ends)
              (Ends-if (ltb pc func.entry) _ _ (find_loop-Ends fuel table pc left mid (omega arith))
                (Ends-if (next_begins table mid pc) _ _
                  (find_loop-Ends fuel table pc (mid + 1) right (omega arith))
                  (Ends-if (within_function func pc) (done (some func)) (done none) tt tt)))
      ]
]

pub find_function_by_pc-Ends :
    (table : List FuncInfo) (pc : ℕ) → Ends (find_function_by_pc table pc)
unfolding find_function_by_pc
find_function_by_pc-Ends table pc =
    find_loop-Ends (suc (length table)) table pc 0 (length table) (omega arith)
