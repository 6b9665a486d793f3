-- ===== src/Resolver/FuncTable.antt =====
-- The table of functions and `find_function_by_pc`.
pub mod Search
pub mod Ends
use golang_profiling.Base.{
  ℕ, zero, suc, ◌+◌, ◌/◌, Bool, false, Option, none, some, List, ltb, leb, if◌then◌else◌, length,
  get_elem?,
}
use golang_profiling.Base.Words.{add64}
use golang_profiling.Base.Run.{Run, done, panic, stuck}

-- golang-profiling-common: `FuncInfo`
pub record FuncInfo : Type 0 where
  pub entry : ℕ
  pub name_off : ℕ
  pub file_off : ℕ
  pub line : ℕ

-- No function is taken to be longer than 64 KB: `pc < func.entry + 0x10000`.
unfoldable pub within_function : FuncInfo → ℕ → Bool
within_function func pc = ltb pc (add64 func.entry 0x10000)

-- `mid + 1 < self.func_table.len() && pc >= self.func_table[mid + 1].entry`
unfoldable pub next_begins : List FuncInfo → ℕ → ℕ → Bool
next_begins table mid pc = elim (get_elem? table (mid + 1)) [
  | none ↦ false
  | some func ↦ leb func.entry pc
]

-- A `Vec` has at most 2^63 - 1 elements, so neither the sum nor `mid + 1` wraps around.
unfoldable pub find_loop : ℕ → List FuncInfo → ℕ → ℕ → ℕ → Run (Option FuncInfo)
find_loop zero table pc left right = stuck
find_loop (suc fuel) table pc left right =
    let mid = (left + right) / 2 in
    let lower = find_loop fuel table pc left mid in
    let upper = find_loop fuel table pc (mid + 1) right in
    if ltb left right
    then elim (get_elem? table mid) [
      | none ↦ panic
      | some func ↦
          if ltb pc func.entry
          then lower
          else if next_begins table mid pc
          then upper
          else if within_function func pc
          then done (some func)
          else done none
    ]
    else done none

-- The range shrinks in each round.
unfoldable pub find_function_by_pc : List FuncInfo → ℕ → Run (Option FuncInfo)
find_function_by_pc table pc = find_loop (suc (length table)) table pc 0 (length table)
