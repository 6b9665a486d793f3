-- ===== src/Pclntab/Symbolize/Rows.antt =====
-- The binary search of `symbolize` over the rows of the function table.
use golang_profiling.Base.{
  ℕ, zero, suc, ◌+◌, ◌-◌, ◌/◌, ◌≤◌, ◌<◌, ◌≡◌, inl, inr, arith, ltb, if◌then◌else◌, ltb→lt,
  Bool-cases,
}
use golang_profiling.Base.Words.{add64, add64_exact}
use golang_profiling.Base.Run.{Run, done, Returns, ◌>>=◌}
use golang_profiling.Pclntab.Parse.{Gopclntab}
use golang_profiling.Pclntab.Table.{get_func_map_entry}
use golang_profiling.Pclntab.Symbolize.{search_loop, search_rows}

-- `left` splits the entry pcs into those up to `pc` and those past it.
abbrev pub Splits : (ℕ → ℕ × ℕ) → ℕ → ℕ → ℕ → Type 0
Splits row n pc left =
    (left ≤ n)
    × ((i : ℕ) → i < left → (row i).0 ≤ pc)
    × ((i : ℕ) → left ≤ i → i < n → pc < (row i).0)

-- The rows that the table holds, in the order of their pcs.
pub record IsTable (g : Gopclntab) (row : ℕ → ℕ × ℕ) : Type 0 where
  pub reads : (i : ℕ) → i < g.num_funcs → get_func_map_entry g i ≡ done (row i)
  pub sorted : (i j : ℕ) → i ≤ j → j < g.num_funcs → (row i).0 ≤ (row j).0
  pub small : g.num_funcs < 0x8000_0000_0000_0000

module _ (g : Gopclntab) (row : ℕ → ℕ × ℕ) (t : IsTable g row) (pc : ℕ) where
  -- What is known of the range in each round.
  record Inv (left right : ℕ) : Type 0 where
    ordered : left ≤ right
    inside : right ≤ g.num_funcs
    below : (i : ℕ) → i < left → (row i).0 ≤ pc
    above : (i : ℕ) → right ≤ i → i < g.num_funcs → pc < (row i).0

  mid_exact : (left right : ℕ) → Inv left right → add64 left right ≡ left + right
  mid_exact left right inv =
      add64_exact left right (omega (arith, t.small, inv.ordered, inv.inside))

  upper-Inv :
      (left right mid : ℕ)
      → Inv left right
      → left ≤ mid
      → mid < right
      → (row mid).0 ≤ pc
      → Inv (mid + 1) right
  upper-Inv left right mid inv lo hi h = record {
    ordered = omega arith;
    inside = inv.inside;
    below = λ i p.
        let s : (row i).0 ≤ (row mid).0 =
          t.sorted i mid (omega arith) (omega (arith, inv.inside)) in
        omega arith;
    above = inv.above;
  }

  lower-Inv :
      (left right mid : ℕ)
      → Inv left right
      → left ≤ mid
      → mid < right
      → pc < (row mid).0
      → Inv left mid
  lower-Inv left right mid inv lo hi h = record {
    ordered = lo;
    inside = omega (arith, inv.inside);
    below = inv.below;
    above = λ i p q. let s : (row mid).0 ≤ (row i).0 = t.sorted mid i p q in omega arith;
  }

  -- One round, for any continuation of the loop.
  round-Splits :
      (left right mid : ℕ) (lower upper : Run ℕ)
      → mid < g.num_funcs
      → (pc < (row mid).0 → Returns lower (Splits row g.num_funcs pc))
      → ((row mid).0 ≤ pc → Returns upper (Splits row g.num_funcs pc))
      → Returns
          (get_func_map_entry g mid >>= λ r. if ltb pc r.0 then lower else upper)
          (Splits row g.num_funcs pc)
  round-Splits left right mid lower upper h lo hi =
      rw (t.reads mid h) (elim (Bool-cases (ltb pc (row mid).0)) [
        | inl e ↦ rw e (lo (ltb→lt _ _ e))
        | inr e ↦ rw e (hi (ground arith))
      ])

  search_loop-Splits :
      (fuel left right : ℕ)
      → right - left < fuel
      → Inv left right
      → Returns (search_loop fuel g pc left right) (Splits row g.num_funcs pc)
  unfolding search_loop
  search_loop-Splits zero left right h inv = absurd (omega arith)
  search_loop-Splits (suc fuel) left right h inv = elim (Bool-cases (ltb left right)) [
    | inr e ↦ rw e (
        let same : left ≡ right = ground (arith, inv.ordered) in
        (omega (arith, inv.inside), inv.below, λ i p q. inv.above i (omega arith) q))
    | inl e ↦
        let mid = (left + right) / 2 in
        let some_left : left < right = ltb→lt _ _ e in
        let in_range : mid < g.num_funcs = omega (arith, inv.inside) in
        rw (e, mid_exact left right inv, add64_exact mid 1 (omega (arith, t.small)))
          (round-Splits left right mid (search_loop fuel g pc left mid)
            (search_loop fuel g pc (mid + 1) right) in_range
            (λ past.
              search_loop-Splits fuel left mid (omega arith)
                (lower-Inv left right mid inv (omega arith) (omega arith) past))
            (λ before.
              search_loop-Splits fuel (mid + 1) right (omega arith)
                (upper-Inv left right mid inv (omega arith) (omega arith) before)))
  ]

-- On a table whose entries read back as rows sorted by pc, fewer than 2^63 of them, the binary
-- search of `symbolize` ends without a panic, with the number of functions that begin at or before
-- the pc.
pub search_rows-Splits :
    (g : Gopclntab) (row : ℕ → ℕ × ℕ) (pc : ℕ)
    → IsTable g row
    → Returns (search_rows g pc) (Splits row g.num_funcs pc)
unfolding search_rows
search_rows-Splits g row pc t =
    search_loop-Splits g row t pc (suc g.num_funcs) 0 g.num_funcs (omega arith) (record {
      ordered = omega arith;
      inside = omega arith;
      below = λ i h. absurd (omega arith);
      above = λ i h k. absurd (omega arith);
    })
