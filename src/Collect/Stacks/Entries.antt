-- ===== src/Collect/Stacks/Entries.antt =====
-- What the stacks of the combined data are made from.
use golang_profiling.Base.{
  ℕ, ◌≡◌, inl, inr, false, Option, List, [], ◌∷◌, ◌==◌, Bool-cases, is_empty, All,
}
use golang_profiling.Base.Assoc.Entries.{insert-All, insert_all-All}
use golang_profiling.Probe.Maps.{sample_type_off_cpu}
use golang_profiling.Collect.Counts.{ProfileKey}
use golang_profiling.Collect.Stacks.{stacks, stack_of, CpuData, add_stack, separate, converted_data}

module _ (traces : ℕ → Option (List ℕ)) (P : ProfileKey × ℕ → Type 0) (Q : List ℕ × ℕ → Type 0)
    (carry : (key : ProfileKey) (count : ℕ)
      → P (key, count)
      → is_empty (stack_of traces key) ≡ false
      → Q (stack_of traces key, count)) where
  abbrev AllData : CpuData traces → Type 0
  AllData d = All Q d.on_cpu_data × All Q d.off_cpu_data

  add_stack-AllData :
      (key : ProfileKey) (count : ℕ) (d : CpuData traces)
      → P (key, count)
      → AllData d
      → AllData (add_stack traces key count d)
  unfolding add_stack
  add_stack-AllData key count d p h = elim (Bool-cases (is_empty (stack_of traces key))) [
    | inl gone ↦ rw gone h
    | inr full ↦ elim (Bool-cases (key.sample_type == sample_type_off_cpu)) [
      | inl kind ↦
          rw (full, kind)
            (
              h.0,
              insert-All stacks Q (stack_of traces key) count d.off_cpu_data
                  (carry key count p full) h.1,
            )
      | inr kind ↦
          rw (full, kind)
            (
              insert-All stacks Q (stack_of traces key) count d.on_cpu_data (carry key count p full)
                  h.0,
              h.1,
            )
    ]
  ]

  separate-AllData :
      (counts : List (ProfileKey × ℕ)) (d : CpuData traces)
      → All P counts
      → AllData d
      → AllData (separate traces counts d)
  unfolding separate
  separate-AllData [] d p h = h
  separate-AllData ((key, count) ∷ counts) d p h =
      separate-AllData counts (add_stack traces key count d) p.1
        (add_stack-AllData key count d p.0 h)

  -- A property of the counted keys gives one of the stacks.
  pub converted_data-All :
      (counts : List (ProfileKey × ℕ)) → All P counts → All Q (converted_data traces counts)
  unfolding converted_data
  converted_data-All counts p =
      let d = separate traces counts (record { on_cpu_data = []; off_cpu_data = [] }) in
      let h = separate-AllData counts (record { on_cpu_data = []; off_cpu_data = [] }) p (tt, tt) in
      insert_all-All stacks Q d.off_cpu_data d.on_cpu_data h.1 h.0
