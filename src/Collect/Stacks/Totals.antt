-- ===== src/Collect/Stacks/Totals.antt =====
-- How many samples the combined data holds.
use golang_profiling.Base.{
  ℕ, ◌+◌, ◌≤◌, ◌<◌, ◌≡◌, inl, inr, Option, List, [], ◌∷◌, arith, ◌==◌, Bool-cases, is_empty,
}
use golang_profiling.Base.Bytes.{u64_mod}
use golang_profiling.Base.Words.{add64, add64_exact}
use golang_profiling.Base.Assoc
use golang_profiling.Base.Assoc.{Keys}
use golang_profiling.Base.Assoc.Entries.{sum_values-insert, sum_values-insert_all}
use golang_profiling.Probe.Maps.{sample_type_off_cpu}
use golang_profiling.Collect.Counts.{ProfileKey, profile_keys}
use golang_profiling.Collect.Stacks.{stacks, stack_of, CpuData, add_stack, separate, converted_data}

-- `values().sum()`
unfoldable pub sum_loop : ℕ → List (List ℕ × ℕ) → ℕ
sum_loop acc [] = acc
sum_loop acc ((stack, count) ∷ rest) = sum_loop (add64 acc count) rest

pub record Statistics : Type 0 where
  pub on_cpu_count : ℕ
  pub off_cpu_count : ℕ
  pub total_count : ℕ

sum_loop-sum_values :
    (m : List (List ℕ × ℕ)) (acc : ℕ)
    → acc + Assoc.sum_values stacks m < u64_mod
    → sum_loop acc m ≡ acc + Assoc.sum_values stacks m
unfolding sum_loop Assoc.sum_values
sum_loop-sum_values [] acc h = omega arith
sum_loop-sum_values ((stack, count) ∷ rest) acc h =
    let exact = add64_exact acc count (omega arith) in
    omega (arith, sum_loop-sum_values rest (add64 acc count) (omega (arith, exact)), exact)

module _ (traces : ℕ → Option (List ℕ)) where
  -- The numbers that are logged at the end.
  unfoldable pub final_statistics : List (ProfileKey × ℕ) → Statistics
  final_statistics counts =
      let d = separate traces counts (record { on_cpu_data = []; off_cpu_data = [] }) in
      let on_cpu_count = sum_loop 0 d.on_cpu_data in
      let off_cpu_count = sum_loop 0 d.off_cpu_data in
      record {
        on_cpu_count = on_cpu_count;
        off_cpu_count = off_cpu_count;
        total_count = add64 on_cpu_count off_cpu_count;
      }

  abbrev sum_of : CpuData traces → ℕ
  sum_of d = Assoc.sum_values stacks d.on_cpu_data + Assoc.sum_values stacks d.off_cpu_data

  add_stack-le :
      (key : ProfileKey) (count : ℕ) (d : CpuData traces)
      → sum_of (add_stack traces key count d) ≤ count + sum_of d
  unfolding add_stack
  add_stack-le key count d = elim (Bool-cases (is_empty (stack_of traces key))) [
    | inl gone ↦ rw gone (omega arith)
    | inr full ↦ elim (Bool-cases (key.sample_type == sample_type_off_cpu)) [
      | inl kind ↦
          rw (full, kind)
            (omega (arith, sum_values-insert stacks (stack_of traces key) count d.off_cpu_data))
      | inr kind ↦
          rw (full, kind)
            (omega (arith, sum_values-insert stacks (stack_of traces key) count d.on_cpu_data))
    ]
  ]

  separate-le :
      (counts : List (ProfileKey × ℕ)) (d : CpuData traces)
      → sum_of (separate traces counts d) ≤ Assoc.sum_values profile_keys counts + sum_of d
  unfolding separate Assoc.sum_values
  separate-le [] d = omega arith
  separate-le ((key, count) ∷ counts) d =
      omega (arith, separate-le counts (add_stack traces key count d), add_stack-le key count d)

  -- If the counts sum to less than 2^64, the counts of the combined data sum to at most the total
  -- of the final statistics, which is at most the sum of the counts.
  pub final_statistics-bounds :
      (counts : List (ProfileKey × ℕ))
      → Assoc.sum_values profile_keys counts < u64_mod
      → (Assoc.sum_values stacks (converted_data traces counts)
          ≤ (final_statistics counts).total_count)
        × ((final_statistics counts).total_count ≤ Assoc.sum_values profile_keys counts)
  unfolding final_statistics converted_data
  final_statistics-bounds counts small =
      let d = separate traces counts (record { on_cpu_data = []; off_cpu_data = [] }) in
      let few : sum_of d ≤ Assoc.sum_values profile_keys counts =
        unfold Assoc.sum_values in
        omega (arith, separate-le counts (record { on_cpu_data = []; off_cpu_data = [] })) in
      rw
        (
          sum_loop-sum_values d.on_cpu_data 0 (omega (arith, few, small)),
          sum_loop-sum_values d.off_cpu_data 0 (omega (arith, few, small)),
          add64_exact (0 + Assoc.sum_values stacks d.on_cpu_data)
              (0 + Assoc.sum_values stacks d.off_cpu_data) (omega (arith, few, small)),
        )
        (
          omega (arith, sum_values-insert_all stacks d.off_cpu_data d.on_cpu_data),
          omega (arith, few),
        )
