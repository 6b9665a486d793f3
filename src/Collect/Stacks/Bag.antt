-- ===== src/Collect/Stacks/Bag.antt =====
-- The folded lines, whatever the order in which the hash map of the combined data is walked.
use golang_profiling.Base.{ℕ, ◌≡◌, inl, inr, Option, List, [], ◌∷◌, map, ◌==◌, Bool-cases, is_empty}
use golang_profiling.Base.Bytes.{Bytes}
use golang_profiling.Base.Run.{Run, done}
use golang_profiling.Base.Assoc
use golang_profiling.Base.Assoc.Merge.{Distinct, insert-Distinct}
use golang_profiling.Base.Assoc.Order.{Distinct-perm, insert_all-Distinct}
use golang_profiling.Probe.Maps.{sample_type_off_cpu}
use golang_profiling.Collect.Counts.{ProfileKey}
use golang_profiling.Collect.Stacks.{
  stacks, stack_of, CpuData, add_stack, separate, converted_data, export_folded_stacks,
}
use golang_profiling.Collect.Stacks.Rows.{folded_row, export_folded_stacks-map}
use mathlib.Core.Quot
use mathlib.Core.Quot.{Quot}
use mathlib.Core.List.{Perm}
use mathlib.Core.List.Perm

module _ (traces : ℕ → Option (List ℕ)) where
  add_stack-Distinct :
      (key : ProfileKey) (count : ℕ) (d : CpuData traces)
      → Distinct stacks d.on_cpu_data
      → Distinct stacks (add_stack traces key count d).on_cpu_data
  unfolding add_stack
  add_stack-Distinct key count d h = elim (Bool-cases (is_empty (stack_of traces key))) [
    | inl gone ↦ rw gone h
    | inr full ↦ elim (Bool-cases (key.sample_type == sample_type_off_cpu)) [
      | inl kind ↦ rw (full, kind) h
      | inr kind ↦
          rw (full, kind) (insert-Distinct stacks (stack_of traces key) count d.on_cpu_data h)
    ]
  ]

  separate-Distinct :
      (counts : List (ProfileKey × ℕ)) (d : CpuData traces)
      → Distinct stacks d.on_cpu_data
      → Distinct stacks (separate traces counts d).on_cpu_data
  unfolding separate
  separate-Distinct [] d h = h
  separate-Distinct ((key, count) ∷ counts) d h =
      separate-Distinct counts (add_stack traces key count d) (add_stack-Distinct key count d h)

  converted_data-Distinct :
      (counts : List (ProfileKey × ℕ)) → Distinct stacks (converted_data traces counts)
  unfolding converted_data
  converted_data-Distinct counts =
      let d = separate traces counts (record { on_cpu_data = []; off_cpu_data = [] }) in
      insert_all-Distinct stacks d.off_cpu_data d.on_cpu_data
        (separate-Distinct counts (record { on_cpu_data = []; off_cpu_data = [] }) tt)

-- Lines without their order.
abbrev pub LineBag : Type 0
LineBag = Quot (Perm {A = Bytes})

unfoldable pub bag : List Bytes → LineBag
bag rows = Quot.mk rows

-- With a resolver that always answers, in whatever order the hash map of the combined data is
-- walked (each stack once, with the same look-ups), `export_folded_stacks` succeeds, and its
-- lines, taken without their order, are those of the combined data: the names of the reversed
-- stack joined by `;`, a space, and the count.
pub export_folded_stacks-bag :
    (traces : ℕ → Option (List ℕ)) (counts : List (ProfileKey × ℕ)) (walked : List (List ℕ × ℕ))
    (resolve_pc : ℕ → Run Bytes) (name : ℕ → Bytes)
    → ((pc : ℕ) → resolve_pc pc ≡ done (name pc))
    → Distinct stacks walked
    → ((stack : List ℕ)
        → Assoc.lookup stacks stack walked
          ≡ Assoc.lookup stacks stack (converted_data traces counts))
    → (rows : List Bytes) × (export_folded_stacks resolve_pc walked ≡ done rows)
      × (bag rows ≡ bag (map (folded_row name) (converted_data traces counts)))
unfolding bag
export_folded_stacks-bag traces counts walked resolve_pc name found once same = (
  map (folded_row name) walked,
  export_folded_stacks-map resolve_pc name found walked,
  Quot.sound (
      Perm.map (folded_row name) (
        Distinct-perm stacks walked (converted_data traces counts) once
          (converted_data-Distinct traces counts) same)),
)
