-- ===== src/Collect/Stacks/Counts.antt =====
-- Which count a stack has in the combined data.
use golang_profiling.Base.{
  ℕ, ◌≡◌, refl, sym, ap, ◌∙◌, inl, inr, Bool, true, false, not, ◌&&◌, Option, none, some, List, [],
  ◌∷◌, ◌==◌, if◌then◌else◌, Bool-cases, is_empty,
}
use golang_profiling.Base.Text.{bytes_eq}
use golang_profiling.Base.Assoc
use golang_profiling.Base.Assoc.Merge.{
  or_else-none, or_else_assoc, or_else, Distinct, insert-Distinct, lookup-insert_all,
}
use golang_profiling.Probe.Maps.{sample_type_off_cpu}
use golang_profiling.Collect.Counts.{ProfileKey}
use golang_profiling.Collect.Stacks.{stacks, stack_of, CpuData, add_stack, separate, converted_data}

module _ (traces : ℕ → Option (List ℕ)) where
  -- One of the two maps: `true` for the off-CPU data.
  abbrev data_of : Bool → CpuData traces → List (List ℕ × ℕ)
  data_of true d = d.off_cpu_data
  data_of false d = d.on_cpu_data

  -- The key's samples are of the kind, and its stack is this one and not empty.
  unfoldable pub has_stack : Bool → ProfileKey → List ℕ → Bool
  has_stack off key stack =
      not (is_empty (stack_of traces key))
      && bytes_eq (stack_of traces key) stack
      && (if key.sample_type == sample_type_off_cpu then off else not off)

  -- The count of the last such key in the order of iteration.
  unfoldable pub last_count : Bool → List (ProfileKey × ℕ) → List ℕ → Option ℕ
  last_count off [] stack = none
  last_count off ((key, count) ∷ counts) stack =
      or_else (last_count off counts stack) (if has_stack off key stack then some count else none)

  picked :
      (b : Bool) (count : ℕ) (o : Option ℕ)
      → (if b then some count else o) ≡ or_else (if b && true then some count else none) o
  picked true count o = refl
  picked false count o = refl

  skipped :
      (b : Bool) (count : ℕ) (o : Option ℕ)
      → o ≡ or_else (if b && false then some count else none) o
  skipped true count o = refl
  skipped false count o = refl

  lookup-add_stack :
      (off : Bool) (key : ProfileKey) (count : ℕ) (d : CpuData traces) (stack : List ℕ)
      → Assoc.lookup stacks stack (data_of off (add_stack traces key count d))
        ≡ or_else
            (if has_stack off key stack then some count else none)
            (Assoc.lookup stacks stack (data_of off d))
  unfolding add_stack has_stack
  lookup-add_stack true key count d stack = elim (Bool-cases (is_empty (stack_of traces key))) [
    | inl gone ↦ rw gone refl
    | inr some_frames ↦ elim (Bool-cases (key.sample_type == sample_type_off_cpu)) [
      | inl kind ↦
          rw (some_frames, kind)
            (Assoc.lookup-insert stacks (stack_of traces key) stack count d.off_cpu_data
              ∙ picked (bytes_eq (stack_of traces key) stack) count _)
      | inr kind ↦ rw (some_frames, kind) (skipped (bytes_eq (stack_of traces key) stack) count _)
    ]
  ]
  lookup-add_stack false key count d stack = elim (Bool-cases (is_empty (stack_of traces key))) [
    | inl gone ↦ rw gone refl
    | inr some_frames ↦ elim (Bool-cases (key.sample_type == sample_type_off_cpu)) [
      | inr kind ↦
          rw (some_frames, kind)
            (Assoc.lookup-insert stacks (stack_of traces key) stack count d.on_cpu_data
              ∙ picked (bytes_eq (stack_of traces key) stack) count _)
      | inl kind ↦ rw (some_frames, kind) (skipped (bytes_eq (stack_of traces key) stack) count _)
    ]
  ]

  lookup-separate :
      (off : Bool) (counts : List (ProfileKey × ℕ)) (d : CpuData traces) (stack : List ℕ)
      → Assoc.lookup stacks stack (data_of off (separate traces counts d))
        ≡ or_else (last_count off counts stack) (Assoc.lookup stacks stack (data_of off d))
  unfolding separate last_count
  lookup-separate off [] d stack = refl
  lookup-separate off ((key, count) ∷ counts) d stack =
      lookup-separate off counts (add_stack traces key count d) stack
      ∙ ap (or_else (last_count off counts stack)) (lookup-add_stack off key count d stack)
      ∙ sym (
          or_else_assoc (last_count off counts stack)
            (if has_stack off key stack then some count else none) _)

  add_stack-Distinct :
      (key : ProfileKey) (count : ℕ) (d : CpuData traces)
      → Distinct stacks d.off_cpu_data
      → Distinct stacks (add_stack traces key count d).off_cpu_data
  unfolding add_stack
  add_stack-Distinct key count d h = elim (Bool-cases (is_empty (stack_of traces key))) [
    | inl gone ↦ rw gone h
    | inr some_frames ↦ elim (Bool-cases (key.sample_type == sample_type_off_cpu)) [
      | inl kind ↦
          rw (some_frames, kind)
            (insert-Distinct stacks (stack_of traces key) count d.off_cpu_data h)
      | inr kind ↦ rw (some_frames, kind) h
    ]
  ]

  separate-Distinct :
      (counts : List (ProfileKey × ℕ)) (d : CpuData traces)
      → Distinct stacks d.off_cpu_data
      → Distinct stacks (separate traces counts d).off_cpu_data
  unfolding separate
  separate-Distinct [] d h = h
  separate-Distinct ((key, count) ∷ counts) d h =
      separate-Distinct counts (add_stack traces key count d) (add_stack-Distinct key count d h)

  nothing : (stack : List ℕ) → Assoc.lookup stacks stack [] ≡ none
  unfolding Assoc.lookup
  nothing stack = refl

  separated :
      (off : Bool) (counts : List (ProfileKey × ℕ)) (stack : List ℕ)
      → Assoc.lookup stacks stack
          (data_of off (separate traces counts (record { on_cpu_data = []; off_cpu_data = [] })))
        ≡ last_count off counts stack
  separated true counts stack =
      lookup-separate true counts (record { on_cpu_data = []; off_cpu_data = [] }) stack
      ∙ ap (or_else (last_count true counts stack)) (nothing stack)
      ∙ or_else-none (last_count true counts stack)
  separated false counts stack =
      lookup-separate false counts (record { on_cpu_data = []; off_cpu_data = [] }) stack
      ∙ ap (or_else (last_count false counts stack)) (nothing stack)
      ∙ or_else-none (last_count false counts stack)

  -- The count of a stack in the combined data is that of the last off-CPU key with this stack,
  -- which is not empty, or else of the last on-CPU key with it; counts of other keys with an equal
  -- stack are not added.
  pub lookup-converted_data :
      (counts : List (ProfileKey × ℕ)) (stack : List ℕ)
      → Assoc.lookup stacks stack (converted_data traces counts)
        ≡ or_else (last_count true counts stack) (last_count false counts stack)
  unfolding converted_data
  lookup-converted_data counts stack =
      let d = separate traces counts (record { on_cpu_data = []; off_cpu_data = [] }) in
      lookup-insert_all stacks d.off_cpu_data d.on_cpu_data stack
        (separate-Distinct counts (record { on_cpu_data = []; off_cpu_data = [] }) tt)
      ∙ ap (λ o. or_else o (Assoc.lookup stacks stack d.on_cpu_data)) (separated true counts stack)
      ∙ ap (or_else (last_count true counts stack)) (separated false counts stack)
