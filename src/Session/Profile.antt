-- ===== src/Session/Profile.antt =====
-- From the events of a session to the stacks of the flame graph.
use golang_profiling.Base.{
  ℕ, ◌≡◌, sym, ap, ◌≢◌, ◌⊎◌, inl, inr, Bool, true, false, Option, some, List, is_empty, All,
}
use golang_profiling.Probe.Maps.{
  EbpfProfileKey, BpfHashMap, sample_type_on_cpu, sample_type_off_cpu,
}
use golang_profiling.Probe.Program.{Maps}
use golang_profiling.Probe.Program.Filter.{IsOfTarget}
use golang_profiling.Collect.Counts.{convert_key}
use golang_profiling.Collect.Stacks.{stack_of, converted_data}
use golang_profiling.Collect.Stacks.Entries.{converted_data-All}
use golang_profiling.Session.{Event, Session, attach, run}
use golang_profiling.Session.Sourced.{WasCounted, IsFresh, IsSourced, run-IsSourced}

IsOfTarget-eq : (target pid : ℕ) → target ≢ 0 → IsOfTarget (some target) pid → pid ≡ target
IsOfTarget-eq target pid h (some_pid, inl e) = absurd (h e)
IsOfTarget-eq target pid h (some_pid, inr e) = e

module _ (counts : BpfHashMap EbpfProfileKey) (stamps : BpfHashMap ℕ)
    (traces : ℕ → Option (List ℕ)) where
  -- The stack is that of a key of the target process, of a kind of sample that was asked for, and the
  -- count is one that the kernel had for this key.
  abbrev pub IsProfile : ℕ → Bool → List Event → Session counts stamps → List ℕ × ℕ → Type 0
  IsProfile target off_cpu es s (stack, v) =
      (k : EbpfProfileKey) × (k.pid ≡ target)
      × ((k.sample_type ≡ sample_type_on_cpu)
          ⊎ ((off_cpu ≡ true) × (k.sample_type ≡ sample_type_off_cpu)))
      × (stack ≡ stack_of traces (convert_key k))
      × (is_empty stack ≡ false)
      × WasCounted counts stamps k v es s

  -- In a session with a target process other than 0, from a fresh map of counts on, however the
  -- runs of the two programs (each of them one step), the reader's rounds and the steps within a
  -- round interleave: each stack of the combined data made from the published counts is the stack
  -- of a key of the target process, is not empty, is of the on-CPU kind, or of the off-CPU kind if
  -- that was asked for, and its count is one that the kernel had for this key at some moment.
  pub converted_data-IsProfile :
      (target : ℕ) (off_cpu : Bool) (m : Maps counts stamps) (es : List Event)
      → target ≢ 0
      → IsFresh counts stamps m
      → All (IsProfile target off_cpu es (attach counts stamps target off_cpu m)) (
          converted_data traces
            (run counts stamps es (attach counts stamps target off_cpu m)).aggregated_counts)
  converted_data-IsProfile target off_cpu m es some_target fresh =
      let s = attach counts stamps target off_cpu m in
      converted_data-All traces (IsSourced counts stamps target off_cpu es s)
        (IsProfile target off_cpu es s)
        (λ key count (k, same, wanted, w) full. (
          k,
          IsOfTarget-eq target k.pid some_target wanted.0,
          wanted.1,
          ap (stack_of traces) (sym same),
          full,
          w,
        ))
        (run counts stamps es s).aggregated_counts
        (run-IsSourced counts stamps target off_cpu m es fresh)
