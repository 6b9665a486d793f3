-- ===== src/Probe/Program/Filter.antt =====
-- The filter on the target process, over any run of the two programs.
use golang_profiling.Base.{
  ℕ, ◌/◌, ◌≡◌, refl, sym, ◌∙◌, ◌≢◌, ◌⊎◌, inl, inr, true, Option, none, some, arith, ltb, Bool-cases,
}
use golang_profiling.Base.Words.{sub64}
use golang_profiling.Probe.Maps.{
  EbpfProfileKey, BpfHashMap, Context, tgid_of, sample_type_on_cpu, sample_type_off_cpu,
}
use golang_profiling.Probe.Program.{
  accepts, profile_key, Maps, add_count, record_duration, try_golang_profile, try_sched_switch,
  golang_profile, sched_switch,
}
use golang_profiling.Probe.Program.Keys.{same_key, same_key→eq, not-same_key→ne}
use golang_profiling.Probe.Program.OnCpu.{add_count_lem}

-- A process that is not the idle one, and is the target where the target is not 0; none without a
-- target.
abbrev pub IsOfTarget : Option ℕ → ℕ → Type 0
IsOfTarget none pid = ⊥
IsOfTarget (some target) pid = (pid ≢ 0) × ((target ≡ 0) ⊎ (pid ≡ target))

accepts-IsOfTarget : (o : Option ℕ) (pid : ℕ) → accepts o pid ≡ true → IsOfTarget o pid
unfolding accepts
accepts-IsOfTarget none pid e = ground arith
accepts-IsOfTarget (some target) pid e = (λ z. ground arith, ground arith)

module _ (counts : BpfHashMap EbpfProfileKey) (stamps : BpfHashMap ℕ) where
  -- A run of one of the programs, on any event.
  pub data Step : Maps counts stamps → Maps counts stamps → Type 0 where
    sample :
        (ctx : Context) (s : Maps counts stamps) → Step s (golang_profile counts stamps ctx s).1
    switch : (ctx : Context) (s : Maps counts stamps) → Step s (sched_switch counts stamps ctx s).1

  pub data Reach (s : Maps counts stamps) : Maps counts stamps → Type 0 where
    here : Reach s s
    next : {t u : Maps counts stamps} → Reach s t → Step t u → Reach s u

  -- Every key that is counted belongs to a process of the target, and has one of the two sample types.
  unfoldable pub IsFiltered : Maps counts stamps → Type 0
  IsFiltered s =
      (k : EbpfProfileKey) (n : ℕ)
      → counts.get k s.counted ≡ some n
      → IsOfTarget s.target_pid k.pid
        × ((k.sample_type ≡ sample_type_on_cpu) ⊎ (k.sample_type ≡ sample_type_off_cpu))

  -- Counting under an accepted key keeps this.
  add_count-IsFiltered :
      (key : EbpfProfileKey) (n : ℕ) (s : Maps counts stamps)
      → IsOfTarget s.target_pid key.pid
      → (key.sample_type ≡ sample_type_on_cpu) ⊎ (key.sample_type ≡ sample_type_off_cpu)
      → IsFiltered s
      → IsFiltered (record s { counted = add_count counts stamps key n s.counted })
  unfolding IsFiltered
  add_count-IsFiltered key n s ha ht f k v h = elim (Bool-cases (same_key key k)) [
    | inl same ↦ rw (← same_key→eq key k same) (ha, ht)
    | inr other ↦
        f k v (
          sym ((add_count_lem counts stamps key n s.counted).0 k (not-same_key→ne key k other)) ∙ h)
  ]

  record_duration-IsFiltered :
      (ctx : Context) (s : Maps counts stamps)
      → accepts s.target_pid (tgid_of ctx) ≡ true
      → (stamp : Option ℕ) → IsFiltered s
      → IsFiltered (record_duration counts stamps ctx (tgid_of ctx) stamp s)
  unfolding record_duration profile_key IsFiltered
  record_duration-IsFiltered ctx s e none f = f
  record_duration-IsFiltered ctx s e (some t) f =
      elim (Bool-cases (ltb 1000000 (sub64 ctx.now t))) [
        | inl long ↦ rw long (
            add_count-IsFiltered (profile_key ctx (tgid_of ctx) sample_type_off_cpu)
              (sub64 ctx.now t / 1000) s (accepts-IsOfTarget s.target_pid (tgid_of ctx) e)
              (inr refl) f)
        | inr short ↦ rw short f
      ]

  pub Step-IsFiltered : {s t : Maps counts stamps} → Step s t → IsFiltered s → IsFiltered t
  unfolding golang_profile sched_switch try_golang_profile try_sched_switch profile_key IsFiltered
  Step-IsFiltered (sample ctx s) f = elim (Bool-cases (accepts s.target_pid (tgid_of ctx))) [
    | inr e ↦ rw e f
    | inl e ↦
        rw e (
          add_count-IsFiltered _ 1 s (accepts-IsOfTarget s.target_pid (tgid_of ctx) e) (inl refl) f)
  ]
  Step-IsFiltered (switch ctx s) f = elim (Bool-cases (accepts s.target_pid (tgid_of ctx))) [
    | inr e ↦ rw e f
    | inl e ↦
        rw e (record_duration-IsFiltered ctx s e (stamps.get (tgid_of ctx) s.process_timestamps) f)
  ]

  -- If every counted key has a process id other than 0 and one of the two sample types, and where
  -- the target is not 0 the process id is the target (and there is no counted key without a
  -- target), then this still holds after any sequence of runs of the two programs.
  pub Reach-IsFiltered : {s t : Maps counts stamps} → IsFiltered s → Reach s t → IsFiltered t
  Reach-IsFiltered h here = h
  Reach-IsFiltered h (next r st) = Step-IsFiltered st (Reach-IsFiltered h r)
