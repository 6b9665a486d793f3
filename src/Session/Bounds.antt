-- ===== src/Session/Bounds.antt =====
-- How large a published count can be.
use golang_profiling.Base.{
  ℕ, ◌+◌, ◌/◌, ◌≤◌, ◌≡◌, refl, ap, inl, inr, Bool, Option, none, some, List, [], ◌∷◌, arith, ltb,
  Bool-cases, All,
}
use golang_profiling.Base.Words.{sub64, add64}
use golang_profiling.Base.Assoc.Entries.{All-map}
use golang_profiling.Probe.Maps.{
  EbpfProfileKey, BpfHashMap, Context, tgid_of, sample_type_on_cpu, sample_type_off_cpu,
}
use golang_profiling.Probe.Program.{
  accepts, or_zero, Maps, profile_key, add_count, record_duration, golang_profile, sched_switch,
  try_sched_switch,
}
use golang_profiling.Probe.Program.Keys.{same_key, same_key→eq, not-same_key→ne}
use golang_profiling.Probe.Program.OnCpu.{
  golang_profile-rejected, golang_profile-accepted, sample_key, add_count_lem, hits,
}
use golang_profiling.Collect.Counts.{Round, ProfileKey, convert_key}
use golang_profiling.Session.{
  Event, sampled, switched, woken, visited, failed, finished, Session, attach, wake, visit_key,
  finish, act, run,
}
use golang_profiling.Session.Filter.{Kept, act-Kept}
use golang_profiling.Session.Sourced.{WasCounted, IsFresh, IsSourced, attach-Kept, run-IsSourced}

-- The samples among the events.
unfoldable pub samples_of : List Event → List Context
samples_of [] = []
samples_of (sampled ctx ∷ es) = ctx ∷ samples_of es
samples_of (switched ctx ∷ es) = samples_of es
samples_of (woken ∷ es) = samples_of es
samples_of (visited key ∷ es) = samples_of es
samples_of (failed ∷ es) = samples_of es
samples_of (finished ∷ es) = samples_of es

pub add64-le : (a b : ℕ) → add64 a b ≤ a + b
unfolding add64
add64-le a b = omega arith

module _ (counts : BpfHashMap EbpfProfileKey) (stamps : BpfHashMap ℕ) where
  -- The kernel's count of a key, 0 if it has none.
  abbrev count_of : EbpfProfileKey → Maps counts stamps → ℕ
  count_of k m = or_zero (counts.get k m.counted)

  add_count-le :
      (k : EbpfProfileKey) (m : counts.Map)
      → or_zero (counts.get k (add_count counts stamps k 1 m)) ≤ or_zero (counts.get k m) + 1
  add_count-le k m = elim (add_count_lem counts stamps k 1 m).1 [
    | inl e ↦ rw e (add64-le (or_zero (counts.get k m)) 1)
    | inr (gone, still) ↦ rw still (omega arith)
  ]

  golang_profile-le :
      (ctx : Context) (k : EbpfProfileKey) (m : Maps counts stamps)
      → count_of k (golang_profile counts stamps ctx m).1
        ≤ count_of k m + hits counts stamps m.target_pid k (ctx ∷ [])
  unfolding hits
  golang_profile-le ctx k m = elim (Bool-cases (accepts m.target_pid (tgid_of ctx))) [
    | inr e ↦ rw (golang_profile-rejected counts stamps ctx m e, e) (omega arith)
    | inl e ↦ elim (Bool-cases (same_key (sample_key counts stamps ctx) k)) [
      | inl same ↦
          rw (golang_profile-accepted counts stamps ctx m e, e, same)
            (rw (same_key→eq (sample_key counts stamps ctx) k same) (add_count-le k m.counted))
      | inr other ↦
          rw
            (
              golang_profile-accepted counts stamps ctx m e,
              e,
              other,
              (add_count_lem counts stamps (sample_key counts stamps ctx) 1 m.counted).0 k
                  (not-same_key→ne (sample_key counts stamps ctx) k other),
            )
            (omega arith)
    ]
  ]

  record_duration-on_cpu :
      (ctx : Context) (pid : ℕ) (stamp : Option ℕ) (k : EbpfProfileKey) (m : Maps counts stamps)
      → k.sample_type ≡ sample_type_on_cpu
      → counts.get k (record_duration counts stamps ctx pid stamp m).counted
        ≡ counts.get k m.counted
  unfolding record_duration profile_key
  record_duration-on_cpu ctx pid none k m h = refl
  record_duration-on_cpu ctx pid (some t) k m h =
      elim (Bool-cases (ltb 1000000 (sub64 ctx.now t))) [
        | inr e ↦ rw e refl
        | inl e ↦ rw e (
            (add_count_lem counts stamps (profile_key ctx pid sample_type_off_cpu)
                (sub64 ctx.now t / 1000) m.counted).0
              k
              (λ q.
                let two : sample_type_off_cpu ≡ k.sample_type = ap (λ k. k.sample_type) q in
                absurd (omega (arith, two, h))))
      ]

  sched_switch-on_cpu :
      (ctx : Context) (k : EbpfProfileKey) (m : Maps counts stamps)
      → k.sample_type ≡ sample_type_on_cpu
      → counts.get k (sched_switch counts stamps ctx m).1.counted ≡ counts.get k m.counted
  unfolding sched_switch try_sched_switch
  sched_switch-on_cpu ctx k m h = elim (Bool-cases (accepts m.target_pid (tgid_of ctx))) [
    | inr e ↦ rw e refl
    | inl e ↦ rw e (
        record_duration-on_cpu ctx (tgid_of ctx) (stamps.get (tgid_of ctx) m.process_timestamps) k m
          h)
  ]

  pub wake-maps :
      (r : Option Round) (s : Session counts stamps) → (wake counts stamps r s).maps ≡ s.maps
  unfolding wake
  wake-maps none s = refl
  wake-maps (some r) s = refl

  pub visit_key-maps :
      (key : EbpfProfileKey) (r : Option Round) (s : Session counts stamps)
      → (visit_key counts stamps key r s).maps ≡ s.maps
  unfolding visit_key
  visit_key-maps key none s = refl
  visit_key-maps key (some r) s = refl

  pub finish-maps :
      (r : Option Round) (s : Session counts stamps) → (finish counts stamps r s).maps ≡ s.maps
  unfolding finish
  finish-maps none s = refl
  finish-maps (some r) s = refl

  kept_le : {o o' : Option ℕ} → o' ≡ o → or_zero o' ≤ or_zero o + 0
  kept_le h = rw h (omega arith)

  -- An event adds at most the sample that it is.
  act-le :
      (target : Option ℕ) (e : Event) (k : EbpfProfileKey) (s : Session counts stamps)
      → s.maps.target_pid ≡ target
      → k.sample_type ≡ sample_type_on_cpu
      → count_of k (act counts stamps e s).maps
        ≤ count_of k s.maps + hits counts stamps target k (samples_of (e ∷ []))
  unfolding act samples_of hits
  act-le target (sampled ctx) k s t h = rw (← t) (unfold hits in golang_profile-le ctx k s.maps)
  act-le target (switched ctx) k s t h = elim (Bool-cases s.off_cpu) [
    | inl e ↦ rw e (kept_le (sched_switch-on_cpu ctx k s.maps h))
    | inr e ↦ rw e (omega arith)
  ]
  act-le target woken k s t h = kept_le (ap (λ m. counts.get k m.counted) (wake-maps s.round s))
  act-le target (visited key) k s t h =
      kept_le (ap (λ m. counts.get k m.counted) (visit_key-maps key s.round s))
  act-le target failed k s t h = omega arith
  act-le target finished k s t h =
      kept_le (ap (λ m. counts.get k m.counted) (finish-maps s.round s))

  hits_first :
      (target : Option ℕ) (e : Event) (es : List Event) (k : EbpfProfileKey)
      → hits counts stamps target k (samples_of (e ∷ es))
        ≡ hits counts stamps target k (samples_of (e ∷ []))
          + hits counts stamps target k (samples_of es)
  unfolding hits samples_of
  hits_first target (sampled ctx) es k = omega arith
  hits_first target (switched ctx) es k = omega arith
  hits_first target woken es k = omega arith
  hits_first target (visited key) es k = omega arith
  hits_first target failed es k = omega arith
  hits_first target finished es k = omega arith

  WasCounted-le :
      (target : ℕ) (off_cpu : Bool) (es : List Event) (s : Session counts stamps)
      → Kept counts stamps (some target) off_cpu s
      → (k : EbpfProfileKey) (v : ℕ) → k.sample_type ≡ sample_type_on_cpu
      → WasCounted counts stamps k v es s
      → v ≤ count_of k s.maps + hits counts stamps (some target) k (samples_of es)
  unfolding WasCounted
  WasCounted-le target off_cpu [] s kept k v h w = rw w (omega arith)
  WasCounted-le target off_cpu (e ∷ es) s kept k v h (inl g) = rw g (omega arith)
  WasCounted-le target off_cpu (e ∷ es) s kept k v h (inr w) = omega (
    arith,
    WasCounted-le target off_cpu es (act counts stamps e s)
        (act-Kept counts stamps (some target) off_cpu e s kept) k v h w,
    act-le (some target) e k s kept.same_target h,
    hits_first (some target) e es k,
  )

  -- The entry is an off-CPU one, or its count is at most the number of samples of its key.
  abbrev pub IsBounded : ℕ → List Event → ProfileKey × ℕ → Type 0
  IsBounded target es (key, v) =
      (k : EbpfProfileKey) × (convert_key k ≡ key)
      × (k.sample_type ≡ sample_type_on_cpu
          → v ≤ hits counts stamps (some target) k (samples_of es))

  -- From a fresh map of counts on, however the events (a run of a program in the kernel is one)
  -- interleave, each published entry comes from a key of the kernel, and if that is an on-CPU key,
  -- the count is at most the number of samples with this key among the events that the filter lets
  -- through.
  pub run-IsBounded :
      (target : ℕ) (off_cpu : Bool) (m : Maps counts stamps) (es : List Event)
      → IsFresh counts stamps m
      → All
          (IsBounded target es)
          (run counts stamps es (attach counts stamps target off_cpu m)).aggregated_counts
  run-IsBounded target off_cpu m es fresh =
      let s = attach counts stamps target off_cpu m in
      All-map (IsSourced counts stamps target off_cpu es s) (IsBounded target es)
        (λ e (k, same, wanted, w). (
          k,
          same,
          λ on. fresh_le k e.1 (
              WasCounted-le target off_cpu es s (attach-Kept counts stamps target off_cpu m fresh) k
                e.1 on w),
        ))
        (run counts stamps es s).aggregated_counts
        (run-IsSourced counts stamps target off_cpu m es fresh)
    where
      fresh_le :
          (k : EbpfProfileKey) (v : ℕ)
          → v
            ≤ count_of k (attach counts stamps target off_cpu m).maps
              + hits counts stamps (some target) k (samples_of es)
          → v ≤ hits counts stamps (some target) k (samples_of es)
      fresh_le k v h = unfold attach in omega (arith, rw (fresh k) at h)
