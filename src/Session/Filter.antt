-- ===== src/Session/Filter.antt =====
-- Which keys the kernel counts in the course of a session.
use mathlib.Core.Path.{subst}
use golang_profiling.Base.{
  ℕ, ◌≡◌, refl, sym, ◌∙◌, inl, inr, Bool, true, false, Option, none, some, if◌then◌else◌,
  Bool-cases,
}
use golang_profiling.Probe.Maps.{EbpfProfileKey, BpfHashMap, Context, tgid_of, sample_type_on_cpu}
use golang_profiling.Probe.Program.{
  accepts, Maps, profile_key, record_duration, golang_profile, sched_switch, try_golang_profile,
  try_sched_switch,
}
use golang_profiling.Probe.Program.Keys.{same_key, same_key→eq, not-same_key→ne}
use golang_profiling.Probe.Program.OnCpu.{
  golang_profile-rejected, golang_profile-accepted, sample_key, add_count_lem,
}
use golang_profiling.Probe.Program.Filter.{IsFiltered, Step-IsFiltered, sample, switch}
use golang_profiling.Collect.Counts.{Round}
use golang_profiling.Session.{
  Event, sampled, switched, woken, visited, failed, finished, Session, wake, visit_key, finish, act,
}

module _ (counts : BpfHashMap EbpfProfileKey) (stamps : BpfHashMap ℕ) where
  -- Neither program touches the target.
  golang_profile-target_pid :
      (ctx : Context) (m : Maps counts stamps)
      → (golang_profile counts stamps ctx m).1.target_pid ≡ m.target_pid
  unfolding golang_profile try_golang_profile
  golang_profile-target_pid ctx m = elim (Bool-cases (accepts m.target_pid (tgid_of ctx))) [
    | inl e ↦ rw e refl
    | inr e ↦ rw e refl
  ]

  record_duration-target_pid :
      (ctx : Context) (pid : ℕ) (stamp : Option ℕ) (m : Maps counts stamps)
      → (record_duration counts stamps ctx pid stamp m).target_pid ≡ m.target_pid
  unfolding record_duration
  record_duration-target_pid ctx pid none m = refl
  record_duration-target_pid ctx pid (some t) m = refl

  sched_switch-target_pid :
      (ctx : Context) (m : Maps counts stamps)
      → (sched_switch counts stamps ctx m).1.target_pid ≡ m.target_pid
  unfolding sched_switch try_sched_switch
  sched_switch-target_pid ctx m = elim (Bool-cases (accepts m.target_pid (tgid_of ctx))) [
    | inl e ↦ rw e (
        record_duration-target_pid ctx (tgid_of ctx) (stamps.get (tgid_of ctx) m.process_timestamps)
          m)
    | inr e ↦ rw e refl
  ]

  -- Every counted key is that of an on-CPU sample.
  unfoldable pub IsOnCpu : Maps counts stamps → Type 0
  IsOnCpu m =
      (k : EbpfProfileKey) (n : ℕ)
      → counts.get k m.counted ≡ some n
      → k.sample_type ≡ sample_type_on_cpu

  golang_profile-IsOnCpu :
      (ctx : Context) (m : Maps counts stamps)
      → IsOnCpu m
      → IsOnCpu (golang_profile counts stamps ctx m).1
  unfolding IsOnCpu profile_key
  golang_profile-IsOnCpu ctx m h k n g = elim (Bool-cases (accepts m.target_pid (tgid_of ctx))) [
    | inr e ↦ h k n (rw (golang_profile-rejected counts stamps ctx m e) at g)
    | inl e ↦ elim (Bool-cases (same_key (sample_key counts stamps ctx) k)) [
      | inl same ↦ rw (← same_key→eq (sample_key counts stamps ctx) k same) refl
      | inr other ↦ h k n (
          sym (
            (add_count_lem counts stamps (sample_key counts stamps ctx) 1 m.counted).0 k
              (not-same_key→ne (sample_key counts stamps ctx) k other))
          ∙ (rw (golang_profile-accepted counts stamps ctx m e) at g))
    ]
  ]

  -- What stays true of the kernel's maps and the option while the session runs.
  pub record IsKept (target : Option ℕ) (off_cpu : Bool) (m : Maps counts stamps) (now : Bool)
      : Type 0 where
    pub same_target : m.target_pid ≡ target
    pub same_off_cpu : now ≡ off_cpu
    pub filtered : IsFiltered counts stamps m
    pub on_cpu_only : off_cpu ≡ false → IsOnCpu m

  module _ (target : Option ℕ) (off_cpu : Bool) where
    abbrev pub Kept : Session counts stamps → Type 0
    Kept s = IsKept target off_cpu s.maps s.off_cpu

    -- The reader leaves the kernel's maps alone.
    wake-Kept :
        (r : Option Round) (s : Session counts stamps) → Kept s → Kept (wake counts stamps r s)
    unfolding wake
    wake-Kept none s h = h
    wake-Kept (some r) s h = h

    visit_key-Kept :
        (key : EbpfProfileKey) (r : Option Round) (s : Session counts stamps)
        → Kept s
        → Kept (visit_key counts stamps key r s)
    unfolding visit_key
    visit_key-Kept key none s h = h
    visit_key-Kept key (some r) s h = h

    finish-Kept :
        (r : Option Round) (s : Session counts stamps) → Kept s → Kept (finish counts stamps r s)
    unfolding finish
    finish-Kept none s h = h
    finish-Kept (some r) s h = h

    switch-Kept :
        (ctx : Context) (s : Session counts stamps)
        → s.off_cpu ≡ true
        → Kept s
        → IsKept target off_cpu (sched_switch counts stamps ctx s.maps).1 s.off_cpu
    switch-Kept ctx s e h = record {
      same_target = sched_switch-target_pid ctx s.maps ∙ h.same_target;
      same_off_cpu = h.same_off_cpu;
      filtered = Step-IsFiltered counts stamps (switch ctx s.maps) h.filtered;
      on_cpu_only = λ q. let p = h.same_off_cpu in absurd (cc);
    }

    pub act-Kept : (e : Event) (s : Session counts stamps) → Kept s → Kept (act counts stamps e s)
    unfolding act
    act-Kept (sampled ctx) s h = record {
      same_target = golang_profile-target_pid ctx s.maps ∙ h.same_target;
      same_off_cpu = h.same_off_cpu;
      filtered = Step-IsFiltered counts stamps (sample ctx s.maps) h.filtered;
      on_cpu_only = λ q. golang_profile-IsOnCpu ctx s.maps (h.on_cpu_only q);
    }
    act-Kept (switched ctx) s h = elim (Bool-cases s.off_cpu) [
      | inr e ↦
          subst
            (λ b.
              Kept (if b then record s { maps = (sched_switch counts stamps ctx s.maps).1 } else s))
            (sym e) h
      | inl e ↦
          subst
            (λ b.
              Kept (if b then record s { maps = (sched_switch counts stamps ctx s.maps).1 } else s))
            (sym e) (switch-Kept ctx s e h)
    ]
    act-Kept woken s h = wake-Kept s.round s h
    act-Kept (visited key) s h = visit_key-Kept key s.round s h
    act-Kept failed s h = h
    act-Kept finished s h = finish-Kept s.round s h
