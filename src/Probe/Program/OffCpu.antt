-- ===== src/Probe/Program/OffCpu.antt =====
-- `sched_switch`: what the switch-outs of one process add to its off-CPU count.
use golang_profiling.Base.{
  ℕ, ◌+◌, ◌-◌, ◌*◌, ◌/◌, ◌%◌, ◌≤◌, ◌<◌, ◌≡◌, refl, ap, ◌∙◌, inl, inr, true, some, List, [], ◌∷◌,
  arith, ltb, if◌then◌else◌, Bool-cases,
}
use golang_profiling.Base.Bytes.{u64_mod}
use golang_profiling.Base.Words.{add64_exact, sub64_exact}
use golang_profiling.Probe.Maps.{EbpfProfileKey, BpfHashMap, Context, tgid_of, sample_type_off_cpu}
use golang_profiling.Probe.Program.{
  accepts, profile_key, Maps, record_duration, try_sched_switch, sched_switch,
}
use golang_profiling.Probe.Program.OnCpu.{add_count-present}

-- What one interval between two switch-outs adds, in microseconds.
unfoldable pub interval_us : ℕ → ℕ → ℕ
interval_us before after = if ltb 1000000 (after - before) then (after - before) / 1000 else 0

-- The same for a run of switch-outs, from the time of the last one before it.
unfoldable pub intervals_us : ℕ → List ℕ → ℕ
intervals_us before [] = 0
intervals_us before (t ∷ ts) = interval_us before t + intervals_us t ts

-- Times that go on, and fit 64 bits.
abbrev pub Ascending : ℕ → List ℕ → Type 0
Ascending before [] = before < u64_mod
Ascending before (t ∷ ts) = (before ≤ t) × Ascending t ts

Ascending-lt : (before : ℕ) (ts : List ℕ) → Ascending before ts → before < u64_mod
Ascending-lt before [] h = h
Ascending-lt before (t ∷ ts) h = omega (arith, Ascending-lt t ts h.1, h.0)

module _ (counts : BpfHashMap EbpfProfileKey) (stamps : BpfHashMap ℕ) (ctx : Context) where
  abbrev pub at_time : ℕ → Context
  at_time t = record ctx { now = t }

  abbrev pub switch_key : EbpfProfileKey
  switch_key = profile_key ctx (tgid_of ctx) sample_type_off_cpu

  -- The process is switched out at each of the times, with the same stacks.
  pub switch_all : List ℕ → Maps counts stamps → Maps counts stamps
  switch_all [] s = s
  switch_all (t ∷ ts) s = switch_all ts (sched_switch counts stamps (at_time t) s).1

  -- One switch-out, where a timestamp of the process and a count of the key are there.
  one_switch :
      (t before c : ℕ) (s : Maps counts stamps)
      → accepts s.target_pid (tgid_of ctx) ≡ true
      → stamps.get (tgid_of ctx) s.process_timestamps ≡ some before
      → counts.get switch_key s.counted ≡ some c
      → before ≤ t
      → t < u64_mod
      → c + interval_us before t < u64_mod
      → let s' = (sched_switch counts stamps (at_time t) s).1 in
        (s'.target_pid ≡ s.target_pid)
        × (stamps.get (tgid_of ctx) s'.process_timestamps ≡ some t)
        × (counts.get switch_key s'.counted ≡ some (c + interval_us before t))
  unfolding sched_switch try_sched_switch record_duration interval_us profile_key tgid_of
  one_switch t before c s ha hs hc le lt fits =
      let stamped = stamps.get-insert-remove (tgid_of ctx) t before s.process_timestamps hs in
      elim (Bool-cases (ltb 1000000 (t - before))) [
        | inl long ↦
            rw (hs, ha, sub64_exact t before le lt, long)
              (
                refl,
                stamped,
                add_count-present counts stamps switch_key ((t - before) / 1000) c s.counted hc
                    ∙ ap some (add64_exact c ((t - before) / 1000) (rw long at fits)),
              )
        | inr short ↦
            rw (hs, ha, sub64_exact t before le lt, short)
              (refl, stamped, hc ∙ ap some (let z : c ≡ c + 0 = omega arith in z))
      ]

  -- When a process that the filter lets through is switched out at ascending times with the same
  -- stacks, and its timestamp and the count of its off-CPU key are in the maps, that count grows
  -- by the sum over the intervals between switch-outs, in microseconds and only for those over a
  -- millisecond, as long as the sum fits 64 bits.
  pub switch_all-intervals_us :
      (ts : List ℕ) (before c : ℕ) (s : Maps counts stamps)
      → accepts s.target_pid (tgid_of ctx) ≡ true
      → stamps.get (tgid_of ctx) s.process_timestamps ≡ some before
      → counts.get switch_key s.counted ≡ some c
      → Ascending before ts
      → c + intervals_us before ts < u64_mod
      → counts.get switch_key (switch_all ts s).counted ≡ some (c + intervals_us before ts)
  unfolding switch_all intervals_us
  switch_all-intervals_us [] before c s ha hs hc up fits =
      hc ∙ ap some (let z : c ≡ c + 0 = omega arith in z)
  switch_all-intervals_us (t ∷ ts) before c s ha hs hc up fits =
      let (target, stamp, count) =
        one_switch t before c s ha hs hc up.0 (Ascending-lt t ts up.1) (omega arith) in
      switch_all-intervals_us ts t (c + interval_us before t)
        (sched_switch counts stamps (at_time t) s).1 (rw target ha) stamp count up.1 (omega arith)
      ∙ ap some (
          let z : c + interval_us before t + intervals_us t ts
              ≡ c + (interval_us before t + intervals_us t ts) =
            omega arith in
          z)

-- Every interval is longer than a millisecond and a whole number of microseconds.
abbrev pub Coarse : ℕ → List ℕ → Type 0
Coarse before [] = Unit {0}
Coarse before (t ∷ ts) = (before + 1000000 < t) × ((t - before) % 1000 ≡ 0) × Coarse t ts

abbrev pub last_time : ℕ → List ℕ → ℕ
last_time before [] = before
last_time before (t ∷ ts) = last_time t ts

last_time-le : (before : ℕ) (ts : List ℕ) → Coarse before ts → before ≤ last_time before ts
last_time-le before [] h = omega arith
last_time-le before (t ∷ ts) h = omega (arith, last_time-le t ts h.2, h.0)

-- Then the sum is the whole time from the first to the last.
pub intervals_us-telescope :
    (ts : List ℕ) (before : ℕ)
    → Coarse before ts
    → intervals_us before ts * 1000 ≡ last_time before ts - before
unfolding intervals_us interval_us
intervals_us-telescope [] before h = omega arith
intervals_us-telescope (t ∷ ts) before h =
    ground (arith, intervals_us-telescope ts t h.2, last_time-le t ts h.2)

module _ (counts : BpfHashMap EbpfProfileKey) (stamps : BpfHashMap ℕ) (ctx : Context) where
  -- When a process that the filter lets through is switched out at ascending times with the same
  -- stacks, its timestamp and the count of its off-CPU key are in the maps, and every interval is
  -- over a millisecond and a whole number of microseconds, that count grows by the whole time from
  -- the timestamp to the last switch-out in microseconds, whatever part of it the process ran, as
  -- long as the sum fits 64 bits.
  pub switch_all-last_time :
      (ts : List ℕ) (before c : ℕ) (s : Maps counts stamps)
      → accepts s.target_pid (tgid_of ctx) ≡ true
      → stamps.get (tgid_of ctx) s.process_timestamps ≡ some before
      → counts.get (switch_key counts stamps ctx) s.counted ≡ some c
      → Ascending before ts
      → Coarse before ts
      → c + (last_time before ts - before) / 1000 < u64_mod
      → counts.get (switch_key counts stamps ctx) (switch_all counts stamps ctx ts s).counted
        ≡ some (c + (last_time before ts - before) / 1000)
  switch_all-last_time ts before c s ha hs hc up coarse fits =
      let total : intervals_us before ts ≡ (last_time before ts - before) / 1000 =
        omega (arith, intervals_us-telescope ts before coarse) in
      switch_all-intervals_us counts stamps ctx ts before c s ha hs hc up (omega arith)
      ∙ ap (λ (n : ℕ). some (c + n)) total
