-- ===== src/Probe/Program.antt =====
-- The programs `golang_profile` and `sched_switch`.
pub mod Keys
pub mod OnCpu
pub mod OffCpu
pub mod Filter
use golang_profiling.Base.{ℕ, ◌/◌, Bool, false, ◌||◌, Option, none, some, ltb, ◌==◌, if◌then◌else◌}
use golang_profiling.Base.Words.{add64, sub64}
use golang_profiling.Probe.Maps.{
  EbpfProfileKey, BpfHashMap, Context, stack_id, tgid_of, sample_type_on_cpu, sample_type_off_cpu,
}

-- `Result<u32, u32>`
pub data Outcome : Type 0 where
  ok : ℕ → Outcome
  err : ℕ → Outcome

-- `golang_profile` and `sched_switch` return the number in either case.
unfoldable pub return_code : Outcome → ℕ
return_code (ok ret) = ret
return_code (err ret) = ret

-- The guards that both programs begin with: not the idle process, and only the target if there is one.
unfoldable pub accepts : Option ℕ → ℕ → Bool
accepts target tgid =
    if tgid == 0
    then false
    else elim target [ none ↦ false | some target_pid ↦ target_pid == 0 || tgid == target_pid ]

unfoldable pub profile_key : Context → ℕ → ℕ → EbpfProfileKey
profile_key ctx pid sample_type = record {
  pid = pid;
  user_stack_id = stack_id ctx.user_stackid;
  kernel_stack_id = stack_id ctx.kernel_stackid;
  sample_type = sample_type;
}

abbrev pub or_zero : Option ℕ → ℕ
or_zero none = 0
or_zero (some n) = n

module _ (counts : BpfHashMap EbpfProfileKey) (stamps : BpfHashMap ℕ) where
  -- The maps of the program. `target_pid` is what `TARGET_PID.get(0)` answers.
  pub record Maps : Type 0 where
    pub counted : counts.Map
    pub target_pid : Option ℕ
    pub process_timestamps : stamps.Map

  -- `COUNTS.get(&key)…unwrap_or(0)` and the insertion of the sum.
  unfoldable pub add_count : EbpfProfileKey → ℕ → counts.Map → counts.Map
  add_count key n m = counts.insert key (add64 (or_zero (counts.get key m)) n) m

  unfoldable pub try_golang_profile : Context → Maps → Outcome × Maps
  try_golang_profile ctx s =
      let tgid = tgid_of ctx in
      if accepts s.target_pid tgid
      then (
        ok 0,
        record s { counted = add_count (profile_key ctx tgid sample_type_on_cpu) 1 s.counted },
      )
      else (ok 0, s)

  -- The body of `if let Some(prev_time)`: the sample, if it is long enough, and the removal.
  unfoldable pub record_duration : Context → ℕ → Option ℕ → Maps → Maps
  record_duration ctx prev_pid none s = s
  record_duration ctx prev_pid (some prev_time) s =
      let duration = sub64 ctx.now prev_time in
      let key = profile_key ctx prev_pid sample_type_off_cpu in
      record s {
        counted =
            (if ltb 1000000 duration then add_count key (duration / 1000) s.counted else s.counted);
        process_timestamps = stamps.remove prev_pid s.process_timestamps;
      }

  unfoldable pub try_sched_switch : Context → Maps → Outcome × Maps
  try_sched_switch ctx s =
      let prev_pid = tgid_of ctx in
      let s' = record_duration ctx prev_pid (stamps.get prev_pid s.process_timestamps) s in
      if accepts s.target_pid prev_pid
      then (
        ok 0,
        record s' { process_timestamps = stamps.insert prev_pid ctx.now s'.process_timestamps },
      )
      else (ok 0, s)

  unfoldable pub golang_profile : Context → Maps → ℕ × Maps
  golang_profile ctx s = let (r, s') = try_golang_profile ctx s in (return_code r, s')

  unfoldable pub sched_switch : Context → Maps → ℕ × Maps
  sched_switch ctx s = let (r, s') = try_sched_switch ctx s in (return_code r, s')
