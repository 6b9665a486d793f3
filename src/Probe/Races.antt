-- ===== src/Probe/Races.antt =====
-- golang-profiling-ebpf/src/main.rs: the two programs on several processors at once. Each read and each
-- write of a map that the programs change is a step of its own; other processors may run between any two.
pub mod Bounds
pub mod Held
pub mod Exact
pub mod Alone
use golang_profiling.Base.{ℕ, ◌+◌, ◌/◌, Option, none, some, List, [], ◌∷◌, ltb, ◌==◌, if◌then◌else◌}
use golang_profiling.Base.Words.{add64, sub64}
use golang_profiling.Probe.Maps.{
  EbpfProfileKey, BpfHashMap, Context, tgid_of, sample_type_on_cpu, sample_type_off_cpu,
}
use golang_profiling.Probe.Program.{accepts, profile_key, or_zero, Maps}
use golang_profiling.Probe.Program.Keys.{same_key}

-- What the program on a processor does next. `some (pid, now)` is the timestamp that `sched_switch` stores
-- in the end.
pub data Local : Type 0 where
  -- No program runs.
  idle : Local
  -- It reads the count of the key, to add this amount.
  counting : EbpfProfileKey → ℕ → Option (ℕ × ℕ) → Local
  -- It inserts the count that it has read plus the amount.
  adding : EbpfProfileKey → ℕ → ℕ → Option (ℕ × ℕ) → Local
  -- It removes the timestamp of the process.
  removing : ℕ → ℕ → Local
  -- It stores the timestamp of the process.
  storing : ℕ → ℕ → Local

-- The next step, on the processor of this number.
pub data Turn : Type 0 where
  -- `golang_profile` begins, and passes its guards.
  sampled : ℕ → Context → Turn
  -- `sched_switch` begins, passes its guards, and reads the timestamp of the process.
  switched : ℕ → Context → Turn
  -- The program goes on by one step.
  resumed : ℕ → Turn

unfoldable pub update : (ℕ → Local) → ℕ → Local → ℕ → Local
update locals cpu l other = if other == cpu then l else locals other

-- Behind the insertion of a count.
unfoldable pub after_count : Option (ℕ × ℕ) → Local
after_count none = idle
after_count (some (pid, now)) = removing pid now

-- `sched_switch` with the timestamp that it has read, if there is one.
unfoldable pub after_stamp : Context → Option ℕ → Local
after_stamp ctx none = storing (tgid_of ctx) ctx.now
after_stamp ctx (some prev_time) =
    let duration = sub64 ctx.now prev_time in
    if ltb 1000000 duration
    then counting (profile_key ctx (tgid_of ctx) sample_type_off_cpu) (duration / 1000)
        (some (tgid_of ctx, ctx.now))
    else removing (tgid_of ctx) ctx.now

-- The amount that a step inserts for the key.
unfoldable pub added_once : EbpfProfileKey → Local → ℕ
added_once key (adding k amount v after) = if same_key k key then amount else 0
added_once key idle = 0
added_once key (counting k amount after) = 0
added_once key (removing pid now) = 0
added_once key (storing pid now) = 0

module _ (counts : BpfHashMap EbpfProfileKey) (stamps : BpfHashMap ℕ) where
  pub record Racing : Type 0 where
    pub maps : Maps counts stamps
    pub locals : ℕ → Local

  -- A processor runs one program at a time: where one runs already nothing happens.
  unfoldable pub begin : ℕ → Context → Local → Local → Racing → Racing
  begin cpu ctx idle next s =
      if accepts s.maps.target_pid (tgid_of ctx)
      then record s { locals = update s.locals cpu next }
      else s
  begin cpu ctx (counting k amount after) next s = s
  begin cpu ctx (adding k amount v after) next s = s
  begin cpu ctx (removing pid now) next s = s
  begin cpu ctx (storing pid now) next s = s

  unfoldable pub resume : ℕ → Local → Racing → Racing
  resume cpu idle s = s
  resume cpu (counting k amount after) s = record s {
    locals = update s.locals cpu (adding k amount (or_zero (counts.get k s.maps.counted)) after);
  }
  resume cpu (adding k amount v after) s = record {
    maps = record (s.maps) { counted = counts.insert k (add64 v amount) s.maps.counted };
    locals = update s.locals cpu (after_count after);
  }
  resume cpu (removing pid now) s = record {
    maps = record (s.maps) { process_timestamps = stamps.remove pid s.maps.process_timestamps };
    locals = update s.locals cpu (storing pid now);
  }
  resume cpu (storing pid now) s = record {
    maps = record (s.maps) { process_timestamps = stamps.insert pid now s.maps.process_timestamps };
    locals = update s.locals cpu idle;
  }

  unfoldable pub turn : Turn → Racing → Racing
  turn (sampled cpu ctx) s =
      begin cpu ctx (s.locals cpu)
        (counting (profile_key ctx (tgid_of ctx) sample_type_on_cpu) 1 none) s
  turn (switched cpu ctx) s =
      begin cpu ctx (s.locals cpu)
        (after_stamp ctx (stamps.get (tgid_of ctx) s.maps.process_timestamps)) s
  turn (resumed cpu) s = resume cpu (s.locals cpu) s

  unfoldable pub race : List Turn → Racing → Racing
  race [] s = s
  race (t ∷ ts) s = race ts (turn t s)

  -- How much the insertions of a schedule add to the key.
  unfoldable pub added : EbpfProfileKey → List Turn → Racing → ℕ
  added key [] s = 0
  added key (sampled cpu ctx ∷ ts) s = added key ts (turn (sampled cpu ctx) s)
  added key (switched cpu ctx ∷ ts) s = added key ts (turn (switched cpu ctx) s)
  added key (resumed cpu ∷ ts) s =
      added_once key (s.locals cpu) + added key ts (turn (resumed cpu) s)
