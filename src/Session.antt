-- ===== src/Session.antt =====
-- golang-profiling/src/main.rs: the programs in the kernel and the reader of their counts, side by side.
pub mod Filter
pub mod Sourced
pub mod Bounds
pub mod Quiet
pub mod Profile
use golang_profiling.Base.{ℕ, Bool, Option, none, some, List, [], ◌∷◌, if◌then◌else◌}
use golang_profiling.Probe.Maps.{EbpfProfileKey, BpfHashMap, Context}
use golang_profiling.Probe.Program.{Maps, golang_profile, sched_switch}
use golang_profiling.Collect.Counts.{ProfileKey, Round, empty_round, read_item, publish}

-- What can happen next. The programs run on any processor at any time, also between two items of the
-- reader's iterator, but each as one step: two of them do not run at once. Which keys the iterator goes
-- through, in which order and how often, is left open.
pub data Event : Type 0 where
  -- `golang_profile` runs.
  sampled : Context → Event
  -- `sched_switch` runs, if it is attached.
  switched : Context → Event
  -- The reader wakes up, and makes empty counts.
  woken : Event
  -- The reader goes on to this key of the kernel's map.
  visited : EbpfProfileKey → Event
  -- The iterator gives an error.
  failed : Event
  -- The reader is past the last key; it updates the aggregated counts and goes to sleep.
  finished : Event

-- The body of the loop over the items: a key that is gone by now is skipped by the iterator.
unfoldable pub visit : EbpfProfileKey → Option ℕ → Round → Round
visit key none r = r
visit key (some value) r = read_item key value r

module _ (counts : BpfHashMap EbpfProfileKey) (stamps : BpfHashMap ℕ) where
  -- The kernel's maps, whether `sched_switch` is attached, the local variables of a round that is under
  -- way, and `aggregated_counts` of the `ProfilerState`.
  pub record Session : Type 0 where
    pub maps : Maps counts stamps
    pub off_cpu : Bool
    pub round : Option Round
    pub aggregated_counts : List (ProfileKey × ℕ)

  -- What `main` does before it spawns the reader: the target is set before the programs are attached.
  unfoldable pub attach : ℕ → Bool → Maps counts stamps → Session
  attach target_pid off_cpu maps = record {
    maps = record maps { target_pid = some target_pid };
    off_cpu = off_cpu;
    round = none;
    aggregated_counts = [];
  }

  unfoldable pub wake : Option Round → Session → Session
  wake none s = record s { round = some empty_round }
  wake (some r) s = s

  unfoldable pub visit_key : EbpfProfileKey → Option Round → Session → Session
  visit_key key none s = s
  visit_key key (some r) s = record s { round = some (visit key (counts.get key s.maps.counted) r) }

  unfoldable pub finish : Option Round → Session → Session
  finish none s = s
  finish (some r) s = record s { round = none; aggregated_counts = publish r s.aggregated_counts }

  -- An event that cannot happen changes nothing.
  unfoldable pub act : Event → Session → Session
  act (sampled ctx) s = record s { maps = (golang_profile counts stamps ctx s.maps).1 }
  act (switched ctx) s =
      if s.off_cpu then record s { maps = (sched_switch counts stamps ctx s.maps).1 } else s
  act woken s = wake s.round s
  act (visited key) s = visit_key key s.round s
  act failed s = s
  act finished s = finish s.round s

  unfoldable pub run : List Event → Session → Session
  run [] s = s
  run (e ∷ es) s = run es (act e s)
