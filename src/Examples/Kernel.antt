-- ===== src/Examples/Kernel.antt =====
-- A concrete kernel map, and runs of the two programs on it.
use golang_profiling.Base.{
  ℕ, ◌+◌, ◌≡◌, refl, ◌≢◌, ◌↔◌, inl, inr, true, false, Option, none, some, [], ◌∷◌, arith, ◌==◌,
  if◌then◌else◌, Bool-cases,
}
use golang_profiling.Base.Assoc.{Keys}
use golang_profiling.Probe.Maps.{EbpfProfileKey, BpfHashMap, Context, stack_id, tgid_of}
use golang_profiling.Probe.Program.{accepts, profile_key, Maps, golang_profile, sched_switch}
use golang_profiling.Probe.Program.Keys.{same_key, same_key→eq, same_key_refl}
use golang_profiling.Probe.Program.OnCpu.{profile_all, hits, profile_all-hits}
use golang_profiling.Probe.Program.OffCpu.{
  interval_us, intervals_us, switch_all, switch_all-intervals_us,
}
use golang_profiling.Probe.Program.Filter.{here, next, sample, switch, IsFiltered, Reach-IsFiltered}

-- A map without a bound, as a function.
abbrev pub function_map : {K : Type 0} → Keys K → BpfHashMap K
function_map {K} keys = record {
  Map = K → Option ℕ;
  get = λ k m. m k;
  insert = λ k v m j. if keys.same k j then some v else m j;
  remove = λ k m j. if keys.same k j then none else m j;
  get-insert_self = λ k v m. inl (rw ((keys.same_iff k k).1 refl) refl);
  get-insert_other = λ k j v m ne. rw (differ keys k j ne) refl;
  get-remove_self = λ k m. rw ((keys.same_iff k k).1 refl) refl;
  get-remove_other = λ k j m ne. rw (differ keys k j ne) refl;
  get-insert-remove = λ k v w m h. rw ((keys.same_iff k k).1 refl) refl;
}
  where
    differ : {K : Type 0} (keys : Keys K) (k j : K) → k ≢ j → keys.same k j ≡ false
    differ keys k j ne = elim (Bool-cases (keys.same k j)) [
      | inl e ↦ absurd (ne ((keys.same_iff k j).0 e))
      | inr e ↦ e
    ]

abbrev pub profile_keys : Keys EbpfProfileKey
profile_keys = record {
  same = same_key;
  same_iff = λ a b. (same_key→eq a b, λ e. rw e (same_key_refl b));
}

pub number_iff : (a b : ℕ) → ((a == b) ≡ true) ↔ (a ≡ b)
number_iff a b = (λ e. ground arith, λ e. ground arith)

abbrev pub numbers : Keys ℕ
numbers = record { same = λ a b. a == b; same_iff = number_iff }

abbrev pub counts : BpfHashMap EbpfProfileKey
counts = function_map profile_keys

abbrev pub stamps : BpfHashMap ℕ
stamps = function_map numbers

-- Process 5, thread 6.
abbrev pub ctx : Context
ctx = record { pid_tgid = 21474836486; user_stackid = some 11; kernel_stackid = none; now = 0 }

abbrev pub on_key : EbpfProfileKey
on_key = record { pid = 5; user_stack_id = 11; kernel_stack_id = 0xffff_ffff; sample_type = 1 }

abbrev pub off_key : EbpfProfileKey
off_key = record { pid = 5; user_stack_id = 11; kernel_stack_id = 0xffff_ffff; sample_type = 2 }

-- Both keys counted, a stamp of the process, and no target.
abbrev pub start : Maps counts stamps
start = record {
  counted = counts.insert on_key 3 (counts.insert off_key 4 (λ k. none));
  target_pid = some 0;
  process_timestamps = stamps.insert 5 1000 (λ k. none);
}

abbrev pub empty : Maps counts stamps
empty = record { counted = λ k. none; target_pid = some 5; process_timestamps = λ k. none }

profile_all-hits_example :
    counts.get on_key (profile_all counts stamps (ctx ∷ ctx ∷ []) start).counted
    ≡ some (3 + hits counts stamps (some 0) on_key (ctx ∷ ctx ∷ []))
unfolding same_key
profile_all-hits_example =
    profile_all-hits counts stamps (ctx ∷ ctx ∷ []) start on_key 3 refl (omega arith)

hits_two : hits counts stamps (some 0) on_key (ctx ∷ ctx ∷ []) ≡ 2
unfolding hits accepts same_key profile_key tgid_of stack_id
hits_two = refl

switch_all-intervals_us_example :
    counts.get off_key (switch_all counts stamps ctx (2001000 ∷ 2001500 ∷ []) start).counted
    ≡ some (4 + intervals_us 1000 (2001000 ∷ 2001500 ∷ []))
unfolding same_key accepts profile_key tgid_of stack_id intervals_us interval_us
switch_all-intervals_us_example =
    switch_all-intervals_us counts stamps ctx (2001000 ∷ 2001500 ∷ []) 1000 4 start refl refl refl
      (omega arith, (omega arith, omega arith)) (omega arith)

none_counted : IsFiltered counts stamps empty
unfolding IsFiltered
none_counted k n h = absurd (cc)

Reach-IsFiltered_example :
    IsFiltered counts stamps
      (sched_switch counts stamps ctx (golang_profile counts stamps ctx empty).1).1
Reach-IsFiltered_example =
    Reach-IsFiltered counts stamps none_counted
      (next (next here (sample ctx empty)) (switch ctx (golang_profile counts stamps ctx empty).1))
