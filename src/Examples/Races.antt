-- ===== src/Examples/Races.antt =====
-- Two processors that run the programs at once.
use golang_profiling.Base.{◌+◌, ◌≡◌, refl, some, List, [], ◌∷◌, arith}
use golang_profiling.Base.Words.{add64, sub64}
use golang_profiling.Probe.Maps.{Context, tgid_of, stack_id}
use golang_profiling.Probe.Program.{accepts, profile_key}
use golang_profiling.Probe.Program.Keys.{same_key}
use golang_profiling.Probe.Races.{
  idle, Turn, sampled, switched, resumed, update, after_count, after_stamp, added_once, Racing,
  begin, resume, turn, race, added,
}
use golang_profiling.Probe.Races.Exact.{IsExclusive, race-added}
use golang_profiling.Examples.Kernel.{counts, stamps, ctx, start, on_key, off_key}

abbrev resting : Racing counts stamps
resting = record { maps = start; locals = λ cpu. idle }

-- Five milliseconds after the timestamp.
abbrev later : Context
later = record ctx { now = 5001000 }

-- Both processors read the count 3, and both store 4.
abbrev colliding : List Turn
colliding = sampled 0 ctx ∷ sampled 1 ctx ∷ resumed 0 ∷ resumed 1 ∷ resumed 0 ∷ resumed 1 ∷ []

lost_update :
    (counts.get on_key (race counts stamps colliding resting).maps.counted ≡ some 4)
    × (added counts stamps on_key colliding resting ≡ 2)
unfolding race turn begin resume update after_count added added_once accepts profile_key tgid_of
    stack_id same_key add64
lost_update = (refl, refl)

-- Two threads of the process are switched out, and both read the timestamp before either removes it: ten
-- milliseconds are counted where five have passed.
abbrev switches : List Turn
switches = switched 0 later ∷ switched 1 later ∷ resumed 0 ∷ resumed 0 ∷ resumed 1 ∷ resumed 1 ∷ []

counted_twice : counts.get off_key (race counts stamps switches resting).maps.counted ≡ some 10004
unfolding race turn begin resume update after_count after_stamp accepts profile_key tgid_of stack_id
    same_key add64 sub64
counted_twice = refl

switches-added : added counts stamps off_key switches resting ≡ 10000
unfolding turn begin resume update after_count after_stamp added added_once accepts profile_key
    tgid_of stack_id same_key add64 sub64
switches-added = refl

switches-IsExclusive : IsExclusive counts stamps off_key switches resting
unfolding IsExclusive turn begin resume update after_count after_stamp accepts profile_key tgid_of
    stack_id same_key add64 sub64
switches-IsExclusive = (
  λ n o e cpu m v a q. ground arith,
  (
    λ n o e cpu m v a q. absurd (cc),
    (λ n o e cpu m v a q. ground arith, (λ n o e cpu m v a q. absurd (cc), tt)),
  ),
)

race-added_example :
    counts.get off_key (race counts stamps switches resting).maps.counted
    ≡ some (4 + added counts stamps off_key switches resting)
unfolding same_key
race-added_example =
    race-added counts stamps off_key switches 4 resting (λ cpu. refl) refl switches-IsExclusive
      (omega (arith, switches-added))
