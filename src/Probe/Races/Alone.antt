-- ===== src/Probe/Races/Alone.antt =====
-- A program that runs with no other processor in between, as one step.
use golang_profiling.Base.{ℕ, zero, suc, List, [], ◌∷◌}
use golang_profiling.Probe.Maps.{EbpfProfileKey, BpfHashMap}
use golang_profiling.Probe.Program.{Maps}
use golang_profiling.Probe.Races.{Turn, resumed, Racing, race}

-- `n` steps of one processor.
unfoldable pub resumes : ℕ → ℕ → List Turn
resumes zero cpu = []
resumes (suc n) cpu = resumed cpu ∷ resumes n cpu

module _ (counts : BpfHashMap EbpfProfileKey) (stamps : BpfHashMap ℕ) (cpu : ℕ) where
  abbrev maps_after : ℕ → Racing counts stamps → Maps counts stamps
  maps_after n s = (race counts stamps (resumes n cpu) s).maps
