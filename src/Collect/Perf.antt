-- ===== src/Collect/Perf.antt =====
-- golang-profiling/src/flamegraph_export.rs: `export_perf_script`.
pub mod Samples
use golang_profiling.Base.{
  ℕ, zero, suc, ◌+◌, ◌-◌, ◌/◌, ◌%◌, List, [], ◌∷◌, ◌++◌, ltb, if◌then◌else◌,
}
use golang_profiling.Base.Bytes.{Bytes, u32_mod}
use golang_profiling.Base.Run.{Run, done, ◌>>=◌}
use golang_profiling.Base.Text.{codes, decimal}
use golang_profiling.Base.Words.{add32}
use golang_profiling.Base.Radix.{hex16}
use mathlib.Core.List.{reverse}

-- The lines in front, each written with its line feed.
unfoldable pub perf_header : ℕ → List Bytes
perf_header timestamp =
    (codes "# captured on: " ++ decimal timestamp)
    ∷ codes "# hostname : localhost"
    ∷ codes "# os release : Linux"
    ∷ codes "# perf version : simulated"
    ∷ codes "# arch : x86_64"
    ∷ codes "# nrcpus online : 1"
    ∷ codes "# nrcpus avail : 1"
    ∷ codes "# cpudesc : Unknown"
    ∷ codes "# total memory : Unknown"
    ∷ codes "# cmdline : golang-profile"
    ∷ codes "#"
    ∷ []

-- A sign, if the `i32` with this bit pattern is negative, and its magnitude.
abbrev pub i32_sign : ℕ → Bytes
i32_sign x = if ltb x 0x8000_0000 then [] else codes "-"

abbrev pub i32_magnitude : ℕ → ℕ
i32_magnitude x = if ltb x 0x8000_0000 then x else u32_mod - x

-- The last `k` decimal digits.
unfoldable pub decimal_fixed : ℕ → ℕ → Bytes
decimal_fixed zero n = []
decimal_fixed (suc k) n = decimal_fixed k (n / 10) ++ ((n % 10 + b'0') ∷ [])

-- `{:.6}` of a millionth of the number. A double holds such a quotient closely enough for six digits.
unfoldable pub format_seconds : ℕ → Bytes
format_seconds x =
    let n = i32_magnitude x in
    i32_sign x ++ (decimal (n / 1_000_000) ++ (codes "." ++ decimal_fixed 6 (n % 1_000_000)))

unfoldable pub sample_header : ℕ → Bytes
sample_header sample_id =
    codes "golang-profile "
    ++ (i32_sign sample_id
        ++ (decimal (i32_magnitude sample_id)
            ++ (codes " [000] " ++ (format_seconds sample_id ++ codes ": cycles:"))))

-- `"\t{:016x} {}"`
unfoldable pub frame_line : ℕ → Bytes → Bytes
frame_line pc symbol = 9 ∷ (hex16 pc ++ (32 ∷ symbol))

module _ (resolve_pc : ℕ → Run Bytes) where
  unfoldable pub frame_lines : List ℕ → Run (List Bytes)
  frame_lines [] = done []
  frame_lines (pc ∷ pcs) = do
    symbol ← resolve_pc pc
    rest ← frame_lines pcs
    done (frame_line pc symbol ∷ rest)

  -- One sample: its header, its frames in reverse order, and an empty line.
  unfoldable pub perf_sample : List ℕ → ℕ → Run (List Bytes)
  perf_sample stack sample_id = do
    frames ← frame_lines (reverse stack)
    done (sample_header sample_id ∷ (frames ++ ([] ∷ [])))

  -- `for _ in 0..*count`, with the lines so far and the next number.
  unfoldable pub repeat_sample : ℕ → List ℕ → List Bytes × ℕ → Run (List Bytes × ℕ)
  repeat_sample zero stack (out, sample_id) = done (out, sample_id)
  repeat_sample (suc count) stack (out, sample_id) = do
    sample ← perf_sample stack sample_id
    repeat_sample count stack (out ++ sample, add32 sample_id 1)

  unfoldable pub perf_samples : List (List ℕ × ℕ) → List Bytes × ℕ → Run (List Bytes × ℕ)
  perf_samples [] state = done state
  perf_samples ((stack, count) ∷ aggregated_data) state = do
    state' ← repeat_sample count stack state
    perf_samples aggregated_data state'

  -- The lines of the file, at a time in seconds.
  unfoldable pub export_perf_script : ℕ → List (List ℕ × ℕ) → Run (List Bytes)
  export_perf_script timestamp aggregated_data = do
    state ← perf_samples aggregated_data (perf_header timestamp, 1)
    done state.0
