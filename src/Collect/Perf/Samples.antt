-- ===== src/Collect/Perf/Samples.antt =====
-- The samples of a perf script.
use mathlib.Core.List.{reverse, append_assoc, append-nil}
use golang_profiling.Base.{
  ℕ, zero, suc, ◌+◌, ◌≡◌, refl, ap, ◌∙◌, List, [], ◌∷◌, ◌++◌, map, arith, length, length-append,
}
use golang_profiling.Base.Bytes.{Bytes}
use golang_profiling.Base.Run.{Run, done}
use golang_profiling.Base.Words.{add32}
use golang_profiling.Collect.Perf.{
  perf_header, sample_header, frame_line, frame_lines, perf_sample, repeat_sample, perf_samples,
  export_perf_script,
}

-- Each stack as often as its count says.
unfoldable pub repeated : ℕ → List ℕ → List (List ℕ)
repeated zero stack = []
repeated (suc count) stack = stack ∷ repeated count stack

unfoldable pub stacks_of : List (List ℕ × ℕ) → List (List ℕ)
stacks_of [] = []
stacks_of ((stack, count) ∷ aggregated_data) = repeated count stack ++ stacks_of aggregated_data

-- The lines of samples with the numbers from `n` on, for a resolver that always answers.
unfoldable pub numbered : (ℕ → Bytes) → ℕ → List (List ℕ) → List Bytes
numbered symbol_of n [] = []
numbered symbol_of n (stack ∷ stacks) =
    (sample_header n ∷ (map (λ pc. frame_line pc (symbol_of pc)) (reverse stack) ++ ([] ∷ [])))
    ++ numbered symbol_of (add32 n 1) stacks

module _ (resolve_pc : ℕ → Run Bytes) (symbol_of : ℕ → Bytes)
    (answers : (pc : ℕ) → resolve_pc pc ≡ done (symbol_of pc)) where
  frame_lines-map :
      (pcs : List ℕ)
      → frame_lines resolve_pc pcs ≡ done (map (λ pc. frame_line pc (symbol_of pc)) pcs)
  unfolding frame_lines
  frame_lines-map [] = refl
  frame_lines-map (pc ∷ pcs) = rw (answers pc, frame_lines-map pcs) refl

  perf_sample-lines :
      (stack : List ℕ) (n : ℕ)
      → perf_sample resolve_pc stack n
        ≡ done (
            sample_header n
            ∷ (map (λ pc. frame_line pc (symbol_of pc)) (reverse stack) ++ ([] ∷ [])))
  unfolding perf_sample
  perf_sample-lines stack n = rw (frame_lines-map (reverse stack)) refl

  -- The number behind as many samples.
  abbrev next : ℕ → List (List ℕ) → ℕ
  next n [] = n
  next n (stack ∷ stacks) = next (add32 n 1) stacks

  repeat_sample-numbered :
      (count : ℕ) (stack : List ℕ) (out : List Bytes) (n : ℕ)
      → repeat_sample resolve_pc count stack (out, n)
        ≡ done (out ++ numbered symbol_of n (repeated count stack), next n (repeated count stack))
  unfolding repeat_sample repeated numbered
  repeat_sample-numbered zero stack out n = rw append-nil refl
  repeat_sample-numbered (suc count) stack out n =
      rw (perf_sample-lines stack n)
        (repeat_sample-numbered count stack _ (add32 n 1) ∙ rw append_assoc refl)

  next-append : (n : ℕ) (xs ys : List (List ℕ)) → next n (xs ++ ys) ≡ next (next n xs) ys
  next-append n [] ys = refl
  next-append n (x ∷ xs) ys = next-append (add32 n 1) xs ys

  numbered-append :
      (n : ℕ) (xs ys : List (List ℕ))
      → numbered symbol_of n (xs ++ ys)
        ≡ numbered symbol_of n xs ++ numbered symbol_of (next n xs) ys
  unfolding numbered
  numbered-append n [] ys = refl
  numbered-append n (x ∷ xs) ys = rw (numbered-append (add32 n 1) xs ys) (rw append_assoc refl)

  perf_samples-numbered :
      (aggregated_data : List (List ℕ × ℕ)) (out : List Bytes) (n : ℕ)
      → perf_samples resolve_pc aggregated_data (out, n)
        ≡ done (
          out ++ numbered symbol_of n (stacks_of aggregated_data),
          next n (stacks_of aggregated_data),
        )
  unfolding perf_samples stacks_of numbered
  perf_samples-numbered [] out n = rw append-nil refl
  perf_samples-numbered ((stack, count) ∷ rest) out n =
      rw
        (
          repeat_sample-numbered count stack out n,
          perf_samples-numbered rest,
          numbered-append n (repeated count stack) (stacks_of rest),
          next-append n (repeated count stack) (stacks_of rest),
          append_assoc,
        )
        refl

length-repeated : (count : ℕ) (stack : List ℕ) → length (repeated count stack) ≡ count
unfolding repeated
length-repeated zero stack = refl
length-repeated (suc count) stack = ap suc (length-repeated count stack)

unfoldable pub sum_of : List (List ℕ × ℕ) → ℕ
sum_of [] = 0
sum_of ((stack, count) ∷ aggregated_data) = count + sum_of aggregated_data

length-stacks_of :
    (aggregated_data : List (List ℕ × ℕ))
    → length (stacks_of aggregated_data) ≡ sum_of aggregated_data
unfolding stacks_of sum_of
length-stacks_of [] = refl
length-stacks_of ((stack, count) ∷ rest) =
    length-append (repeated count stack) (stacks_of rest)
    ∙ omega (arith, length-repeated count stack, length-stacks_of rest)

-- With a resolver that always answers, `export_perf_script` writes its header and then the samples
-- numbered from 1 on, each stack as often as its count says, so that there are as many samples as
-- the counts add up to.
pub export_perf_script-numbered :
    (resolve_pc : ℕ → Run Bytes) (symbol_of : ℕ → Bytes) (timestamp : ℕ)
    (aggregated_data : List (List ℕ × ℕ))
    → ((pc : ℕ) → resolve_pc pc ≡ done (symbol_of pc))
    → (export_perf_script resolve_pc timestamp aggregated_data
        ≡ done (perf_header timestamp ++ numbered symbol_of 1 (stacks_of aggregated_data)))
      × (length (stacks_of aggregated_data) ≡ sum_of aggregated_data)
unfolding export_perf_script
export_perf_script-numbered resolve_pc symbol_of timestamp aggregated_data answers = (
  rw (perf_samples-numbered resolve_pc symbol_of answers aggregated_data (perf_header timestamp) 1)
      refl,
  length-stacks_of aggregated_data,
)
