-- ===== src/Collect/Stacks/Order.antt =====
-- The order of the frames in a folded line.
use golang_profiling.Base.{
  ℕ, ◌≡◌, refl, inl, inr, Option, List, [], ◌∷◌, ◌++◌, arith, ltb, ◌==◌, if◌then◌else◌, Bool-cases,
}
use golang_profiling.Collect.Counts.{ProfileKey}
use golang_profiling.Collect.Stacks.{nonzero, or_no_frames, frames_of, stack_of}
use mathlib.Core.List.{reverse, reverse-append, reverse-cons}

-- The frames that the kernel has under an id, innermost first and without the empty ones.
unfoldable pub captured : (ℕ → Option (List ℕ)) → ℕ → List ℕ
captured traces stack_id =
    if ltb stack_id 0x8000_0000 then nonzero (or_no_frames (traces stack_id)) else []

nonzero-append : (xs ys : List ℕ) → nonzero (xs ++ ys) ≡ nonzero xs ++ nonzero ys
unfolding nonzero
nonzero-append [] ys = refl
nonzero-append (x ∷ xs) ys = ground (arith, nonzero-append xs ys)

reverse-nonzero-reverse : (xs : List ℕ) → reverse (nonzero (reverse xs)) ≡ nonzero xs
unfolding nonzero
reverse-nonzero-reverse [] = refl
reverse-nonzero-reverse (x ∷ xs) =
    rw
      (
        reverse-cons x xs,
        nonzero-append (reverse xs) (x ∷ []),
        reverse-append (nonzero (reverse xs)) (nonzero (x ∷ [])),
        reverse-nonzero-reverse xs,
      )
      (elim (Bool-cases (x == 0)) [ inl e ↦ rw e refl | inr e ↦ rw e refl ])

reverse-frames_of :
    (traces : ℕ → Option (List ℕ)) (stack_id : ℕ)
    → reverse (frames_of traces stack_id) ≡ captured traces stack_id
unfolding frames_of captured
reverse-frames_of traces stack_id = elim (Bool-cases (ltb stack_id 0x8000_0000)) [
  | inl e ↦ rw e (reverse-nonzero-reverse (or_no_frames (traces stack_id)))
  | inr e ↦ rw e refl
]

-- The reversed stack of a key, which is the order of a folded line, is the captured user frames
-- and then the captured kernel frames, each innermost first and without empty ones.
pub reverse-stack_of :
    (traces : ℕ → Option (List ℕ)) (key : ProfileKey)
    → reverse (stack_of traces key)
      ≡ captured traces key.user_stack_id ++ captured traces key.kernel_stack_id
unfolding stack_of
reverse-stack_of traces key =
    rw
      (
        reverse-append (frames_of traces key.kernel_stack_id) (frames_of traces key.user_stack_id),
        reverse-frames_of traces key.kernel_stack_id,
        reverse-frames_of traces key.user_stack_id,
      )
      refl
