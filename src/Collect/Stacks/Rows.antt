-- ===== src/Collect/Stacks/Rows.antt =====
-- The lines of the folded file, where every name is found.
use golang_profiling.Base.{ℕ, ◌≡◌, refl, List, [], ◌∷◌, ◌++◌, map}
use golang_profiling.Base.Bytes.{Bytes}
use golang_profiling.Base.Run.{Run, done}
use golang_profiling.Base.Text.{codes, decimal}
use golang_profiling.Collect.Stacks.{join_symbols, folded_stack, export_folded_stacks}
use mathlib.Core.List.{reverse}

-- Names with a `;` between them.
unfoldable pub joined : List Bytes → Bytes
joined [] = []
joined (name ∷ []) = name
joined (name ∷ other ∷ names) = name ++ (codes ";" ++ joined (other ∷ names))

-- The frames from the innermost to the outermost, and the count.
unfoldable pub folded_row : (ℕ → Bytes) → List ℕ × ℕ → Bytes
folded_row name (stack, count) = joined (map name (reverse stack)) ++ (codes " " ++ decimal count)

module _ (resolve_pc : ℕ → Run Bytes) (name : ℕ → Bytes)
    (found : (pc : ℕ) → resolve_pc pc ≡ done (name pc)) where
  join_symbols-joined : (pcs : List ℕ) → join_symbols resolve_pc pcs ≡ done (joined (map name pcs))
  unfolding join_symbols joined
  join_symbols-joined [] = refl
  join_symbols-joined (pc ∷ []) = rw (found pc) refl
  join_symbols-joined (pc ∷ other ∷ pcs) = rw (found pc, join_symbols-joined (other ∷ pcs)) refl

  pub export_folded_stacks-map :
      (converted_data : List (List ℕ × ℕ))
      → export_folded_stacks resolve_pc converted_data ≡ done (map (folded_row name) converted_data)
  unfolding export_folded_stacks folded_stack folded_row
  export_folded_stacks-map [] = refl
  export_folded_stacks-map ((stack, count) ∷ rest) =
      rw (join_symbols-joined (reverse stack), export_folded_stacks-map rest) refl
