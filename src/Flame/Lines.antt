-- ===== src/Flame/Lines.antt =====
-- The lines of the folded output, and the samples that they account for.
use golang_profiling.Base.{ℕ, ◌+◌, ◌<◌, ◌≡◌, refl, List, [], ◌∷◌, ◌++◌, map, arith}
use golang_profiling.Base.Bytes.{Bytes, u64_mod}
use golang_profiling.Flame.{
  FlameNode, node, Children, nil, child, new, join_name, folded_line, to_folded, fold_rest,
}
use golang_profiling.Flame.Totals.{
  leaf_total, leaf_totals, inner_total, add_all, sample_total, add_all-totals,
}
use mathlib.Core.List.{map-append}

-- The name and the value of each line.
mutual
  leaf_rows : FlameNode → Bytes → List (Bytes × ℕ)
  leaf_rows (node name value nil) prefix = (join_name prefix name, value) ∷ []
  leaf_rows (node name value (child k n rest)) prefix =
      leaf_rows n (join_name prefix name) ++ rest_rows rest (join_name prefix name)

  rest_rows : Children → Bytes → List (Bytes × ℕ)
  rest_rows nil current = []
  rest_rows (child k n rest) current = leaf_rows n current ++ rest_rows rest current

abbrev pub show_row : Bytes × ℕ → Bytes
show_row r = folded_line r.0 r.1

pub row_total : List (Bytes × ℕ) → ℕ
row_total [] = 0
row_total (r ∷ rows) = r.1 + row_total rows

row_total-append :
    (rows more : List (Bytes × ℕ)) → row_total (rows ++ more) ≡ row_total rows + row_total more
unfolding row_total
row_total-append [] more = omega arith
row_total-append (r ∷ rows) more = omega (arith, row_total-append rows more)

mutual
  unfolding to_folded leaf_rows

  to_folded-rows :
      (n : FlameNode) (prefix : Bytes) → to_folded n prefix ≡ map show_row (leaf_rows n prefix)
  to_folded-rows (node name value nil) prefix = refl
  to_folded-rows (node name value (child k n rest)) prefix =
      rw map-append
        (rw (to_folded-rows n (join_name prefix name), fold_rest-rows rest (join_name prefix name)))

  fold_rest-rows :
      (c : Children) (current : Bytes) → fold_rest c current ≡ map show_row (rest_rows c current)
  fold_rest-rows nil current = refl
  fold_rest-rows (child k n rest) current =
      rw map-append (rw (to_folded-rows n current, fold_rest-rows rest current))

mutual
  unfolding leaf_total leaf_rows row_total

  leaf_rows-total : (n : FlameNode) (prefix : Bytes) → row_total (leaf_rows n prefix) ≡ leaf_total n
  leaf_rows-total (node name value nil) prefix = omega arith
  leaf_rows-total (node name value (child k n rest)) prefix = omega (
    arith,
    row_total-append (leaf_rows n (join_name prefix name)) (rest_rows rest (join_name prefix name)),
    leaf_rows-total n (join_name prefix name),
    rest_rows-total rest (join_name prefix name),
  )

  rest_rows-total :
      (c : Children) (current : Bytes) → row_total (rest_rows c current) ≡ leaf_totals c
  rest_rows-total nil current = omega arith
  rest_rows-total (child k n rest) current = omega (
    arith,
    row_total-append (leaf_rows n current) (rest_rows rest current),
    leaf_rows-total n current,
    rest_rows-total rest current,
  )

-- For a tree made from samples whose values sum to less than 2^64, the values in the lines of its
-- folded output, and what the inner nodes hold beyond their children, add up to the samples.
pub to_folded-add_all :
    (samples : List (List Bytes × ℕ)) (root prefix : Bytes)
    → sample_total samples < u64_mod
    → (rows : List (Bytes × ℕ)) × (to_folded (add_all samples (new root)) prefix
        ≡ map show_row rows)
      × (row_total rows + inner_total (add_all samples (new root)) ≡ sample_total samples)
to_folded-add_all samples root prefix small =
    let tree = add_all samples (new root) in
    (
      leaf_rows tree prefix,
      to_folded-rows tree prefix,
      rw (leaf_rows-total tree prefix) (add_all-totals samples root small),
    )
