-- ===== src/Flame/Totals.antt =====
-- Where the samples of a tree stand: in the lines of its folded output, or lost at inner nodes.
use golang_profiling.Base.{
  ℕ, ◌+◌, ◌-◌, ◌≤◌, ◌<◌, ◌≡◌, refl, inl, inr, List, [], ◌∷◌, arith, Bool-cases,
}
use golang_profiling.Base.Bytes.{Bytes, u64_mod}
use golang_profiling.Base.Words.{add64_exact}
use golang_profiling.Base.Text.{bytes_eq}
use golang_profiling.Flame.{
  FlameNode, node, Children, nil, child, value, new, update_entry, add_sample,
}

-- The sum of the values of the children.
unfoldable pub sum_values : Children → ℕ
sum_values nil = 0
sum_values (child k n rest) = value n + sum_values rest

unfoldable mutual
  -- The sum of the values at the leaves.
  pub leaf_total : FlameNode → ℕ
  leaf_total (node name v nil) = v
  leaf_total (node name v (child k n rest)) = leaf_total n + leaf_totals rest

  pub leaf_totals : Children → ℕ
  leaf_totals nil = 0
  leaf_totals (child k n rest) = leaf_total n + leaf_totals rest

unfoldable mutual
  -- What inner nodes have beyond the values of their children.
  pub inner_total : FlameNode → ℕ
  inner_total (node name v nil) = 0
  inner_total (node name v (child k n rest)) =
      v - (value n + sum_values rest) + (inner_total n + inner_totals rest)

  pub inner_totals : Children → ℕ
  inner_totals nil = 0
  inner_totals (child k n rest) = inner_total n + inner_totals rest

unfoldable mutual
  -- At no node do the children have more than the node.
  pub Covers : FlameNode → Type 0
  Covers (node name v children) = (sum_values children ≤ v) × CoversAll children

  pub CoversAll : Children → Type 0
  CoversAll nil = Unit
  CoversAll (child k n rest) = Covers n × CoversAll rest

mutual
  unfolding leaf_total inner_total Covers sum_values

  total : (n : FlameNode) → Covers n → leaf_total n + inner_total n ≡ value n
  total (node name v nil) h = omega arith
  total (node name v (child k n rest)) h = omega (arith, total n h.1.0, totals rest h.1.1, h.0)

  totals : (c : Children) → CoversAll c → leaf_totals c + inner_totals c ≡ sum_values c
  totals nil h = omega arith
  totals (child k n rest) h = omega (arith, total n h.0, totals rest h.1)

-- The values of the leaves, and what inner nodes hold beyond their children, make up the whole.
pub leaf_total-inner_total : (n : FlameNode) → Covers n → leaf_total n + inner_total n ≡ value n
leaf_total-inner_total n h = total n h

-- An update of an entry that adds `v` to it.
update_entry-Covers :
    (key : Bytes) (f : FlameNode → FlameNode) (v : ℕ) (c : Children)
    → ((n : FlameNode)
        → Covers n
        → value n + v < u64_mod
        → Covers (f n) × (value (f n) ≡ value n + v))
    → CoversAll c
    → sum_values c + v < u64_mod
    → CoversAll (update_entry key f c) × (sum_values (update_entry key f c) ≡ sum_values c + v)
unfolding update_entry sum_values Covers new
update_entry-Covers key f v nil step h small =
    let s = step (new key) (omega arith, tt) (omega arith) in ((s.0, tt), omega (arith, s.1))
update_entry-Covers key f v (child k n rest) step h small = elim (Bool-cases (bytes_eq k key)) [
  | inl e ↦ let s = step n h.0 (omega arith) in rw e ((s.0, h.1), omega (arith, s.1))
  | inr e ↦
      let s = update_entry-Covers key f v rest step h.1 (omega arith) in
      rw e ((h.0, s.0), omega (arith, s.1))
]

-- `add_sample` adds the value at the root and keeps every node's value at least the sum of its
-- children's, if the root's new value fits 64 bits.
pub add_sample-Covers :
    (stack : List Bytes) (v : ℕ) (n : FlameNode)
    → Covers n
    → value n + v < u64_mod
    → Covers (add_sample stack v n) × (value (add_sample stack v n) ≡ value n + v)
unfolding add_sample Covers
add_sample-Covers [] v (node name w c) h small =
    ((omega (arith, h.0, add64_exact w v small), h.1), add64_exact w v small)
add_sample-Covers (first ∷ rest) v (node name w c) h small =
    let s =
      update_entry-Covers first (add_sample rest v) v c
        (λ n hn hs. add_sample-Covers rest v n hn hs) h.1 (omega (arith, h.0)) in
    ((omega (arith, s.1, h.0, add64_exact w v small), s.0), add64_exact w v small)

-- A tree made from a list of samples, as the program makes it.
unfoldable pub add_all : List (List Bytes × ℕ) → FlameNode → FlameNode
add_all [] n = n
add_all ((stack, v) ∷ samples) n = add_all samples (add_sample stack v n)

unfoldable pub sample_total : List (List Bytes × ℕ) → ℕ
sample_total [] = 0
sample_total ((stack, v) ∷ samples) = v + sample_total samples

add_all-Covers :
    (samples : List (List Bytes × ℕ)) (n : FlameNode)
    → Covers n
    → value n + sample_total samples < u64_mod
    → Covers (add_all samples n) × (value (add_all samples n) ≡ value n + sample_total samples)
unfolding add_all sample_total
add_all-Covers [] n h small = (h, omega arith)
add_all-Covers ((stack, v) ∷ samples) n h small =
    let s = add_sample-Covers stack v n h (omega arith) in
    let r = add_all-Covers samples (add_sample stack v n) s.0 (omega (arith, s.1)) in
    (r.0, omega (arith, s.1, r.1))

-- Of a tree made from samples, the leaves and the excess of the inner nodes add up to the samples.
pub add_all-totals :
    (samples : List (List Bytes × ℕ)) (root : Bytes)
    → sample_total samples < u64_mod
    → leaf_total (add_all samples (new root)) + inner_total (add_all samples (new root))
      ≡ sample_total samples
add_all-totals samples root small =
    let fresh : Covers (new root) = unfold new Covers sum_values in (omega arith, tt) in
    let zero_value : value (new root) ≡ 0 = unfold new in refl in
    let s = add_all-Covers samples (new root) fresh (omega arith) in
    omega (arith, leaf_total-inner_total (add_all samples (new root)) s.0, s.1)
