-- ===== src/Base/Assoc/Entries.antt =====
-- A property of each entry of a map.
use golang_profiling.Base.{ℕ, ◌+◌, ◌≤◌, inl, inr, List, [], ◌∷◌, arith, Bool-cases, All}
use golang_profiling.Base.Assoc.{Keys, insert, insert_all, sum_values}

module _ {ℓ} {K : Type ℓ} (keys : Keys K) (P : K × ℕ → Type 0) where
  pub insert-All :
      (k : K) (v : ℕ) (m : List (K × ℕ)) → P (k, v) → All P m → All P (insert keys k v m)
  unfolding insert
  insert-All k v [] p h = (p, tt)
  insert-All k v ((j, w) ∷ m) p h = elim (Bool-cases (keys.same j k)) [
    | inl e ↦ rw e (p, h.1)
    | inr e ↦ rw e (h.0, insert-All k v m p h.1)
  ]

  pub insert_all-All :
      (more m : List (K × ℕ)) → All P more → All P m → All P (insert_all keys more m)
  unfolding insert_all
  insert_all-All [] m p h = h
  insert_all-All ((k, v) ∷ more) m p h =
      insert_all-All more (insert keys k v m) p.1 (insert-All k v m p.0 h)

-- A property that follows from another one, for each element.
pub All-map {ℓ} :
    {A : Type ℓ} (P Q : A → Type 0) → ((x : A) → P x → Q x) → (xs : List A) → All P xs → All Q xs
All-map P Q f [] h = tt
All-map P Q f (x ∷ xs) h = (f x h.0, All-map P Q f xs h.1)

module _ {ℓ} {K : Type ℓ} (keys : Keys K) where
  -- An insertion adds at most the new value, since it may take the place of an old one.
  pub sum_values-insert :
      (k : K) (v : ℕ) (m : List (K × ℕ))
      → sum_values keys (insert keys k v m) ≤ v + sum_values keys m
  unfolding insert sum_values
  sum_values-insert k v [] = omega arith
  sum_values-insert k v ((j, w) ∷ m) = elim (Bool-cases (keys.same j k)) [
    | inl e ↦ rw e (omega arith)
    | inr e ↦ rw e (omega (arith, sum_values-insert k v m))
  ]

  pub sum_values-insert_all :
      (more m : List (K × ℕ))
      → sum_values keys (insert_all keys more m) ≤ sum_values keys more + sum_values keys m
  unfolding insert_all sum_values
  sum_values-insert_all [] m = omega arith
  sum_values-insert_all ((k, v) ∷ more) m =
      omega (arith, sum_values-insert_all more (insert keys k v m), sum_values-insert k v m)
