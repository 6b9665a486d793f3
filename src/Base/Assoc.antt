-- ===== src/Base/Assoc.antt =====
-- `HashMap<K, u64>` of the standard library over any type of keys with an equality test, as an
-- association list in the order of iteration.
pub mod Merge
pub mod Entries
pub mod Order
use golang_profiling.Base.{
  ℕ, ◌+◌, ◌≡◌, refl, sym, ap, ◌∙◌, ◌↔◌, inl, inr, Bool, true, false, Option, none, some, List, [],
  ◌∷◌, if◌then◌else◌, Bool-cases,
}

pub record Keys {ℓ} (K : Type ℓ) : Type ℓ where
  pub same : K → K → Bool
  pub same_iff : (a b : K) → (same a b ≡ true) ↔ (a ≡ b)

module _ {ℓ} {K : Type ℓ} (keys : Keys K) where
  unfoldable pub lookup : K → List (K × ℕ) → Option ℕ
  lookup k [] = none
  lookup k ((j, v) ∷ m) = if keys.same j k then some v else lookup k m

  unfoldable pub insert : K → ℕ → List (K × ℕ) → List (K × ℕ)
  insert k v [] = (k, v) ∷ []
  insert k v ((j, w) ∷ m) = if keys.same j k then (k, v) ∷ m else (j, w) ∷ insert k v m

  same_self : (k : K) → keys.same k k ≡ true
  same_self k = (keys.same_iff k k).1 refl

  same_replaced : (a b c : K) → keys.same a b ≡ true → keys.same a c ≡ keys.same b c
  same_replaced a b c e = ap (λ k. keys.same k c) ((keys.same_iff a b).0 e)

  pub lookup-insert :
      (k j : K) (v : ℕ) (m : List (K × ℕ))
      → lookup j (insert k v m) ≡ (if keys.same k j then some v else lookup j m)
  unfolding lookup insert
  lookup-insert k j v [] = refl
  lookup-insert k j v ((i, w) ∷ m) = elim (Bool-cases (keys.same i k)) [
    | inl e ↦ rw (e, same_replaced i k j e) (both (keys.same k j))
    | inr e ↦ rw (e, lookup-insert k j v m) (other e)
  ]
    where
      both :
          (b : Bool)
          → (if b then some v else lookup j m)
            ≡ (if b then some v else if b then some w else lookup j m)
      both true = refl
      both false = refl

      other :
          keys.same i k ≡ false
          → (if keys.same i j then some w else if keys.same k j then some v else lookup j m)
            ≡ (if keys.same k j then some v else if keys.same i j then some w else lookup j m)
      other e = elim (Bool-cases (keys.same k j)) [
        | inl q ↦ rw (q, ap (keys.same i) (sym ((keys.same_iff k j).0 q)) ∙ e) refl
        | inr q ↦ rw q
      ]

  -- `for (k, v) in more { m.insert(k, v) }`
  unfoldable pub insert_all : List (K × ℕ) → List (K × ℕ) → List (K × ℕ)
  insert_all [] m = m
  insert_all ((k, v) ∷ more) m = insert_all more (insert k v m)

  -- `values().sum()`, without the wrap-around.
  unfoldable pub sum_values : List (K × ℕ) → ℕ
  sum_values [] = 0
  sum_values ((k, v) ∷ m) = v + sum_values m
