-- ===== src/Base/Assoc/Merge.antt =====
-- Merging one map into another.
use golang_profiling.Base.{
  ℕ, ◌≡◌, refl, sym, ap, ◌∙◌, inl, inr, true, false, Option, none, some, List, [], ◌∷◌, Bool-cases,
}
use golang_profiling.Base.Assoc.{Keys, lookup, insert, insert_all, lookup-insert}

-- The first of two answers.
abbrev pub or_else : Option ℕ → Option ℕ → Option ℕ
or_else (some v) o = some v
or_else none o = o

pub or_else-none : (o : Option ℕ) → or_else o none ≡ o
or_else-none none = refl
or_else-none (some v) = refl

pub or_else_assoc : (a b c : Option ℕ) → or_else (or_else a b) c ≡ or_else a (or_else b c)
or_else_assoc none b c = refl
or_else_assoc (some v) b c = refl

module _ {ℓ} {K : Type ℓ} (keys : Keys K) where
  -- Each key stands once.
  abbrev pub Distinct : List (K × ℕ) → Type 0
  Distinct [] = Unit {0}
  Distinct ((k, v) ∷ m) = (lookup keys k m ≡ none) × Distinct m

  pub insert-Distinct :
      (k : K) (v : ℕ) (m : List (K × ℕ)) → Distinct m → Distinct (insert keys k v m)
  unfolding lookup insert
  insert-Distinct k v [] d = (refl, tt)
  insert-Distinct k v ((j, w) ∷ m) d = elim (Bool-cases (keys.same j k)) [
    | inl e ↦ let q : j ≡ k = (keys.same_iff j k).0 e in rw e (rw q at d.0, d.1)
    | inr e ↦ rw e (absent e ∙ d.0, insert-Distinct k v m d.1)
  ]
    where
      absent : keys.same j k ≡ false → lookup keys j (insert keys k v m) ≡ lookup keys j m
      absent e = lookup-insert keys k j v m ∙ (elim (Bool-cases (keys.same k j)) [
        | inl q ↦
            let same : keys.same j k ≡ true =
              (keys.same_iff j k).1 (sym ((keys.same_iff k j).0 q)) in
            absurd (cc)
        | inr q ↦ rw q
      ])

  -- The merged map answers as the map that is merged in, and else as the other.
  pub lookup-insert_all :
      (more m : List (K × ℕ)) (j : K)
      → Distinct more
      → lookup keys j (insert_all keys more m) ≡ or_else (lookup keys j more) (lookup keys j m)
  unfolding insert_all
  lookup-insert_all [] m j d = unfold lookup in refl
  lookup-insert_all ((k, v) ∷ more) m j d =
      lookup-insert_all more (insert keys k v m) j d.1
      ∙ ap (or_else (lookup keys j more)) (lookup-insert keys k j v m)
      ∙ (elim (Bool-cases (keys.same k j)) [
        | inl e ↦ let q : k ≡ j = (keys.same_iff k j).0 e in unfold lookup in rw (e, rw q at d.0)
        | inr e ↦ unfold lookup in rw e
      ])
