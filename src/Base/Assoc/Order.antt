-- ===== src/Base/Assoc/Order.antt =====
-- Two orders of iteration of one map.
use golang_profiling.Base.{
  ℕ, ◌≡◌, refl, sym, ap, ◌∙◌, ◌⊎◌, inl, inr, true, false, none, some, List, [], ◌∷◌, if◌then◌else◌,
  Bool-cases,
}
use golang_profiling.Base.Assoc.{Keys, lookup, insert, insert_all}
use golang_profiling.Base.Assoc.Merge.{Distinct, insert-Distinct}
use mathlib.Core.List.{Perm}
use mathlib.Core.List.Perm

module _ {ℓ} {K : Type ℓ} (keys : Keys K) where
  -- Without the first entry of the key.
  unfoldable erase : K → List (K × ℕ) → List (K × ℕ)
  erase k [] = []
  erase k ((j, v) ∷ m) = if keys.same j k then m else (j, v) ∷ erase k m

  erase-perm :
      (k : K) (m : List (K × ℕ)) {v : ℕ} → lookup keys k m ≡ some v → Perm m ((k, v) ∷ erase k m)
  unfolding lookup erase
  erase-perm k [] h = absurd (cc)
  erase-perm k ((j, w) ∷ m) {v} h = elim (Bool-cases (keys.same j k)) [
    | inl e ↦
        let q : j ≡ k = (keys.same_iff j k).0 e in
        let found : some w ≡ some v = rw e at h in
        let same_value : w ≡ v = cc in rw (e, q, same_value) (Perm.refl ((k, v) ∷ m))
    | inr e ↦ rw e (
        Perm.trans (Perm.cons (j, w) (erase-perm k m (rw e at h)))
          (Perm.swap (k, v) (j, w) (erase k m)))
  ]

  lookup-erase :
      (k j : K) (m : List (K × ℕ))
      → Distinct keys m
      → lookup keys j (erase k m) ≡ (if keys.same k j then none else lookup keys j m)
  unfolding lookup erase
  lookup-erase k j [] d = elim (Bool-cases (keys.same k j)) [
    | inl e ↦ rw e refl
    | inr e ↦ rw e refl
  ]
  lookup-erase k j ((i, w) ∷ m) d = elim (Bool-cases (keys.same i k)) [
    | inl e ↦
        let q : i ≡ k = (keys.same_iff i k).0 e in rw (e, ← q) (gone (Bool-cases (keys.same i j)))
    | inr e ↦ rw (e, lookup-erase k j m d.1) (kept e (Bool-cases (keys.same k j)))
  ]
    where
      gone :
          (keys.same i j ≡ true) ⊎ (keys.same i j ≡ false)
          → lookup keys j m
            ≡ (if keys.same i j then none else if keys.same i j then some w else lookup keys j m)
      gone (inl f) = rw f (let p : i ≡ j = (keys.same_iff i j).0 f in (rw p at d.0))
      gone (inr f) = rw f refl

      kept :
          keys.same i k ≡ false
          → (keys.same k j ≡ true) ⊎ (keys.same k j ≡ false)
          → (if keys.same i j then some w else if keys.same k j then none else lookup keys j m)
            ≡ (if keys.same k j then none else if keys.same i j then some w else lookup keys j m)
      kept e (inl f) =
          let p : k ≡ j = (keys.same_iff k j).0 f in
          let other : keys.same i j ≡ false = sym (ap (keys.same i) p) ∙ e in rw (f, other) refl
      kept e (inr f) = rw f refl

  erase-Distinct : (k : K) (m : List (K × ℕ)) → Distinct keys m → Distinct keys (erase k m)
  unfolding erase
  erase-Distinct k [] d = tt
  erase-Distinct k ((j, w) ∷ m) d = elim (Bool-cases (keys.same j k)) [
    | inl e ↦ rw e d.1
    | inr e ↦ rw e (absent (Bool-cases (keys.same k j)), erase-Distinct k m d.1)
  ]
    where
      absent : (keys.same k j ≡ true) ⊎ (keys.same k j ≡ false) → lookup keys j (erase k m) ≡ none
      absent (inl e) = lookup-erase k j m d.1 ∙ rw e refl
      absent (inr e) = lookup-erase k j m d.1 ∙ rw e d.0

  -- Two lists of distinct keys with the same look-ups are orders of the same entries.
  pub Distinct-perm :
      (m n : List (K × ℕ))
      → Distinct keys m
      → Distinct keys n
      → ((j : K) → lookup keys j m ≡ lookup keys j n)
      → Perm m n
  unfolding lookup
  Distinct-perm [] [] d e same = Perm.refl []
  Distinct-perm [] ((j, w) ∷ n) d e same =
      let found : none ≡ some w = same j ∙ rw ((keys.same_iff j j).1 refl) refl in absurd (cc)
  Distinct-perm ((k, v) ∷ m) n d e same =
      Perm.trans
        (Perm.cons (k, v)
          (Distinct-perm m (erase k n) d.1 (erase-Distinct k n e)
            (λ j. rest j (Bool-cases (keys.same k j)))))
        (Perm.symm (erase-perm k n found))
    where
      found : lookup keys k n ≡ some v
      found = sym (same k) ∙ rw ((keys.same_iff k k).1 refl) refl

      rest :
          (j : K)
          → (keys.same k j ≡ true) ⊎ (keys.same k j ≡ false)
          → lookup keys j m ≡ lookup keys j (erase k n)
      rest j (inl f) =
          let p : k ≡ j = (keys.same_iff k j).0 f in
          (rw p at d.0) ∙ sym (lookup-erase k j n e ∙ rw f refl)
      rest j (inr f) =
          let kept : lookup keys j ((k, v) ∷ m) ≡ lookup keys j m = rw f refl in
          sym kept ∙ same j ∙ sym (lookup-erase k j n e ∙ rw f refl)

  pub insert_all-Distinct :
      (more m : List (K × ℕ)) → Distinct keys m → Distinct keys (insert_all keys more m)
  unfolding insert_all
  insert_all-Distinct [] m d = d
  insert_all-Distinct ((k, v) ∷ more) m d =
      insert_all-Distinct more (insert keys k v m) (insert-Distinct keys k v m d)
