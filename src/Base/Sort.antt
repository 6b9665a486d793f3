-- ===== src/Base/Sort.antt =====
-- `sort_by_key` of the standard library, which is stable: elements with equal keys keep their order.
use golang_profiling.Base.{
  ℕ, zero, suc, ◌≤◌, ◌≡◌, refl, ap, ◌∙◌, inl, inr, some, List, [], ◌∷◌, arith, leb, ◌==◌,
  if◌then◌else◌, leb→le, Bool-cases, length, get_elem?, All-get_elem?, All,
}

module _ {ℓ} {A : Type ℓ} (key : A → ℕ) where
  -- Before the first element whose key is not less.
  unfoldable pub put_by_key : A → List A → List A
  put_by_key x [] = x ∷ []
  put_by_key x (y ∷ ys) = if leb (key x) (key y) then x ∷ (y ∷ ys) else y ∷ put_by_key x ys

  unfoldable pub sort_by_key : List A → List A
  sort_by_key [] = []
  sort_by_key (x ∷ xs) = put_by_key x (sort_by_key xs)

  abbrev pub Ascending : List A → Type 0
  Ascending [] = Unit {0}
  Ascending (x ∷ xs) = All (λ y. key x ≤ key y) xs × Ascending xs

  -- Any property of all elements is kept.
  All-put_by_key {κ} :
      (P : A → Type κ) (x : A) (xs : List A) → P x → All P xs → All P (put_by_key x xs)
  unfolding put_by_key
  All-put_by_key P x [] p h = (p, tt)
  All-put_by_key P x (y ∷ ys) p h = elim (Bool-cases (leb (key x) (key y))) [
    | inl e ↦ rw e (p, h)
    | inr e ↦ rw e (h.0, All-put_by_key P x ys p h.1)
  ]

  pub All-sort_by_key {κ} : (P : A → Type κ) (xs : List A) → All P xs → All P (sort_by_key xs)
  unfolding sort_by_key
  All-sort_by_key P [] h = h
  All-sort_by_key P (x ∷ xs) h = All-put_by_key P x (sort_by_key xs) h.0 (All-sort_by_key P xs h.1)

  All-le : (a b : ℕ) (xs : List A) → a ≤ b → All (λ y. b ≤ key y) xs → All (λ y. a ≤ key y) xs
  All-le a b [] h p = tt
  All-le a b (x ∷ xs) h p = (omega (arith, p.0), All-le a b xs h p.1)

  put_by_key-Ascending : (x : A) (xs : List A) → Ascending xs → Ascending (put_by_key x xs)
  unfolding put_by_key
  put_by_key-Ascending x [] h = (tt, tt)
  put_by_key-Ascending x (y ∷ ys) h = elim (Bool-cases (leb (key x) (key y))) [
    | inl e ↦ let le = leb→le (key x) (key y) e in rw e ((le, All-le (key x) (key y) ys le h.0), h)
    | inr e ↦
        rw e (
          All-put_by_key (λ z. key y ≤ key z) x ys (ground arith) h.0,
          put_by_key-Ascending x ys h.1,
        )
  ]

  pub sort_by_key-Ascending : (xs : List A) → Ascending (sort_by_key xs)
  unfolding sort_by_key
  sort_by_key-Ascending [] = tt
  sort_by_key-Ascending (x ∷ xs) =
      put_by_key-Ascending x (sort_by_key xs) (sort_by_key-Ascending xs)

  length-put_by_key : (x : A) (xs : List A) → length (put_by_key x xs) ≡ suc (length xs)
  unfolding put_by_key
  length-put_by_key x [] = refl
  length-put_by_key x (y ∷ ys) = ground (arith, length-put_by_key x ys)

  pub length-sort_by_key : (xs : List A) → length (sort_by_key xs) ≡ length xs
  unfolding sort_by_key
  length-sort_by_key [] = refl
  length-sort_by_key (x ∷ xs) =
      length-put_by_key x (sort_by_key xs) ∙ ap suc (length-sort_by_key xs)

  -- The elements with a given key, in their order.
  abbrev pub with_key : ℕ → List A → List A
  with_key k [] = []
  with_key k (x ∷ xs) = if key x == k then x ∷ with_key k xs else with_key k xs

  with_key-put_by_key :
      (k : ℕ) (x : A) (xs : List A)
      → Ascending xs
      → with_key k (put_by_key x xs) ≡ with_key k (x ∷ xs)
  unfolding put_by_key
  with_key-put_by_key k x [] h = refl
  with_key-put_by_key k x (y ∷ ys) h = ground (arith, with_key-put_by_key k x ys h.1)

  -- The sort is stable.
  pub with_key-sort_by_key : (k : ℕ) (xs : List A) → with_key k (sort_by_key xs) ≡ with_key k xs
  unfolding sort_by_key
  with_key-sort_by_key k [] = refl
  with_key-sort_by_key k (x ∷ xs) =
      with_key-put_by_key k x (sort_by_key xs) (sort_by_key-Ascending xs)
      ∙ ap (λ t. if key x == k then x ∷ t else t) (with_key-sort_by_key k xs)

  pub Ascending-get_elem? :
      (xs : List A) (i j : ℕ) {x y : A}
      → Ascending xs
      → i ≤ j
      → get_elem? xs i ≡ some x
      → get_elem? xs j ≡ some y
      → key x ≤ key y
  Ascending-get_elem? [] i j h le p q = cc
  Ascending-get_elem? (z ∷ xs) zero zero {x} {y} h le p q = let e : x ≡ y = cc in rw e (omega arith)
  Ascending-get_elem? (z ∷ xs) zero (suc j) {x} {y} h le p q =
      let e : z ≡ x = cc in rw (← e) (All-get_elem? (λ t. key z ≤ key t) xs j h.0 q)
  Ascending-get_elem? (z ∷ xs) (suc i) zero h le p q = absurd (omega arith)
  Ascending-get_elem? (z ∷ xs) (suc i) (suc j) h le p q =
      Ascending-get_elem? xs i j h.1 (omega arith) p q
