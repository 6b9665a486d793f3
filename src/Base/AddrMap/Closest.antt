-- ===== src/Base/AddrMap/Closest.antt =====
-- What the search for the closest address finds, whatever the order of iteration.
use golang_profiling.Base.{
  ℕ, ◌≤◌, ◌<◌, ◌≡◌, refl, sym, ap, ◌∙◌, ◌≢◌, ◌⊎◌, inl, inr, ◌&&◌, Option, none, some, List, [], ◌∷◌,
  arith, ltb, leb, ==_iff, Bool-cases,
}
use golang_profiling.Base.AddrMap.{lookup, closest_loop, closest}

module _ {ℓ} {V : Type ℓ} where
  -- Two lists stand for the same map.
  abbrev pub SameMap : List (ℕ × V) → List (ℕ × V) → Type ℓ
  SameMap m n = (k : ℕ) → lookup k m ≡ lookup k n

  -- The greatest key up to `addr` and its value; no key but 0 if there is no value.
  pub record IsClosest (addr : ℕ) (m : List (ℕ × V)) (r : ℕ × Option V) : Type ℓ where
    pub below : r.0 ≤ addr
    pub value : (r.1 ≡ none) × (r.0 ≡ 0) ⊎ (0 < r.0) × (r.1 ≢ none) × (lookup r.0 m ≡ r.1)
    pub greatest : (k : ℕ) → k ≤ addr → lookup k m ≢ none → k ≤ r.0

  -- What is known of a result of the loop: it keeps what it had, or finds a greater key of the list.
  record Improves (addr best_addr : ℕ) (best : Option V) (m : List (ℕ × V)) (r : ℕ × Option V)
      : Type ℓ where
    below : r.0 ≤ addr
    grows : best_addr ≤ r.0
    greatest : (k : ℕ) → k ≤ addr → lookup k m ≢ none → k ≤ r.0
    either :
        (r.0 ≡ best_addr) × (r.1 ≡ best) ⊎ (best_addr < r.0) × (r.1 ≢ none) × (lookup r.0 m ≡ r.1)

  module _ (addr best_addr a : ℕ) (best : Option V) (v : V) (m : List (ℕ × V))
      (r : ℕ × Option V) where
    better-Improves :
        a ≤ addr
        → best_addr < a
        → Improves addr a (some v) m r
        → Improves addr best_addr best ((a, v) ∷ m) r
    unfolding lookup
    better-Improves p q h = record {
      below = h.below;
      grows = omega (arith, h.grows);
      greatest = λ k le n. ground (arith, h.grows, h.greatest k le);
      either = inr (elim h.either [
        | inl (e, f) ↦ (omega arith, λ z. cc, rw ((==_iff a r.0).1 (sym e)) (sym f))
        | inr (lt, ne, e) ↦ (omega arith, ne, ground arith)
      ]);
    }

    worse-Improves :
        (a ≤ addr → best_addr < a → ⊥)
        → Improves addr best_addr best m r
        → Improves addr best_addr best ((a, v) ∷ m) r
    unfolding lookup
    worse-Improves fails h = record {
      below = h.below;
      grows = h.grows;
      greatest = λ k le n. ground (arith, h.grows, h.greatest k le, fails);
      either = elim h.either [
        | inl e ↦ inl e
        | inr (lt, ne, e) ↦ inr (lt, ne, ground (arith, h.below, fails))
      ];
    }

  closest_loop-Improves :
      (addr best_addr : ℕ) (best : Option V) (m : List (ℕ × V))
      → best_addr ≤ addr
      → Improves addr best_addr best m (closest_loop addr best_addr best m)
  unfolding closest_loop
  closest_loop-Improves addr best_addr best [] h = record {
    below = h;
    grows = omega arith;
    greatest = λ k le n. unfold lookup in absurd (n refl);
    either = inl (refl, refl);
  }
  closest_loop-Improves addr best_addr best ((a, v) ∷ m) h =
      elim (Bool-cases (leb a addr && ltb best_addr a)) [
        | inl e ↦
            let p : a ≤ addr = ground arith in
            rw e (
              better-Improves addr best_addr a best v m _ p (ground arith)
                (closest_loop-Improves addr a (some v) m p))
        | inr e ↦ rw e (
            worse-Improves addr best_addr a best v m _ (λ p q. ground arith)
              (closest_loop-Improves addr best_addr best m h))
      ]

  -- The search finds the greatest key up to the address, and its value.
  pub closest-IsClosest : (addr : ℕ) (m : List (ℕ × V)) → IsClosest addr m (closest addr m)
  unfolding closest
  closest-IsClosest addr m =
      let h = closest_loop-Improves addr 0 none m (omega arith) in
      record {
        below = h.below;
        value = elim h.either [ inl (e, f) ↦ inl (f, e) | inr e ↦ inr e ];
        greatest = h.greatest;
      }

  pair_eq : (r s : ℕ × Option V) → r.0 ≡ s.0 → r.1 ≡ s.1 → r ≡ s
  pair_eq r s p q = λ i. (p i, q i)

  module _ (addr : ℕ) (m n : List (ℕ × V)) (same : SameMap m n) where
    -- A key found in one is at most the key found in the other.
    found-le :
        (r s : ℕ × Option V)
        → IsClosest addr m r
        → IsClosest addr n s
        → r.1 ≢ none
        → lookup r.0 m ≡ r.1
        → r.0 ≤ s.0
    found-le r s p q ne e = q.greatest r.0 p.below (λ z. ne (sym e ∙ same r.0 ∙ z))

  IsClosest-unique :
      (addr : ℕ) (m n : List (ℕ × V))
      → SameMap m n
      → (r s : ℕ × Option V) → IsClosest addr m r
      → IsClosest addr n s
      → r ≡ s
  IsClosest-unique addr m n same r s p q = elim p.value [
    | inl (e, f) ↦ elim q.value [
      | inl (e', f') ↦ pair_eq r s (f ∙ sym f') (e ∙ sym e')
      | inr (pos, ne, l) ↦
          absurd (omega (arith, found-le addr n m (λ k. sym (same k)) s r q p ne l))
    ]
    | inr (pos, ne, l) ↦ elim q.value [
      | inl (e', f') ↦ absurd (omega (arith, found-le addr m n same r s p q ne l))
      | inr (pos', ne', l') ↦
          let e : r.0 ≡ s.0 = omega (
            arith,
            found-le addr m n same r s p q ne l,
            found-le addr n m (λ k. sym (same k)) s r q p ne' l',
          ) in
          pair_eq r s e (sym l ∙ same r.0 ∙ ap (λ k. lookup k n) e ∙ l')
    ]
  ]

  -- So two orders of iteration over one map give the same.
  pub closest-SameMap :
      (addr : ℕ) (m n : List (ℕ × V)) → SameMap m n → closest addr m ≡ closest addr n
  closest-SameMap addr m n same =
      IsClosest-unique addr m n same (closest addr m) (closest addr n) (closest-IsClosest addr m)
        (closest-IsClosest addr n)
