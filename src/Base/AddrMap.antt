-- ===== src/Base/AddrMap.antt =====
-- `HashMap<u64, V>` of the standard library, as an association list in the order of iteration, which
-- the library leaves open; and the search for the closest address that two components share.
pub mod Closest
use golang_profiling.Base.{
  ℕ, ◌≡◌, refl, ◌&&◌, Option, none, some, List, [], ◌∷◌, arith, ltb, leb, ◌==◌, if◌then◌else◌,
}

module _ {ℓ} {V : Type ℓ} where
  unfoldable pub lookup : ℕ → List (ℕ × V) → Option V
  lookup addr [] = none
  lookup addr ((at, value) ∷ rest) = if at == addr then some value else lookup addr rest

  unfoldable pub insert : ℕ → V → List (ℕ × V) → List (ℕ × V)
  insert addr value [] = (addr, value) ∷ []
  insert addr value ((at, old) ∷ rest) =
      if at == addr then (addr, value) ∷ rest else (at, old) ∷ insert addr value rest

  pub lookup-insert :
      (addr other : ℕ) (value : V) (entries : List (ℕ × V))
      → lookup other (insert addr value entries)
        ≡ (if addr == other then some value else lookup other entries)
  unfolding lookup insert
  lookup-insert addr other value [] = refl
  lookup-insert addr other value ((at, old) ∷ rest) =
      ground (arith, lookup-insert addr other value rest)

  -- `get_mut` and an assignment: the value under the key is changed, if there is one.
  unfoldable pub modify : ℕ → (V → V) → List (ℕ × V) → List (ℕ × V)
  modify k f [] = []
  modify k f ((j, v) ∷ m) = if j == k then (j, f v) ∷ m else (j, v) ∷ modify k f m

  abbrev pub map_option : (V → V) → Option V → Option V
  map_option f none = none
  map_option f (some v) = some (f v)

  pub lookup-modify :
      (k j : ℕ) (f : V → V) (m : List (ℕ × V))
      → lookup j (modify k f m) ≡ (if k == j then map_option f (lookup j m) else lookup j m)
  unfolding lookup modify
  lookup-modify k j f [] = ground arith
  lookup-modify k j f ((i, w) ∷ m) = ground (arith, lookup-modify k j f m)

  -- `for (&a, v) in &map { if a <= addr && a > best_addr { … } }`, from a best address so far.
  unfoldable pub closest_loop : ℕ → ℕ → Option V → List (ℕ × V) → ℕ × Option V
  closest_loop addr best_addr best [] = (best_addr, best)
  closest_loop addr best_addr best ((a, v) ∷ m) =
      let better = leb a addr && ltb best_addr a in
      closest_loop addr (if better then a else best_addr) (if better then some v else best) m

  -- The loop from its start.
  unfoldable pub closest : ℕ → List (ℕ × V) → ℕ × Option V
  closest addr m = closest_loop addr 0 none m
