-- ===== src/Resolver/Resolve/Kernel.antt =====
-- What `resolve_kernel_symbol` finds, whatever the order of iteration over the symbols.
use golang_profiling.Base.{
  ℕ, ◌+◌, ◌-◌, ◌≤◌, ◌<◌, ◌≡◌, refl, ◌≢◌, ◌⊎◌, inl, inr, Option, none, some, List, arith, ltb,
  ltb→lt, Bool-cases, Option-cases,
}
use golang_profiling.Base.Bytes.{Bytes}
use golang_profiling.Base.AddrMap.{lookup, closest}
use golang_profiling.Base.AddrMap.Closest.{SameMap, IsClosest, closest-IsClosest, closest-SameMap}
use golang_profiling.Resolver.Resolve.{near_symbol, resolve_kernel_symbol}

-- The symbol at the greatest address up to `addr`, less than 64 KB before it; where there is none, every
-- symbol up to `addr` is farther away or, for an `addr` past 0, at address 0.
abbrev pub IsNearSymbol : List (ℕ × Bytes) → ℕ → Option Bytes → Type 0
IsNearSymbol symbols addr none =
    (k : ℕ) → k ≤ addr → lookup k symbols ≢ none → ((k ≡ 0) × (0 < addr)) ⊎ (k + 0x10000 ≤ addr)
IsNearSymbol symbols addr (some symbol) =
    (at : ℕ) × (at ≤ addr)
    × (addr < at + 0x10000)
    × (lookup at symbols ≡ some symbol)
    × ((k : ℕ) → k ≤ addr → lookup k symbols ≢ none → k ≤ at)

near_symbol-IsNearSymbol :
    (symbols : List (ℕ × Bytes)) (addr : ℕ) (r : ℕ × Option Bytes)
    → lookup addr symbols ≡ none
    → IsClosest addr symbols r
    → IsNearSymbol symbols addr (near_symbol addr r)
unfolding near_symbol
near_symbol-IsNearSymbol symbols addr (at, none) miss c = λ k le h.
    let z : k ≤ at = c.greatest k le h in
    elim c.value [
      | inl (e, f) ↦ inl (omega arith, grind (arith, c.below))
      | inr (pos, ne, e) ↦ absurd (ne refl)
    ]
near_symbol-IsNearSymbol symbols addr (at, some symbol) miss c =
    elim (Bool-cases (ltb (addr - at) 0x10000)) [
      | inl near ↦ rw near (elim c.value [
        | inl (e, f) ↦ absurd (cc)
        | inr (pos, ne, e) ↦ (at, c.below, omega (arith, c.below, ltb→lt _ _ near), e, c.greatest)
      ])
      | inr far ↦ rw far (λ k le h. inr (ground (arith, c.greatest k le h, c.below)))
    ]

-- `resolve_kernel_symbol` gives the symbol at the greatest address up to the one asked for, less
-- than 64 KB before it; where it gives none, every symbol up to there is at least 64 KB away or,
-- for a query past 0, at address 0.
pub resolve_kernel_symbol-IsNearSymbol :
    (symbols : List (ℕ × Bytes)) (addr : ℕ)
    → IsNearSymbol symbols addr (resolve_kernel_symbol symbols addr)
unfolding resolve_kernel_symbol
resolve_kernel_symbol-IsNearSymbol symbols addr = elim (Option-cases (lookup addr symbols)) [
  | inl miss ↦
      rw (miss, resolve_kernel_symbol)
        (near_symbol-IsNearSymbol symbols addr (closest addr symbols) miss
          (closest-IsClosest addr symbols))
  | inr (symbol, e) ↦
      rw (e, resolve_kernel_symbol) (addr, omega arith, omega arith, e, λ k le h. le)
]

-- The answer of `resolve_kernel_symbol` does not depend on the order in which the hash map of
-- symbols is walked.
resolve_kernel_symbol-SameMap :
    (m n : List (ℕ × Bytes)) (addr : ℕ)
    → SameMap m n
    → resolve_kernel_symbol m addr ≡ resolve_kernel_symbol n addr
unfolding resolve_kernel_symbol
resolve_kernel_symbol-SameMap m n addr same =
    ground (arith, same addr, closest-SameMap addr m n same)
