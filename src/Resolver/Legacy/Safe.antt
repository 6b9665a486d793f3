-- ===== src/Resolver/Legacy/Safe.antt =====
-- The passes of the older reader, on words that do not wrap around.
use golang_profiling.Base.{
  ℕ, zero, suc, ◌+◌, ◌*◌, ◌≤◌, ◌<◌, ◌≡◌, refl, inl, inr, Bool, true, false, ◌&&◌, List, [], ◌∷◌,
  arith, ltb, leb, Bool-cases, length, drop, All,
}
use golang_profiling.Base.Bytes.{Bytes, u64_mod, from_le}
use golang_profiling.Base.Words.{add64, add64_exact}
use golang_profiling.Base.Run.{Run, done, panic, stuck, Returns, ◌>>=◌}
use golang_profiling.Pclntab.Table.{read_word}
use golang_profiling.Resolver.Legacy.{collect_entries, relative_offset, read_name_off}

pub read_word-inside :
    (n : ℕ) (bs : Bytes) (at : ℕ)
    → at + n ≤ length bs
    → read_word n bs at ≡ done (from_le n (drop at bs))
unfolding read_word
read_word-inside n bs at h = ground arith

-- A data offset that does not wrap around when 4 is added.
abbrev pub Plain : ℕ × ℕ → Type 0
Plain e = e.1 + 4 < u64_mod

abbrev pub Good : ℕ → List (ℕ × ℕ) → Type 0
Good n entries = (length entries ≤ n) × All Plain entries

one_more :
    (n : ℕ) (e : ℕ × ℕ) (r : Run (List (ℕ × ℕ)))
    → Plain e
    → Returns r (Good n)
    → Returns (r >>= λ rest. done (e ∷ rest)) (Good (suc n))
one_more n e (done rest) p h = (omega (arith, h.0), (p, h.1))
one_more n e panic p h = h
one_more n e stuck p h = h

weaker : (n : ℕ) (r : Run (List (ℕ × ℕ))) → Returns r (Good n) → Returns r (Good (suc n))
weaker n (done rest) h = (omega (arith, h.0), h.1)
weaker n panic h = h
weaker n stuck h = h

-- One round, for any continuation of the loop.
round-Good :
    (n : ℕ) (text valid last : Bool) (e : ℕ × ℕ) (first again : Run (List (ℕ × ℕ)))
    → Plain e
    → Returns first (Good n)
    → Returns again (Good n)
    → Returns
        (elim text [
          | true ↦ done []
          | false ↦ elim valid [
            | true ↦ first >>= λ rest. done (e ∷ rest)
            | false ↦ elim last [ true ↦ done [] | false ↦ again ]
          ]
        ])
        (Good (suc n))
round-Good n true valid last e first again p h k = (omega arith, tt)
round-Good n false true last e first again p h k = one_more n e first p h
round-Good n false false true e first again p h k = (omega arith, tt)
round-Good n false false false e first again p h k = weaker n again k

module _ (ptrsize base : ℕ) (bs : Bytes) where
  -- Every word of the table from an offset on.
  abbrev pub Words : ℕ → Type 0
  Words offset =
      (at : ℕ) → offset ≤ at → at + ptrsize ≤ length bs → from_le ptrsize (drop at bs) + 4 < u64_mod

  pub collect_entries-Good :
      (n offset invalid : ℕ)
      → Words offset
      → Returns (collect_entries n ptrsize base bs offset invalid) (Good n)
  unfolding collect_entries
  collect_entries-Good zero offset invalid w = (omega arith, tt)
  collect_entries-Good (suc n) offset invalid w =
      elim (Bool-cases (ltb (length bs) (offset + ptrsize * 2))) [
        | inl e ↦ rw e (omega arith, tt)
        | inr e ↦
            let inside : offset + ptrsize * 2 ≤ length bs = ground arith in
            let later = λ (at : ℕ) (le : offset + ptrsize * 2 ≤ at). w at (omega arith) in
            rw
              (
                e,
                read_word-inside ptrsize bs offset (omega arith),
                read_word-inside ptrsize bs (offset + ptrsize) (omega arith),
              )
              (round-Good n _ _ (leb 3 (invalid + 1)) (_, _) _ _
                (w (offset + ptrsize) (omega arith) (omega arith))
                (collect_entries-Good n (offset + ptrsize * 2) 0 later)
                (collect_entries-Good n (offset + ptrsize * 2) (invalid + 1) later))
      ]

relative_offset-le : (bs : Bytes) (funcoff : ℕ) → relative_offset bs funcoff ≤ funcoff
unfolding relative_offset
relative_offset-le bs funcoff = ground arith

-- Without the wrap-around a name's offset can be read, or is taken to be 0.
pub read_name_off-Returns :
    (bs : Bytes) (funcoff : ℕ)
    → funcoff + 4 < u64_mod
    → (n : ℕ) × (read_name_off bs funcoff ≡ done n)
unfolding read_name_off
read_name_off-Returns bs funcoff h =
    let offset = relative_offset bs funcoff in
    let exact : add64 offset 4 ≡ offset + 4 =
      add64_exact offset 4 (omega (arith, relative_offset-le bs funcoff)) in
    elim (Bool-cases (ltb 0 funcoff && ltb (add64 offset 4) (length bs))) [
      | inl e ↦
          (from_le 4 (drop offset bs), rw e (read_word-inside 4 bs offset (ground (arith, exact))))
      | inr e ↦ (0, rw e refl)
    ]
