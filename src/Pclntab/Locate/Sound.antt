-- ===== src/Pclntab/Locate/Sound.antt =====
-- What `search_go_pclntab` finds: it always returns, and the header of what it finds passes the test
-- of `Gopclntab::new`.
use golang_profiling.Base.{
  ℕ, zero, suc, ◌+◌, ◌-◌, ◌≤◌, ◌<◌, ◌≡◌, refl, ap, ◌∙◌, ◌≢◌, inl, inr, Bool, true, false, ◌&&◌,
  Option, none, some, List, [], ◌∷◌, ◌++◌, arith, ltb, leb, ltb→lt, Bool-cases, length, drop,
  length-drop, drop-drop,
}
use golang_profiling.Base.Bytes.{Bytes, from_le}
use golang_profiling.Base.Run.{
  slice_from-inside, Run, done, panic, stuck, Returns, ◌>>=◌, slice_from,
}
use golang_profiling.Pclntab.Header.{
  header_size, go_magic_to_version, go_invalid, read_header, field_at,
}
use golang_profiling.Pclntab.Table.{read_word}
use golang_profiling.Base.Text.{begins_with-split, begins_with}
use golang_profiling.Pclntab.Locate.{
  pclntab_header_signature, window_position, magic_at, scan_loop, search_go_pclntab,
}
use Prim.Native.String.{String}

-- A position is that of a match.
abbrev AtWindow : Bytes → Bytes → Option ℕ → Type 0
AtWindow sig bs none = Unit
AtWindow sig bs (some n) = (begins_with sig (drop n bs) ≡ true) × (n < length bs)

AtWindow-suc :
    (sig bs : Bytes) (b : ℕ) (o : Option ℕ)
    → AtWindow sig bs o
    → AtWindow sig (b ∷ bs) (elim o [ none ↦ none | some n ↦ some (suc n) ])
AtWindow-suc sig bs b none h = tt
AtWindow-suc sig bs b (some n) h = (h.0, omega (arith, h.1))

window_position-AtWindow : (sig bs : Bytes) → AtWindow sig bs (window_position sig bs)
unfolding window_position
window_position-AtWindow sig [] = tt
window_position-AtWindow sig (b ∷ bs) = elim (Bool-cases (begins_with sig (b ∷ bs))) [
  | inl e ↦ rw e (e, omega arith)
  | inr e ↦ rw e (AtWindow-suc sig bs b (window_position sig bs) (window_position-AtWindow sig bs))
]

-- A test that passes has read a magic number that the parser knows.
magic_at-Returns :
    (bs : Bytes) (i : ℕ)
    → Returns (magic_at bs i) (λ good.
      good ≡ true → (1 ≤ i) × (go_magic_to_version (from_le 4 (drop (i - 1) bs)) ≢ go_invalid))
unfolding magic_at read_word
magic_at-Returns bs i = elim (Bool-cases (leb 1 i && leb (i - 1 + 4) (length bs))) [
  | inr e ↦ rw e (λ h. cc)
  | inl e ↦
      let fits : leb (i - 1 + 4) (length bs) ≡ true = ground arith in
      rw (e, fits) (λ h. ground arith)
]

-- The bytes found begin one byte before a match of the signature, with a known magic number.
abbrev pub IsHeader : Bytes → Bytes → Bytes → Type 0
IsHeader sig bs r =
    (at : ℕ) × (r ≡ drop at bs)
    × (begins_with sig (drop (suc at) bs) ≡ true)
    × (go_magic_to_version (from_le 4 r) ≢ go_invalid)

abbrev pub Found : Bytes → Bytes → Option Bytes → Type 0
Found sig bs none = Unit
Found sig bs (some r) = IsHeader sig bs r

module _ (sig bs : Bytes) where
  -- The body of the loop at a match, for any rest of the search.
  match-Returns :
      (at : ℕ) (again : Run (Option Bytes))
      → begins_with sig (drop at bs) ≡ true
      → at < length bs
      → Returns again (Found sig bs)
      → Returns
          (magic_at bs at >>= λ good. elim good [
            | true ↦ slice_from bs (at - 1) >>= λ r. done (some r)
            | false ↦ again
          ])
          (Found sig bs)
  match-Returns at again starts inside h = go (magic_at bs at) (magic_at-Returns bs at)
    where
      go :
          (m : Run Bool)
          → Returns m (λ good.
            good ≡ true
            → (1 ≤ at) × (go_magic_to_version (from_le 4 (drop (at - 1) bs)) ≢ go_invalid))
          → Returns
              (m >>= λ good. elim good [
                | true ↦ slice_from bs (at - 1) >>= λ r. done (some r)
                | false ↦ again
              ])
              (Found sig bs)
      go panic p = absurd p
      go stuck p = absurd p
      go (done false) p = h
      go (done true) p =
          let (positive, good) = p refl in
          rw (slice_from-inside bs (at - 1) (omega arith))
            (at - 1, refl, rw (let e : suc (at - 1) ≡ at = omega arith in e) starts, good)

  -- The body of the loop, for any rest of the search.
  round-Returns :
      (i : ℕ) (again : ℕ → Run (Option Bytes)) (o : Option ℕ)
      → AtWindow sig (drop i bs) o
      → ((j : ℕ) → i + 8 ≤ j → Returns (again j) (Found sig bs))
      → Returns
          (elim o [
            | none ↦ done none
            | some n ↦ magic_at bs (i + n) >>= λ good. elim good [
              | true ↦ slice_from bs (i + n - 1) >>= λ r. done (some r)
              | false ↦ again (i + n + 8)
            ]
          ])
          (Found sig bs)
  round-Returns i again none w h = tt
  round-Returns i again (some n) w h =
      match-Returns (i + n) (again (i + n + 8)) (rw (drop-drop n i (i + n) bs refl) at w.0)
        (omega (arith, w.1, length-drop {0} i bs)) (h (i + n + 8) (omega arith))

  scan_loop-Returns :
      (fuel i : ℕ)
      → 0 < fuel
      → length bs < fuel + i
      → Returns (scan_loop fuel sig bs i) (Found sig bs)
  unfolding scan_loop
  scan_loop-Returns zero i p h = absurd (omega arith)
  scan_loop-Returns (suc fuel) i p h = elim (Bool-cases (ltb i (length bs - header_size))) [
    | inr e ↦ rw e tt
    | inl e ↦
        let early : i < length bs - header_size = ltb→lt _ _ e in
        rw (e, slice_from-inside bs i (omega arith))
          (round-Returns i (scan_loop fuel sig bs) (window_position sig (drop i bs))
            (window_position-AtWindow sig (drop i bs))
            (λ j q. scan_loop-Returns fuel j (omega arith) (omega arith)))
  ]

-- `search_go_pclntab` ends without a panic on every input, and what it finds are the bytes from
-- one byte before a match of the signature on, with a magic number that the parser knows.
pub search_go_pclntab-Returns :
    (bs : Bytes) (arch : String)
    → Returns (search_go_pclntab bs arch) (Found (pclntab_header_signature arch) bs)
unfolding search_go_pclntab
search_go_pclntab-Returns bs arch = elim (Bool-cases (ltb (length bs) header_size)) [
  | inl e ↦ rw e tt
  | inr e ↦ rw e (
      scan_loop-Returns (pclntab_header_signature arch) bs (length bs) 1 (ground arith)
        (omega arith))
]

-- The test of `new` on a header: the version, the padding and the pointer size.
abbrev pub PassesHeader : Bytes → Type 0
PassesHeader r =
    (go_magic_to_version (read_header r).magic ≢ go_invalid)
    × ((read_header r).pad ≡ 0)
    × ((read_header r).ptr_size ≡ 8)

one_before {ℓ} :
    {A : Type ℓ} (bs : List A) (at : ℕ)
    → 0 < length (drop (suc at) bs)
    → (x : A) × (drop at bs ≡ x ∷ drop (suc at) bs)
one_before [] at h = absurd (omega arith)
one_before (b ∷ bs) zero h = (b, refl)
one_before (b ∷ bs) (suc at) h = one_before bs at h

header_shape :
    (x q : ℕ) (rest : Bytes)
    → go_magic_to_version (from_le 4 (x ∷ 0xff ∷ 0xff ∷ 0xff ∷ 0 ∷ 0 ∷ q ∷ 8 ∷ rest)) ≢ go_invalid
    → PassesHeader (x ∷ 0xff ∷ 0xff ∷ 0xff ∷ 0 ∷ 0 ∷ q ∷ 8 ∷ rest)
unfolding read_header field_at from_le
header_shape x q rest good = (good, omega arith, omega arith)

-- Such bytes pass that test.
pub IsHeader-PassesHeader :
    (bs : Bytes) (arch : String) {r : Bytes}
    → IsHeader (pclntab_header_signature arch) bs r
    → PassesHeader r
unfolding pclntab_header_signature
IsHeader-PassesHeader bs arch {r} (at, e, starts, good) =
    let tail = drop (suc at) bs in
    let rest = drop 7 tail in
    let split : tail ≡ pclntab_header_signature arch ++ rest =
      begins_with-split (pclntab_header_signature arch) tail starts in
    let (x, cons) = one_before bs at (omega (arith, ap {B = ℕ} length split)) in
    let shape : r ≡ x ∷ (pclntab_header_signature arch ++ rest) =
      e ∙ cons ∙ ap (λ t. x ∷ t) split in
    rw shape (header_shape x _ rest (rw shape at good))

-- The header of what `search_go_pclntab` finds has a known version, padding 0 and pointer size 8,
-- so it passes the header test of `Gopclntab::new`.
pub search_go_pclntab-new :
    (bs : Bytes) (arch : String) {r : Bytes}
    → search_go_pclntab bs arch ≡ done (some r)
    → PassesHeader r
search_go_pclntab-new bs arch h =
    IsHeader-PassesHeader bs arch (rw h at (search_go_pclntab-Returns bs arch))
