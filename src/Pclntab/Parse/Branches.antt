-- ===== src/Pclntab/Parse/Branches.antt =====
-- The branches of `new`: what each returns, and where it can panic.
use golang_profiling.Base.{
  ℕ, ◌+◌, ◌-◌, ◌≤◌, ◌<◌, ◌≡◌, refl, ◌≢◌, inl, inr, true, false, ◌&&◌, ◌||◌, arith, ltb, leb, ◌==◌,
  ==_iff, Bool-cases, length, drop, length-drop, length-take_le,
}
use golang_profiling.Base.Bytes.{Bytes, i32_as_usize}
use golang_profiling.Base.Words.{add64, mul64}
use golang_profiling.Base.Run.{slice, slice_from}
use golang_profiling.Pclntab.Read.{get_int32}
use golang_profiling.Pclntab.Header.{
  go1_2, go1_16, go1_18, go1_20, header_size, header116_size, header118_size, read_header116,
  read_header118,
}
use golang_profiling.Pclntab.Parse.{
  no_num_source_files, no_filetab_offset, Gopclntab, ParseError, Parsed, ok, err, panicked, stuck,
  ok_or, ◌>>=◌, corrupt_or_slices, parse_go1_2, offsets_outside, take_slices, parse_go1_16,
  parse_go1_18, parse_version,
}

abbrev sliced : Bytes → Gopclntab → ℕ → ℕ → ℕ → ℕ → ℕ → Gopclntab
sliced bs g a b c d e = record g {
  funcnametab = drop a bs;
  cutab = drop b bs;
  filetab = drop c bs;
  pctab = drop d bs;
  functab = drop e bs;
  funcdata = drop e bs;
}

-- The slices, where every offset is inside.
take_slices-inside :
    (bs : Bytes) (g : Gopclntab) (a b c d e : ℕ)
    → offsets_outside (length bs) a b c d e ≡ false
    → take_slices bs g a b c d e ≡ ok (sliced bs g a b c d e)
unfolding take_slices offsets_outside slice_from
take_slices-inside bs g a b c d e h = ground arith

-- The sizes of a row and of a function's data agree with the version, and every slice with the bytes.
pub record IsValid (bs : Bytes) (g : Gopclntab) : Type 0 where
  pub whole : g.bytes ≡ bs
  pub pointers : g.ptr_size ≡ 8
  pub known : go1_2 ≤ g.version
  pub compact : go1_18 ≤ g.version → (g.func_map_size ≡ 8) × (g.fun_size ≡ 36)
  pub wide : g.version < go1_18 → (g.func_map_size ≡ 16) × (g.fun_size ≡ 40) × (g.text_start ≡ 0)
  pub functab_inside : length g.functab ≤ length bs
  pub funcdata_inside : length g.funcdata ≤ length bs
  pub pctab_inside : length g.pctab ≤ length bs
  pub cutab_inside : length g.cutab ≤ length bs

-- The call returns: an error, or a value that satisfies `P`.
abbrev pub Safe {ℓ} : {A : Type ℓ} → Parsed A → (A → Type 0) → Type 0
Safe (ok a) P = P a
Safe (err e) P = Unit
Safe panicked P = ⊥
Safe stuck P = ⊥

-- The same for a call that may panic.
abbrev pub Partial {ℓ} : {A : Type ℓ} → Parsed A → (A → Type 0) → Type 0
Partial (ok a) P = P a
Partial (err e) P = Unit
Partial panicked P = Unit
Partial stuck P = ⊥

Safe-Partial {ℓ} : {A : Type ℓ} (p : Parsed A) (P : A → Type 0) → Safe p P → Partial p P
Safe-Partial (ok a) P h = h
Safe-Partial (err e) P h = tt
Safe-Partial panicked P h = tt
Safe-Partial stuck P h = h

bind-Partial {ℓ κ} :
    {A : Type ℓ} {B : Type κ} (m : Parsed A) (k : A → Parsed B) (P : B → Type 0)
    → Partial m (λ _. Unit)
    → ((a : A) → Partial (k a) P)
    → Partial (m >>= k) P
bind-Partial (ok a) k P h c = c a
bind-Partial (err e) k P h c = tt
bind-Partial panicked k P h c = tt
bind-Partial stuck k P h c = h

get_int32-Partial :
    (bs : Bytes) (at : ℕ) (e : ParseError) → Partial (ok_or (get_int32 bs at) e) (λ _. Unit)
unfolding get_int32
get_int32-Partial bs at e = elim (Bool-cases (leb (add64 at 4) (length bs))) [
  | inr out ↦ rw out tt
  | inl fits ↦ elim (Bool-cases (leb (at + 4) (length bs))) [
    | inl inside ↦ rw (fits, inside) tt
    | inr wraps ↦ rw (fits, wraps) tt
  ]
]

-- What the constructor has set before its `match`.
pub record IsFresh (bs : Bytes) (g : Gopclntab) : Type 0 where
  pub whole : g.bytes ≡ bs
  pub pointers : g.ptr_size ≡ 8
  pub row_size : g.func_map_size ≡ 16
  pub data_size : g.fun_size ≡ 40
  pub no_text : g.text_start ≡ 0

le-drop : (n : ℕ) (bs : Bytes) → length (drop n bs) ≤ length bs
le-drop n bs = omega (arith, length-drop {0} n bs)

module _ (bs : Bytes) (g : Gopclntab) (f : IsFresh bs g) where
  sliced-IsValid : (a b c d e : ℕ) → g.version ≡ go1_16 → IsValid bs (sliced bs g a b c d e)
  sliced-IsValid a b c d e v = record {
    whole = f.whole;
    pointers = f.pointers;
    known = omega arith;
    compact = λ h. absurd (omega arith);
    wide = λ h. (f.row_size, f.data_size, f.no_text);
    functab_inside = le-drop e bs;
    funcdata_inside = le-drop e bs;
    pctab_inside = le-drop d bs;
    cutab_inside = le-drop b bs;
  }

  compact-IsValid :
      (a b c d e t : ℕ)
      → go1_18 ≤ g.version
      → IsValid bs
          (record (sliced bs g a b c d e) { text_start = t; func_map_size = 8; fun_size = 36 })
  compact-IsValid a b c d e t v = record {
    whole = f.whole;
    pointers = f.pointers;
    known = omega arith;
    compact = λ h. (refl, refl);
    wide = λ h. absurd (omega arith);
    functab_inside = le-drop e bs;
    funcdata_inside = le-drop e bs;
    pctab_inside = le-drop d bs;
    cutab_inside = le-drop b bs;
  }

  parse_go1_16-Safe : g.version ≡ go1_16 → Safe (parse_go1_16 bs g) (IsValid bs)
  unfolding parse_go1_16
  parse_go1_16-Safe v =
      let h = read_header116 bs in
      elim (Bool-cases (ltb (length bs) header116_size)) [
        | inl short ↦ rw short tt
        | inr long ↦
            elim (Bool-cases (
              offsets_outside (length bs) h.funcname_offset h.cu_offset h.filetab_offset
                h.pctab_offset h.pcln_offset)) [
                  | inl out ↦ rw (long, out) tt
                  | inr inside ↦
                      rw (long, inside, take_slices-inside bs g _ _ _ _ _ inside)
                        (sliced-IsValid _ _ _ _ _ v)
                ]
      ]

  parse_go1_18-Safe : go1_18 ≤ g.version → Safe (parse_go1_18 bs g) (IsValid bs)
  unfolding parse_go1_18
  parse_go1_18-Safe v =
      let h = read_header118 bs in
      elim (Bool-cases (ltb (length bs) header118_size)) [
        | inl short ↦ rw short tt
        | inr long ↦
            elim (Bool-cases (
              offsets_outside (length bs) h.funcname_offset h.cu_offset h.filetab_offset
                h.pctab_offset h.pcln_offset)) [
                  | inl out ↦ rw (long, out) tt
                  | inr inside ↦
                      rw (long, inside, take_slices-inside bs g _ _ _ _ _ inside)
                        (compact-IsValid _ _ _ _ _ _ v)
                ]
      ]

  go1_2-IsValid :
      (functab cutab : Bytes)
      → g.version ≡ go1_2
      → length functab ≤ length bs
      → length cutab ≤ length bs
      → IsValid bs (record g {
        functab = functab;
        cutab = cutab;
        pctab = bs;
        funcnametab = bs;
        funcdata = bs;
        filetab = bs;
      })
  go1_2-IsValid functab cutab v p q = record {
    whole = f.whole;
    pointers = f.pointers;
    known = omega arith;
    compact = λ h. absurd (omega arith);
    wide = λ h. (f.row_size, f.data_size, f.no_text);
    functab_inside = p;
    funcdata_inside = omega arith;
    pctab_inside = omega arith;
    cutab_inside = q;
  }

  -- With the two numbers read, the branch for Go 1.2 ends in one of three ways.
  corrupt_or_slices-Partial :
      (offset files : ℕ)
      → g.version ≡ go1_2
      → Partial (corrupt_or_slices bs g offset files) (IsValid bs)
  unfolding corrupt_or_slices slice slice_from
  corrupt_or_slices-Partial offset files v =
      let at = i32_as_usize offset in
      elim (Bool-cases (offset == 0 || files == 0)) [
        | inl e ↦ rw e tt
        | inr e ↦ elim (Bool-cases (leb header_size at && leb at (length bs))) [
          | inr out ↦ rw (e, out) tt
          | inl inside ↦
              let fits : leb at (length bs) ≡ true = ground arith in
              rw (e, inside, fits)
                (go1_2-IsValid _ _ v
                  (omega (
                    arith,
                    length-take_le {0} (at - header_size) (drop header_size bs),
                    le-drop header_size bs,
                  ))
                  (le-drop at bs))
        ]
      ]

  parse_go1_2-Partial : g.version ≡ go1_2 → Partial (parse_go1_2 bs g) (IsValid bs)
  unfolding parse_go1_2
  parse_go1_2-Partial v =
      let functab_end = add64 (add64 header_size (mul64 g.num_funcs g.func_map_size)) g.ptr_size in
      bind-Partial (ok_or (get_int32 bs functab_end) no_filetab_offset) _ (IsValid bs)
        (get_int32-Partial bs functab_end no_filetab_offset)
        (λ offset.
          bind-Partial (ok_or (get_int32 bs (i32_as_usize offset)) no_num_source_files) _
            (IsValid bs) (get_int32-Partial bs (i32_as_usize offset) no_num_source_files)
            (λ files. corrupt_or_slices-Partial offset files v))

  pub parse_version-Partial : Partial (parse_version g.version bs g) (IsValid bs)
  unfolding parse_version
  parse_version-Partial = elim (Bool-cases (g.version == go1_2)) [
    | inl a ↦ rw a (parse_go1_2-Partial ((==_iff _ _).0 a))
    | inr a ↦ elim (Bool-cases (g.version == go1_16)) [
      | inl b ↦ rw (a, b) (Safe-Partial _ (IsValid bs) (parse_go1_16-Safe ((==_iff _ _).0 b)))
      | inr b ↦ elim (Bool-cases (g.version == go1_18 || g.version == go1_20)) [
        | inl c ↦ rw (a, b, c) (Safe-Partial _ (IsValid bs) (parse_go1_18-Safe (ground arith)))
        | inr c ↦ rw (a, b, c) tt
      ]
    ]
  ]

  pub parse_version-Safe : g.version ≢ go1_2 → Safe (parse_version g.version bs g) (IsValid bs)
  unfolding parse_version
  parse_version-Safe later = elim (Bool-cases (g.version == go1_2)) [
    | inl a ↦ absurd (later ((==_iff _ _).0 a))
    | inr a ↦ elim (Bool-cases (g.version == go1_16)) [
      | inl b ↦ rw (a, b) (parse_go1_16-Safe ((==_iff _ _).0 b))
      | inr b ↦ elim (Bool-cases (g.version == go1_18 || g.version == go1_20)) [
        | inl c ↦ rw (a, b, c) (parse_go1_18-Safe (ground arith))
        | inr c ↦ rw (a, b, c) tt
      ]
    ]
  ]
