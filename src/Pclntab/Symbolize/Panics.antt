-- ===== src/Pclntab/Symbolize/Panics.antt =====
-- Where the look-up of a file name panics.
use golang_profiling.Base.{
  ℕ, ◌+◌, ◌-◌, ◌*◌, ◌%◌, ◌≤◌, ◌<◌, ◌≡◌, refl, ◌∙◌, ◌≢◌, inl, inr, Bool, true, false, Option, some,
  arith, ltb, leb, ◌==◌, if◌then◌else◌, Bool-cases, length,
}
use golang_profiling.Base.Bytes.{Bytes, u32_mod, u64_mod, i32_as_usize}
use golang_profiling.Base.Words.{add64, add64_exact, mul64, add32}
use golang_profiling.Base.Run.{Run, done, panic, ◌>>=◌}
use golang_profiling.Pclntab.Header.{go1_16}
use golang_profiling.Pclntab.Read.{get_int32}
use golang_profiling.Pclntab.Parse.{Gopclntab}
use golang_profiling.Pclntab.Table.{PclntabFunc}
use golang_profiling.Pclntab.Symbolize.{read_file_name, file_at}

abbrev pub is_panic {ℓ} : {A : Type ℓ} → Run A → Bool
is_panic (done a) = false
is_panic panic = true
is_panic Run.stuck = false

-- The offset of a file's index, for the bit pattern of an `i32`.
abbrev pub index_offset : ℕ → ℕ
index_offset x = mul64 4 (i32_as_usize x)

index_offset-positive : (x : ℕ) → x < 0x8000_0000 → index_offset x ≡ 4 * x
unfolding mul64 i32_as_usize
index_offset-positive x h = ground arith

index_offset-negative :
    (x : ℕ) → 0x8000_0000 ≤ x → x < u32_mod → index_offset x + 4 * (u32_mod - x) ≡ u64_mod
unfolding mul64 i32_as_usize
index_offset-negative x h k = ground arith

get_int32_exact : (bs : Bytes) (o : ℕ) → o + 4 < u64_mod → is_panic (get_int32 bs o) ≡ false
unfolding get_int32
get_int32_exact bs o h =
    let e : add64 o 4 ≡ o + 4 = add64_exact o 4 h in
    elim (Bool-cases (leb (o + 4) (length bs))) [ inl q ↦ rw (e, q) refl | inr q ↦ rw (e, q) refl ]

get_int32_wrapped :
    (bs : Bytes) (o : ℕ)
    → o + 4 ≡ u64_mod
    → length bs < 0x8000_0000_0000_0000
    → is_panic (get_int32 bs o) ≡ true
unfolding get_int32 add64
get_int32_wrapped bs o h small =
    let outside : leb u64_mod (length bs) ≡ false = ground arith in
    let zero_fits : leb (u64_mod % u64_mod) (length bs) ≡ true = ground arith in
    rw (h, outside, zero_fits) refl

not_last : (x : ℕ) → x < u32_mod → (x == 0xffff_ffff) ≡ false → index_offset x + 4 < u64_mod
not_last x h ne = elim (Bool-cases (ltb x 0x8000_0000)) [
  | inl e ↦
      let small : x < 0x8000_0000 = ground (arith, e) in
      omega (arith, index_offset-positive x small)
  | inr e ↦
      let large : 0x8000_0000 ≤ x = ground (arith, e) in
      let other : x ≢ 0xffff_ffff = ground (arith, ne) in
      omega (arith, index_offset-negative x large h, other)
]

get_int32-is_panic :
    (bs : Bytes) (x : ℕ)
    → length bs < 0x8000_0000_0000_0000
    → x < u32_mod
    → is_panic (get_int32 bs (index_offset x)) ≡ (x == 0xffff_ffff)
get_int32-is_panic bs x small h = elim (Bool-cases (x == 0xffff_ffff)) [
  | inl e ↦
      let off = index_offset-negative x (ground (arith, e)) h in
      rw e (get_int32_wrapped bs (index_offset x) (ground (arith, e, off)) small)
  | inr e ↦ rw e (get_int32_exact bs (index_offset x) (not_last x h e))
]

-- The index of the file: from Go 1.16 on, that of the function is added.
abbrev pub file_index : Gopclntab → PclntabFunc → ℕ → ℕ
file_index g func index = if leb go1_16 g.version then add32 index func.npc_data else index

-- With a table of file offsets shorter than 2^63 bytes, looking a file's name up panics exactly if
-- the index, from Go 1.16 on with the function's own offset added, is -1: then the offset plus
-- four wraps around to 0 and passes the test.
pub file_at-is_panic :
    (g : Gopclntab) (func : PclntabFunc) (index : ℕ)
    → length g.cutab < 0x8000_0000_0000_0000
    → index < u32_mod
    → is_panic (file_at g func (some index)) ≡ (file_index g func index == 0xffff_ffff)
unfolding file_at
file_at-is_panic g func index small h =
    kept (get_int32 g.cutab (index_offset (file_index g func index)))
    ∙ get_int32-is_panic g.cutab (file_index g func index) small
        (elim (Bool-cases (leb go1_16 g.version)) [
          | inl e ↦ rw e (unfold add32 in omega arith)
          | inr e ↦ rw e h
        ])
  where
    kept : (r : Run (Option ℕ)) → is_panic (r >>= λ o. done (read_file_name g o)) ≡ is_panic r
    kept (done o) = refl
    kept panic = refl
    kept Run.stuck = refl
