-- ===== src/Pclntab/Table/Encoding.antt =====
-- The function table as a list of rows, its encoding in both formats, and `get_func_map_entry` as the
-- look-up in that list.
use golang_profiling.Base.{
  drop-drop, drop-append, ℕ, zero, suc, ◌+◌, ◌*◌, ◌^◌, ◌≤◌, ◌<◌, ◌≡◌, refl, sym, ap, ◌∙◌, List, [],
  ◌∷◌, ◌++◌, arith, length, drop, length-append, All,
}
use golang_profiling.Base.Bytes.{Bytes, to_le, from_le-to_le, length-to_le}
use golang_profiling.Pclntab.Header.{field_at}

-- Rows of two numbers of `w` bytes each.
unfoldable pub encode_table : ℕ → List (ℕ × ℕ) → Bytes → Bytes
encode_table w [] back = back
encode_table w ((pc, off) ∷ rows) back = to_le w pc ++ (to_le w off ++ encode_table w rows back)

abbrev pub RowsFit : ℕ → List (ℕ × ℕ) → Type 0
RowsFit w rows = All (λ r. (r.0 < 256 ^ w) × (r.1 < 256 ^ w)) rows

drop-to_le : (w v : ℕ) (rest : Bytes) → drop w (to_le w v ++ rest) ≡ rest
drop-to_le w v rest = drop-append (to_le w v) rest w (length-to_le w v)

-- Past the first row.
drop-row :
    (w pc off : ℕ) (rows : List (ℕ × ℕ)) (back : Bytes)
    → drop (w + w) (encode_table w ((pc, off) ∷ rows) back) ≡ encode_table w rows back
unfolding encode_table
drop-row w pc off rows back =
    sym (drop-drop w w (w + w) _ refl)
    ∙ ap (drop w) (drop-to_le w pc (to_le w off ++ encode_table w rows back))
    ∙ drop-to_le w off (encode_table w rows back)

-- `at` is the offset of row `i`.
pub drop-encode_table :
    (w i at : ℕ) (rows : List (ℕ × ℕ)) (back : Bytes)
    → at ≡ i * (w + w)
    → i ≤ length rows
    → drop at (encode_table w rows back) ≡ encode_table w (drop i rows) back
drop-encode_table w zero at rows back e h =
    ap (λ (k : ℕ). drop k (encode_table w rows back)) (let z : at ≡ 0 = omega arith in z)
drop-encode_table w (suc i) at [] back e h = absurd (omega arith)
drop-encode_table w (suc i) at ((pc, off) ∷ rows) back e h =
    sym (drop-drop (i * (w + w)) (w + w) at _ (omega arith))
    ∙ ap (drop (i * (w + w))) (drop-row w pc off rows back)
    ∙ drop-encode_table w i (i * (w + w)) rows back refl (omega arith)

pub length-encode_table :
    (w : ℕ) (rows : List (ℕ × ℕ)) (back : Bytes)
    → length (encode_table w rows back) ≡ length rows * (w + w) + length back
unfolding encode_table
length-encode_table w [] back = omega arith
length-encode_table w ((pc, off) ∷ rows) back = omega (
  arith,
  length-append {0} (to_le w pc) (to_le w off ++ encode_table w rows back),
  length-append {0} (to_le w off) (encode_table w rows back),
  length-to_le w pc,
  length-to_le w off,
  length-encode_table w rows back,
)

-- Both fields of the first row.
pub first_row :
    (w pc off : ℕ) (rows : List (ℕ × ℕ)) (back : Bytes)
    → pc < 256 ^ w
    → off < 256 ^ w
    → (field_at w 0 (encode_table w ((pc, off) ∷ rows) back) ≡ pc)
      × (field_at w w (encode_table w ((pc, off) ∷ rows) back) ≡ off)
unfolding field_at encode_table
first_row w pc off rows back hp ho = (
  from_le-to_le w pc _ hp,
  rw (drop-to_le w pc (to_le w off ++ encode_table w rows back)) (from_le-to_le w off _ ho),
)
