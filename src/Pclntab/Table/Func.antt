-- ===== src/Pclntab/Table/Func.antt =====
-- A function's data, its encoding behind the entry pc, and `get_func` as the inverse.
use golang_profiling.Base.{
  ℕ, zero, suc, ◌+◌, ◌-◌, ◌*◌, ◌≤◌, ◌<◌, ◌≡◌, refl, sym, ap, ◌∙◌, some, List, [], ◌∷◌, ◌++◌, arith,
  length, get_elem?, drop, length-append, length-drop, drop-append, drop-drop, All,
}
use golang_profiling.Base.Bytes.{Bytes, u32_mod, to_le, from_le-to_le, length-to_le}
use golang_profiling.Base.Words.{add64, add64_exact}
use golang_profiling.Base.Run.{done, slice_from}
use golang_profiling.Pclntab.Header.{go1_18, field_at}
use golang_profiling.Pclntab.Parse.{Gopclntab}
use golang_profiling.Pclntab.Table.{
  PclntabFunc, read_func, read_word, get_func_struct, get_func118, get_func,
}

-- Words of four bytes, one after the other.
unfoldable pub encode_words : List ℕ → Bytes → Bytes
encode_words [] rest = rest
encode_words (x ∷ xs) rest = to_le 4 x ++ encode_words xs rest

drop-word : (n v : ℕ) (rest : Bytes) → drop (4 + n) (to_le 4 v ++ rest) ≡ drop n rest
drop-word n v rest =
    sym (drop-drop n 4 (4 + n) (to_le 4 v ++ rest) refl)
    ∙ ap (drop n) (drop-append (to_le 4 v) rest 4 (length-to_le 4 v))

-- Word `i` is read back at its offset.
field_at-encode_words :
    (xs : List ℕ) (rest : Bytes) (i at : ℕ) {x : ℕ}
    → All (λ y. y < u32_mod) xs
    → get_elem? xs i ≡ some x
    → at ≡ 4 * i
    → field_at 4 at (encode_words xs rest) ≡ x
unfolding field_at encode_words
field_at-encode_words [] rest i at fit h e = cc
field_at-encode_words (y ∷ xs) rest zero at {x} fit h e =
    let z : at ≡ 0 = omega arith in
    let q : y ≡ x = cc in rw z (from_le-to_le 4 y (encode_words xs rest) (omega (arith, fit.0)) ∙ q)
field_at-encode_words (y ∷ xs) rest (suc i) at fit h e =
    let z : at ≡ 4 + 4 * i = omega arith in
    rw (z, drop-word (4 * i) y (encode_words xs rest))
      (field_at-encode_words xs rest i (4 * i) fit.1 h refl)

abbrev pub func_words : PclntabFunc → List ℕ
func_words f =
    f.name_off ∷ f.args_size ∷ f.frame_size ∷ f.pcsp_off ∷ f.pcfile_off ∷ f.pcln_off ∷ f.nfunc_data
    ∷ f.npc_data ∷ []

pub read_func-encode_words :
    (f : PclntabFunc) (rest : Bytes)
    → All (λ y. y < u32_mod) (func_words f)
    → read_func (encode_words (func_words f) rest) ≡ f
unfolding read_func
read_func-encode_words f rest fit =
    let word = λ (i at x : ℕ) (h : get_elem? (func_words f) i ≡ some x) (e : at ≡ 4 * i).
      field_at-encode_words (func_words f) rest i at fit h e in
    λ k. record {
      name_off = word 0 0 f.name_off refl refl k;
      args_size = word 1 4 f.args_size refl refl k;
      frame_size = word 2 8 f.frame_size refl refl k;
      pcsp_off = word 3 12 f.pcsp_off refl refl k;
      pcfile_off = word 4 16 f.pcfile_off refl refl k;
      pcln_off = word 5 20 f.pcln_off refl refl k;
      nfunc_data = word 6 24 f.nfunc_data refl refl k;
      npc_data = word 7 28 f.npc_data refl refl k;
    }

length-encode_words :
    (xs : List ℕ) (rest : Bytes) → length (encode_words xs rest) ≡ 4 * length xs + length rest
unfolding encode_words
length-encode_words [] rest = omega arith
length-encode_words (x ∷ xs) rest = omega (
  arith,
  length-append {0} (to_le 4 x) (encode_words xs rest),
  length-to_le 4 x,
  length-encode_words xs rest,
)

-- In the format of Go 1.18 and later, where an entry pc and the eight words of a function's data
-- stand at an offset of the function data shorter than 2^63 bytes, `get_func` at that offset
-- returns the absolute entry pc and these words.
pub get_func-encode118 :
    (g : Gopclntab) (off pc : ℕ) (f : PclntabFunc) (rest : Bytes)
    → go1_18 ≤ g.version
    → g.fun_size ≡ 36
    → length g.funcdata < 0x8000_0000_0000_0000
    → off < length g.funcdata
    → drop off g.funcdata ≡ to_le 4 pc ++ encode_words (func_words f) rest
    → pc < u32_mod
    → All (λ y. y < u32_mod) (func_words f)
    → get_func g off ≡ done (some (add64 g.text_start pc, f))
unfolding get_func get_func118 get_func_struct read_word slice_from
get_func-encode118 g off pc f rest v size small inside e hp fit =
    let tail = encode_words (func_words f) rest in
    let len : length g.funcdata - off ≡ 36 + length rest = omega (
      arith,
      length-drop {0} off g.funcdata,
      ap {B = ℕ} length e,
      length-append {0} (to_le 4 pc) tail,
      length-to_le 4 pc,
      length-encode_words (func_words f) rest,
    ) in
    let second : drop (off + 4) g.funcdata ≡ tail =
      sym (drop-drop 4 off (off + 4) g.funcdata refl)
      ∙ ap (drop 4) e
      ∙ drop-append (to_le 4 pc) tail 4 (length-to_le 4 pc) in
    ground (
      arith,
      len,
      add64_exact off 36 (omega arith),
      add64_exact off 4 (omega arith),
      add64_exact (off + 4) 32 (omega arith),
      e,
      from_le-to_le 4 pc tail (omega arith),
      second,
      read_func-encode_words f rest fit,
    )
