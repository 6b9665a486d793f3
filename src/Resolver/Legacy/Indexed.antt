-- ===== src/Resolver/Legacy/Indexed.antt =====
-- What the older reader makes of its table of functions.
use golang_profiling.Base.{
  All-drop, ℕ, zero, suc, ◌+◌, ◌-◌, ◌*◌, ◌^◌, ◌≤◌, ◌<◌, min, ◌≡◌, refl, sym, ap, inl, inr, false,
  ◌&&◌, List, [], ◌∷◌, ◌++◌, arith, ltb, leb, ◌==◌, if◌then◌else◌, ==_iff, Bool-cases, length, drop,
  length-append, drop-drop, All,
}
use native.Mathlib.Nat.{pow-suc}
use golang_profiling.Base.Bytes.{Bytes, IsByte, u64_mod, from_le, from_le-lt}
use golang_profiling.Base.Run.{Returns→done, Run, done, panic, stuck, Returns, ◌>>=◌}
use golang_profiling.Base.Sort.{
  sort_by_key, Ascending, sort_by_key-Ascending, with_key, with_key-sort_by_key, length-sort_by_key,
}
use golang_profiling.Resolver.FuncTable.{FuncInfo}
use golang_profiling.Resolver.Legacy.{
  known_magic, guess_pointer_size, pointer_size, collect_entries, has_entry, push_function,
  add_functions, Tables, parse_functions, parse_with_size, parse_pclntab_legacy,
}
use golang_profiling.Resolver.Legacy.Safe.{
  read_word-inside, Plain, Words, collect_entries-Good, read_name_off-Returns,
}

-- No two functions have the same entry.
abbrev pub IsDistinct : List FuncInfo → Type 0
IsDistinct table = (k : ℕ) → length (with_key (λ f. f.entry) k table) ≤ 1

with_key-append :
    (k : ℕ) (xs ys : List FuncInfo)
    → with_key (λ f. f.entry) k (xs ++ ys)
      ≡ with_key (λ f. f.entry) k xs ++ with_key (λ f. f.entry) k ys
with_key-append k [] ys = refl
with_key-append k (x ∷ xs) ys = ground (arith, with_key-append k xs ys)

has_entry-with_key :
    (k : ℕ) (table : List FuncInfo)
    → has_entry k table ≡ false
    → length (with_key (λ f. f.entry) k table) ≡ 0
unfolding has_entry
has_entry-with_key k [] h = refl
has_entry-with_key k (f ∷ table) h = ground (arith, has_entry-with_key k table)

push_function-IsDistinct :
    (table : List FuncInfo) (func : FuncInfo)
    → IsDistinct table
    → IsDistinct (push_function table func)
unfolding push_function
push_function-IsDistinct table func d = elim (Bool-cases (has_entry func.entry table)) [
  | inl e ↦ rw e d
  | inr e ↦ rw e (λ k. ground (
    arith,
    d k,
    with_key-append k table (func ∷ []),
    length-append {0} (with_key (λ (f : FuncInfo). f.entry) k table)
        (with_key (λ (f : FuncInfo). f.entry) k (func ∷ [])),
    has_entry-with_key k table,
  ))
]

length-push_function :
    (table : List FuncInfo) (func : FuncInfo) → length (push_function table func) ≤ length table + 1
unfolding push_function
length-push_function table func = ground (arith, length-append {0} table (func ∷ []))

-- What the second pass makes of a table.
abbrev Grown : ℕ → List FuncInfo → Type 0
Grown n table = IsDistinct table × (length table ≤ n)

add_functions-Grown :
    (bs : Bytes) (entries : List (ℕ × ℕ)) (table : List FuncInfo) (n : ℕ)
    → All Plain entries
    → IsDistinct table
    → length table + length entries ≤ n
    → Returns (add_functions bs entries table) (Grown n)
unfolding add_functions
add_functions-Grown bs [] table n p d h = (d, omega arith)
add_functions-Grown bs ((entry, funcoff) ∷ entries) table n p d h =
    let (name_off, e) = read_name_off-Returns bs funcoff p.0 in
    let func : FuncInfo = record { entry = entry; name_off = name_off; file_off = 0; line = 0 } in
    rw e (
      add_functions-Grown bs entries (push_function table func) n p.1
        (push_function-IsDistinct table func d) (omega (arith, length-push_function table func)))

-- The table is sorted by entry, no entry stands twice, and it is no longer than `n`.
abbrev pub IsIndexed : ℕ → Tables → Type 0
IsIndexed n t =
    Ascending (λ f. f.entry) t.func_table × IsDistinct t.func_table × (length t.func_table ≤ n)

-- The rest of `parse_functions` behind its first pass.
finish :
    (r : Run (List FuncInfo)) (strings : Bytes) (n : ℕ)
    → Returns r (Grown n)
    → Returns
        (r >>= λ fs.
          done (record { func_table = sort_by_key (λ f. f.entry) fs; string_table = strings }))
        (IsIndexed n)
finish (done fs) strings n h = (
  sort_by_key-Ascending (λ f. f.entry) fs,
  (λ k.
      omega
        (arith, h.0 k, ap {B = ℕ} length (with_key-sort_by_key (λ (f : FuncInfo). f.entry) k fs))),
  omega (arith, h.1, length-sort_by_key {0} (λ (f : FuncInfo). f.entry) fs),
)
finish panic strings n h = h
finish stuck strings n h = h

parse_functions-IsIndexed :
    (bs : Bytes) (magic ptrsize base : ℕ) (t : Tables)
    → 12 ≤ length bs
    → Words ptrsize base bs (8 + ptrsize)
    → IsDistinct t.func_table
    → Returns (parse_functions bs magic ptrsize base t) (IsIndexed (length t.func_table + 1000))
unfolding parse_functions
parse_functions-IsIndexed bs magic ptrsize base t long w d =
    let count = from_le 4 (drop 8 bs) in
    let (entries, e, good) =
      Returns→done (collect_entries (min count 1000) ptrsize base bs (8 + ptrsize) 0)
        (collect_entries-Good ptrsize base bs (min count 1000) (8 + ptrsize) 0 w) in
    rw (read_word-inside 4 bs 8 (omega arith), e)
      (finish (add_functions bs entries t.func_table) _ (length t.func_table + 1000) (
        add_functions-Grown bs entries t.func_table (length t.func_table + 1000) good.1 d
          (omega (arith, good.0))))

parse_with_size-IsIndexed :
    (bs : Bytes) (magic ptrsize base n : ℕ) (t : Tables)
    → 12 ≤ length bs
    → (ptrsize ≡ 4 → Words 4 base bs 12)
    → (ptrsize ≡ 8 → Words 8 base bs 16)
    → IsIndexed n t
    → Returns (parse_with_size bs magic base t ptrsize) (IsIndexed (n + 1000))
unfolding parse_with_size
parse_with_size-IsIndexed bs magic ptrsize base n t long four eight x =
    elim (Bool-cases (ptrsize == 4)) [
      | inl e ↦
          let q : ptrsize ≡ 4 = (==_iff ptrsize 4).0 e in
          rw q (
            larger (parse_functions bs magic 4 base t)
              (parse_functions-IsIndexed bs magic 4 base t long (four q) x.1))
      | inr ne ↦ elim (Bool-cases (ptrsize == 8)) [
        | inl e ↦
            let q : ptrsize ≡ 8 = (==_iff ptrsize 8).0 e in
            rw q (
              larger (parse_functions bs magic 8 base t)
                (parse_functions-IsIndexed bs magic 8 base t long (eight q) x.1))
        | inr nf ↦ rw (ne, nf) (x.0, x.1, omega (arith, x.2))
      ]
    ]
  where
    larger :
        (r : Run Tables)
        → Returns r (IsIndexed (length t.func_table + 1000))
        → Returns r (IsIndexed (n + 1000))
    larger (done u) h = (h.0, h.1, omega (arith, h.2, x.2))
    larger panic h = h
    larger stuck h = h

guessed :
    (bs : Bytes) (magic ptrsize : ℕ)
    → 12 ≤ length bs
    → (p : ℕ) × (guess_pointer_size bs magic ptrsize ≡ done p)
unfolding guess_pointer_size
guessed bs magic ptrsize long = elim (Bool-cases (magic == 0xfffffff1 && leb 16 (length bs))) [
  | inl e ↦
      let n = from_le 4 (drop 8 bs) in
      (
        (if ltb 0 n && ltb n 100000 then 8 else ptrsize),
        rw (e, read_word-inside 4 bs 8 (omega arith)) refl,
      )
  | inr e ↦ (ptrsize, rw e refl)
]

from_le_small : (n : ℕ) (bs : Bytes) → All (λ b. b < 255) bs → from_le (suc n) bs < 255 * 256 ^ n
unfolding from_le
from_le_small zero [] h = omega arith
from_le_small zero (b ∷ bs) h = omega (arith, h.0)
from_le_small (suc n) [] h = omega (arith, pow-suc 256 n, from_le_small n [] h)
from_le_small (suc n) (b ∷ bs) h = omega (arith, pow-suc 256 n, h.0, from_le_small n bs h.1)

-- Where no byte behind the header is 255, no word behind it is near 2^64.
pub plain_words :
    (bs : Bytes)
    → All (λ b. b < 255) (drop 16 bs)
    → ((at : ℕ) → 16 ≤ at → at + 8 ≤ length bs → from_le 8 (drop at bs) + 4 < u64_mod)
plain_words bs h at le inside = rw (sym (drop-drop (at - 16) 16 at bs (omega arith))) (
    omega
      (arith, from_le_small 7 (drop (at - 16) (drop 16 bs)) (All-drop _ (at - 16) (drop 16 bs) h)))

-- On 16 bytes or more with, behind offset 16, no eight of them that read within 4 of 2^64,
-- `parse_pclntab_legacy` returns without a panic, and keeps the table of functions sorted and
-- without two of the same entry, with at most 1000 functions more.
pub parse_pclntab_legacy-IsIndexed :
    (bs : Bytes) (base n : ℕ) (t : Tables)
    → 16 ≤ length bs
    → All IsByte bs
    → ((at : ℕ) → 16 ≤ at → at + 8 ≤ length bs → from_le 8 (drop at bs) + 4 < u64_mod)
    → IsIndexed n t
    → Returns (parse_pclntab_legacy bs base t) (IsIndexed (n + 1000))
unfolding parse_pclntab_legacy pointer_size
parse_pclntab_legacy-IsIndexed bs base n t long bytes plain x =
    let magic = from_le 4 (drop 0 bs) in
    let (p, e) = guessed bs magic (from_le 1 (drop 6 bs)) (omega arith) in
    elim (Bool-cases (known_magic magic)) [
      | inr other ↦ rw (read_word-inside 4 bs 0 (omega arith), other) (x.0, x.1, omega (arith, x.2))
      | inl known ↦
          rw
            (read_word-inside 4 bs 0 (omega arith), known, read_word-inside 1 bs 6 (omega arith), e)
            (parse_with_size-IsIndexed bs magic p base n t (omega arith)
              (λ q at le inside.
                omega (arith, from_le-lt 4 (drop at bs) (All-drop IsByte at bs bytes)))
              (λ q. plain) x)
    ]
