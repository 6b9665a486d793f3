-- ===== src/Resolver/Legacy.antt =====
-- `parse_pclntab_legacy` of symbol_resolver.rs: the older reader of the function table, on the bytes
-- that `parse_pclntab` hands over, which are 16 at least, so its error for fewer than 12 is not there.
pub mod Safe
pub mod Indexed
use golang_profiling.Base.{
  ℕ, zero, suc, ◌+◌, ◌-◌, ◌*◌, ◌/◌, min, max, Bool, true, false, not, ◌&&◌, ◌||◌, List, [], ◌∷◌,
  ◌++◌, ltb, leb, ◌==◌, if◌then◌else◌, length, take, drop,
}
use golang_profiling.Base.Bytes.{Bytes, to_le}
use golang_profiling.Base.Words.{add64}
use golang_profiling.Base.Run.{Run, done, ◌>>=◌}
use golang_profiling.Base.Text.{codes, contains}
use golang_profiling.Base.Utf8.{from_utf8_lossy}
use golang_profiling.Base.Sort.{sort_by_key}
use golang_profiling.Pclntab.Table.{read_word}
use golang_profiling.Resolver.FuncTable.{FuncInfo}
use golang_profiling.Resolver.Names.{before_zero}

unfoldable pub known_magic : ℕ → Bool
known_magic magic = magic == 0xfffffffb || magic == 0xfffffff1 || magic == 0xfffffff0

-- For the magic number 0xfffffff1 the size is 8 where bytes 8 to 11 look like a count of functions.
unfoldable pub guess_pointer_size : Bytes → ℕ → ℕ → Run ℕ
guess_pointer_size bs magic ptrsize =
    if magic == 0xfffffff1 && leb 16 (length bs)
    then (do n ← read_word 4 bs 8; done (if ltb 0 n && ltb n 100000 then 8 else ptrsize))
    else done ptrsize

-- Byte 6, or the guess.
unfoldable pub pointer_size : Bytes → ℕ → Run ℕ
pointer_size bs magic = do ptrsize ← read_word 1 bs 6; guess_pointer_size bs magic ptrsize

-- `b >= 32 && b <= 126`
abbrev pub is_printable : ℕ → Bool
is_printable b = leb 32 b && leb b 126

unfoldable pub count_printable : Bytes → ℕ
count_printable [] = 0
count_printable (b ∷ bs) = (if is_printable b then 1 else 0) + count_printable bs

-- The first eight bytes of the two numbers, which are those of the first.
unfoldable pub is_likely_string : ℕ → ℕ → Bool
is_likely_string entry funcoff = leb 6 (count_printable (take 8 (to_le 8 entry ++ to_le 8 funcoff)))

unfoldable pub is_entry : ℕ → Bool
is_entry entry = ltb 0 entry && ltb entry 0x1000_0000

-- The first pass, `n` rounds at most: the entries, made absolute, with their offsets. The offset stays
-- below the length by the test, so it does not wrap around.
unfoldable pub collect_entries : ℕ → ℕ → ℕ → Bytes → ℕ → ℕ → Run (List (ℕ × ℕ))
collect_entries zero ptrsize base bs offset consecutive_invalid = done []
collect_entries (suc n) ptrsize base bs offset consecutive_invalid =
    let again = λ (invalid : ℕ). collect_entries n ptrsize base bs (offset + ptrsize * 2) invalid in
    if ltb (length bs) (offset + ptrsize * 2)
    then done []
    else read_word ptrsize bs offset >>= λ entry.
        read_word ptrsize bs (offset + ptrsize) >>= λ funcoff.
        elim (is_likely_string entry funcoff) [
          | true ↦ done []
          | false ↦ elim (is_entry entry) [
            | true ↦ again 0 >>= λ rest. done ((add64 entry base, funcoff) ∷ rest)
            | false ↦ elim (leb 3 (consecutive_invalid + 1)) [
              | true ↦ done []
              | false ↦ again (consecutive_invalid + 1)
            ]
          ]
        ]

-- `is_ascii_alphabetic`
unfoldable pub is_alphabetic : ℕ → Bool
is_alphabetic b = (leb b'A' b && leb b b'Z') || (leb b'a' b && leb b b'z')

-- Whether a Go name seems to begin here.
unfoldable pub looks_like_name : Bytes → Bool
looks_like_name [] = false
looks_like_name (b ∷ bs) =
    let name = from_utf8_lossy (before_zero (b ∷ bs)) in
    not (b == 0)
    && is_alphabetic b
    && ltb 3 (length name)
    && (contains (codes "main") name
        || contains (codes "runtime") name
        || contains (codes "internal") name
        || contains (codes ".") name
        || contains (codes "/") name)

-- `while string_table_start < data.len() - 10`: how many bytes the loop goes on by.
unfoldable pub skip_to_name : Bytes → ℕ
skip_to_name [] = 0
skip_to_name (b ∷ bs) =
    let further = suc (skip_to_name bs) in
    if ltb 10 (length (b ∷ bs)) && not (looks_like_name (b ∷ bs)) then further else 0

unfoldable pub string_table_start : Bytes → ℕ → ℕ → ℕ
string_table_start bs magic functab_end =
    let start = if magic == 0xfffffff1 then max functab_end (length bs / 10) else functab_end in
    start + skip_to_name (drop start bs)

-- The string table is replaced, unless its start is the end of the bytes.
unfoldable pub find_string_table : Bytes → ℕ → ℕ → Bytes → Bytes
find_string_table bs magic functab_end string_table =
    let start = string_table_start bs magic functab_end in
    if ltb start (length bs) then drop start bs else string_table

unfoldable pub relative_offset : Bytes → ℕ → ℕ
relative_offset bs funcoff =
    if ltb funcoff (length bs)
    then funcoff
    else if ltb 0x40_0000 funcoff && ltb funcoff 0x50_0000
    then funcoff - 0x40_0000
    else funcoff

-- The offset of a function's name, 0 where it cannot be read.
unfoldable pub read_name_off : Bytes → ℕ → Run ℕ
read_name_off bs funcoff =
    let offset = relative_offset bs funcoff in
    if ltb 0 funcoff && ltb (add64 offset 4) (length bs) then read_word 4 bs offset else done 0

unfoldable pub has_entry : ℕ → List FuncInfo → Bool
has_entry entry [] = false
has_entry entry (f ∷ table) = f.entry == entry || has_entry entry table

-- A function is added behind the table, unless there is one with its entry.
unfoldable pub push_function : List FuncInfo → FuncInfo → List FuncInfo
push_function table func = if has_entry func.entry table then table else table ++ (func ∷ [])

-- The second pass.
unfoldable pub add_functions : Bytes → List (ℕ × ℕ) → List FuncInfo → Run (List FuncInfo)
add_functions bs [] table = done table
add_functions bs ((entry, funcoff) ∷ entries) table = do
  name_off ← read_name_off bs funcoff
  add_functions bs entries
      (push_function table (record { entry = entry; name_off = name_off; file_off = 0; line = 0 }))

-- What the parser sets, from what there was: the table of functions and the table of strings.
pub record Tables : Type 0 where
  pub func_table : List FuncInfo
  pub string_table : Bytes

-- Both passes, for a known magic number and a pointer size of 4 or 8.
unfoldable pub parse_functions : Bytes → ℕ → ℕ → ℕ → Tables → Run Tables
parse_functions bs magic ptrsize base t = do
  nfunctab ← read_word 4 bs 8
  entries ← collect_entries (min nfunctab 1000) ptrsize base bs (8 + ptrsize) 0
  functions ← add_functions bs entries t.func_table
  done (record {
    func_table = sort_by_key (λ f. f.entry) functions;
    string_table =
        find_string_table bs magic (8 + ptrsize + length entries * ptrsize * 2) t.string_table;
  })

-- An unknown pointer size leaves everything as it is; it is no error.
unfoldable pub parse_with_size : Bytes → ℕ → ℕ → Tables → ℕ → Run Tables
parse_with_size bs magic base t ptrsize =
    if not (ptrsize == 4) && not (ptrsize == 8)
    then done t
    else parse_functions bs magic ptrsize base t

-- Nor is an unknown magic number.
unfoldable pub parse_pclntab_legacy : Bytes → ℕ → Tables → Run Tables
parse_pclntab_legacy bs base t = read_word 4 bs 0 >>= λ magic.
    if not (known_magic magic)
    then done t
    else (pointer_size bs magic >>= λ ptrsize. parse_with_size bs magic base t ptrsize)
