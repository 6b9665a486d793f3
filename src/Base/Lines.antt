-- ===== src/Base/Lines.antt =====
-- `lines`, `split_whitespace` and `find(char::is_whitespace)` of the standard library's `str`.
pub mod Words
use golang_profiling.Base.{
  ℕ, zero, suc, ◌-◌, ◌&&◌, ◌||◌, Option, none, some, List, [], ◌∷◌, ◌++◌, leb, ◌==◌, if◌then◌else◌,
  is_empty,
}
use golang_profiling.Base.Bytes.{Bytes}

-- A carriage return before the end of the line goes with it.
unfoldable pub strip_return : Bytes → Bytes
strip_return [] = []
strip_return (b ∷ []) = if b == 13 then [] else b ∷ []
strip_return (b ∷ c ∷ bs) = b ∷ strip_return (c ∷ bs)

-- From the bytes of the line so far. What follows the last line feed is a line unless it is empty.
unfoldable pub lines_loop : Bytes → Bytes → List Bytes
lines_loop line [] = if is_empty line then [] else line ∷ []
lines_loop line (b ∷ bs) =
    let rest = lines_loop (if b == 10 then [] else line ++ (b ∷ [])) bs in
    if b == 10 then strip_return line ∷ rest else rest

unfoldable pub lines : Bytes → List Bytes
lines bs = lines_loop [] bs

-- The number of bytes of the white-space character that begins here, 0 if there is none. The
-- characters of several bytes are those of Unicode's `White_Space`.
unfoldable pub whitespace_length : Bytes → ℕ
whitespace_length [] = 0
whitespace_length (a ∷ bs) =
    if (leb 9 a && leb a 13) || a == 32
    then 1
    else if a == 0xc2
    then (elim bs [ [] ↦ 0 | b ∷ cs ↦ if b == 0x85 || b == 0xa0 then 2 else 0 ])
    else (elim bs [
      | [] ↦ 0
      | b ∷ [] ↦ 0
      | b ∷ (c ∷ ds) ↦
          if (a == 0xe1 && b == 0x9a && c == 0x80)
            || (a == 0xe2
                && b == 0x80
                && ((leb 0x80 c && leb c 0x8a) || c == 0xa8 || c == 0xa9 || c == 0xaf))
            || (a == 0xe2 && b == 0x81 && c == 0x9f)
            || (a == 0xe3 && b == 0x80 && c == 0x80)
          then 3
          else 0
    ])

unfoldable pub find_whitespace : Bytes → Option ℕ
find_whitespace [] = none
find_whitespace (b ∷ bs) =
    if whitespace_length (b ∷ bs) == 0
    then (elim (find_whitespace bs) [ none ↦ none | some n ↦ some (suc n) ])
    else some 0

-- The words, from the bytes of the word so far. `skip` bytes belong to a white-space character.
unfoldable pub words_loop : Bytes → ℕ → Bytes → List Bytes
words_loop word skip [] = if is_empty word then [] else word ∷ []
words_loop word (suc skip) (b ∷ bs) = words_loop word skip bs
words_loop word zero (b ∷ bs) =
    let n = whitespace_length (b ∷ bs) in
    let rest = words_loop (if n == 0 then word ++ (b ∷ []) else []) (n - 1) bs in
    if n == 0 || is_empty word then rest else word ∷ rest

unfoldable pub split_whitespace : Bytes → List Bytes
split_whitespace bs = words_loop [] 0 bs

-- `split` at one byte.
unfoldable pub split_loop : ℕ → Bytes → Bytes → List Bytes
split_loop c part [] = part ∷ []
split_loop c part (b ∷ bs) =
    let rest = split_loop c (if b == c then [] else part ++ (b ∷ [])) bs in
    if b == c then part ∷ rest else rest

unfoldable pub split_at : ℕ → Bytes → List Bytes
split_at c bs = split_loop c [] bs

-- `trim`: white space is taken away at both ends.
unfoldable pub trim_start : ℕ → Bytes → Bytes
trim_start skip [] = []
trim_start (suc skip) (b ∷ bs) = trim_start skip bs
trim_start zero (b ∷ bs) =
    let n = whitespace_length (b ∷ bs) in
    let rest = trim_start (n - 1) bs in if n == 0 then b ∷ bs else rest

-- From the white space that has been passed, which is kept if there is more text.
unfoldable pub trim_end : Bytes → ℕ → Bytes → Bytes
trim_end passed skip [] = []
trim_end passed (suc skip) (b ∷ bs) = trim_end (passed ++ (b ∷ [])) skip bs
trim_end passed zero (b ∷ bs) =
    let n = whitespace_length (b ∷ bs) in
    let rest = trim_end (if n == 0 then [] else passed ++ (b ∷ [])) (n - 1) bs in
    if n == 0 then passed ++ (b ∷ rest) else rest

unfoldable pub trim : Bytes → Bytes
trim bs = trim_end [] 0 (trim_start 0 bs)
