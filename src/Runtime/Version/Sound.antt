-- ===== src/Runtime/Version/Sound.antt =====
-- What a version that `extract_go_version` gives looks like.
use mathlib.Core.List.{append_assoc, append-nil}
use golang_profiling.Base.{
  ℕ, ◌≡◌, refl, sym, ◌∙◌, ◌⊎◌, inl, inr, true, Option, none, some, List, [], ◌∷◌, ◌++◌, arith, leb,
  ◌==◌, ==_iff, Bool-cases, Option-cases, length, drop,
}
use mathlib.Core.Path.{subst}
use golang_profiling.Base.Text.{begins_with-split, codes, begins_with, find, contains}
use golang_profiling.Base.Bytes.{Bytes}
use golang_profiling.Base.Utf8.{from_utf8_lossy}
use golang_profiling.Base.Lines.{lines, split_loop, split_at}
use golang_profiling.Base.Radix.{parse_u32}
use golang_profiling.ObjectFile.{Section, ObjectFile}
use golang_profiling.Runtime.Version.{
  is_number, numbered, is_valid_go_version, version_text, checked_version, version_in_line,
  first_version, version_in_lines, find_version_in_data, extract_build_info_version,
  version_in_section, version_in_sections, extract_go_version,
}

-- Nothing, or what begins with a dot.
abbrev pub IsSuffix : Bytes → Type 0
IsSuffix rest = (rest ≡ []) ⊎ ((more : Bytes) × (rest ≡ b'.' ∷ more))

-- `go1.`, two numbers with a dot between them, and a suffix.
abbrev pub IsGoVersion : Bytes → Type 0
IsGoVersion v =
    (major : Bytes) × (minor : Bytes) × (rest : Bytes) × (v
      ≡ codes "go1." ++ (major ++ (b'.' ∷ (minor ++ rest))))
    × ((m : ℕ) × (parse_u32 major ≡ some m))
    × ((n : ℕ) × (parse_u32 minor ≡ some n))
    × IsSuffix rest

-- The first part of a split, and the split of what follows it.
split_loop-parts :
    (c : ℕ) (bs part p : Bytes) (ps : List Bytes)
    → split_loop c part bs ≡ p ∷ ps
    → ((part ++ bs ≡ p) × (ps ≡ []))
      ⊎ ((rest : Bytes) × (part ++ bs ≡ p ++ (c ∷ rest)) × (split_loop c [] rest ≡ ps))
unfolding split_loop
split_loop-parts c [] part p ps h =
    let k : part ∷ [] ≡ p ∷ ps = h in
    inl (append-nil part ∙ (let q : part ≡ p = cc in q), (let q : ps ≡ [] = cc in q))
split_loop-parts c (b ∷ bs) part p ps h = elim (Bool-cases (b == c)) [
  | inl e ↦
      let k : part ∷ split_loop c [] bs ≡ p ∷ ps = rw e at h in
      let q : b ≡ c = (==_iff b c).0 e in
      let same : part ≡ p = cc in
      inr (bs, rw (q, same) refl, (let r : split_loop c [] bs ≡ ps = cc in r))
  | inr e ↦
      let k : split_loop c (part ++ (b ∷ [])) bs ≡ p ∷ ps = rw e at h in
      let whole : (part ++ (b ∷ [])) ++ bs ≡ part ++ (b ∷ bs) = append_assoc part (b ∷ []) bs in
      elim (split_loop-parts c bs (part ++ (b ∷ [])) p ps k) [
        | inl (q, n) ↦ inl (sym whole ∙ q, n)
        | inr (rest, q, r) ↦ inr (rest, sym whole ∙ q, r)
      ]
]

is_number-parse : (part : Bytes) → is_number part ≡ true → (n : ℕ) × (parse_u32 part ≡ some n)
is_number-parse part h = elim (Option-cases (parse_u32 part)) [
  | inl e ↦ absurd (ground (arith, e))
  | inr (n, e) ↦ (n, e)
]

numbered-IsGoVersion :
    (text : Bytes) → numbered (split_at b'.' text) ≡ true → IsGoVersion (codes "go1." ++ text)
unfolding numbered split_at
numbered-IsGoVersion text h = by_parts (split_loop b'.' [] text) refl h
  where
    by_parts :
        (parts : List Bytes)
        → split_loop b'.' [] text ≡ parts
        → numbered parts ≡ true
        → IsGoVersion (codes "go1." ++ text)
    by_parts [] e n = cc
    by_parts (major ∷ []) e n = cc
    by_parts (major ∷ (minor ∷ more)) e n =
        let m = is_number-parse major (ground arith) in
        let k = is_number-parse minor (ground arith) in
        elim (split_loop-parts b'.' text [] major (minor ∷ more) e) [
          | inl (q, r) ↦ cc
          | inr (rest, q, r) ↦ elim (split_loop-parts b'.' rest [] minor more r) [
            | inl (u, v) ↦ (major, minor, [], rw (q, u, append-nil) refl, m, k, inl refl)
            | inr (tail, u, v) ↦ (major, minor, b'.' ∷ tail, rw (q, u) refl, m, k, inr (tail, refl))
          ]
        ]

-- A version, if there is one.
abbrev pub Versioned : Option Bytes → Type 0
Versioned none = Unit
Versioned (some v) = IsGoVersion v

is_valid_go_version-IsGoVersion : (v : Bytes) → is_valid_go_version v ≡ true → IsGoVersion v
unfolding is_valid_go_version
is_valid_go_version-IsGoVersion v h = elim (Bool-cases (begins_with (codes "go1.") v)) [
  | inr e ↦ absurd (ground (arith, e))
  | inl e ↦
      subst IsGoVersion (sym (begins_with-split (codes "go1.") v e))
        (numbered-IsGoVersion (drop 4 v) (ground (arith, e)))
]

checked_version-Versioned : (o : Option Bytes) → Versioned (checked_version o)
unfolding checked_version
checked_version-Versioned none = tt
checked_version-Versioned (some v) = elim (Bool-cases (is_valid_go_version v)) [
  | inl e ↦ rw e (is_valid_go_version-IsGoVersion v e)
  | inr e ↦ rw e tt
]

version_in_line-Versioned : (line : Bytes) → Versioned (version_in_line line)
unfolding version_in_line
version_in_line-Versioned line = elim (Option-cases (find (codes "go1.") line)) [
  | inl e ↦ rw (e, Versioned) tt
  | inr (start, e) ↦ rw (e, Versioned) (checked_version-Versioned (version_text (drop start line)))
]

first_version-Versioned :
    (o p : Option Bytes) → Versioned o → Versioned p → Versioned (first_version o p)
first_version-Versioned none p h k = k
first_version-Versioned (some v) p h k = h

version_in_lines-Versioned : (ls : List Bytes) → Versioned (version_in_lines ls)
unfolding version_in_lines
version_in_lines-Versioned [] = tt
version_in_lines-Versioned (line ∷ ls) = elim (Bool-cases (contains (codes "go1.") line)) [
  | inl e ↦ rw e (
      first_version-Versioned (version_in_line line) (version_in_lines ls)
        (version_in_line-Versioned line) (version_in_lines-Versioned ls))
  | inr e ↦ rw e (version_in_lines-Versioned ls)
]

find_version_in_data-Versioned : (bs : Bytes) → Versioned (find_version_in_data bs)
unfolding find_version_in_data
find_version_in_data-Versioned bs = version_in_lines-Versioned (lines (from_utf8_lossy bs))

extract_build_info_version-Versioned :
    (obj : ObjectFile) → Versioned (extract_build_info_version obj)
unfolding extract_build_info_version
extract_build_info_version-Versioned obj =
    elim (Option-cases (obj.section_by_name (codes ".go.buildinfo"))) [
      | inl q ↦ rw (q, Versioned) tt
      | inr (section, q) ↦ elim (Option-cases section.contents) [
        | inl r ↦ rw (q, r, Versioned) tt
        | inr (bs, r) ↦ elim (Bool-cases (leb 32 (length bs))) [
          | inl e ↦
              rw (q, r, e, Versioned)
                (find_version_in_data-Versioned (from_utf8_lossy (drop 16 bs)))
          | inr e ↦ rw (q, r, e, Versioned) tt
        ]
      ]
    ]

version_in_section-Versioned : (s : Section) → Versioned (version_in_section s)
version_in_section-Versioned s = elim (Option-cases s.contents) [
  | inl e ↦ rw (e, Versioned) tt
  | inr (bs, e) ↦ rw e (find_version_in_data-Versioned bs)
]

version_in_sections-Versioned : (ss : List Section) → Versioned (version_in_sections ss)
unfolding version_in_sections
version_in_sections-Versioned [] = tt
version_in_sections-Versioned (s ∷ ss) =
    first_version-Versioned (version_in_section s) (version_in_sections ss)
      (version_in_section-Versioned s) (version_in_sections-Versioned ss)

-- `extract_go_version` always gives a version: the default `go1.21`, or `go1.` followed by two
-- 32-bit numbers with a dot between them and by nothing or a further dot and more.
pub extract_go_version-IsGoVersion :
    (obj : ObjectFile)
    → (v : Bytes) × (extract_go_version obj ≡ some v) × (IsGoVersion v ⊎ (v ≡ codes "go1.21"))
unfolding extract_go_version
extract_go_version-IsGoVersion obj = elim (Option-cases (version_in_sections obj.sections)) [
  | inr (v, e) ↦ (v, rw e refl, inl (rw e at (version_in_sections-Versioned obj.sections)))
  | inl none_found ↦ elim (Option-cases (extract_build_info_version obj)) [
    | inr (v, e) ↦
        (v, rw (none_found, e) refl, inl (rw e at (extract_build_info_version-Versioned obj)))
    | inl e ↦ (codes "go1.21", rw (none_found, e) refl, inr refl)
  ]
]
