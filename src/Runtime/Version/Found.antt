-- ===== src/Runtime/Version/Found.antt =====
-- Where `find_version_in_data` finds a version.
use golang_profiling.Base.{
  ◌≤◌, ◌<◌, ◌≡◌, refl, ap, ◌∙◌, ◌≢◌, true, false, some, List, [], ◌∷◌, ◌++◌, arith, length, take,
  drop, All,
}
use golang_profiling.Base.Bytes.{Bytes}
use golang_profiling.Base.Text.{codes, begins_with, find, contains}
use golang_profiling.Base.Utf8.{from_utf8_lossy_ascii}
use golang_profiling.Base.Lines.{lines, find_whitespace, whitespace_length}
use golang_profiling.Base.Lines.Words.{
  IsWord, IsLine, IsWord-IsLine, All-append, lines-line, visible_length,
}
use golang_profiling.Runtime.Version.{
  is_valid_go_version, version_text, checked_version, version_in_line, version_in_lines,
  find_version_in_data,
}

-- The lines, each with a line feed, and the rest.
unfoldable pub text_of : List Bytes → Bytes → Bytes
text_of [] rest = rest
text_of (l ∷ ls) rest = l ++ (10 ∷ text_of ls rest)

-- A line without the mark of a version.
abbrev pub IsUnmarked : Bytes → Type 0
IsUnmarked l = IsLine l × (contains (codes "go1.") l ≡ false)

begins_with-append : (p s t : Bytes) → begins_with p s ≡ true → begins_with p (s ++ t) ≡ true
unfolding begins_with
begins_with-append [] s t h = refl
begins_with-append (a ∷ p) [] t h = cc
begins_with-append (a ∷ p) (b ∷ s) t h = ground (arith, begins_with-append p s t (ground arith))

find-append :
    (before s : Bytes)
    → All (λ b. b ≢ b'g') before
    → begins_with (codes "go1.") s ≡ true
    → find (codes "go1.") (before ++ s) ≡ some (length before)
unfolding find
find-append [] [] h k = absurd (unfold begins_with in cc)
find-append [] (b ∷ s) h k = rw k refl
find-append (b ∷ before) s h k =
    let other : begins_with (codes "go1.") (b ∷ (before ++ s)) ≡ false =
      unfold begins_with in ground (arith, h.0) in
    rw (other, find-append before s h.1 k) refl

find_whitespace-append :
    (w rest : Bytes) → IsWord w → find_whitespace (w ++ (32 ∷ rest)) ≡ some (length w)
unfolding find_whitespace
find_whitespace-append [] rest h = unfold whitespace_length in refl
find_whitespace-append (b ∷ w) rest h =
    rw (visible_length b (w ++ (32 ∷ rest)) h.0, find_whitespace-append w rest h.1) refl

take-append : (s t : Bytes) → take (length s) (s ++ t) ≡ s
take-append [] t = refl
take-append (b ∷ s) t = ap (λ u. b ∷ u) (take-append s t)

drop-length : (s t : Bytes) → drop (length s) (s ++ t) ≡ t
drop-length [] t = refl
drop-length (b ∷ s) t = drop-length s t

version_text-append : (v after : Bytes) → IsWord v → version_text (v ++ (32 ∷ after)) ≡ some v
unfolding version_text
version_text-append v after word =
    rw (find_whitespace-append v after word, version_text) (ap some (take-append v (32 ∷ after)))

begins_with-valid : (v : Bytes) → is_valid_go_version v ≡ true → begins_with (codes "go1.") v ≡ true
unfolding is_valid_go_version
begins_with-valid v h = ground (arith, h)

module _ (before v after : Bytes) (clean : All (λ b. b ≢ b'g') before) (word : IsWord v)
    (valid : is_valid_go_version v ≡ true) where
  found : find (codes "go1.") (before ++ (v ++ (32 ∷ after))) ≡ some (length before)
  found =
      find-append before (v ++ (32 ∷ after)) clean
        (begins_with-append (codes "go1.") v (32 ∷ after) (begins_with-valid v valid))

  version_in_line-append : version_in_line (before ++ (v ++ (32 ∷ after))) ≡ some v
  unfolding version_in_line
  version_in_line-append =
      rw (found, version_in_line)
        (ap (λ t. checked_version (version_text t)) (drop-length before (v ++ (32 ∷ after)))
          ∙ ap checked_version (version_text-append v after word)
          ∙ (unfold checked_version in rw valid refl))

version_in_lines-text_of :
    (ls : List Bytes) (rest v : Bytes)
    → All IsUnmarked ls
    → version_in_lines (lines rest) ≡ some v
    → version_in_lines (lines (text_of ls rest)) ≡ some v
unfolding text_of version_in_lines
version_in_lines-text_of [] rest v h k = k
version_in_lines-text_of (l ∷ ls) rest v h k =
    ap version_in_lines (lines-line l (text_of ls rest) h.0.0)
    ∙ rw (h.0.1) (version_in_lines-text_of ls rest v h.1 k)

-- In ASCII data, behind lines without `go1.`, where a line consists of text without a `g`, a word
-- that is a valid version, a space and more text, `find_version_in_data` finds this version,
-- whatever follows.
pub find_version_in_data-text_of :
    (ls : List Bytes) (before v after rest : Bytes)
    → All (λ b. b < 0x80) (text_of ls ((before ++ (v ++ (32 ∷ after))) ++ (10 ∷ rest)))
    → All IsUnmarked ls
    → IsLine before
    → All (λ b. b ≢ b'g') before
    → IsWord v
    → is_valid_go_version v ≡ true
    → IsLine after
    → find_version_in_data (text_of ls ((before ++ (v ++ (32 ∷ after))) ++ (10 ∷ rest))) ≡ some v
unfolding find_version_in_data version_in_lines
find_version_in_data-text_of ls before v after rest ascii unmarked line clean word valid behind =
    let whole : IsLine (before ++ (v ++ (32 ∷ after))) =
      All-append (λ b. 32 ≤ b) before (v ++ (32 ∷ after)) line
        (All-append (λ b. 32 ≤ b) v (32 ∷ after) (IsWord-IsLine v word) (omega arith, behind)) in
    let hit : contains (codes "go1.") (before ++ (v ++ (32 ∷ after))) ≡ true =
      unfold contains in rw (found before v after clean word valid) refl in
    ap (λ t. version_in_lines (lines t)) (from_utf8_lossy_ascii _ ascii)
    ∙ version_in_lines-text_of ls _ v unmarked (
        ap version_in_lines (lines-line (before ++ (v ++ (32 ∷ after))) rest whole)
        ∙ rw (hit, version_in_line-append before v after clean word valid) refl)
