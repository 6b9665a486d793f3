-- ===== src/Base/Lines/Words.antt =====
-- Lines and words of ASCII text, read back.
use golang_profiling.Base.{
  ℕ, ◌≤◌, ◌<◌, ◌≡◌, refl, ap, ◌∙◌, Bool, true, false, ◌&&◌, List, [], ◌∷◌, ◌++◌, arith, ltb, leb,
  ◌==◌, is_empty, All,
}
use mathlib.Core.List.{append_assoc, append-nil}
use golang_profiling.Base.Bytes.{Bytes}
use golang_profiling.Base.Lines.{strip_return, lines_loop, lines, whitespace_length, words_loop}

-- Visible ASCII characters, and those with the space.
abbrev pub IsVisible : ℕ → Type 0
IsVisible b = (33 ≤ b) × (b < 128)

abbrev pub IsWord : Bytes → Type 0
IsWord w = All IsVisible w

abbrev pub IsLine : Bytes → Type 0
IsLine l = All (λ b. 32 ≤ b) l

pub IsWord-IsLine : (w : Bytes) → IsWord w → IsLine w
IsWord-IsLine [] h = tt
IsWord-IsLine (b ∷ w) h = (omega (arith, h.0), IsWord-IsLine w h.1)

pub All-append {ℓ κ} :
    {A : Type ℓ} (P : A → Type κ) (xs ys : List A) → All P xs → All P ys → All P (xs ++ ys)
All-append P [] ys h k = k
All-append P (x ∷ xs) ys h k = (h.0, All-append P xs ys h.1 k)

strip_return-line : (l : Bytes) → IsLine l → strip_return l ≡ l
unfolding strip_return
strip_return-line [] h = refl
strip_return-line (b ∷ []) h = ground (arith, h.0)
strip_return-line (b ∷ c ∷ l) h = ap (λ t. b ∷ t) (strip_return-line (c ∷ l) h.1)

lines_loop-line :
    (l acc rest : Bytes)
    → IsLine l
    → lines_loop acc (l ++ (10 ∷ rest)) ≡ strip_return (acc ++ l) ∷ lines_loop [] rest
unfolding lines_loop
lines_loop-line [] acc rest h = rw append-nil
lines_loop-line (b ∷ l) acc rest h =
    let e : (b == 10) ≡ false = ground (arith, h.0) in
    rw e (
      lines_loop-line l (acc ++ (b ∷ [])) rest h.1
      ∙ ap (λ t. strip_return t ∷ lines_loop [] rest) (append_assoc acc (b ∷ []) l))

pub lines-line : (l rest : Bytes) → IsLine l → lines (l ++ (10 ∷ rest)) ≡ l ∷ lines rest
unfolding lines
lines-line l rest h =
    lines_loop-line l [] rest h ∙ ap (λ t. t ∷ lines_loop [] rest) (strip_return-line l h)

pub visible_length : (b : ℕ) (bs : Bytes) → IsVisible b → whitespace_length (b ∷ bs) ≡ 0
unfolding whitespace_length
visible_length b [] h = ground arith
visible_length b (c ∷ []) h = ground arith
visible_length b (c ∷ d ∷ bs) h =
    let p : (b == 0xe1) ≡ false = ground arith in
    let q : (b == 0xe2) ≡ false = ground arith in
    let r : (b == 0xe3) ≡ false = ground arith in rw (p, q, r) (ground arith)

pub words_loop-word :
    (w word rest : Bytes) → IsWord w → words_loop word 0 (w ++ rest) ≡ words_loop (word ++ w) 0 rest
unfolding words_loop
words_loop-word [] word rest h = rw append-nil
words_loop-word (b ∷ w) word rest h =
    rw (visible_length b (w ++ rest) h.0)
      (words_loop-word w (word ++ (b ∷ [])) rest h.1 ∙ rw append_assoc)

pub words_loop-space :
    (word rest : Bytes)
    → is_empty word ≡ false
    → words_loop word 0 (32 ∷ rest) ≡ word ∷ words_loop [] 0 rest
unfolding words_loop whitespace_length
words_loop-space word rest h = rw h refl

pub words_loop-end : (word : Bytes) → is_empty word ≡ false → words_loop word 0 [] ≡ word ∷ []
unfolding words_loop
words_loop-end word h = rw h refl

pub lines_nil : lines [] ≡ []
unfolding lines lines_loop
lines_nil = refl

-- Tests for texts that are written out.
unfoldable pub all_below : ℕ → Bytes → Bool
all_below n [] = true
all_below n (b ∷ bs) = ltb b n && all_below n bs

pub below : (n : ℕ) (bs : Bytes) → all_below n bs ≡ true → All (λ b. b < n) bs
unfolding all_below
below n [] h = tt
below n (b ∷ bs) h = (ground arith, below n bs (ground arith))

unfoldable pub all_visible : Bytes → Bool
all_visible [] = true
all_visible (b ∷ bs) = leb 33 b && ltb b 128 && all_visible bs

pub word : (bs : Bytes) → all_visible bs ≡ true → IsWord bs
unfolding all_visible
word [] h = tt
word (b ∷ bs) h = ((ground arith, ground arith), word bs (ground arith))
