-- ===== src/Command/Pid.antt =====
-- The process that `pgrep` finds.
use golang_profiling.Base.{
  ℕ, zero, suc, ◌-◌, ◌<◌, ◌≡◌, refl, ap, ◌∙◌, ◌⊎◌, inl, inr, true, false, some, List, [], ◌∷◌, ◌++◌,
  arith, ◌==◌, Bool-cases, is_empty, All,
}
use mathlib.Core.List.{append-nil, append_assoc}
use golang_profiling.Base.Bytes.{Bytes, u32_mod}
use golang_profiling.Base.Text.{decimal}
use golang_profiling.Base.Utf8.{from_utf8_ascii}
use golang_profiling.Base.Lines.{lines, lines_loop, trim_start, trim_end, trim, whitespace_length}
use golang_profiling.Base.Lines.Words.{
  IsWord, IsLine, IsWord-IsLine, All-append, lines-line, visible_length,
}
use golang_profiling.Base.Radix.Decimal.{
  decimal-IsDigits, decimal_full, IsDigits-IsWord, parse_u32-decimal,
}
use golang_profiling.Command.{first_line, parse_pid, find_process_by_name}

-- One number in each line, as `pgrep` writes them.
unfoldable pub print_pids : List ℕ → Bytes
print_pids [] = []
print_pids (pid ∷ pids) = decimal pid ++ (10 ∷ print_pids pids)

decimal-IsWord : (n : ℕ) → IsWord (decimal n)
decimal-IsWord n = IsDigits-IsWord (decimal n) (decimal-IsDigits n)

IsWord-ascii : (w : Bytes) → IsWord w → All (λ b. b < 0x80) w
IsWord-ascii [] h = tt
IsWord-ascii (b ∷ w) h = (omega (arith, h.0), IsWord-ascii w h.1)

print_pids-ascii : (pids : List ℕ) → All (λ b. b < 0x80) (print_pids pids)
unfolding print_pids
print_pids-ascii [] = tt
print_pids-ascii (pid ∷ pids) =
    All-append (λ b. b < 0x80) (decimal pid) (10 ∷ print_pids pids)
      (IsWord-ascii (decimal pid) (decimal-IsWord pid)) (omega arith, print_pids-ascii pids)

trim_start-word :
    (w rest : Bytes) → IsWord w → is_empty w ≡ false → trim_start 0 (w ++ rest) ≡ w ++ rest
unfolding trim_start
trim_start-word [] rest h e = cc
trim_start-word (b ∷ w) rest h e = rw (visible_length b (w ++ rest) h.0) refl

trim_end-word : (w rest : Bytes) → IsWord w → trim_end [] 0 (w ++ rest) ≡ w ++ trim_end [] 0 rest
unfolding trim_end
trim_end-word [] rest h = refl
trim_end-word (b ∷ w) rest h =
    rw (visible_length b (w ++ rest) h.0) (ap (λ t. b ∷ t) (trim_end-word w rest h.1))

longer :
    (passed : Bytes) (b : ℕ) {s : Bytes}
    → (s ≡ []) ⊎ ((t : Bytes) × (s ≡ (passed ++ (b ∷ [])) ++ t))
    → (s ≡ []) ⊎ ((t : Bytes) × (s ≡ passed ++ t))
longer passed b (inl e) = inl e
longer passed b (inr (t, e)) = inr (b ∷ t, e ∙ append_assoc passed (b ∷ []) t)

-- What is left begins with the white space that was passed, if anything is left.
trim_end-cases :
    (bs passed : Bytes) (skip : ℕ)
    → (trim_end passed skip bs ≡ []) ⊎ ((t : Bytes) × (trim_end passed skip bs ≡ passed ++ t))
unfolding trim_end
trim_end-cases [] passed skip = inl refl
trim_end-cases (b ∷ bs) passed (suc skip) =
    longer passed b (trim_end-cases bs (passed ++ (b ∷ [])) skip)
trim_end-cases (b ∷ bs) passed zero =
    let n = whitespace_length (b ∷ bs) in
    elim (Bool-cases (n == 0)) [
      | inl e ↦ rw e (inr (b ∷ trim_end [] (n - 1) bs, refl))
      | inr e ↦ rw e (longer passed b (trim_end-cases bs (passed ++ (b ∷ [])) (n - 1)))
    ]

lines_loop-rest :
    (l acc : Bytes) → IsLine l → is_empty (acc ++ l) ≡ false → lines_loop acc l ≡ (acc ++ l) ∷ []
unfolding lines_loop
lines_loop-rest [] acc h e =
    let q : is_empty acc ≡ false = rw append-nil at e in rw (q, append-nil) refl
lines_loop-rest (b ∷ l) acc h e =
    let q : (b == 10) ≡ false = ground (arith, h.0) in
    let r : (acc ++ (b ∷ [])) ++ l ≡ acc ++ (b ∷ l) = append_assoc acc (b ∷ []) l in
    rw q (lines_loop-rest l (acc ++ (b ∷ [])) h.1 (rw r e) ∙ ap (λ t. t ∷ []) r)

passed_feed : (rest : Bytes) → trim_end [] 0 (10 ∷ rest) ≡ trim_end (10 ∷ []) 0 rest
unfolding trim_end whitespace_length
passed_feed rest = refl

lines-rest : (l : Bytes) → IsLine l → is_empty l ≡ false → lines l ≡ l ∷ []
unfolding lines
lines-rest l h e = lines_loop-rest l [] h e

-- The first line is the first word.
first_line-trim :
    (w rest : Bytes)
    → IsWord w
    → is_empty w ≡ false
    → first_line (lines (trim (w ++ (10 ∷ rest)))) ≡ some w
unfolding trim first_line
first_line-trim w rest h e =
    rw (trim_start-word w (10 ∷ rest) h e, trim_end-word w (10 ∷ rest) h)
      (elim (trim_end-cases rest (10 ∷ []) 0) [
        | inl q ↦
            ap (λ t. first_line (lines (w ++ t))) (passed_feed rest ∙ q)
            ∙ ap (λ t. first_line (lines t)) (append-nil w)
            ∙ ap first_line (lines-rest w (IsWord-IsLine w h) e)
        | inr (t, q) ↦
            ap (λ t. first_line (lines (w ++ t))) (passed_feed rest ∙ q)
            ∙ ap first_line (lines-line w t (IsWord-IsLine w h))
      ])

-- On the output of a successful `pgrep`, one number below 2^32 in decimal in the first line and
-- any numbers in the lines behind it, `find_process_by_name` returns the first number.
pub find_process_by_name-print_pids :
    (pid : ℕ) (pids : List ℕ)
    → pid < u32_mod
    → find_process_by_name (some (record { success = true; stdout = print_pids (pid ∷ pids) }))
      ≡ some pid
unfolding find_process_by_name parse_pid print_pids
find_process_by_name-print_pids pid pids h =
    rw
      (
        from_utf8_ascii (print_pids (pid ∷ pids)) (print_pids-ascii (pid ∷ pids)),
        parse_pid,
        first_line-trim (decimal pid) (print_pids pids) (decimal-IsWord pid) (decimal_full pid),
      )
      (parse_u32-decimal pid h)
