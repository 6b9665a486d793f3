-- ===== src/Resolver/Load/Kallsyms.antt =====
-- `load_kernel_symbols` on the text that the kernel writes to `/proc/kallsyms`.
use golang_profiling.Base.{
  ℕ, zero, suc, ◌/◌, ◌%◌, ◌≤◌, ◌<◌, ◌≡◌, refl, sym, ap, ◌∙◌, Bool, false, ◌||◌, some, List, [], ◌∷◌,
  ◌++◌, arith, ◌==◌, if◌then◌else◌, is_empty, All,
}
use mathlib.Core.List.{append-nil}
use golang_profiling.Base.Bytes.{Bytes, u64_mod}
use golang_profiling.Base.AddrMap.{insert}
use golang_profiling.Base.Text.{bytes_eq}
use golang_profiling.Base.Lines.{lines, words_loop, split_whitespace}
use golang_profiling.Base.Lines.Words.{
  lines_nil, IsVisible, IsWord, IsLine, IsWord-IsLine, All-append, lines-line, words_loop-word,
  words_loop-space, words_loop-end,
}
use golang_profiling.Base.Radix.{hex_digit, hex_fixed, hex16, parse_hex-hex16}
use golang_profiling.Resolver.Resolve.{SymbolResolver}
use golang_profiling.Resolver.Load.{
  is_function_type, add_kernel_symbol, add_kernel_lines, load_kernel_symbols,
}

-- A symbol: its address, the letter of its type, and its name.
pub record KernelSymbol : Type 0 where
  pub address : ℕ
  pub letter : ℕ
  pub name : Bytes

abbrev pub IsKernelSymbol : KernelSymbol → Type 0
IsKernelSymbol k =
    (k.address < u64_mod) × IsVisible k.letter × (is_empty k.name ≡ false) × IsWord k.name

-- `%016lx %c %s`
unfoldable pub symbol_line : KernelSymbol → Bytes
symbol_line k = hex16 k.address ++ (32 ∷ (k.letter ∷ (32 ∷ k.name)))

unfoldable pub print_symbols : List KernelSymbol → Bytes
print_symbols [] = []
print_symbols (k ∷ ks) = symbol_line k ++ (10 ∷ print_symbols ks)

-- The letters of a function in the text section, and of a weak symbol.
abbrev pub is_function_letter : ℕ → Bool
is_function_letter c = c == b'T' || c == b't' || c == b'W' || c == b'w'

is_function_type-is_function_letter : (c : ℕ) → is_function_type (c ∷ []) ≡ is_function_letter c
unfolding is_function_type bytes_eq
is_function_type-is_function_letter c = ground arith

-- The symbols of functions, each over the one before it at its address.
unfoldable pub insert_functions : List KernelSymbol → List (ℕ × Bytes) → List (ℕ × Bytes)
insert_functions [] m = m
insert_functions (k ∷ ks) m =
    insert_functions ks (if is_function_letter k.letter then insert k.address k.name m else m)

hex_fixed-IsWord : (k n : ℕ) → IsWord (hex_fixed k n)
unfolding hex_fixed
hex_fixed-IsWord zero n = tt
hex_fixed-IsWord (suc k) n =
    All-append IsVisible (hex_fixed k (n / 16)) (hex_digit (n % 16) ∷ [])
      (hex_fixed-IsWord k (n / 16)) (unfold hex_digit in ((ground arith), tt))

hex16_not_empty : (n : ℕ) → is_empty (hex16 n) ≡ false
unfolding hex16 hex_fixed
hex16_not_empty n = refl

append_full : (s : Bytes) (b : ℕ) (t : Bytes) → is_empty (s ++ (b ∷ t)) ≡ false
append_full [] b t = refl
append_full (a ∷ s) b t = refl

symbol_line-IsLine : (k : KernelSymbol) → IsKernelSymbol k → IsLine (symbol_line k)
unfolding symbol_line hex16
symbol_line-IsLine k h =
    All-append (λ b. 32 ≤ b) (hex_fixed 16 k.address) _
      (IsWord-IsLine _ (hex_fixed-IsWord 16 k.address))
      (omega arith, (omega (arith, h.1), (omega arith, IsWord-IsLine k.name h.3)))

split_whitespace-symbol_line :
    (k : KernelSymbol)
    → IsKernelSymbol k
    → split_whitespace (symbol_line k) ≡ hex16 k.address ∷ ((k.letter ∷ []) ∷ (k.name ∷ []))
unfolding split_whitespace symbol_line
split_whitespace-symbol_line k h =
    words_loop-word (hex16 k.address) [] (32 ∷ (k.letter ∷ (32 ∷ k.name)))
      (unfold hex16 in hex_fixed-IsWord 16 k.address)
    ∙ words_loop-space (hex16 k.address) (k.letter ∷ (32 ∷ k.name)) (hex16_not_empty k.address)
    ∙ ap (λ t. hex16 k.address ∷ t)
        (words_loop-word (k.letter ∷ []) [] (32 ∷ k.name) (h.1, tt)
          ∙ words_loop-space (k.letter ∷ []) k.name refl
          ∙ ap (λ t. (k.letter ∷ []) ∷ t) last)
  where
    last : words_loop [] 0 k.name ≡ k.name ∷ []
    last =
        ap (words_loop [] 0) (sym (append-nil k.name))
        ∙ words_loop-word k.name [] [] h.3
        ∙ words_loop-end k.name h.2

add_kernel_symbol-symbol_line :
    (k : KernelSymbol) (m : List (ℕ × Bytes))
    → IsKernelSymbol k
    → add_kernel_symbol (split_whitespace (symbol_line k)) m
      ≡ (if is_function_letter k.letter then insert k.address k.name m else m)
unfolding add_kernel_symbol
add_kernel_symbol-symbol_line k m h =
    ap (λ w. add_kernel_symbol w m) (split_whitespace-symbol_line k h)
    ∙ rw
        (
          parse_hex-hex16 k.address h.0,
          is_function_type-is_function_letter k.letter,
          add_kernel_symbol,
        )
        refl

add_kernel_lines-print_symbols :
    (ks : List KernelSymbol) (m : List (ℕ × Bytes))
    → All IsKernelSymbol ks
    → add_kernel_lines (lines (print_symbols ks)) m ≡ insert_functions ks m
unfolding print_symbols insert_functions add_kernel_lines
add_kernel_lines-print_symbols [] m h = ap (λ ls. add_kernel_lines ls m) lines_nil
add_kernel_lines-print_symbols (k ∷ ks) m h =
    ap (λ ls. add_kernel_lines ls m)
      (lines-line (symbol_line k) (print_symbols ks) (symbol_line-IsLine k h.0))
    ∙ ap (add_kernel_lines (lines (print_symbols ks))) (add_kernel_symbol-symbol_line k m h.0)
    ∙ add_kernel_lines-print_symbols ks _ h.1

-- On a text of lines with a 64-bit address in 16 hexadecimal digits, the letter of a type, and a
-- name of visible ASCII characters, `load_kernel_symbols` adds each symbol of the types T, t, W
-- and w, a later one over an earlier one at its address, and no other.
pub load_kernel_symbols-print_symbols :
    (ks : List KernelSymbol) (r : SymbolResolver)
    → All IsKernelSymbol ks
    → load_kernel_symbols (some (print_symbols ks)) r
      ≡ record r { kernel_symbols = insert_functions ks r.kernel_symbols }
unfolding load_kernel_symbols
load_kernel_symbols-print_symbols ks r h =
    ap (λ (m : List (ℕ × Bytes)). record r { kernel_symbols = m })
      (add_kernel_lines-print_symbols ks r.kernel_symbols h)
