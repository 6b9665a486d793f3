-- ===== src/Runtime/Process/Info.antt =====
-- What `parse_process` reports.
use golang_profiling.Base.{
  ℕ, zero, suc, ◌+◌, ◌-◌, ◌≤◌, ◌<◌, min, ◌≡◌, refl, sym, ap, ◌∙◌, inl, inr, ◌||◌, Option, none,
  some, List, [], ◌∷◌, ◌++◌, arith, ◌==◌, if◌then◌else◌, Bool-cases, Option-cases, length, take,
  drop, All,
}
use golang_profiling.Base.Bytes.{Bytes, u64_mod}
use golang_profiling.Base.Words.{add64}
use golang_profiling.Base.Text.{codes, contains}
use golang_profiling.Base.Utf8.{from_utf8}
use golang_profiling.Base.Lines.{lines, split_whitespace}
use golang_profiling.ObjectFile.{ObjectFile}
use golang_profiling.Runtime.Version.{extract_go_version}
use golang_profiling.Runtime.Process.{
  GoRuntimeInfo, zeros, empty_info, copy_version, set_version, find_func_table, set_func_table,
  parse_goroutine_offsets, start_address, relocate, update_line, update_lines,
  update_runtime_addresses, parse_object, parse_process,
}

-- The first address of a mapping of the heap or of a path with `/go/`, 0 for any other line.
abbrev pub mapped_address : Bytes → ℕ
mapped_address line =
    if contains (codes "[heap]") line || contains (codes "/go/") line
    then (elim (start_address (split_whitespace line)) [ none ↦ 0 | some addr ↦ addr ])
    else 0

unfoldable pub mapped_addresses : List Bytes → ℕ
mapped_addresses [] = 0
mapped_addresses (l ∷ ls) = mapped_address l + mapped_addresses ls

-- The address and the size of the function table, 0 where there is none.
abbrev pub table_of : Option (ℕ × ℕ) → ℕ × ℕ
table_of none = (0, 0)
table_of (some t) = t

-- The address `base` moved by `total`, and 0 kept.
abbrev pub moved : ℕ → ℕ → ℕ
moved base total = if base == 0 then 0 else base + total

-- The first 31 bytes, filled up with zeros, and a zero behind them.
abbrev pub in_32_bytes : Bytes → Bytes
in_32_bytes text = take 31 (text ++ zeros 31) ++ (0 ∷ [])

moved_zero : (base : ℕ) → base ≡ moved base 0
moved_zero base = ground arith

moved_sum : (base m n : ℕ) → moved (moved base m) n ≡ moved base (m + n)
moved_sum base m n = ground arith

update_line-moved :
    (line : Bytes) (info : GoRuntimeInfo)
    → info.func_tab_base + mapped_address line < u64_mod
    → update_line line info
      ≡ record info { func_tab_base = moved info.func_tab_base (mapped_address line) }
unfolding update_line relocate add64
update_line-moved line info h =
    elim (Bool-cases (contains (codes "[heap]") line || contains (codes "/go/") line)) [
      | inr e ↦ rw e (ap (λ b. record info { func_tab_base = b }) (moved_zero info.func_tab_base))
      | inl e ↦ elim (Option-cases (start_address (split_whitespace line))) [
        | inl q ↦
            rw (e, q) (ap (λ b. record info { func_tab_base = b }) (moved_zero info.func_tab_base))
        | inr (addr, q) ↦
            let small : info.func_tab_base + addr < u64_mod = rw (e, q) at h in
            rw (e, q) (ap (λ b. record info { func_tab_base = b }) (ground arith))
      ]
    ]

moved_small : (base m n : ℕ) → base + (m + n) < u64_mod → moved base m + n < u64_mod
moved_small base m n h = ground arith

-- Every line is UTF-8.
abbrev pub IsReadable : Bytes → Type 0
IsReadable content = All (λ l. from_utf8 l ≡ some l) (lines content)

update_lines-moved :
    (ls : List Bytes) (info : GoRuntimeInfo)
    → All (λ l. from_utf8 l ≡ some l) ls
    → info.func_tab_base + mapped_addresses ls < u64_mod
    → update_lines ls info
      ≡ some (record info { func_tab_base = moved info.func_tab_base (mapped_addresses ls) })
unfolding update_lines mapped_addresses
update_lines-moved [] info r h =
    ap (λ b. some (record info { func_tab_base = b })) (moved_zero info.func_tab_base)
update_lines-moved (l ∷ ls) info r h =
    rw (r.0, update_lines)
      (ap (update_lines ls) (update_line-moved l info (omega (arith, h)))
        ∙ update_lines-moved ls
            (record info { func_tab_base = moved info.func_tab_base (mapped_address l) }) r.1
            (moved_small info.func_tab_base (mapped_address l) (mapped_addresses ls) h)
        ∙ ap (λ b. some (record info { func_tab_base = b }))
            (moved_sum info.func_tab_base (mapped_address l) (mapped_addresses ls)))

drop-zeros : (k n : ℕ) → drop k (zeros n) ≡ zeros (n - k)
unfolding zeros
drop-zeros zero n = ap zeros (let e : n ≡ n - 0 = omega arith in e)
drop-zeros (suc k) zero = ap zeros (let e : 0 ≡ 0 - suc k = omega arith in e)
drop-zeros (suc k) (suc n) =
    drop-zeros k n ∙ ap zeros (let e : n - k ≡ suc n - suc k = omega arith in e)

take-zeros : (k n : ℕ) → k ≤ n → zeros (suc k) ≡ take k (zeros n) ++ (0 ∷ [])
unfolding zeros
take-zeros zero n h = refl
take-zeros (suc k) zero h = absurd (omega arith)
take-zeros (suc k) (suc n) h = ap (λ t. 0 ∷ t) (take-zeros k n (omega arith))

padded :
    (text : Bytes) (k n : ℕ)
    → k ≤ n
    → take (min (length text) k) text ++ zeros (suc k - min (length text) k)
      ≡ take k (text ++ zeros n) ++ (0 ∷ [])
padded [] k n h =
    let e : 0 ≡ min 0 k = omega arith in
    ap (λ m. take m [] ++ zeros (suc k - m)) (sym e)
    ∙ ap zeros (let q : suc k - 0 ≡ suc k = omega arith in q)
    ∙ take-zeros k n h
padded (b ∷ text) zero n h =
    let e : min (length (b ∷ text)) 0 ≡ 0 = omega arith in
    ap (λ m. take m (b ∷ text) ++ zeros (1 - m)) e ∙ (unfold zeros in refl)
padded (b ∷ text) (suc k) n h =
    let e : min (length (b ∷ text)) (suc k) ≡ suc (min (length text) k) = omega arith in
    ap (λ m. take m (b ∷ text) ++ zeros (suc (suc k) - m)) e
    ∙ ap (λ m. b ∷ (take (min (length text) k) text ++ zeros m))
        (let q : suc (suc k) - suc (min (length text) k) ≡ suc k - min (length text) k =
            omega arith in
          q)
    ∙ ap (λ t. b ∷ t) (padded text k n (omega arith))

copy_version-in_32_bytes : (text : Bytes) → copy_version text (zeros 32) ≡ in_32_bytes text
unfolding copy_version
copy_version-in_32_bytes text =
    ap (λ t. take (min (length text) 31) text ++ t) (drop-zeros (min (length text) 31) 32)
    ∙ padded text 31 31 (omega arith)

parse_goroutine_offsets-same :
    (version : Bytes) (info : GoRuntimeInfo)
    → parse_goroutine_offsets version info ≡ record info {
      g_offset = 0x30;
      stack_base_offset = 0x10;
      stack_size_offset = 0x18;
      pc_quantum = 1;
    }
unfolding parse_goroutine_offsets
parse_goroutine_offsets-same version info = ground arith

set_func_table-table_of :
    (t : Option (ℕ × ℕ)) (info : GoRuntimeInfo)
    → info.func_tab_base ≡ 0
    → info.func_tab_size ≡ 0
    → set_func_table t info
      ≡ record info { func_tab_base = (table_of t).0; func_tab_size = (table_of t).1 }
unfolding set_func_table
set_func_table-table_of none info b s =
    ap (λ n. record info { func_tab_base = n }) b
    ∙ ap (λ n. record info { func_tab_base = 0; func_tab_size = n }) s
set_func_table-table_of (some t) info b s = refl

-- For any text of mappings, in terms of the lines that are read.
pub parse_process-moved :
    (obj : ObjectFile) (content version : Bytes)
    → extract_go_version obj ≡ some version
    → IsReadable content
    → (table_of (find_func_table obj)).0 + mapped_addresses (lines content) < u64_mod
    → parse_process (some obj) (some content)
      ≡ some (record {
        version = in_32_bytes version;
        g_offset = 0x30;
        stack_base_offset = 0x10;
        stack_size_offset = 0x18;
        func_tab_base = moved (table_of (find_func_table obj)).0 (mapped_addresses (lines content));
        func_tab_size = (table_of (find_func_table obj)).1;
        pc_quantum = 1;
      })
unfolding parse_process parse_object update_runtime_addresses set_version
parse_process-moved obj content version e r h =
    let start_info = record empty_info { version = copy_version version (zeros 32) } in
    let with_table = record start_info {
      func_tab_base = (table_of (find_func_table obj)).0;
      func_tab_size = (table_of (find_func_table obj)).1;
    } in
    rw e (
      ap (λ i. update_lines (lines content) (parse_goroutine_offsets version i))
        (set_func_table-table_of (find_func_table obj) start_info refl refl)
      ∙ ap (update_lines (lines content)) (parse_goroutine_offsets-same version with_table)
      ∙ update_lines-moved (lines content) _ r h
      ∙ ap
          (λ v. some (record with_table {
            version = v;
            g_offset = 0x30;
            stack_base_offset = 0x10;
            stack_size_offset = 0x18;
            func_tab_base =
                moved (table_of (find_func_table obj)).0 (mapped_addresses (lines content));
          }))
          (copy_version-in_32_bytes version))
