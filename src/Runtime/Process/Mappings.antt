-- ===== src/Runtime/Process/Mappings.antt =====
-- `parse_process` on the text that the kernel writes to `/proc/<pid>/maps`.
use golang_profiling.Base.{
  ℕ, zero, suc, ◌+◌, ◌/◌, ◌%◌, ◌^◌, ◌≤◌, ◌<◌, ◌≡◌, refl, ap, ◌∙◌, ◌≢◌, false, ◌||◌, some, List, [],
  ◌∷◌, ◌++◌, arith, ◌==◌, if◌then◌else◌, length, take, is_empty, All,
}
use golang_profiling.Base.Bytes.{Bytes, u64_mod}
use golang_profiling.Base.Text.{codes, contains, find, begins_with}
use golang_profiling.Base.Utf8.{from_utf8}
use golang_profiling.Base.Lines.{lines, words_loop, split_whitespace}
use golang_profiling.Base.Lines.Words.{
  lines_nil, lines-line, IsVisible, IsWord, IsLine, IsWord-IsLine, All-append, words_loop-word,
  words_loop-space,
}
use golang_profiling.Base.Radix.{hex_digit, hex_fixed, parse_hex, parse_hex-hex_fixed}
use golang_profiling.ObjectFile.{Section, ObjectFile}
use golang_profiling.Runtime.Version.{extract_go_version}
use golang_profiling.Runtime.Process.{find_func_table, start_address, parse_process}
use golang_profiling.Runtime.Process.Info.{
  mapped_address, mapped_addresses, in_32_bytes, IsReadable, parse_process-moved,
}

-- A mapping: its first address and the one behind its last, the number of digits less one that both are
-- written with, and the rest of the line: permissions, offset, device, inode and path.
pub record Mapping : Type 0 where
  pub digits : ℕ
  pub start : ℕ
  pub end : ℕ
  pub rest : Bytes

-- `%lx-%lx`, filled up with zeros
unfoldable pub address_range : Mapping → Bytes
address_range m = hex_fixed (suc m.digits) m.start ++ (45 ∷ hex_fixed (suc m.digits) m.end)

unfoldable pub mapping_line : Mapping → Bytes
mapping_line m = address_range m ++ (32 ∷ m.rest)

unfoldable pub print_mappings : List Mapping → Bytes
print_mappings [] = []
print_mappings (m ∷ ms) = mapping_line m ++ (10 ∷ print_mappings ms)

-- The first address can be written with these digits, and the line is one line of UTF-8.
abbrev pub IsMapping : Mapping → Type 0
IsMapping m =
    (m.start < 16 ^ suc m.digits)
    × (m.start < u64_mod)
    × IsLine m.rest
    × (from_utf8 (mapping_line m) ≡ some (mapping_line m))

-- The first addresses of the mappings of the heap and of paths with `/go/`.
unfoldable pub sum_addresses : List Mapping → ℕ
sum_addresses [] = 0
sum_addresses (m ∷ ms) =
    (if contains (codes "[heap]") (mapping_line m) || contains (codes "/go/") (mapping_line m)
      then m.start
      else 0)
    + sum_addresses ms

hex_fixed-IsWord : (k n : ℕ) → IsWord (hex_fixed k n)
unfolding hex_fixed
hex_fixed-IsWord zero n = tt
hex_fixed-IsWord (suc k) n =
    All-append IsVisible (hex_fixed k (n / 16)) (hex_digit (n % 16) ∷ [])
      (hex_fixed-IsWord k (n / 16)) (unfold hex_digit in ((ground arith), tt))

hex_fixed-dashless : (k n : ℕ) → All (λ b. b ≢ 45) (hex_fixed k n)
unfolding hex_fixed
hex_fixed-dashless zero n = tt
hex_fixed-dashless (suc k) n =
    All-append (λ b. b ≢ 45) (hex_fixed k (n / 16)) (hex_digit (n % 16) ∷ [])
      (hex_fixed-dashless k (n / 16)) (unfold hex_digit in ((λ e. ground arith), tt))

address_range-IsWord : (m : Mapping) → IsWord (address_range m)
unfolding address_range
address_range-IsWord m =
    All-append IsVisible (hex_fixed (suc m.digits) m.start) _
      (hex_fixed-IsWord (suc m.digits) m.start)
      ((omega arith, omega arith), hex_fixed-IsWord (suc m.digits) m.end)

full : (s : Bytes) (b : ℕ) (t : Bytes) → is_empty (s ++ (b ∷ t)) ≡ false
full [] b t = refl
full (a ∷ s) b t = refl

find-dash : (s t : Bytes) → All (λ b. b ≢ 45) s → find (codes "-") (s ++ (45 ∷ t)) ≡ some (length s)
unfolding find begins_with
find-dash [] t h = refl
find-dash (b ∷ s) t h =
    let other : (b == 45) ≡ false = ground (arith, h.0) in rw (other, find-dash s t h.1) refl

take-front : (s t : Bytes) → take (length s) (s ++ t) ≡ s
take-front [] t = refl
take-front (b ∷ s) t = ap (λ u. b ∷ u) (take-front s t)

start_address-address_range :
    (m : Mapping) (parts : List Bytes)
    → IsMapping m
    → start_address (address_range m ∷ parts) ≡ some m.start
unfolding start_address address_range
start_address-address_range m parts h =
    let digits = hex_fixed (suc m.digits) m.start in
    let end = hex_fixed (suc m.digits) m.end in
    rw (find-dash digits end (hex_fixed-dashless (suc m.digits) m.start), start_address)
      (ap parse_hex (take-front digits (45 ∷ end)) ∙ parse_hex-hex_fixed m.digits m.start h.0 h.1)

start_address-mapping_line :
    (m : Mapping) → IsMapping m → start_address (split_whitespace (mapping_line m)) ≡ some m.start
unfolding mapping_line split_whitespace
start_address-mapping_line m h =
    ap start_address (
      words_loop-word (address_range m) [] (32 ∷ m.rest) (address_range-IsWord m)
      ∙ words_loop-space (address_range m) m.rest (unfold address_range in full _ _ _))
    ∙ start_address-address_range m (words_loop [] 0 m.rest) h

mapping_line-IsLine : (m : Mapping) → IsMapping m → IsLine (mapping_line m)
unfolding mapping_line
mapping_line-IsLine m h =
    All-append (λ b. 32 ≤ b) (address_range m) (32 ∷ m.rest)
      (IsWord-IsLine _ (address_range-IsWord m)) (omega arith, h.2)

mapped_address-mapping_line :
    (m : Mapping)
    → IsMapping m
    → mapped_address (mapping_line m) ≡ (
        if contains (codes "[heap]") (mapping_line m) || contains (codes "/go/") (mapping_line m)
        then m.start
        else 0)
mapped_address-mapping_line m h = rw (start_address-mapping_line m h) refl

lines-print_mappings :
    (ms : List Mapping)
    → All IsMapping ms
    → (mapped_addresses (lines (print_mappings ms)) ≡ sum_addresses ms)
      × IsReadable (print_mappings ms)
unfolding print_mappings sum_addresses mapped_addresses
lines-print_mappings [] h = (ap mapped_addresses lines_nil, rw lines_nil tt)
lines-print_mappings (m ∷ ms) h =
    let rest = lines-print_mappings ms h.1 in
    let split = lines-line (mapping_line m) (print_mappings ms) (mapping_line-IsLine m h.0) in
    (
      ap mapped_addresses split ∙ rw (mapped_address-mapping_line m h.0, rest.0) refl,
      rw split (h.0.3, rest.1),
    )

section-found :
    (obj : ObjectFile) (section : Section)
    → obj.section_by_name (codes ".gopclntab") ≡ some section
    → find_func_table obj ≡ some (section.address, section.size)
unfolding find_func_table
section-found obj section e = rw (e, find_func_table) refl

-- If the text of the mappings is the lines of a list of mappings, each one line of UTF-8 that
-- begins with its first address, written in enough hexadecimal digits, and a dash, the executable
-- has a section `.gopclntab`, and the section's address plus the first addresses of the mappings
-- of the heap and of paths with `/go/` is below 2^64, `parse_process` succeeds with this sum as
-- the table's address (0 if the section's address is 0), the section's size as the table's size,
-- the first 31 bytes of the version found, filled up with zeros to 32, and the same offsets for
-- every version.
pub parse_process-print_mappings :
    (obj : ObjectFile) (section : Section) (ms : List Mapping) (version : Bytes)
    → extract_go_version obj ≡ some version
    → obj.section_by_name (codes ".gopclntab") ≡ some section
    → All IsMapping ms
    → section.address + sum_addresses ms < u64_mod
    → parse_process (some obj) (some (print_mappings ms))
      ≡ some (record {
        version = in_32_bytes version;
        g_offset = 0x30;
        stack_base_offset = 0x10;
        stack_size_offset = 0x18;
        func_tab_base = (if section.address == 0 then 0 else section.address + sum_addresses ms);
        func_tab_size = section.size;
        pc_quantum = 1;
      })
parse_process-print_mappings obj section ms version found there are small =
    let read = lines-print_mappings ms are in
    let table = section-found obj section there in
    parse_process-moved obj (print_mappings ms) version found read.1 (rw (table, read.0) small)
    ∙ rw (table, read.0) refl
