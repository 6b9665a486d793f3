-- ===== src/Pclntab/Header.antt =====
-- The versions and the packed header structs of `.gopclntab`, read as the code's pointer casts read
-- them on a little-endian machine with 64-bit `usize`.
use golang_profiling.Base.{ℕ, ◌*◌, ◌==◌, if◌then◌else◌, drop}
use golang_profiling.Base.Bytes.{Bytes, from_le}

abbrev pub max_bytes_go_pclntab : ℕ
max_bytes_go_pclntab = 128 * 1024 * 1024

abbrev pub go_invalid : ℕ
go_invalid = 0

abbrev pub go1_2 : ℕ
go1_2 = 2

abbrev pub go1_16 : ℕ
go1_16 = 16

abbrev pub go1_18 : ℕ
go1_18 = 18

abbrev pub go1_20 : ℕ
go1_20 = 20

unfoldable pub go_magic_to_version : ℕ → ℕ
go_magic_to_version magic =
    if magic == 0xfffffffb
    then go1_2
    else if magic == 0xfffffffa
    then go1_16
    else if magic == 0xfffffff0
    then go1_18
    else if magic == 0xfffffff1
    then go1_20
    else go_invalid

pub record PclntabHeader : Type 0 where
  pub magic : ℕ
  pub pad : ℕ
  pub quantum : ℕ
  pub ptr_size : ℕ
  pub num_funcs : ℕ

-- `mem::size_of` of the packed structs.
abbrev pub header_size : ℕ
header_size = 16

abbrev pub header116_size : ℕ
header116_size = 64

abbrev pub header118_size : ℕ
header118_size = 72

pub record PclntabHeader116 : Type 0 where
  pub header : PclntabHeader
  pub nfiles : ℕ
  pub funcname_offset : ℕ
  pub cu_offset : ℕ
  pub filetab_offset : ℕ
  pub pctab_offset : ℕ
  pub pcln_offset : ℕ

pub record PclntabHeader118 : Type 0 where
  pub header : PclntabHeader
  pub nfiles : ℕ
  pub text_start : ℕ
  pub funcname_offset : ℕ
  pub cu_offset : ℕ
  pub filetab_offset : ℕ
  pub pctab_offset : ℕ
  pub pcln_offset : ℕ

-- The field of `n` bytes at `offset`.
unfoldable pub field_at : ℕ → ℕ → Bytes → ℕ
field_at n offset bs = from_le n (drop offset bs)

unfoldable pub read_header : Bytes → PclntabHeader
read_header bs = record {
  magic = field_at 4 0 bs;
  pad = field_at 2 4 bs;
  quantum = field_at 1 6 bs;
  ptr_size = field_at 1 7 bs;
  num_funcs = field_at 8 8 bs;
}

unfoldable pub read_header116 : Bytes → PclntabHeader116
read_header116 bs = record {
  header = read_header bs;
  nfiles = field_at 8 16 bs;
  funcname_offset = field_at 8 24 bs;
  cu_offset = field_at 8 32 bs;
  filetab_offset = field_at 8 40 bs;
  pctab_offset = field_at 8 48 bs;
  pcln_offset = field_at 8 56 bs;
}

unfoldable pub read_header118 : Bytes → PclntabHeader118
read_header118 bs = record {
  header = read_header bs;
  nfiles = field_at 8 16 bs;
  text_start = field_at 8 24 bs;
  funcname_offset = field_at 8 32 bs;
  cu_offset = field_at 8 40 bs;
  filetab_offset = field_at 8 48 bs;
  pctab_offset = field_at 8 56 bs;
  pcln_offset = field_at 8 64 bs;
}
