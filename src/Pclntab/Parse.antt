-- ===== src/Pclntab/Parse.antt =====
-- `Gopclntab` and its constructor `Gopclntab::new`.

pub mod Branches
pub mod Valid
use golang_profiling.Base.{
  ℕ, ◌+◌, ◌*◌, ◌%◌, Bool, not, ◌||◌, Option, none, some, [], ltb, ◌==◌, if◌then◌else◌, length,
}
use golang_profiling.Base.Bytes.{Bytes, i32_as_usize}
use golang_profiling.Base.Words.{add64, mul64}
use golang_profiling.Base.Run.{Run, done, panic, slice, slice_from}
use golang_profiling.Pclntab.Read.{get_int32}
use golang_profiling.Pclntab.Header.{
  PclntabHeader, go_magic_to_version, go_invalid, go1_2, go1_16, go1_18, go1_20, header_size,
  header116_size, header118_size, read_header, read_header116, read_header118,
}

pub record Gopclntab : Type 0 where
  pub bytes : Bytes
  pub text_start : ℕ
  pub num_funcs : ℕ
  pub version : ℕ
  pub quantum : ℕ
  pub ptr_size : ℕ
  pub fun_size : ℕ
  pub func_map_size : ℕ
  pub functab : Bytes
  pub funcdata : Bytes
  pub funcnametab : Bytes
  pub filetab : Bytes
  pub pctab : Bytes
  pub cutab : Bytes

-- The errors of `new`, with the numbers that their messages show.
pub data ParseError : Type 0 where
  too_short : ℕ → ParseError
  bad_header : ℕ → ℕ → ℕ → ParseError
  no_filetab_offset : ParseError
  no_num_source_files : ParseError
  corrupt_filetab : ℕ → ℕ → ParseError
  corrupt_offsets : ℕ → ℕ → ℕ → ℕ → ℕ → ParseError
  unsupported_version : ℕ → ParseError

-- A `Result` from a call that may also panic. No loop stands behind `stuck`: it is there for `Run`'s.
pub data Parsed {ℓ} (A : Type ℓ) : Type ℓ where
  ok : A → Parsed A
  err : ParseError → Parsed A
  panicked : Parsed A
  stuck : Parsed A

infixl 5 ◌>>=◌
abbrev pub ◌>>=◌ {ℓ κ} : {A : Type ℓ} {B : Type κ} → Parsed A → (A → Parsed B) → Parsed B
ok a >>= f = f a
err e >>= f = err e
panicked >>= f = panicked
stuck >>= f = stuck

abbrev pub lift : Run Bytes → Parsed Bytes
lift (done bs) = ok bs
lift panic = panicked
lift Run.stuck = stuck

-- `call.ok_or(e)?`
abbrev pub ok_or : Run (Option ℕ) → ParseError → Parsed ℕ
ok_or (done (some n)) e = ok n
ok_or (done none) e = err e
ok_or panic e = panicked
ok_or Run.stuck e = stuck

-- The value built before the `match`: its slices are still empty. `fun_size` and `func_map_size` are
-- `u8`.
unfoldable pub fresh : Bytes → PclntabHeader → Gopclntab
fresh bs hdr = record {
  bytes = bs;
  text_start = 0;
  num_funcs = hdr.num_funcs;
  version = go_magic_to_version hdr.magic;
  quantum = hdr.quantum;
  ptr_size = hdr.ptr_size;
  fun_size = (hdr.ptr_size + 32) % 256;
  func_map_size = hdr.ptr_size * 2 % 256;
  functab = [];
  funcdata = [];
  funcnametab = [];
  filetab = [];
  pctab = [];
  cutab = [];
}

-- The end of the branch for Go 1.2, once both numbers are read.
unfoldable pub corrupt_or_slices : Bytes → Gopclntab → ℕ → ℕ → Parsed Gopclntab
corrupt_or_slices bs g filetab_offset num_source_files =
    if filetab_offset == 0 || num_source_files == 0
    then err (corrupt_filetab filetab_offset num_source_files)
    else do
      functab ← lift (slice bs header_size (i32_as_usize filetab_offset))
      cutab ← lift (slice_from bs (i32_as_usize filetab_offset))
      ok (record g {
        functab = functab;
        cutab = cutab;
        pctab = bs;
        funcnametab = bs;
        funcdata = bs;
        filetab = bs;
      })

-- The branch for Go 1.2.
unfoldable pub parse_go1_2 : Bytes → Gopclntab → Parsed Gopclntab
parse_go1_2 bs g = do
  let functab_end = add64 (add64 header_size (mul64 g.num_funcs g.func_map_size)) g.ptr_size
  filetab_offset ← ok_or (get_int32 bs functab_end) no_filetab_offset
  num_source_files ← ok_or (get_int32 bs (i32_as_usize filetab_offset)) no_num_source_files
  corrupt_or_slices bs g filetab_offset num_source_files

-- The test on the five offsets that the later branches share.
unfoldable pub offsets_outside : ℕ → ℕ → ℕ → ℕ → ℕ → ℕ → Bool
offsets_outside n funcname cu file pc pcln =
    ltb n funcname || ltb n cu || ltb n file || ltb n pc || ltb n pcln

-- The five slices, in the order of the code.
unfoldable pub take_slices : Bytes → Gopclntab → ℕ → ℕ → ℕ → ℕ → ℕ → Parsed Gopclntab
take_slices bs g funcname cu file pc pcln = do
  funcnametab ← lift (slice_from bs funcname)
  cutab ← lift (slice_from bs cu)
  filetab ← lift (slice_from bs file)
  pctab ← lift (slice_from bs pc)
  functab ← lift (slice_from bs pcln)
  ok (record g {
    funcnametab = funcnametab;
    cutab = cutab;
    filetab = filetab;
    pctab = pctab;
    functab = functab;
    funcdata = functab;
  })

-- The branch for Go 1.16.
unfoldable pub parse_go1_16 : Bytes → Gopclntab → Parsed Gopclntab
parse_go1_16 bs g =
    if ltb (length bs) header116_size
    then err (too_short (length bs))
    else let h = read_header116 bs in
      if offsets_outside (length bs) h.funcname_offset h.cu_offset h.filetab_offset h.pctab_offset
        h.pcln_offset
      then err (
          corrupt_offsets h.funcname_offset h.cu_offset h.filetab_offset h.pctab_offset
            h.pcln_offset)
      else take_slices bs g h.funcname_offset h.cu_offset h.filetab_offset h.pctab_offset
          h.pcln_offset

-- The branch for Go 1.18 and 1.20.
unfoldable pub parse_go1_18 : Bytes → Gopclntab → Parsed Gopclntab
parse_go1_18 bs g =
    if ltb (length bs) header118_size
    then err (too_short (length bs))
    else let h = read_header118 bs in
      if offsets_outside (length bs) h.funcname_offset h.cu_offset h.filetab_offset h.pctab_offset
        h.pcln_offset
      then err (
          corrupt_offsets h.funcname_offset h.cu_offset h.filetab_offset h.pctab_offset
            h.pcln_offset)
      else do
        t ←
            take_slices bs g h.funcname_offset h.cu_offset h.filetab_offset h.pctab_offset
              h.pcln_offset
        ok (record t { text_start = h.text_start; func_map_size = 2 * 4; fun_size = 4 + 32 })

-- The `match` on the version.
unfoldable pub parse_version : ℕ → Bytes → Gopclntab → Parsed Gopclntab
parse_version version bs g =
    if version == go1_2
    then parse_go1_2 bs g
    else if version == go1_16
    then parse_go1_16 bs g
    else if version == go1_18 || version == go1_20
    then parse_go1_18 bs g
    else err (unsupported_version version)

-- `Gopclntab::new`
unfoldable pub new : Bytes → Parsed Gopclntab
new bs =
    if ltb (length bs) header_size
    then err (too_short (length bs))
    else let hdr = read_header bs in
      if go_magic_to_version hdr.magic == go_invalid
        || not (hdr.pad == 0)
        || not (hdr.ptr_size == 8)
      then err (bad_header hdr.magic hdr.pad hdr.ptr_size)
      else parse_version (go_magic_to_version hdr.magic) bs (fresh bs hdr)
