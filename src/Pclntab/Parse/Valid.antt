-- ===== src/Pclntab/Parse/Valid.antt =====
-- What `new` guarantees of the parser it returns, and where it can panic.
use golang_profiling.Base.{
  ◌≡◌, refl, ◌≢◌, inl, inr, not, ◌||◌, arith, ltb, ◌==◌, Bool-cases, length,
}
use golang_profiling.Base.Bytes.{Bytes}
use golang_profiling.Pclntab.Header.{
  PclntabHeader, read_header, header_size, go_invalid, go_magic_to_version, go1_2,
}
use golang_profiling.Pclntab.Parse.{fresh, new}
use golang_profiling.Pclntab.Parse.Branches.{
  IsValid, IsFresh, Partial, Safe, parse_version-Partial, parse_version-Safe,
}

fresh-IsFresh : (bs : Bytes) (h : PclntabHeader) → h.ptr_size ≡ 8 → IsFresh bs (fresh bs h)
unfolding fresh
fresh-IsFresh bs h e = record {
  whole = refl;
  pointers = e;
  row_size = rw e;
  data_size = rw e;
  no_text = refl;
}

-- A parser that `new` returns is valid, and `new` always ends; it may panic only on Go 1.2.
pub new-Partial : (bs : Bytes) → Partial (new bs) (IsValid bs)
unfolding new
new-Partial bs =
    let h = read_header bs in
    elim (Bool-cases (ltb (length bs) header_size)) [
      | inl short ↦ rw short tt
      | inr long ↦
          elim (Bool-cases (
            go_magic_to_version h.magic == go_invalid
            || not (h.pad == 0)
            || not (h.ptr_size == 8))) [
              | inl bad ↦ rw (long, bad) tt
              | inr good ↦
                  rw (long, good)
                    (unfold fresh in
                      parse_version-Partial bs (fresh bs h) (fresh-IsFresh bs h (ground arith)))
            ]
    ]

pub new-Safe :
    (bs : Bytes) → go_magic_to_version (read_header bs).magic ≢ go1_2 → Safe (new bs) (IsValid bs)
unfolding new
new-Safe bs later =
    let h = read_header bs in
    elim (Bool-cases (ltb (length bs) header_size)) [
      | inl short ↦ rw short tt
      | inr long ↦
          elim (Bool-cases (
            go_magic_to_version h.magic == go_invalid
            || not (h.pad == 0)
            || not (h.ptr_size == 8))) [
              | inl bad ↦ rw (long, bad) tt
              | inr good ↦
                  rw (long, good)
                    (unfold fresh in
                      parse_version-Safe bs (fresh bs h) (fresh-IsFresh bs h (ground arith)) later)
            ]
    ]
