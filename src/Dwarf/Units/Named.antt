-- ===== src/Dwarf/Units/Named.antt =====
-- Where the names of the locations come from.
use golang_profiling.Base.{
  ℕ, ◌≡◌, refl, sym, ap, ◌∙◌, ◌≢◌, inl, inr, Bool, true, false, ◌&&◌, ◌||◌, Option, none, some,
  List, [], ◌∷◌, arith, ◌==◌, Bool-cases, Option-cases,
}
use golang_profiling.Base.Bytes.{Bytes}
use golang_profiling.Base.Text.{bytes_eq, bytes_eq_refl}
use golang_profiling.Base.AddrMap.{lookup, lookup-insert, map_option}
use golang_profiling.Dwarf.{
  SourceLocation, DwarfParser, FileEntry, LineRow, Attribute, no_attributes, read_attributes,
  ranges_of, set_function_name, add_function, new, row_location, parse_row, parse_line_program,
  parse_function_die, get_location, in_ranges,
}
use golang_profiling.Dwarf.Functions.{lookup-mark_ranges}
use golang_profiling.Dwarf.Units.{
  DieEntry, CompilationUnit, parse_line_programs, parse_entries, parse_compilation_unit,
  parse_units, parse_from_object,
}

abbrev is_name : Bytes → Option Bytes → Bool
is_name s none = false
is_name s (some t) = bytes_eq t s

-- Whether a function with these attributes is called `s` and has the address in one of its ranges.
unfoldable pub describes : Bytes → ℕ → List Attribute → Bool
describes s a attrs =
    let f = read_attributes attrs no_attributes in
    is_name s f.function_name && in_ranges a (ranges_of f.low f.high f.range_list)

unfoldable pub in_entries : Bytes → ℕ → List DieEntry → Bool
in_entries s a [] = false
in_entries s a (entry ∷ entries) =
    (entry.is_subprogram && describes s a entry.attributes) || in_entries s a entries

unfoldable pub in_unit : Bytes → ℕ → CompilationUnit → Bool
in_unit s a unit = elim unit.entries [ none ↦ false | some entries ↦ in_entries s a entries ]

-- Whether one of the functions of the units is called `s` and has the address in its ranges.
unfoldable pub in_units : Bytes → ℕ → List (Option CompilationUnit) → Bool
in_units s a [] = false
in_units s a (none ∷ units) = in_units s a units
in_units s a (some unit ∷ units) = in_unit s a unit || in_units s a units

-- A location with a name is one that `known` knows by that name.
abbrev pub IsNamed : (Bytes → ℕ → Bool) → DwarfParser → Type 0
IsNamed known p =
    (a : ℕ) (location : SourceLocation) (s : Bytes)
    → get_location p a ≡ some location
    → location.function_name ≡ some s
    → known s a ≡ true

abbrev name_of : Option SourceLocation → Option Bytes
name_of none = none
name_of (some location) = location.function_name

module _ (known : Bytes → ℕ → Bool) where
  unnamed :
      (l location : SourceLocation) (s : Bytes)
      → l.function_name ≡ none
      → some l ≡ some location
      → location.function_name ≢ some s
  unnamed l location s u e n = ground (arith, u, e, n)

  parse_row-IsNamed :
      (row : LineRow) (file : Option FileEntry) (p : DwarfParser)
      → IsNamed known p
      → IsNamed known (parse_row row file p)
  unfolding parse_row get_location row_location
  parse_row-IsNamed row none p h = h
  parse_row-IsNamed row (some file) p h = λ a location s e n.
      let q = lookup-insert row.address a (row_location row file) p.address_to_location in
      elim (Bool-cases (row.address == a)) [
        | inl at ↦ absurd (unnamed (row_location row file) location s refl (sym (rw at at q) ∙ e) n)
        | inr off ↦ h a location s (sym (rw off at q) ∙ e) n
      ]

  parse_line_program-IsNamed :
      (rows : List LineRow) (p : DwarfParser)
      → IsNamed known p
      → IsNamed known (parse_line_program rows p)
  unfolding parse_line_program
  parse_line_program-IsNamed [] p h = h
  parse_line_program-IsNamed (row ∷ rows) p h =
      parse_line_program-IsNamed rows (parse_row row row.file p)
        (parse_row-IsNamed row row.file p h)

  add_function-IsNamed :
      (o : Option Bytes) (rs : List (ℕ × ℕ)) (p : DwarfParser)
      → ((s : Bytes) (a : ℕ) → (is_name s o && in_ranges a rs) ≡ true → known s a ≡ true)
      → IsNamed known p
      → IsNamed known (add_function o rs p)
  unfolding add_function get_location set_function_name
  add_function-IsNamed none rs p k h = h
  add_function-IsNamed (some t) [] p k h = h
  add_function-IsNamed (some t) (r ∷ rs) p k h = λ a location s e n.
      let q = lookup-mark_ranges t (r ∷ rs) p.address_to_location a in
      elim (Bool-cases (in_ranges a (r ∷ rs))) [
        | inl inside ↦
            marked a location s (lookup a p.address_to_location) inside (sym (rw inside at q) ∙ e) n
        | inr outside ↦ h a location s (sym (rw outside at q) ∙ e) n
      ]
    where
      marked :
          (a : ℕ) (location : SourceLocation) (s : Bytes) (o : Option SourceLocation)
          → in_ranges a (r ∷ rs) ≡ true
          → map_option (set_function_name t) o ≡ some location
          → location.function_name ≡ some s
          → known s a ≡ true
      marked a location s none inside e n = absurd (cc)
      marked a location s (some l) inside e n =
          let same : t ≡ s = (let u : some t ≡ some s = ap name_of e ∙ n in cc) in
          k s a (rw (same, bytes_eq_refl s, inside) refl)

  parse_function_die-IsNamed :
      (attrs : List Attribute) (p : DwarfParser)
      → ((s : Bytes) (a : ℕ) → describes s a attrs ≡ true → known s a ≡ true)
      → IsNamed known p
      → IsNamed known (parse_function_die attrs p)
  unfolding parse_function_die describes
  parse_function_die-IsNamed attrs p k h =
      let f = read_attributes attrs no_attributes in
      add_function-IsNamed f.function_name (ranges_of f.low f.high f.range_list) p k h

  parse_entries-IsNamed :
      (entries : List DieEntry) (p : DwarfParser)
      → ((s : Bytes) (a : ℕ) → in_entries s a entries ≡ true → known s a ≡ true)
      → IsNamed known p
      → IsNamed known (parse_entries entries p)
  unfolding parse_entries in_entries
  parse_entries-IsNamed [] p k h = h
  parse_entries-IsNamed (entry ∷ entries) p k h = elim (Bool-cases entry.is_subprogram) [
    | inl e ↦ rw e (
        parse_entries-IsNamed entries (parse_function_die entry.attributes p)
          (λ s a i. k s a (ground (arith, i)))
          (parse_function_die-IsNamed entry.attributes p (λ s a i. k s a (rw (e, i) refl)) h))
    | inr e ↦ rw e (parse_entries-IsNamed entries p (λ s a i. k s a (ground (arith, i))) h)
  ]

  -- If the unit can be read, what it gives.
  abbrev AllNamed : Option DwarfParser → Type 0
  AllNamed none = Unit
  AllNamed (some p) = IsNamed known p

  parse_line_programs-AllNamed :
      (o : Option (Option (List LineRow))) (p : DwarfParser)
      → IsNamed known p
      → AllNamed (parse_line_programs o p)
  unfolding parse_line_programs
  parse_line_programs-AllNamed none p h = h
  parse_line_programs-AllNamed (some none) p h = tt
  parse_line_programs-AllNamed (some (some rows)) p h = parse_line_program-IsNamed rows p h

  parse_compilation_unit-AllNamed :
      (unit : CompilationUnit) (p : DwarfParser)
      → ((s : Bytes) (a : ℕ) → in_unit s a unit ≡ true → known s a ≡ true)
      → IsNamed known p
      → AllNamed (parse_compilation_unit unit p)
  unfolding parse_compilation_unit in_unit
  parse_compilation_unit-AllNamed unit p k h =
      let rows = parse_line_programs-AllNamed unit.line_program p h in
      elim (Option-cases (parse_line_programs unit.line_program p)) [
        | inl e ↦ rw (e, parse_compilation_unit, AllNamed) tt
        | inr (p', e) ↦ elim (Option-cases unit.entries) [
          | inl q ↦ rw (e, q, parse_compilation_unit, AllNamed) tt
          | inr (entries, q) ↦
              rw (e, q, parse_compilation_unit, AllNamed)
                (parse_entries-IsNamed entries p' (λ s a i. k s a (rw q i)) (rw e at rows))
        ]
      ]

  parse_units-AllNamed :
      (units : List (Option CompilationUnit)) (p : DwarfParser)
      → ((s : Bytes) (a : ℕ) → in_units s a units ≡ true → known s a ≡ true)
      → IsNamed known p
      → AllNamed (parse_units units p)
  unfolding parse_units in_units
  parse_units-AllNamed [] p k h = h
  parse_units-AllNamed (none ∷ units) p k h = tt
  parse_units-AllNamed (some unit ∷ units) p k h =
      let first = parse_compilation_unit-AllNamed unit p (λ s a i. k s a (ground (arith, i))) h in
      elim (Option-cases (parse_compilation_unit unit p)) [
        | inl e ↦ rw (e, parse_units, AllNamed) tt
        | inr (p', e) ↦
            rw (e, parse_units, AllNamed)
              (parse_units-AllNamed units p' (λ s a i. k s a (ground (arith, i))) (rw e at first))
      ]

-- In what `parse_from_object` builds from the units of a file, every location with a function's
-- name has an address in the ranges of some function of the units that has this name.
pub parse_from_object-IsNamed :
    (units : List (Option CompilationUnit)) {p : DwarfParser}
    → parse_from_object (some units) new ≡ some p
    → IsNamed (λ s a. in_units s a units) p
unfolding parse_from_object get_location
parse_from_object-IsNamed units {p} e = rw e at (
    parse_units-AllNamed (λ s a. in_units s a units) units new (λ s a i. i)
      (λ a location s q n. absurd (unfold lookup in cc)))
