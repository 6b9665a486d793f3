-- ===== src/Dwarf/Functions.antt =====
-- What parsing a function does to the locations, and what the search for the nearest location finds.
use golang_profiling.Base.{
  ℕ, zero, suc, ◌+◌, ◌-◌, ◌≤◌, ◌<◌, ◌≡◌, refl, ◌≢◌, inl, inr, ◌&&◌, Option, none, some, List, [],
  ◌∷◌, arith, ltb, leb, if◌then◌else◌, Bool-cases, Option-cases,
}
use golang_profiling.Base.Bytes.{Bytes}
use golang_profiling.Base.Text.{bytes_eq, bytes_eq_refl}
use golang_profiling.Base.AddrMap.{lookup, modify, map_option, lookup-modify, closest}
use golang_profiling.Base.AddrMap.Closest.{SameMap, closest-SameMap, closest-IsClosest, IsClosest}
use golang_profiling.Dwarf.{
  SourceLocation, DwarfParser, Attribute, no_attributes, read_attributes, ranges_of,
  set_function_name, mark_range, mark_ranges, insert_ranges, get_function_ranges, add_function,
  parse_function_die, get_location, get_nearest_location, in_ranges, is_address_in_function,
}

-- The name given twice is the name given once.
name_twice :
    (s : Bytes) (o : Option SourceLocation)
    → map_option (set_function_name s) (map_option (set_function_name s) o)
      ≡ map_option (set_function_name s) o
unfolding set_function_name
name_twice s none = refl
name_twice s (some l) = refl

lookup-mark_range :
    (s : Bytes) (start count : ℕ) (m : List (ℕ × SourceLocation)) (a : ℕ)
    → lookup a (mark_range s start count m) ≡ (
        if leb start a && ltb a (start + count)
        then map_option (set_function_name s) (lookup a m)
        else lookup a m)
unfolding mark_range
lookup-mark_range s start zero m a = ground arith
lookup-mark_range s start (suc count) m a = ground (
  arith,
  lookup-mark_range s (start + 1) count (modify start (set_function_name s) m) a,
  lookup-modify start a (set_function_name s) m,
)

pub lookup-mark_ranges :
    (s : Bytes) (rs : List (ℕ × ℕ)) (m : List (ℕ × SourceLocation)) (a : ℕ)
    → lookup a (mark_ranges s rs m)
      ≡ (if in_ranges a rs then map_option (set_function_name s) (lookup a m) else lookup a m)
unfolding mark_ranges in_ranges
lookup-mark_ranges s [] m a = refl
lookup-mark_ranges s ((start, end) ∷ rs) m a = ground (
  arith,
  lookup-mark_ranges s rs (mark_range s start (end - start) m) a,
  lookup-mark_range s start (end - start) m a,
  name_twice s (lookup a m),
)

get-insert_ranges :
    (s : Bytes) (rs : List (ℕ × ℕ)) (m : List (Bytes × List (ℕ × ℕ)))
    → get_function_ranges s (insert_ranges s rs m) ≡ some rs
unfolding get_function_ranges insert_ranges
get-insert_ranges s rs [] = rw (bytes_eq_refl s)
get-insert_ranges s rs ((t, old) ∷ m) = elim (Bool-cases (bytes_eq t s)) [
  | inl e ↦ rw (e, bytes_eq_refl s)
  | inr e ↦ rw (e, e) (get-insert_ranges s rs m)
]

is_address-add_function :
    (s : Bytes) (r : ℕ × ℕ) (rs : List (ℕ × ℕ)) (p : DwarfParser) (a : ℕ)
    → is_address_in_function (add_function (some s) (r ∷ rs) p) a s ≡ in_ranges a (r ∷ rs)
unfolding add_function is_address_in_function
is_address-add_function s r rs p a =
    rw (get-insert_ranges s (r ∷ rs) p.function_ranges, is_address_in_function)

-- After `parse_function_die` on a function with a name and at least one range, the location at an
-- address has that name exactly if `is_address_in_function` accepts the address for the name, and
-- is otherwise as before.
pub parse_function_die-marks :
    (attrs : List Attribute) (p : DwarfParser) (s : Bytes) (r : ℕ × ℕ) (rs : List (ℕ × ℕ)) (a : ℕ)
    → (read_attributes attrs no_attributes).function_name ≡ some s
    → ranges_of
        (read_attributes attrs no_attributes).low
        (read_attributes attrs no_attributes).high
        (read_attributes attrs no_attributes).range_list
      ≡ r ∷ rs
    → get_location (parse_function_die attrs p) a ≡ (
        if is_address_in_function (parse_function_die attrs p) a s
        then map_option (set_function_name s) (get_location p a)
        else get_location p a)
unfolding parse_function_die add_function get_location
parse_function_die-marks attrs p s r rs a hn hr =
    rw (hn, hr, is_address-add_function s r rs p a)
      (lookup-mark_ranges s (r ∷ rs) p.address_to_location a)

-- The answer of `get_nearest_location` does not depend on the order in which the hash map is
-- walked: two maps with the same look-ups give the same answer.
pub get_nearest_location-SameMap :
    (p q : DwarfParser) (address : ℕ)
    → SameMap p.address_to_location q.address_to_location
    → get_nearest_location p address ≡ get_nearest_location q address
unfolding get_nearest_location
get_nearest_location-SameMap p q address same =
    ground (
      arith,
      same address,
      closest-SameMap address p.address_to_location q.address_to_location same,
    )

-- The location found is that of an address of the map at or before the address asked for, with none
-- of the map's between; address 0 is found only exactly.
abbrev pub IsNearest : DwarfParser → ℕ → Option SourceLocation → Type 0
IsNearest p address none = (k : ℕ) → k ≤ address → get_location p k ≢ none → (k ≡ 0) × (0 < address)
IsNearest p address (some location) =
    (at : ℕ) × (at ≤ address)
    × (get_location p at ≡ some location)
    × ((k : ℕ) → k ≤ address → get_location p k ≢ none → k ≤ at)

closest-IsNearest :
    (p : DwarfParser) (address : ℕ) (r : ℕ × Option SourceLocation)
    → lookup address p.address_to_location ≡ none
    → IsClosest address p.address_to_location r
    → IsNearest p address r.1
unfolding get_location
closest-IsNearest p address (at, none) miss c = λ k le h.
    let z : k ≤ at = c.greatest k le h in
    elim c.value [
      | inl (e, f) ↦ (omega arith, grind (arith, c.below))
      | inr (pos, ne, e) ↦ absurd (ne refl)
    ]
closest-IsNearest p address (at, some location) miss c = elim c.value [
  | inl (e, f) ↦ absurd (cc)
  | inr (pos, ne, e) ↦ (at, c.below, e, c.greatest)
]

-- `get_nearest_location` gives the location at the greatest address of the map that is at or
-- before the one asked for; it gives none only if the map has no such address but, for a query
-- past 0, address 0.
pub get_nearest_location-IsNearest :
    (p : DwarfParser) (address : ℕ) → IsNearest p address (get_nearest_location p address)
unfolding get_nearest_location get_location
get_nearest_location-IsNearest p address =
    elim (Option-cases (lookup address p.address_to_location)) [
      | inl miss ↦
          rw (miss, get_nearest_location)
            (closest-IsNearest p address (closest address p.address_to_location) miss
              (closest-IsClosest address p.address_to_location))
      | inr (location, e) ↦ rw (e, get_nearest_location) (address, omega arith, e, λ k le h. le)
    ]
