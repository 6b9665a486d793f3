-- ===== src/Resolver/Load/Fallback.antt =====
-- The functions and names that `load_symbols_fallback` takes from the symbol table.
use golang_profiling.Base.{
  ℕ, zero, suc, ◌≤◌, ◌≡◌, refl, sym, ap, ◌∙◌, Bool, true, false, Option, none, some, List, [], ◌∷◌,
  ◌++◌, arith, ◌==◌, if◌then◌else◌, ==_iff, get_elem?, All,
}
use mathlib.Core.List.{append-nil, append_assoc}
use golang_profiling.Base.Bytes.{Bytes}
use golang_profiling.Base.Sort.{
  sort_by_key, Ascending, sort_by_key-Ascending, with_key, with_key-sort_by_key,
}
use mathlib.Core.Path.{subst}
use golang_profiling.ObjectFile.{ObjectFile}
use golang_profiling.Resolver.FuncTable.{FuncInfo}
use golang_profiling.Resolver.Resolve.{SymbolResolver}
use golang_profiling.Resolver.Load.{
  text_symbols, cached_function, add_cached, load_symbols_fallback,
}
use golang_profiling.Base.AddrMap.{lookup, lookup-insert}
use golang_profiling.Resolver.Names.{cached_name, get_function_name}

-- The functions of the fallback.
pub cached_functions : List (ℕ × Bytes) → List FuncInfo
cached_functions [] = []
cached_functions ((addr, name) ∷ entries) = cached_function addr ∷ cached_functions entries

pub func_table-add_cached :
    (entries : List (ℕ × Bytes)) (r : SymbolResolver)
    → (add_cached entries r).func_table ≡ r.func_table ++ cached_functions entries
unfolding add_cached cached_functions
func_table-add_cached [] r = rw append-nil
func_table-add_cached ((addr, name) ∷ entries) r = func_table-add_cached entries _ ∙ rw append_assoc

cached_functions-All :
    (a : ℕ) (entries : List (ℕ × Bytes))
    → All (λ e. a ≤ e.0) entries
    → All (λ f. a ≤ f.entry) (cached_functions entries)
unfolding cached_functions
cached_functions-All a [] h = tt
cached_functions-All a ((addr, name) ∷ entries) h = (h.0, cached_functions-All a entries h.1)

cached_functions-Ascending :
    (entries : List (ℕ × Bytes))
    → Ascending (λ e. e.0) entries
    → Ascending (λ f. f.entry) (cached_functions entries)
unfolding cached_functions
cached_functions-Ascending [] h = tt
cached_functions-Ascending ((addr, name) ∷ entries) h =
    (cached_functions-All addr entries h.0, cached_functions-Ascending entries h.1)

pub load_symbols_fallback-Ascending :
    (obj : ObjectFile) (r : SymbolResolver)
    → r.func_table ≡ []
    → Ascending (λ f. f.entry) (load_symbols_fallback obj r).func_table
unfolding load_symbols_fallback
load_symbols_fallback-Ascending obj r e =
    let entries = sort_by_key (λ (e : ℕ × Bytes). e.0) (text_symbols obj.symbols) in
    rw (func_table-add_cached entries r, e)
      (cached_functions-Ascending entries
        (sort_by_key-Ascending (λ (e : ℕ × Bytes). e.0) (text_symbols obj.symbols)))

abbrev pub first_some : Option Bytes → Option Bytes → Option Bytes
first_some (some s) o = some s
first_some none o = o

-- The name of the last entry with an address.
abbrev pub last_name : ℕ → List (ℕ × Bytes) → Option Bytes
last_name k [] = none
last_name k ((a, name) ∷ entries) =
    first_some (last_name k entries) (if a == k then some name else none)

first_some_assoc :
    (a b c : Option Bytes) → first_some (first_some a b) c ≡ first_some a (first_some b c)
first_some_assoc (some s) b c = refl
first_some_assoc none b c = refl

lookup-add_cached :
    (k : ℕ) (entries : List (ℕ × Bytes)) (r : SymbolResolver)
    → lookup k (add_cached entries r).symbol_cache
      ≡ first_some (last_name k entries) (lookup k r.symbol_cache)
unfolding add_cached
lookup-add_cached k [] r = refl
lookup-add_cached k ((a, name) ∷ entries) r =
    lookup-add_cached k entries _
    ∙ ap (first_some (last_name k entries))
        (lookup-insert a k name r.symbol_cache ∙ as_first (a == k))
    ∙ sym (
        first_some_assoc (last_name k entries) (if a == k then some name else none)
          (lookup k r.symbol_cache))
  where
    as_first :
        (b : Bool)
        → (if b then some name else lookup k r.symbol_cache)
          ≡ first_some (if b then some name else none) (lookup k r.symbol_cache)
    as_first true = refl
    as_first false = refl

-- The name depends only on the entries with the address, so a stable sort keeps it.
last_name-with_key :
    (k : ℕ) (entries : List (ℕ × Bytes))
    → last_name k (with_key (λ e. e.0) k entries) ≡ last_name k entries
last_name-with_key k [] = refl
last_name-with_key k ((a, name) ∷ entries) = ground (arith, last_name-with_key k entries)

last_name-sort_by_key :
    (k : ℕ) (entries : List (ℕ × Bytes))
    → last_name k (sort_by_key (λ e. e.0) entries) ≡ last_name k entries
last_name-sort_by_key k entries =
    sym (last_name-with_key k (sort_by_key (λ e. e.0) entries))
    ∙ ap (last_name k) (with_key-sort_by_key (λ (e : ℕ × Bytes). e.0) k entries)
    ∙ last_name-with_key k entries

present : (o : Option Bytes) (name : Bytes) → (x : Bytes) × (first_some o (some name) ≡ some x)
present none name = (name, refl)
present (some x) name = (x, refl)

-- What is known of a function of the fallback.
named :
    (entries : List (ℕ × Bytes)) (i : ℕ) {f : FuncInfo}
    → get_elem? (cached_functions entries) i ≡ some f
    → (f.name_off ≡ 1) × (name : Bytes) × (last_name f.entry entries ≡ some name)
unfolding cached_functions
named [] i h = cc
named ((a, name) ∷ entries) zero {f} h =
    let q : cached_function a ≡ f = cc in
    let (x, e) = present (last_name a entries) name in
    subst
      (λ (g : FuncInfo).
        (g.name_off ≡ 1) × (x : Bytes) × (last_name g.entry ((a, name) ∷ entries) ≡ some x))
      q (refl, x, rw ((==_iff a a).1 refl) e)
named ((a, name) ∷ entries) (suc i) {f} h =
    let (off, x, e) = named entries i h in
    (off, x, ap (λ o. first_some o (if a == f.entry then some name else none)) e)

-- Where the resolver had no functions and no cached names, `get_function_name` gives each function
-- of the table that `load_symbols_fallback` makes the name of the last text symbol of the file at
-- its address.
pub get_function_name-load_symbols_fallback :
    (obj : ObjectFile) (r : SymbolResolver) (i : ℕ) {f : FuncInfo}
    → r.func_table ≡ []
    → r.symbol_cache ≡ []
    → get_elem? (load_symbols_fallback obj r).func_table i ≡ some f
    → (name : Bytes) × (last_name f.entry (text_symbols obj.symbols) ≡ some name)
      × (get_function_name
            (load_symbols_fallback obj r).symbol_cache
            (load_symbols_fallback obj r).string_table
            f
          ≡ some name)
unfolding load_symbols_fallback get_function_name cached_name
get_function_name-load_symbols_fallback obj r i {f} e c h =
    let entries = sort_by_key (λ (e : ℕ × Bytes). e.0) (text_symbols obj.symbols) in
    let whole : (add_cached entries r).func_table ≡ cached_functions entries =
      func_table-add_cached entries r ∙ ap (λ t. t ++ cached_functions entries) e in
    let (off, name, known) = named entries i (rw whole at h) in
    let cached : lookup f.entry (add_cached entries r).symbol_cache ≡ some name =
      lookup-add_cached f.entry entries r ∙ rw known refl in
    (
      name,
      sym (last_name-sort_by_key f.entry (text_symbols obj.symbols)) ∙ known,
      ground (arith, off, cached),
    )
