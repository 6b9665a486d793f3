-- ===== src/Resolver/Resolve/Safe.antt =====
-- Where `resolve_pc` panics.
use golang_profiling.Base.{
  ℕ, min, ◌≡◌, refl, ◌⊎◌, inl, inr, true, false, ◌&&◌, Option, none, some, ◌++◌, Bool-cases,
  Option-cases, length, is_empty,
}
use golang_profiling.Base.Bytes.{Bytes}
use golang_profiling.Base.AddrMap.{lookup}
use golang_profiling.Base.Text.{codes, begins_with}
use golang_profiling.Base.Run.{Run, done, panic, stuck, Returns, Allows, Allows-bind, Allows-then}
use golang_profiling.Pclntab.Parse.{Gopclntab}
use golang_profiling.Pclntab.Symbolize.{Symbol}
use golang_profiling.Pclntab.Symbolize.Safe.{IsCompact, HasBadIndex, symbolize-Allows}
use golang_profiling.Resolver.FuncTable.{FuncInfo, find_function_by_pc}
use golang_profiling.Resolver.FuncTable.Search.{IsSorted, Located, find_function_by_pc-Located}
use golang_profiling.Resolver.Names.{
  get_function_name, hex_part, is_char_boundary, replace_all, clean_go_function_name,
  describe_named, get_complete_function_info,
}
use golang_profiling.Resolver.Resolve.{
  position, SymbolResolver, resolve_kernel, nearest_location, symbolize_with, nearby,
  resolve_nearby, resolve_info, resolve_function, resolve_tables, resolve_symbol, resolve_pc,
}

-- The name begins with `0x` once it is cleaned, and byte 2 or byte 10 (or the end) is inside a
-- character.
abbrev pub IsCut : Bytes → Type 0
IsCut name =
    (begins_with (codes "0x") (replace_all name) ≡ true)
    × ((is_char_boundary (replace_all name) 2
          && is_char_boundary (replace_all name) (min (length (replace_all name)) 10))
        ≡ false)

clean-Allows : (name : Bytes) → Allows (IsCut name) (clean_go_function_name name)
unfolding clean_go_function_name hex_part
clean-Allows name = elim (Bool-cases (begins_with (codes "0x") (replace_all name))) [
  | inr e ↦ rw e tt
  | inl e ↦
      elim (Bool-cases (
        is_char_boundary (replace_all name) 2
        && is_char_boundary (replace_all name) (min (length (replace_all name)) 10))) [
          | inl f ↦ rw (e, f) tt
          | inr f ↦ rw (e, f) (refl, refl)
        ]
]

-- A Go table, if there is one, is of Go 1.18 or later.
abbrev pub HasCompactTable : Option Gopclntab → Type 0
HasCompactTable none = Unit {0}
HasCompactTable (some g) = IsCompact g

abbrev pub HasBadFile : Option Gopclntab → ℕ → Type 0
HasBadFile none pc = ⊥
HasBadFile (some g) pc = HasBadIndex g pc

returned :
    (Q : Option FuncInfo → Type 0) (m : Run (Option FuncInfo))
    → Returns m Q
    → Returns m (λ o. Unit {0})
returned Q (done o) h = tt
returned Q panic h = h
returned Q stuck h = h

module _ (r : SymbolResolver) (pc : ℕ) where
  -- The names that a look-up may clean: those of the cache, those that the tables give for a function,
  -- and the name and the position that the Go table gives for the pc.
  pub data IsNameOf : Bytes → Type 0 where
    cached : (addr : ℕ) {name : Bytes} → lookup addr r.symbol_cache ≡ some name → IsNameOf name
    near : (addr : ℕ) {name : Bytes} → nearby pc r.symbol_cache ≡ some (addr, name) → IsNameOf name
    listed :
        (func : FuncInfo) {name : Bytes}
        → get_function_name r.symbol_cache r.string_table func ≡ some name
        → IsNameOf name
    symbolized :
        (s : Symbol) {name : Bytes}
        → symbolize_with r.gopclntab pc ≡ done s
        → s.name ++ position s.file s.line ≡ name
        → IsNameOf name

  -- What a panic is due to.
  abbrev pub Blame : Type 0
  Blame = HasBadFile r.gopclntab pc ⊎ ((name : Bytes) × IsNameOf name × IsCut name)

  blame : (name : Bytes) (m : Run Bytes) → IsNameOf name → Allows (IsCut name) m → Allows Blame m
  blame name (done b) n h = h
  blame name panic n h = inr (name, n, h)
  blame name stuck n h = h

  cleaned : (name : Bytes) → IsNameOf name → Allows Blame (clean_go_function_name name)
  cleaned name n = blame name (clean_go_function_name name) n (clean-Allows name)

  resolve_nearby-Allows :
      (o : Option (ℕ × Bytes)) → nearby pc r.symbol_cache ≡ o → Allows Blame (resolve_nearby pc o)
  unfolding resolve_nearby
  resolve_nearby-Allows none e = tt
  resolve_nearby-Allows (some (addr, symbol)) e =
      Allows-then Blame (clean_go_function_name symbol) _ (cleaned symbol (near addr e)) (λ c q. tt)

  describe_named-Allows :
      (func : FuncInfo) (o : Option Bytes)
      → get_function_name r.symbol_cache r.string_table func ≡ o
      → Allows Blame (describe_named r.string_table func o)
  unfolding describe_named
  describe_named-Allows func none e = tt
  describe_named-Allows func (some name) e =
      Allows-then Blame (clean_go_function_name name) _ (cleaned name (listed func e)) (λ c q. tt)

  resolve_info-Allows :
      (func : FuncInfo) (o : Option Bytes) → Allows Blame (resolve_info r pc func o)
  unfolding resolve_info
  resolve_info-Allows func (some text) = tt
  resolve_info-Allows func none =
      elim (Option-cases (get_function_name r.symbol_cache r.string_table func)) [
        | inl e ↦ rw (e, Allows) (resolve_nearby-Allows (nearby pc r.symbol_cache) refl)
        | inr (name, e) ↦ rw (e, Allows) (cleaned name (listed func e))
      ]

  resolve_function-Allows : (o : Option FuncInfo) → Allows Blame (resolve_function r pc o)
  unfolding resolve_function get_complete_function_info
  resolve_function-Allows none = resolve_nearby-Allows (nearby pc r.symbol_cache) refl
  resolve_function-Allows (some func) = elim (Option-cases (lookup func.entry r.symbol_cache)) [
    | inr (name, e) ↦ rw (e, Allows) (cleaned name (cached func.entry e))
    | inl e ↦
        rw (e, Allows)
          (Allows-then Blame (get_complete_function_info r.symbol_cache r.string_table func) _
            (describe_named-Allows func _ refl) (λ o q. resolve_info-Allows func o))
  ]

  resolve_tables-Allows :
      Returns (find_function_by_pc r.func_table pc) (λ o. Unit {0})
      → Allows Blame (resolve_tables r pc)
  unfolding resolve_tables
  resolve_tables-Allows found = elim (Option-cases (lookup pc r.symbol_cache)) [
    | inr (name, e) ↦ rw (e, Allows) (cleaned name (cached pc e))
    | inl e ↦
        rw (e, Allows)
          (Allows-bind Blame (λ o. Unit {0}) (find_function_by_pc r.func_table pc) _ found
            (λ o q u. resolve_function-Allows o))
  ]

  resolve_symbol-Allows :
      Returns (find_function_by_pc r.func_table pc) (λ o. Unit {0})
      → (s : Symbol) → symbolize_with r.gopclntab pc ≡ done s
      → Allows Blame (resolve_symbol r pc s)
  unfolding resolve_symbol
  resolve_symbol-Allows found s q = elim (Bool-cases (is_empty s.name)) [
    | inl e ↦ rw e (resolve_tables-Allows found)
    | inr e ↦ rw e (cleaned (s.name ++ position s.file s.line) (symbolized s q refl))
  ]

  symbolize_with-Allows :
      (o : Option Gopclntab) → HasCompactTable o → Allows (HasBadFile o pc) (symbolize_with o pc)
  unfolding symbolize_with
  symbolize_with-Allows none h = tt
  symbolize_with-Allows (some g) h = symbolize-Allows g h pc

  bad_file : (m : Run Symbol) → Allows (HasBadFile r.gopclntab pc) m → Allows Blame m
  bad_file (done s) h = h
  bad_file panic h = inl h
  bad_file stuck h = h

  -- With no Go table or one of Go 1.18 or later over bytes (fewer than 2^63 of them, and fewer
  -- than 2^60 functions), and a sorted table of functions, `resolve_pc` returns for every pc,
  -- unless it panics, and then either the function of some row of the Go table has the file index
  -- -1 for the pc, or a name that the look-up may clean (one of the cache, one that the tables
  -- give for a function, or the one that the Go table gives for the pc) begins with `0x` after the
  -- replacements and has byte 2, or byte 10 or an earlier end, inside a character.
  pub resolve_pc-Allows :
      HasCompactTable r.gopclntab → IsSorted r.func_table → Allows Blame (resolve_pc r pc)
  unfolding resolve_pc
  resolve_pc-Allows compact sorted =
      let found =
        returned (Located r.func_table pc) (find_function_by_pc r.func_table pc)
          (find_function_by_pc-Located r.func_table pc sorted) in
      elim (Option-cases (resolve_kernel r pc)) [
        | inr (symbol, e) ↦ rw (e, Allows) tt
        | inl e ↦ elim (Option-cases (nearest_location r.dwarf_parser pc)) [
          | inr (location, q) ↦ rw (e, q, Allows) tt
          | inl q ↦
              rw (e, q, Allows)
                (Allows-then Blame (symbolize_with r.gopclntab pc) _
                  (bad_file (symbolize_with r.gopclntab pc)
                    (symbolize_with-Allows r.gopclntab compact))
                  (resolve_symbol-Allows found))
        ]
      ]
