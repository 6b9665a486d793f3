-- ===== src/Resolver/Resolve/Ends.antt =====
-- The loops behind `resolve_pc`, on any tables.
use golang_profiling.Base.{
  ℕ, ◌<◌, min, inl, inr, ◌&&◌, Option, none, some, ◌++◌, Option-cases, length, is_empty,
}
use golang_profiling.Base.Bytes.{Bytes}
use golang_profiling.Base.AddrMap.{lookup}
use golang_profiling.Base.Text.{codes, begins_with}
use golang_profiling.Base.Run.{done, panic, Ends, Ends-bind, Ends-if}
use golang_profiling.Pclntab.Parse.{Gopclntab}
use golang_profiling.Pclntab.Symbolize.{Symbol}
use golang_profiling.Pclntab.Symbolize.Ends.{symbolize-Ends}
use golang_profiling.Resolver.FuncTable.{FuncInfo, find_function_by_pc}
use golang_profiling.Resolver.FuncTable.Ends.{find_function_by_pc-Ends}
use golang_profiling.Resolver.Names.{
  get_function_name, hex_part, is_char_boundary, replace_all, clean_go_function_name,
  describe_named, get_complete_function_info,
}
use golang_profiling.Resolver.Resolve.{
  SymbolResolver, resolve_kernel, position, nearest_location, symbolize_with, nearby,
  resolve_nearby, resolve_info, resolve_function, resolve_tables, resolve_symbol, resolve_pc,
}

hex_part-Ends : (cleaned : Bytes) → Ends (hex_part cleaned)
unfolding hex_part
hex_part-Ends cleaned =
    Ends-if (is_char_boundary cleaned 2 && is_char_boundary cleaned (min (length cleaned) 10))
      (done _) panic tt tt

clean-Ends : (name : Bytes) → Ends (clean_go_function_name name)
unfolding clean_go_function_name
clean-Ends name =
    Ends-if (begins_with (codes "0x") (replace_all name)) _ (done _)
      (Ends-bind (hex_part (replace_all name)) _ (hex_part-Ends (replace_all name)) (λ part. tt)) tt

resolve_nearby-Ends : (pc : ℕ) (o : Option (ℕ × Bytes)) → Ends (resolve_nearby pc o)
unfolding resolve_nearby
resolve_nearby-Ends pc none = tt
resolve_nearby-Ends pc (some (addr, symbol)) =
    Ends-bind (clean_go_function_name symbol) _ (clean-Ends symbol) (λ cleaned. tt)

describe_named-Ends :
    (table : Bytes) (func : FuncInfo) (o : Option Bytes) → Ends (describe_named table func o)
unfolding describe_named
describe_named-Ends table func none = tt
describe_named-Ends table func (some name) =
    Ends-bind (clean_go_function_name name) _ (clean-Ends name) (λ cleaned. tt)

module _ (r : SymbolResolver) (pc : ℕ) where
  resolve_info-Ends : (func : FuncInfo) (o : Option Bytes) → Ends (resolve_info r pc func o)
  unfolding resolve_info
  resolve_info-Ends func (some text) = tt
  resolve_info-Ends func none =
      elim (Option-cases (get_function_name r.symbol_cache r.string_table func)) [
        | inl e ↦ rw (e, Ends) (resolve_nearby-Ends pc (nearby pc r.symbol_cache))
        | inr (name, e) ↦ rw (e, Ends) (clean-Ends name)
      ]

  resolve_function-Ends : (o : Option FuncInfo) → Ends (resolve_function r pc o)
  unfolding resolve_function get_complete_function_info
  resolve_function-Ends none = resolve_nearby-Ends pc (nearby pc r.symbol_cache)
  resolve_function-Ends (some func) = elim (Option-cases (lookup func.entry r.symbol_cache)) [
    | inr (cached, e) ↦ rw (e, Ends) (clean-Ends cached)
    | inl e ↦
        rw (e, Ends)
          (Ends-bind (get_complete_function_info r.symbol_cache r.string_table func) _
            (describe_named-Ends r.string_table func _) (resolve_info-Ends func))
  ]

  resolve_tables-Ends : Ends (resolve_tables r pc)
  unfolding resolve_tables
  resolve_tables-Ends = elim (Option-cases (lookup pc r.symbol_cache)) [
    | inr (name, e) ↦ rw (e, Ends) (clean-Ends name)
    | inl e ↦
        rw (e, Ends)
          (Ends-bind (find_function_by_pc r.func_table pc) _
            (find_function_by_pc-Ends r.func_table pc) resolve_function-Ends)
  ]

  resolve_symbol-Ends : (s : Symbol) → Ends (resolve_symbol r pc s)
  unfolding resolve_symbol
  resolve_symbol-Ends s =
      Ends-if (is_empty s.name) (resolve_tables r pc) _ resolve_tables-Ends
        (clean-Ends (s.name ++ position s.file s.line))

-- A Go table, if there is one, has fewer than 2^63 functions.
abbrev pub HasFewFunctions : Option Gopclntab → Type 0
HasFewFunctions none = Unit
HasFewFunctions (some g) = g.num_funcs < 0x8000_0000_0000_0000

symbolize_with-Ends :
    (o : Option Gopclntab) (pc : ℕ) → HasFewFunctions o → Ends (symbolize_with o pc)
unfolding symbolize_with
symbolize_with-Ends none pc h = tt
symbolize_with-Ends (some g) pc h = symbolize-Ends g pc h

-- `resolve_pc` ends for every pc and every resolver whose Go table, if it has one, has fewer than
-- 2^63 functions, whatever bytes the tables hold: every loop in it ends, so it returns or panics.
pub resolve_pc-Ends :
    (r : SymbolResolver) (pc : ℕ) → HasFewFunctions r.gopclntab → Ends (resolve_pc r pc)
unfolding resolve_pc
resolve_pc-Ends r pc few = elim (Option-cases (resolve_kernel r pc)) [
  | inr (symbol, e) ↦ rw (e, Ends) tt
  | inl e ↦ elim (Option-cases (nearest_location r.dwarf_parser pc)) [
    | inr (location, q) ↦ rw (e, q, Ends) tt
    | inl q ↦
        rw (e, q, Ends)
          (Ends-bind (symbolize_with r.gopclntab pc) _ (symbolize_with-Ends r.gopclntab pc few)
            (resolve_symbol-Ends r pc))
  ]
]
