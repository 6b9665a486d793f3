-- ===== src/Examples/Ends.antt =====
-- Where calls end, and where one panics.
use golang_profiling.Base.{◌≡◌, refl, true, some, arith, ◌==◌}
use golang_profiling.Base.Run.{Ends}
use golang_profiling.Base.Words.{add32}
use golang_profiling.Pclntab.Symbolize.{file_at}
use golang_profiling.Pclntab.Table.{PclntabFunc}
use golang_profiling.Pclntab.Symbolize.Panics.{is_panic, file_index, file_at-is_panic}
use golang_profiling.Resolver.Resolve.{SymbolResolver, resolve_pc}
use golang_profiling.Resolver.Resolve.Ends.{resolve_pc-Ends}
use golang_profiling.Resolver.Load.{empty_resolver}
use golang_profiling.Base.Run.{Allows}
use golang_profiling.Pclntab.Symbolize.Safe.{IsCompact}
use golang_profiling.Resolver.Resolve.Safe.{Blame, resolve_pc-Allows}
use golang_profiling.Base.Lines.Words.{below, all_below}
use golang_profiling.Base.Bytes.{to_le}
use golang_profiling.Pclntab.Table.Encoding.{encode_table}
use golang_profiling.Pclntab.Table.Func.{encode_words}
use golang_profiling.Examples.Tables.{g, func}

-- A function whose own file offset is -1.
abbrev fileless : PclntabFunc
fileless = record func { npc_data = 0xffff_ffff }

file_at-is_panic_example :
    is_panic (file_at g fileless (some 0)) ≡ (file_index g fileless 0 == 0xffff_ffff)
file_at-is_panic_example = file_at-is_panic g fileless 0 (omega arith) (omega arith)

fileless_index : (file_index g fileless 0 == 0xffff_ffff) ≡ true
unfolding add32
fileless_index = refl

abbrev resolver : SymbolResolver
resolver = record empty_resolver { gopclntab = some g }

resolve_pc-Ends_example : Ends (resolve_pc resolver 4150)
resolve_pc-Ends_example = resolve_pc-Ends resolver 4150 (omega arith)

g-IsCompact : IsCompact g
unfolding to_le all_below encode_table encode_words
g-IsCompact = record {
  version = refl;
  rows = refl;
  bytes = below 256 g.functab refl;
  functab_short = omega arith;
  funcdata_short = omega arith;
  cutab_short = omega arith;
  few = omega arith;
}

resolve_pc-Allows_example : Allows (Blame resolver 4150) (resolve_pc resolver 4150)
resolve_pc-Allows_example =
    resolve_pc-Allows resolver 4150 g-IsCompact (λ i j a b le p q. absurd (cc))
