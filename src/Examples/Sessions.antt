-- ===== src/Examples/Sessions.antt =====
-- A session with interleaved events, a report, and a run of the whole program.
use golang_profiling.Base.{
  ℕ, ◌+◌, ◌≤◌, ◌≡◌, refl, inl, inr, true, false, ◌||◌, Option, none, some, List, [], ◌∷◌, ◌++◌, map,
  arith, leb, ◌==◌, if◌then◌else◌, Bool-cases, All,
}
use golang_profiling.Base.Bytes.{Bytes}
use golang_profiling.Base.Run.{done}
use golang_profiling.Base.Text.{codes, hex, bytes_eq, bytes_eq→eq, decimal}
use golang_profiling.Base.Assoc
use golang_profiling.Probe.Maps.{stack_id, tgid_of}
use golang_profiling.Probe.Program.{accepts, profile_key}
use golang_profiling.Probe.Program.Keys.{same_key}
use golang_profiling.Probe.Program.OnCpu.{hits}
use golang_profiling.Collect.Counts.{ProfileKey, profile_keys, convert_key}
use golang_profiling.Collect.Stacks.{export_folded_stacks, stacks, converted_data}
use golang_profiling.Collect.Stacks.Totals.{final_statistics, final_statistics-bounds}
use golang_profiling.Collect.Stacks.{stack_of, frames_of, nonzero, separate, add_stack}
use golang_profiling.Collect.Stacks.Bag.{bag, export_folded_stacks-bag}
use golang_profiling.Collect.Stacks.Rows.{folded_row}
use golang_profiling.Command.{Args, default_args, Output, target_pid}
use golang_profiling.Session.{Event, sampled, woken, visited, finished, attach, run}
use golang_profiling.Session.Sourced.{IsFresh}
use golang_profiling.Session.Bounds.{IsBounded, run-IsBounded}
use golang_profiling.Session.Quiet.{round_of, samplings, run-published}
use golang_profiling.Session.Profile.{IsProfile, converted_data-IsProfile}
use golang_profiling.Report.{Files, Host, report, folded_file, temp_script_path, text_of}
use golang_profiling.Report.Success.{report_lem}
use golang_profiling.Report.Failure.{report-perl}
use golang_profiling.ObjectFile.{ObjectFile}
use golang_profiling.Base.AddrMap.{lookup, closest, closest_loop}
use golang_profiling.Base.Sort.{sort_by_key}
use golang_profiling.Base.Text.{digits_loop}
use golang_profiling.Collect.Stacks.{join_symbols, folded_stack, export_folded_stacks}
use golang_profiling.Resolver.FuncTable.{find_function_by_pc, find_loop}
use golang_profiling.Resolver.Resolve.{
  SymbolResolver, resolve_pc, resolve_kernel, resolve_kernel_symbol, near_symbol, nearest_location,
  symbolize_with, resolve_symbol, resolve_tables, resolve_function, resolve_nearby, nearby,
  kernel_start,
}
use golang_profiling.Resolver.Load.{
  empty_resolver, new_resolver, load_symbols, load_tables, load_kernel_symbols, load_process_maps,
  find_base_address, load_without_dwarf, load_symbols_fallback, text_symbols, add_cached,
}
use golang_profiling.Runtime.Process.{
  GoRuntimeInfo, parse_process, parse_object, update_runtime_addresses, update_lines,
}
use golang_profiling.Base.Lines.{lines, lines_loop}
use golang_profiling.Main.{start_resolver, Machine, main}
use golang_profiling.Main.Exported.{Starts, main-exported}
use golang_profiling.Examples.Kernel.{counts, stamps, ctx, empty, start, on_key}
use golang_profiling.Examples.Collected.{traces, counted}
use golang_profiling.Session.{act, wake, visit_key, visit, finish}
use golang_profiling.Probe.Program.{golang_profile, try_golang_profile, add_count}
use golang_profiling.Base.Words.{add64}
use golang_profiling.Collect.Counts.{read_item, publish}

-- A sample, then a round in the middle of which the next sample is taken.
abbrev pub events : List Event
events = sampled ctx ∷ woken ∷ sampled ctx ∷ visited on_key ∷ sampled ctx ∷ finished ∷ []

empty-IsFresh : IsFresh counts stamps empty
empty-IsFresh k = refl

-- Two of the three samples are published.
session_run :
    (run counts stamps events (attach counts stamps 5 false empty)).aggregated_counts
    ≡ (convert_key on_key, 2) ∷ []
unfolding run attach act wake visit_key visit finish golang_profile try_golang_profile add_count
    accepts profile_key tgid_of stack_id add64 same_key read_item publish Assoc.insert convert_key
session_run = refl

run-IsBounded_example :
    All
      (IsBounded counts stamps 5 events)
      (run counts stamps events (attach counts stamps 5 false empty)).aggregated_counts
run-IsBounded_example = run-IsBounded counts stamps 5 false empty events empty-IsFresh

abbrev frames : ℕ → Option (List ℕ)
frames id = if id == 11 then some (16 ∷ 32 ∷ []) else none

converted_data-IsProfile_example :
    All (IsProfile counts stamps frames 5 false events (attach counts stamps 5 false empty)) (
      converted_data frames
        (run counts stamps events (attach counts stamps 5 false empty)).aggregated_counts)
converted_data-IsProfile_example =
    converted_data-IsProfile counts stamps frames 5 false empty events (omega arith) empty-IsFresh

run-published_example :
    Assoc.lookup profile_keys
      (convert_key on_key)
      (run counts stamps (samplings (ctx ∷ ctx ∷ []) ++ round_of (on_key ∷ [])) (record {
        maps = start;
        off_cpu = true;
        round = none;
        aggregated_counts = [];
      })).aggregated_counts
    ≡ some (3 + hits counts stamps (some 0) on_key (ctx ∷ ctx ∷ []))
unfolding same_key
run-published_example =
    run-published counts stamps (ctx ∷ ctx ∷ []) (on_key ∷ [])
      (record { maps = start; off_cpu = true; round = none; aggregated_counts = [] }) on_key 3 refl
      refl refl (omega arith)

final_statistics-bounds_example :
    (Assoc.sum_values stacks (converted_data traces counted)
      ≤ (final_statistics traces counted).total_count)
    × ((final_statistics traces counted).total_count ≤ Assoc.sum_values profile_keys counted)
final_statistics-bounds_example =
    final_statistics-bounds traces counted (unfold Assoc.sum_values in omega arith)

abbrev output : Output
output = record { success = true; stdout = codes "<svg>" }

abbrev host : Host
host = record {
  can_write = λ path. true;
  can_remove = λ path. true;
  perl = λ args files. some output;
  flamegraph_script = codes "#!perl";
}

abbrev pub no_files : Files
no_files path = none

abbrev pub args : Args
args = record default_args { pid = some 5; export_folded = some (codes "out.folded") }

abbrev samples : List (List ℕ × ℕ)
samples = (16 ∷ [], 2) ∷ []

rows : export_folded_stacks (λ pc. done (hex pc)) samples ≡ done (codes "10 2" ∷ [])
unfolding export_folded_stacks folded_stack join_symbols hex digits_loop decimal
rows = refl

report_lem_example :
    (after : Files) × (report host args (λ pc. done (hex pc)) samples no_files ≡ done (after, true))
    × ((p : Bytes)
        → after p ≡ (
            if bytes_eq p folded_file
            then none
            else if bytes_eq p (codes "flamegraph.svg")
            then some (codes "<svg>")
            else if bytes_eq p temp_script_path
            then none
            else if bytes_eq p (codes "out.folded")
            then some (text_of (codes "10 2" ∷ []))
            else none))
report_lem_example =
    report_lem host args no_files (λ path. refl) (λ path. refl) (λ pc. done (hex pc)) samples rows
      refl refl

report-perl_example :
    (after : Files) × (report
        (record host { perl = λ args files. none })
        args
        (λ pc. done (hex pc))
        samples
        no_files
      ≡ done (after, false))
    × ((p : Bytes)
        → after p ≡ (
            if bytes_eq p temp_script_path
            then some (codes "#!perl")
            else if bytes_eq p folded_file || bytes_eq p (codes "out.folded")
            then some (text_of (codes "10 2" ∷ []))
            else none))
report-perl_example =
    report-perl (record host { perl = λ args files. none }) args no_files (λ path. refl)
      (λ path. refl) (λ pc. done (hex pc)) samples rows refl refl

abbrev bare : ObjectFile
bare = record { section_by_name = λ name. none; sections = []; symbols = [] }

abbrev pub machine : Machine counts stamps
machine = record {
  pgrep = λ name. none;
  executable = λ pid. some bare;
  mappings = λ pid. some [];
  memory_maps = λ pid. some [];
  debug_info = λ pid. none;
  kallsyms = none;
  loads = true;
  targets = true;
  attaches = true;
  maps = empty;
  stack_traces = frames;
  host = host;
}

abbrev resolver : SymbolResolver
resolver = record empty_resolver { base_address = 0x40_0000 }

abbrev unknown : ℕ → Bytes
unknown pc = codes "[unknown:0x" ++ (hex pc ++ codes "]")

no_kernel_symbol : (pc : ℕ) → resolve_kernel resolver pc ≡ none
unfolding resolve_kernel resolve_kernel_symbol near_symbol lookup closest closest_loop
no_kernel_symbol pc = elim (Bool-cases (leb kernel_start pc)) [
  | inl e ↦ rw e refl
  | inr e ↦ rw e refl
]

resolve_unknown : (pc : ℕ) → resolve_pc resolver pc ≡ done (unknown pc)
unfolding nearest_location symbolize_with resolve_symbol resolve_tables find_function_by_pc
    resolve_function resolve_nearby nearby lookup resolve_pc hex find_loop
resolve_unknown pc = rw (no_kernel_symbol pc, resolve_pc) refl

resolver_run :
    (pid : ℕ) → start_resolver counts stamps machine pid (some bare) ≡ done (some resolver)
unfolding start_resolver new_resolver load_symbols load_tables load_kernel_symbols load_process_maps
    find_base_address load_without_dwarf load_symbols_fallback text_symbols add_cached sort_by_key
resolver_run pid = refl

parsed_run : (info : GoRuntimeInfo) × (parse_process (some bare) (some []) ≡ some info)
unfolding parse_process parse_object update_runtime_addresses update_lines lines lines_loop
parsed_run = (_, refl)

started : Starts counts stamps machine args 5 resolver
started = record {
  target = unfold target_pid in refl;
  loaded = refl;
  targeted = refl;
  info = parsed_run.0;
  parsed = parsed_run.1;
  resolver = resolver_run 5;
  attached = refl;
}

main-exported_example :
    (after : Files) × (main counts stamps machine args events no_files ≡ done (after, true))
    × (after (codes "out.folded")
        ≡ some (
            text_of (
              map (folded_row unknown) (
                converted_data frames
                  (run counts stamps events
                    (attach counts stamps 5 false empty)).aggregated_counts))))
    × All (IsProfile counts stamps frames 5 false events (attach counts stamps 5 false empty)) (
        converted_data frames
          (run counts stamps events (attach counts stamps 5 false empty)).aggregated_counts)
unfolding bytes_eq
main-exported_example =
    main-exported counts stamps machine args events no_files 5 resolver unknown (codes "out.folded")
      started
      (record {
        can_write = λ path. refl;
        can_remove = λ path. refl;
        draws = λ args files. (output, refl, refl);
      })
      empty-IsFresh (omega arith) resolve_unknown refl refl refl refl

-- Two keys with the stacks `64 ∷ 32 ∷ 16` and `64`, and their data in the other order.
abbrev two_keys : List (ProfileKey × ℕ)
two_keys =
    (convert_key (record { pid = 5; user_stack_id = 1; kernel_stack_id = 2; sample_type = 1 }), 3)
    ∷ (
      convert_key
          (record { pid = 5; user_stack_id = 0xffff_ffff; kernel_stack_id = 2; sample_type = 1 }),
      4,
    )
    ∷ []

abbrev walked : List (List ℕ × ℕ)
walked = (64 ∷ [], 4) ∷ (64 ∷ 32 ∷ 16 ∷ [], 3) ∷ []

walked_lookups :
    (stack : List ℕ)
    → Assoc.lookup stacks stack walked ≡ Assoc.lookup stacks stack (converted_data traces two_keys)
unfolding converted_data separate add_stack stack_of frames_of nonzero convert_key bytes_eq
    Assoc.insert Assoc.insert_all Assoc.lookup
walked_lookups stack = elim (Bool-cases (bytes_eq (64 ∷ []) stack)) [
  | inl e ↦
      let other : bytes_eq (64 ∷ 32 ∷ 16 ∷ []) stack ≡ false =
        rw (← bytes_eq→eq (64 ∷ []) stack e) refl in
      rw (e, other) refl
  | inr e ↦ rw e refl
]

export_folded_stacks-bag_example :
    (rows : List Bytes) × (export_folded_stacks (λ pc. done (hex pc)) walked ≡ done rows)
    × (bag rows ≡ bag (map (folded_row hex) (converted_data traces two_keys)))
unfolding Assoc.lookup bytes_eq
export_folded_stacks-bag_example =
    export_folded_stacks-bag traces two_keys walked (λ pc. done (hex pc)) hex (λ pc. refl)
      (refl, (refl, tt)) walked_lookups
