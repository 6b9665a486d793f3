-- ===== src/Main/Exported.antt =====
-- What a run of `main` that succeeds leaves in the files.
use golang_profiling.Base.{ℕ, ◌≡◌, refl, ◌∙◌, ◌≢◌, true, false, some, List, map, All}
use golang_profiling.Base.Bytes.{Bytes}
use golang_profiling.Base.Run.{done}
use golang_profiling.Base.Text.{bytes_eq, bytes_eq_refl}
use golang_profiling.Probe.Maps.{EbpfProfileKey, BpfHashMap}
use golang_profiling.Resolver.Resolve.{SymbolResolver, resolve_pc}
use golang_profiling.Runtime.Process.{GoRuntimeInfo, parse_process}
use golang_profiling.Collect.Stacks.{converted_data}
use golang_profiling.Collect.Stacks.Rows.{folded_row, export_folded_stacks-map}
use golang_profiling.Command.{Args, Output, target_pid, perl_arguments}
use golang_profiling.Session.{Event, attach, run}
use golang_profiling.Session.Sourced.{IsFresh}
use golang_profiling.Session.Profile.{IsProfile, converted_data-IsProfile}
use golang_profiling.Report.{Files, Host, report, folded_file, temp_script_path, text_of}
use golang_profiling.Report.Success.{prepared, report_lem}
use golang_profiling.Main.{
  Machine, start_resolver, profile_with, profile_parsed, profile_process, main,
}

-- Files can be written and removed, and `perl` succeeds on any arguments and files.
pub record Works (host : Host) : Type 0 where
  pub can_write : (path : Bytes) → host.can_write path ≡ true
  pub can_remove : (path : Bytes) → host.can_remove path ≡ true
  pub draws :
      (args : List Bytes) (files : Files)
      → (output : Output) × (host.perl args files ≡ some output) × (output.success ≡ true)

module _ (counts : BpfHashMap EbpfProfileKey) (stamps : BpfHashMap ℕ) where
  -- The machine lets the profiler run on this process, with this resolver.
  pub record Starts (machine : Machine counts stamps) (args : Args) (pid : ℕ) (r : SymbolResolver)
      : Type 0 where
    pub target : target_pid machine.pgrep args ≡ some pid
    pub loaded : machine.loads ≡ true
    pub targeted : machine.targets ≡ true
    pub info : GoRuntimeInfo
    pub parsed : parse_process (machine.executable pid) (machine.mappings pid) ≡ some info
    pub resolver : start_resolver counts stamps machine pid (machine.executable pid) ≡ done (some r)
    pub attached : machine.attaches ≡ true

  -- The stacks that the report is made of.
  abbrev pub data_of : Machine counts stamps → Args → List Event → ℕ → List (List ℕ × ℕ)
  data_of machine args es pid =
      converted_data machine.stack_traces
        (run counts stamps es
          (attach counts stamps pid args.off_cpu machine.maps)).aggregated_counts

  main-report :
      (machine : Machine counts stamps) (args : Args) (es : List Event) (files : Files) (pid : ℕ)
      (r : SymbolResolver)
      → Starts machine args pid r
      → main counts stamps machine args es files
        ≡ report machine.host args (resolve_pc r) (data_of machine args es pid) files
  unfolding main profile_process profile_parsed profile_with start_resolver report
  main-report machine args es files pid r h =
      rw (h.target, h.loaded, h.parsed, h.targeted, h.resolver, h.attached) refl

  -- If the options give a target process other than 0, the machine lets the profiler start, with a
  -- fresh map of counts and a resolver that answers every pc, files can be written and removed and
  -- `perl` succeeds, then whatever events happen, a run of a program in the kernel being one
  -- event, `main` succeeds, and the file of `--export-folded`, at a path that is not one of the
  -- other three, holds a line, with the names of the frames and the count, for each stack of the
  -- data that `converted_data` makes of the counts published after these events, in this order and
  -- no other line; and each of these stacks is one of the target process with a count that the
  -- kernel had.
  pub main-exported :
      (machine : Machine counts stamps) (args : Args) (es : List Event) (files : Files) (pid : ℕ)
      (r : SymbolResolver) (name : ℕ → Bytes) (path : Bytes)
      → Starts machine args pid r
      → Works machine.host
      → IsFresh counts stamps machine.maps
      → pid ≢ 0
      → ((pc : ℕ) → resolve_pc r pc ≡ done (name pc))
      → args.export_folded ≡ some path
      → bytes_eq path folded_file ≡ false
      → bytes_eq path temp_script_path ≡ false
      → bytes_eq path args.output ≡ false
      → (after : Files) × (main counts stamps machine args es files ≡ done (after, true))
        × (after path
            ≡ some (
                text_of (
                  map (folded_row name) (
                    converted_data machine.stack_traces
                      (run counts stamps es
                        (attach counts stamps pid args.off_cpu machine.maps)).aggregated_counts))))
        × All
            (IsProfile counts stamps machine.stack_traces pid args.off_cpu es
              (attach counts stamps pid args.off_cpu machine.maps))
            (converted_data machine.stack_traces
              (run counts stamps es
                (attach counts stamps pid args.off_cpu machine.maps)).aggregated_counts)
  main-exported machine args es files pid r name path h w fresh target found asked p1 p2 p3 =
      let rows = data_of machine args es pid in
      let exported = export_folded_stacks-map (resolve_pc r) name found rows in
      let drawn =
        w.draws (perl_arguments args)
          (prepared machine.host args (text_of (map (folded_row name) rows)) files) in
      let reported =
        report_lem machine.host args files w.can_write w.can_remove (resolve_pc r) rows exported
          drawn.1 drawn.2 in
      (
        reported.0,
        main-report machine args es files pid r h ∙ reported.1,
        reported.2 path ∙ rw (asked, p1, p3, p2) (rw (bytes_eq_refl path) refl),
        converted_data-IsProfile counts stamps machine.stack_traces pid args.off_cpu machine.maps es
            target fresh,
      )
