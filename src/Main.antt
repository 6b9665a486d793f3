-- ===== src/Main.antt =====
-- golang-profiling/src/main.rs: `main`, from the options to the files.
pub mod Exported
pub mod Safe
use golang_profiling.Base.{ℕ, Bool, false, Option, none, some, List, if◌then◌else◌}
use golang_profiling.Base.Bytes.{Bytes}
use golang_profiling.Base.Run.{Run, done, panic, stuck, ◌>>=◌}
use golang_profiling.ObjectFile.{ObjectFile}
use golang_profiling.Probe.Maps.{EbpfProfileKey, BpfHashMap}
use golang_profiling.Probe.Program.{Maps}
use golang_profiling.Dwarf.{DwarfParser}
use golang_profiling.Resolver.Resolve.{SymbolResolver, resolve_pc}
use golang_profiling.Resolver.Load.{MemoryMap, new_resolver}
use golang_profiling.Runtime.Process.{GoRuntimeInfo, parse_process}
use golang_profiling.Collect.Stacks.{converted_data}
use golang_profiling.Command.{Args, Output, target_pid}
use golang_profiling.Session.{Event, attach, run}
use golang_profiling.Report.{Files, Host, Step, report}

module _ (counts : BpfHashMap EbpfProfileKey) (stamps : BpfHashMap ℕ) where
  -- What the machine answers: the output of `pgrep`; for a process its executable, the text and the
  -- entries of its mappings and its debug information; the kernel's symbols; whether the programs can
  -- be loaded, the target set, and the programs attached; the kernel's maps; and what the report needs.
  pub record Machine : Type 0 where
    pub pgrep : Bytes → Option Output
    pub executable : ℕ → Option ObjectFile
    pub mappings : ℕ → Option Bytes
    pub memory_maps : ℕ → Option (List MemoryMap)
    pub debug_info : ℕ → Option DwarfParser
    pub kallsyms : Option Bytes
    pub loads : Bool
    pub targets : Bool
    pub attaches : Bool
    pub maps : Maps counts stamps
    pub stack_traces : ℕ → Option (List ℕ)
    pub host : Host

  unfoldable pub start_resolver : Machine → ℕ → Option ObjectFile → Run (Option SymbolResolver)
  start_resolver machine pid none = done none
  start_resolver machine pid (some obj) =
      new_resolver machine.kallsyms obj (machine.memory_maps pid) (machine.debug_info pid)

  -- From the attachment of the programs on. `es` is what happens until the time is over.
  unfoldable pub profile_with :
      Machine → Args → List Event → ℕ → Files → Option SymbolResolver → Step
  profile_with machine args es pid files none = done (files, false)
  profile_with machine args es pid files (some resolver) =
      if machine.attaches
      then report machine.host args (resolve_pc resolver)
          (converted_data machine.stack_traces
            (run counts stamps es
              (attach counts stamps pid args.off_cpu machine.maps)).aggregated_counts)
          files
      else done (files, false)

  -- After `parse_process(target_pid)?`.
  unfoldable pub profile_parsed :
      Machine → Args → List Event → Files → ℕ → Option GoRuntimeInfo → Step
  profile_parsed machine args es files pid none = done (files, false)
  profile_parsed machine args es files pid (some info) =
      if machine.targets
      then start_resolver machine pid (machine.executable pid)
        >>= profile_with machine args es pid files
      else done (files, false)

  unfoldable pub profile_process : Machine → Args → List Event → Files → Option ℕ → Step
  profile_process machine args es files none = done (files, false)
  profile_process machine args es files (some pid) =
      if machine.loads
      then profile_parsed machine args es files pid
          (parse_process (machine.executable pid) (machine.mappings pid))
      else done (files, false)

  -- The result is `false` for an error, and for the exit where no process is named.
  unfoldable pub main : Machine → Args → List Event → Files → Step
  main machine args es files = profile_process machine args es files (target_pid machine.pgrep args)
