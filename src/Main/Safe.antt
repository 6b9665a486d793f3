-- ===== src/Main/Safe.antt =====
-- What a panic of `main` is due to.
use golang_profiling.Base.{
  ℕ, ◌≡◌, refl, inl, inr, true, false, Option, none, some, List, [], ◌∷◌, Bool-cases,
}
use golang_profiling.Base.Bytes.{Bytes}
use golang_profiling.Base.Sort.{Ascending-get_elem?}
use golang_profiling.Base.Text.{codes}
use golang_profiling.Base.Run.{
  Run, done, panic, stuck, Returns, Allows, Allows-bind, Allows-if, Allows-then,
}
use golang_profiling.ObjectFile.{Section, ObjectFile}
use golang_profiling.Probe.Maps.{EbpfProfileKey, BpfHashMap}
use golang_profiling.Resolver.FuncTable.{FuncInfo}
use golang_profiling.Resolver.Resolve.{SymbolResolver, resolve_pc}
use golang_profiling.Resolver.Resolve.Safe.{HasCompactTable, Blame, resolve_pc-Allows}
use golang_profiling.Resolver.Load.Sorted.{HasPlainBytes, HasSortedTable, new_resolver-Sorted}
use golang_profiling.Runtime.Process.{GoRuntimeInfo, parse_process}
use golang_profiling.Collect.Stacks.{join_symbols, folded_stack, export_folded_stacks}
use golang_profiling.Command.{Args, Output, target_pid, perl_arguments}
use golang_profiling.Session.{Event}
use golang_profiling.Report.{
  Files, Host, Step, ◌>>>◌, folded_file, temp_script_path, text_of, write_file, remove_file,
  export_to, export_requested, save_output, draw, report,
}
use golang_profiling.Main.{
  Machine, start_resolver, profile_with, profile_parsed, profile_process, main,
}
use mathlib.Core.List.{reverse}

module _ (P : Type 0) where
  module _ (resolve : ℕ → Run Bytes) (safe : (pc : ℕ) → Allows P (resolve pc)) where
    join_symbols-Allows : (pcs : List ℕ) → Allows P (join_symbols resolve pcs)
    unfolding join_symbols
    join_symbols-Allows [] = tt
    join_symbols-Allows (pc ∷ pcs) = Allows-then P (resolve pc) _ (safe pc) (λ symbol e.
        Allows-then P (join_symbols resolve pcs) _ (join_symbols-Allows pcs) (λ rest q. tt))

    folded_stack-Allows : (stack : List ℕ) (count : ℕ) → Allows P (folded_stack resolve stack count)
    unfolding folded_stack
    folded_stack-Allows stack count =
        Allows-then P (join_symbols resolve (reverse stack)) _ (join_symbols-Allows (reverse stack))
          (λ s e. tt)

    export_folded-Allows :
        (stacks : List (List ℕ × ℕ)) → Allows P (export_folded_stacks resolve stacks)
    unfolding export_folded_stacks
    export_folded-Allows [] = tt
    export_folded-Allows ((stack, count) ∷ rest) =
        Allows-then P (folded_stack resolve stack count) _ (folded_stack-Allows stack count)
          (λ line e.
            Allows-then P (export_folded_stacks resolve rest) _ (export_folded-Allows rest)
              (λ l q. tt))

  next-Allows :
      (s : Step) (next : Files → Step)
      → Allows P s
      → ((files : Files) → Allows P (next files))
      → Allows P (s >>> next)
  next-Allows (done (files, true)) next h k = k files
  next-Allows (done (files, false)) next h k = tt
  next-Allows panic next h k = h
  next-Allows stuck next h k = h

  module _ (host : Host) where
    write_file-Allows :
        (path content : Bytes) (files : Files) → Allows P (write_file host path content files)
    unfolding write_file
    write_file-Allows path content files = elim (Bool-cases (host.can_write path)) [
      | inl e ↦ rw e tt
      | inr e ↦ rw e tt
    ]

    export_to-Allows :
        (rows : Run (List Bytes)) (path : Bytes) (files : Files)
        → Allows P rows
        → Allows P (export_to host rows path files)
    unfolding export_to
    export_to-Allows (done rows) path files h = write_file-Allows path (text_of rows) files
    export_to-Allows panic path files h = elim (Bool-cases (host.can_write path)) [
      | inl e ↦ rw e h
      | inr e ↦ rw e tt
    ]
    export_to-Allows stuck path files h = absurd h

    export_requested-Allows :
        (rows : Run (List Bytes)) (path : Option Bytes) (files : Files)
        → Allows P rows
        → Allows P (export_requested host rows path files)
    unfolding export_requested
    export_requested-Allows rows none files h = tt
    export_requested-Allows rows (some path) files h = export_to-Allows rows path files h

    save_output-Allows :
        (args : Args) (o : Option Output) (files : Files) → Allows P (save_output host args o files)
    unfolding save_output
    save_output-Allows args none files = tt
    save_output-Allows args (some output) files = elim (Bool-cases output.success) [
      | inr e ↦ rw e tt
      | inl e ↦ rw e (
          next-Allows _ _
            (write_file-Allows args.output output.stdout (remove_file host temp_script_path files))
            (λ f. tt))
    ]

    report-Allows :
        (args : Args) (resolve : ℕ → Run Bytes) (data_rows : List (List ℕ × ℕ)) (files : Files)
        → ((pc : ℕ) → Allows P (resolve pc))
        → Allows P (report host args resolve data_rows files)
    unfolding report draw
    report-Allows args resolve data_rows files safe =
        let rows = export_folded-Allows resolve safe data_rows in
        next-Allows _ _
          (next-Allows _ _
            (next-Allows _ _
              (export_requested-Allows (export_folded_stacks resolve data_rows) args.export_folded
                files rows)
              (λ f. export_to-Allows (export_folded_stacks resolve data_rows) folded_file f rows))
            (λ f. write_file-Allows temp_script_path host.flamegraph_script f))
          (λ f. save_output-Allows args (host.perl (perl_arguments args) f) f)

module _ (counts : BpfHashMap EbpfProfileKey) (stamps : BpfHashMap ℕ)
    (machine : Machine counts stamps) where
  -- A resolver that is made for a process, and a pc where it panics for one of the known reasons.
  abbrev pub Culprit : Type 0
  Culprit =
      (pid : ℕ) × (r : SymbolResolver) × (pc : ℕ) × (start_resolver counts stamps machine pid
          (machine.executable pid)
        ≡ done (some r))
      × Blame r pc

  module _
      (plain : (pid : ℕ) (obj : ObjectFile) (s : Section)
        → machine.executable pid ≡ some obj
        → obj.section_by_name (codes ".gopclntab") ≡ some s
        → HasPlainBytes s)
      (compact : (pid : ℕ) (r : SymbolResolver)
        → start_resolver counts stamps machine pid (machine.executable pid) ≡ done (some r)
        → HasCompactTable r.gopclntab) where
    start_resolver-Sorted :
        (pid : ℕ) (o : Option ObjectFile)
        → machine.executable pid ≡ o
        → Returns (start_resolver counts stamps machine pid o) HasSortedTable
    unfolding start_resolver
    start_resolver-Sorted pid none e = tt
    start_resolver-Sorted pid (some obj) e =
        new_resolver-Sorted obj (λ s q. plain pid obj s e q) machine.kallsyms
          (machine.memory_maps pid) (machine.debug_info pid)

    blamed :
        (pid : ℕ) (r : SymbolResolver) (pc : ℕ) (m : Run Bytes)
        → start_resolver counts stamps machine pid (machine.executable pid) ≡ done (some r)
        → Allows (Blame r pc) m
        → Allows Culprit m
    blamed pid r pc (done b) e h = h
    blamed pid r pc panic e h = (pid, r, pc, e, h)
    blamed pid r pc stuck e h = h

    profile_with-Allows :
        (args : Args) (es : List Event) (pid : ℕ) (files : Files) (o : Option SymbolResolver)
        → start_resolver counts stamps machine pid (machine.executable pid) ≡ done o
        → HasSortedTable o
        → Allows Culprit (profile_with counts stamps machine args es pid files o)
    unfolding profile_with
    profile_with-Allows args es pid files none e sorted = tt
    profile_with-Allows args es pid files (some r) e sorted =
        Allows-if Culprit machine.attaches _ (done (files, false))
          (report-Allows Culprit machine.host args (resolve_pc r) _ files (λ pc.
            blamed pid r pc (resolve_pc r pc) e (
              resolve_pc-Allows r pc (compact pid r e) (λ i j a b le p q.
                Ascending-get_elem? (λ (f : FuncInfo). f.entry) r.func_table i j sorted le p q))))
          tt

    profile_parsed-Allows :
        (args : Args) (es : List Event) (files : Files) (pid : ℕ) (o : Option GoRuntimeInfo)
        → Allows Culprit (profile_parsed counts stamps machine args es files pid o)
    unfolding profile_parsed
    profile_parsed-Allows args es files pid none = tt
    profile_parsed-Allows args es files pid (some info) =
        Allows-if Culprit machine.targets _ (done (files, false))
          (Allows-bind Culprit HasSortedTable
            (start_resolver counts stamps machine pid (machine.executable pid)) _
            (start_resolver-Sorted pid (machine.executable pid) refl)
            (λ o e sorted. profile_with-Allows args es pid files o e sorted))
          tt

    profile_process-Allows :
        (args : Args) (es : List Event) (files : Files) (o : Option ℕ)
        → Allows Culprit (profile_process counts stamps machine args es files o)
    unfolding profile_process
    profile_process-Allows args es files none = tt
    profile_process-Allows args es files (some pid) =
        Allows-if Culprit machine.loads _ (done (files, false))
          (profile_parsed-Allows args es files pid
            (parse_process (machine.executable pid) (machine.mappings pid)))
          tt

    -- If the `.gopclntab` section of every process's executable, where there is one, holds bytes
    -- without the magic number of Go 1.2 and, if `Gopclntab::new` refuses them, with no eight
    -- bytes behind offset 16 that read within 4 of 2^64, and every resolver that is made has no Go
    -- table or one of Go 1.18 or later over bytes (fewer than 2^63 of them, and fewer than 2^60
    -- functions), then for every choice of options, whatever happens while the programs run and
    -- whatever the machine answers, `main` returns, with success or with an error, unless it
    -- panics; and then there are a process, its resolver and a pc with a file index of -1 or a
    -- name that is cut inside a character, as for `resolve_pc`.
    pub main-Allows :
        (args : Args) (es : List Event) (files : Files)
        → Allows Culprit (main counts stamps machine args es files)
    unfolding main
    main-Allows args es files = profile_process-Allows args es files (target_pid machine.pgrep args)
