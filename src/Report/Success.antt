-- ===== src/Report/Success.antt =====
-- The files after a report that succeeds.
use golang_profiling.Base.{
  ℕ, ◌≡◌, refl, inl, inr, Bool, true, false, Option, none, some, List, if◌then◌else◌, Bool-cases,
}
use golang_profiling.Base.Bytes.{Bytes}
use golang_profiling.Base.Run.{Run, done}
use golang_profiling.Base.Text.{bytes_eq}
use golang_profiling.Collect.Stacks.{export_folded_stacks}
use golang_profiling.Command.{Args, Output, perl_arguments}
use golang_profiling.Report.{
  Files, set_file, Host, folded_file, temp_script_path, text_of, write_file, remove_file, export_to,
  export_requested, save_output, draw, report,
}

-- The files that `perl` is run on.
unfoldable pub with_export : Option Bytes → Bytes → Files → Files
with_export none text files = files
with_export (some path) text files = set_file path (some text) files

abbrev pub prepared : Host → Args → Bytes → Files → Files
prepared host args text files =
    set_file temp_script_path (some host.flamegraph_script)
      (set_file folded_file (some text) (with_export args.export_folded text files))

abbrev pub asked_for : Option Bytes → Bytes → Bool
asked_for none p = false
asked_for (some path) p = bytes_eq p path

pub with_export-asked_for :
    (path : Option Bytes) (text : Bytes) (files : Files) (p : Bytes)
    → with_export path text files p ≡ (if asked_for path p then some text else files p)
unfolding with_export set_file
with_export-asked_for none text files p = refl
with_export-asked_for (some path) text files p = refl

module _ (host : Host) (args : Args) (files : Files)
    (can_write : (path : Bytes) → host.can_write path ≡ true)
    (can_remove : (path : Bytes) → host.can_remove path ≡ true) where
  pub export_requested-with_export :
      (rows : List Bytes) (path : Option Bytes)
      → export_requested host (done rows) path files
        ≡ done (with_export path (text_of rows) files, true)
  unfolding export_requested with_export export_to write_file
  export_requested-with_export rows none = refl
  export_requested-with_export rows (some path) = rw (can_write path) refl

  -- The removals at the end and the output before them.
  finished : Bytes → Output → Files
  finished text output = set_file folded_file none (
      set_file args.output (some output.stdout)
        (set_file temp_script_path none (prepared host args text files)))

  report-finished :
      (resolve_pc : ℕ → Run Bytes) (converted_data : List (List ℕ × ℕ)) {rows : List Bytes}
      {output : Output}
      → export_folded_stacks resolve_pc converted_data ≡ done rows
      → host.perl (perl_arguments args) (prepared host args (text_of rows) files) ≡ some output
      → output.success ≡ true
      → report host args resolve_pc converted_data files
        ≡ done (finished (text_of rows) output, true)
  unfolding report export_to write_file draw save_output remove_file finished
  report-finished resolve_pc converted_data {rows} {output} e p ok =
      rw
        (
          e,
          export_requested-with_export rows args.export_folded,
          can_write folded_file,
          can_write temp_script_path,
          p,
          ok,
          can_remove temp_script_path,
          can_write args.output,
          can_remove folded_file,
        )
        refl

  finished_lem :
      (text : Bytes) (output : Output) (p : Bytes)
      → finished text output p ≡ (
          if bytes_eq p folded_file
          then none
          else if bytes_eq p args.output
          then some output.stdout
          else if bytes_eq p temp_script_path
          then none
          else if asked_for args.export_folded p
          then some text
          else files p)
  unfolding finished set_file
  finished_lem text output p = elim (Bool-cases (bytes_eq p folded_file)) [
    | inl e ↦ rw e refl
    | inr e ↦ elim (Bool-cases (bytes_eq p args.output)) [
      | inl f ↦ rw (e, f) refl
      | inr f ↦ elim (Bool-cases (bytes_eq p temp_script_path)) [
        | inl g ↦ rw (e, f, g) refl
        | inr g ↦ rw (e, f, g) (with_export-asked_for args.export_folded text files p)
      ]
    ]
  ]

  -- If `export_folded_stacks` returns its lines, files can be written and removed, and `perl`
  -- succeeds on the files prepared for it, the report succeeds, and then `stacks.folded` is gone,
  -- also where it is the path of the output or of `--export-folded`; else the output holds what
  -- `perl` wrote; else the script is gone; else the file of `--export-folded` holds the folded
  -- lines; and every other file is as before.
  pub report_lem :
      (resolve_pc : ℕ → Run Bytes) (converted_data : List (List ℕ × ℕ)) {rows : List Bytes}
      {output : Output}
      → export_folded_stacks resolve_pc converted_data ≡ done rows
      → host.perl (perl_arguments args) (prepared host args (text_of rows) files) ≡ some output
      → output.success ≡ true
      → (after : Files) × (report host args resolve_pc converted_data files ≡ done (after, true))
        × ((p : Bytes)
            → after p ≡ (
                if bytes_eq p folded_file
                then none
                else if bytes_eq p args.output
                then some output.stdout
                else if bytes_eq p temp_script_path
                then none
                else if asked_for args.export_folded p
                then some (text_of rows)
                else files p))
  report_lem resolve_pc converted_data {rows} {output} e p ok = (
    finished (text_of rows) output,
    report-finished resolve_pc converted_data e p ok,
    finished_lem (text_of rows) output,
  )
