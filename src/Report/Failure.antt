-- ===== src/Report/Failure.antt =====
-- The files after a report that fails because of `perl`.
use golang_profiling.Base.{
  ℕ, ◌≡◌, refl, inl, inr, Bool, true, false, ◌||◌, Option, none, some, List, if◌then◌else◌,
  Bool-cases,
}
use golang_profiling.Base.Bytes.{Bytes}
use golang_profiling.Base.Run.{Run, done}
use golang_profiling.Base.Text.{bytes_eq}
use golang_profiling.Collect.Stacks.{export_folded_stacks}
use golang_profiling.Command.{Args, Output, perl_arguments}
use golang_profiling.Report.{
  Files, set_file, Host, folded_file, temp_script_path, text_of, write_file, remove_file, export_to,
  save_output, draw, report,
}
use golang_profiling.Report.Success.{
  prepared, asked_for, with_export-asked_for, export_requested-with_export,
}

-- `perl` could be run, with or without success.
abbrev pub succeeded : Option Output → Bool
succeeded none = false
succeeded (some output) = output.success

-- The script is removed only if `perl` could be run.
abbrev pub script_left : Bytes → Option Output → Option Bytes
script_left script none = some script
script_left script (some output) = none

module _ (host : Host) (args : Args) (files : Files)
    (can_write : (path : Bytes) → host.can_write path ≡ true)
    (can_remove : (path : Bytes) → host.can_remove path ≡ true) where
  failed : Bytes → Option Output → Files
  failed text none = prepared host args text files
  failed text (some output) = set_file temp_script_path none (prepared host args text files)

  save_output-failed :
      (text : Bytes) (answer : Option Output)
      → succeeded answer ≡ false
      → save_output host args answer (prepared host args text files)
        ≡ done (failed text answer, false)
  unfolding save_output failed remove_file
  save_output-failed text none h = refl
  save_output-failed text (some output) h = rw (h, can_remove temp_script_path) refl

  report-failed :
      (resolve_pc : ℕ → Run Bytes) (converted_data : List (List ℕ × ℕ)) {rows : List Bytes}
      {answer : Option Output}
      → export_folded_stacks resolve_pc converted_data ≡ done rows
      → host.perl (perl_arguments args) (prepared host args (text_of rows) files) ≡ answer
      → succeeded answer ≡ false
      → report host args resolve_pc converted_data files
        ≡ done (failed (text_of rows) answer, false)
  unfolding report export_to write_file draw
  report-failed resolve_pc converted_data {rows} {answer} e p bad =
      rw
        (
          e,
          export_requested-with_export host args files can_write can_remove rows args.export_folded,
          can_write folded_file,
          can_write temp_script_path,
          p,
        )
        (save_output-failed (text_of rows) answer bad)

  failed_lem :
      (text : Bytes) (answer : Option Output) (p : Bytes)
      → failed text answer p ≡ (
          if bytes_eq p temp_script_path
          then script_left host.flamegraph_script answer
          else if bytes_eq p folded_file || asked_for args.export_folded p
          then some text
          else files p)
  unfolding failed set_file
  failed_lem text none p = elim (Bool-cases (bytes_eq p temp_script_path)) [
    | inl e ↦ rw e refl
    | inr e ↦ elim (Bool-cases (bytes_eq p folded_file)) [
      | inl f ↦ rw (e, f) refl
      | inr f ↦ rw (e, f) (with_export-asked_for args.export_folded text files p)
    ]
  ]
  failed_lem text (some output) p = elim (Bool-cases (bytes_eq p temp_script_path)) [
    | inl e ↦ rw e refl
    | inr e ↦ elim (Bool-cases (bytes_eq p folded_file)) [
      | inl f ↦ rw (e, f) refl
      | inr f ↦ rw (e, f) (with_export-asked_for args.export_folded text files p)
    ]
  ]

  -- If `export_folded_stacks` returns its lines and files can be written and removed, but `perl`
  -- cannot be run or fails on the files prepared for it, the report fails, and then the script is
  -- left only if `perl` could not be run, `stacks.folded` and the file of `--export-folded` are
  -- left with the folded lines, and every other file, and so the output, is as before.
  pub report-perl :
      (resolve_pc : ℕ → Run Bytes) (converted_data : List (List ℕ × ℕ)) {rows : List Bytes}
      {answer : Option Output}
      → export_folded_stacks resolve_pc converted_data ≡ done rows
      → host.perl (perl_arguments args) (prepared host args (text_of rows) files) ≡ answer
      → succeeded answer ≡ false
      → (after : Files) × (report host args resolve_pc converted_data files ≡ done (after, false))
        × ((p : Bytes)
            → after p ≡ (
                if bytes_eq p temp_script_path
                then script_left host.flamegraph_script answer
                else if bytes_eq p folded_file || asked_for args.export_folded p
                then some (text_of rows)
                else files p))
  report-perl resolve_pc converted_data {rows} {answer} e p bad = (
    failed (text_of rows) answer,
    report-failed resolve_pc converted_data e p bad,
    failed_lem (text_of rows) answer,
  )
