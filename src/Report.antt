-- ===== src/Report.antt =====
-- golang-profiling/src/main.rs: the files that the end of `main` writes and removes.
pub mod Success
pub mod Failure
use golang_profiling.Base.{
  ℕ, Bool, true, false, Option, none, some, List, [], ◌∷◌, ◌++◌, if◌then◌else◌,
}
use golang_profiling.Base.Bytes.{Bytes}
use golang_profiling.Base.Run.{Run, done, panic, stuck}
use golang_profiling.Base.Text.{bytes_eq, codes}
use golang_profiling.Collect.Stacks.{export_folded_stacks}
use golang_profiling.Command.{Args, Output, perl_arguments}

-- The content of each file, by its path.
abbrev pub Files : Type 0
Files = Bytes → Option Bytes

unfoldable pub set_file : Bytes → Option Bytes → Files → Files
set_file path content files p = if bytes_eq p path then content else files p

-- What the system answers: whether a file can be created and written, whether it can be removed, and
-- what `perl` does with its arguments and the files there are (`none` where it cannot be run). `perl`
-- is taken to write no file of its own.
pub record Host : Type 0 where
  pub can_write : Bytes → Bool
  pub can_remove : Bytes → Bool
  pub perl : List Bytes → Files → Option Output
  -- `FLAMEGRAPH_SCRIPT`
  pub flamegraph_script : Bytes

-- What has been done up to here, and whether to go on; `false` is the return of an error by `?`.
abbrev pub Step : Type 0
Step = Run (Files × Bool)

abbrev pub go_on : Files → Bool → (Files → Step) → Step
go_on files true next = next files
go_on files false next = done (files, false)

infixl 5 ◌>>>◌
abbrev pub ◌>>>◌ : Step → (Files → Step) → Step
done (files, ok) >>> next = go_on files ok next
panic >>> next = panic
stuck >>> next = stuck

abbrev pub folded_file : Bytes
folded_file = codes "stacks.folded"

abbrev pub temp_script_path : Bytes
temp_script_path = codes "/tmp/flamegraph_embedded.pl"

-- `writeln!` of each line.
unfoldable pub text_of : List Bytes → Bytes
text_of [] = []
text_of (line ∷ rest) = line ++ (codes "\n" ++ text_of rest)

module _ (host : Host) where
  -- `fs::write`. A file that cannot be written is taken to stay as it is.
  unfoldable pub write_file : Bytes → Bytes → Files → Step
  write_file path content files =
      if host.can_write path
      then done (set_file path (some content) files, true)
      else done (files, false)

  -- `let _ = fs::remove_file(path)`: an error is passed over.
  unfoldable pub remove_file : Bytes → Files → Files
  remove_file path files = if host.can_remove path then set_file path none files else files

  -- `export_folded_stacks`: the file is created before any name is looked up.
  unfoldable pub export_to : Run (List Bytes) → Bytes → Files → Step
  export_to (done rows) path files = write_file path (text_of rows) files
  export_to panic path files = if host.can_write path then panic else done (files, false)
  export_to stuck path files = if host.can_write path then stuck else done (files, false)

  unfoldable pub export_requested : Run (List Bytes) → Option Bytes → Files → Step
  export_requested rows none files = done (files, true)
  export_requested rows (some path) files = export_to rows path files

  -- `cmd.output()?`, the removal of the script, the test of the status, and the two files.
  unfoldable pub save_output : Args → Option Output → Files → Step
  save_output args none files = done (files, false)
  save_output args (some output) files =
      let cleaned = remove_file temp_script_path files in
      if output.success
      then write_file args.output output.stdout cleaned
        >>> (λ written. done (remove_file folded_file written, true))
      else done (cleaned, false)

  unfoldable pub draw : Args → Files → Step
  draw args files = save_output args (host.perl (perl_arguments args) files) files

  unfoldable pub report : Args → (ℕ → Run Bytes) → List (List ℕ × ℕ) → Files → Step
  report args resolve_pc converted_data files =
      let rows = export_folded_stacks resolve_pc converted_data in
      export_requested rows args.export_folded files
      >>> export_to rows folded_file
      >>> write_file temp_script_path host.flamegraph_script
      >>> draw args
