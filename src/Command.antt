-- ===== src/Command.antt =====
-- golang-profiling/src/main.rs: the process to profile, and the call of the flame graph script.
pub mod Pid
use golang_profiling.Base.{ℕ, Bool, false, Option, none, some, List, [], ◌∷◌, ◌++◌, if◌then◌else◌}
use golang_profiling.Base.Bytes.{Bytes}
use golang_profiling.Base.Text.{codes, decimal}
use golang_profiling.Base.Utf8.{from_utf8}
use golang_profiling.Base.Lines.{lines, trim}
use golang_profiling.Base.Radix.{parse_u32}

-- The options, as the library clap hands them over. A path is its text, and the font size, a
-- floating-point number, is the text that `to_string` gives for it.
pub record Args : Type 0 where
  pub pid : Option ℕ
  pub process_name : Option Bytes
  pub duration : ℕ
  pub output : Bytes
  pub off_cpu : Bool
  pub frequency : ℕ
  pub verbose : Bool
  pub export_folded : Option Bytes
  pub title : Bytes
  pub subtitle : Option Bytes
  pub colors : Bytes
  pub bgcolors : Option Bytes
  pub width : ℕ
  pub height : ℕ
  pub fonttype : Bytes
  pub fontsize : Bytes
  pub inverted : Bool
  pub flamechart : Bool
  pub hash : Bool
  pub random : Bool

-- What the command line gives where no option is set.
abbrev pub default_args : Args
default_args = record {
  pid = none;
  process_name = none;
  duration = 5;
  output = codes "flamegraph.svg";
  off_cpu = false;
  frequency = 99;
  verbose = false;
  export_folded = none;
  title = codes "Golang CPU Profiling";
  subtitle = none;
  colors = codes "kernel_user";
  bgcolors = none;
  width = 1200;
  height = 16;
  fonttype = codes "Verdana";
  fontsize = codes "12";
  inverted = false;
  flamechart = false;
  hash = false;
  random = false;
}

-- What the command `pgrep -f NAME` gives: whether it succeeded, and its output.
pub record Output : Type 0 where
  pub success : Bool
  pub stdout : Bytes

unfoldable pub first_line : List Bytes → Option Bytes
first_line [] = none
first_line (l ∷ ls) = some l

unfoldable pub parse_pid : Option Bytes → Option ℕ
parse_pid none = none
parse_pid (some stdout) = elim (first_line (lines (trim stdout))) [
  | none ↦ none
  | some line ↦ parse_u32 line
]

-- `output` is `none` where the command cannot be run. `none` as the result is an error.
unfoldable pub find_process_by_name : Option Output → Option ℕ
find_process_by_name none = none
find_process_by_name (some output) =
    if output.success then parse_pid (from_utf8 output.stdout) else none

-- The process to profile, with `pgrep` for the output of that command for a name; without both options
-- the program exits.
unfoldable pub target_pid : (Bytes → Option Output) → Args → Option ℕ
target_pid pgrep args = elim args.pid [
  | some pid ↦ some pid
  | none ↦ elim args.process_name [ none ↦ none | some name ↦ find_process_by_name (pgrep name) ]
]

abbrev pub optional_arg : Bytes → Option Bytes → List Bytes
optional_arg option none = []
optional_arg option (some value) = option ∷ (value ∷ [])

abbrev pub flag_arg : Bytes → Bool → List Bytes
flag_arg option set = if set then option ∷ [] else []

-- The arguments of `perl`.
unfoldable pub perl_arguments : Args → List Bytes
perl_arguments args =
    (codes "/tmp/flamegraph_embedded.pl" ∷ (codes "--title" ∷ (args.title ∷ [])))
    ++ (optional_arg (codes "--subtitle") args.subtitle
        ++ ((codes "--colors" ∷ (args.colors ∷ []))
            ++ (optional_arg (codes "--bgcolors") args.bgcolors
                ++ ((codes "--width"
                      ∷ (decimal args.width
                          ∷ (codes "--height"
                              ∷ (decimal args.height
                                  ∷ (codes "--fonttype"
                                      ∷ (args.fonttype
                                          ∷ (codes "--fontsize" ∷ (args.fontsize ∷ []))))))))
                    ++ (flag_arg (codes "--inverted") args.inverted
                        ++ (flag_arg (codes "--flamechart") args.flamechart
                            ++ (flag_arg (codes "--hash") args.hash
                                ++ (flag_arg (codes "--random") args.random
                                    ++ (codes "stacks.folded" ∷ [])))))))))
