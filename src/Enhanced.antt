-- ===== src/Enhanced.antt =====
-- `EnhancedFuncInfo` of golang-profiling-common/src/lib.rs.
use golang_profiling.Base.{ℕ, Bool, true, false, Option, none, some, ◌++◌}
use golang_profiling.Base.Bytes.{Bytes}
use golang_profiling.Base.Text.{codes, decimal}
use golang_profiling.Resolver.FuncTable.{FuncInfo}

pub record EnhancedFuncInfo : Type 0 where
  pub basic : FuncInfo
  pub function_name : Option Bytes
  pub file_path : Option Bytes
  pub precise_line : Option ℕ
  pub column : Option ℕ
  pub end_address : Option ℕ
  pub is_from_dwarf : Bool

unfoldable pub from_basic : FuncInfo → EnhancedFuncInfo
from_basic basic = record {
  basic = basic;
  function_name = none;
  file_path = none;
  precise_line = some basic.line;
  column = none;
  end_address = none;
  is_from_dwarf = false;
}

-- `unwrap_or(0)`
abbrev pub or_zero : Option ℕ → ℕ
or_zero none = 0
or_zero (some n) = n

unfoldable pub from_dwarf :
    ℕ → Option Bytes → Option Bytes → Option ℕ → Option ℕ → Option ℕ → EnhancedFuncInfo
from_dwarf entry function_name file_path line column end_address = record {
  basic = record { entry = entry; name_off = 0; file_off = 0; line = or_zero line };
  function_name = function_name;
  file_path = file_path;
  precise_line = line;
  column = column;
  end_address = end_address;
  is_from_dwarf = true;
}

unfoldable pub get_line_number : EnhancedFuncInfo → Option ℕ
get_line_number info = elim info.precise_line [
  | none ↦ some info.basic.line
  | some line ↦ some line
]

-- `get_function_name().unwrap_or("[unknown]")`
unfoldable pub name_or_unknown : Option Bytes → Bytes
name_or_unknown none = codes "[unknown]"
name_or_unknown (some s) = s

-- `"{}:{} {}"`, with the column in between if there is one.
unfoldable pub format_position : Bytes → ℕ → Option ℕ → Bytes → Bytes
format_position file line none func_name =
    file ++ (codes ":" ++ (decimal line ++ (codes " " ++ func_name)))
format_position file line (some column) func_name =
    file
    ++ (codes ":" ++ (decimal line ++ (codes ":" ++ (decimal column ++ (codes " " ++ func_name)))))

unfoldable pub format_symbol : EnhancedFuncInfo → Bytes
format_symbol info =
    let func_name = name_or_unknown info.function_name in
    elim info.file_path [
      | none ↦ func_name
      | some file ↦ elim (get_line_number info) [
        | none ↦ func_name
        | some line ↦ format_position file line info.column func_name
      ]
    ]
