-- ===== src/Examples/Collected.antt =====
-- Collected counts, their stacks, and names of functions.
use golang_profiling.Base.{
  ℕ, ◌≡◌, refl, true, false, Option, none, some, List, [], ◌∷◌, ◌++◌, ◌==◌, if◌then◌else◌,
}
use golang_profiling.Base.Bytes.{Bytes}
use golang_profiling.Base.Run.{panic}
use golang_profiling.Base.Text.{bytes_eq, codes, begins_with, replace, replace_loop}
use golang_profiling.Base.Assoc
use golang_profiling.Base.Assoc.Merge.{or_else}
use golang_profiling.Probe.Maps.{EbpfProfileKey}
use golang_profiling.Collect.Counts.{ProfileKey, convert_key}
use golang_profiling.Collect.Stacks.{
  stacks, stack_of, frames_of, nonzero, converted_data, separate, add_stack,
}
use golang_profiling.Collect.Stacks.Counts.{last_count, lookup-converted_data}
use golang_profiling.Resolver.Names.{
  clean_go_function_name, replace_all, hex_part, is_char_boundary,
}

abbrev key : EbpfProfileKey
key = record { pid = 5; user_stack_id = 1; kernel_stack_id = 2; sample_type = 1 }

abbrev off_key : EbpfProfileKey
off_key = record { pid = 5; user_stack_id = 1; kernel_stack_id = 2; sample_type = 2 }

-- Three stacks of the kernel; 1 and 3 are equal.
abbrev pub traces : ℕ → Option (List ℕ)
traces id =
    if id == 1
    then some (16 ∷ 32 ∷ 0 ∷ [])
    else if id == 2
    then some (64 ∷ [])
    else if id == 3
    then some (16 ∷ 32 ∷ [])
    else none

abbrev pub counted : List (ProfileKey × ℕ)
counted =
    (convert_key key, 3)
    ∷ (convert_key (record key { user_stack_id = 3 }), 4)
    ∷ (convert_key off_key, 40)
    ∷ []

lookup-converted_data_example :
    Assoc.lookup stacks (64 ∷ 32 ∷ 16 ∷ []) (converted_data traces counted)
    ≡ or_else
        (last_count traces true counted (64 ∷ 32 ∷ 16 ∷ []))
        (last_count traces false counted (64 ∷ 32 ∷ 16 ∷ []))
lookup-converted_data_example = lookup-converted_data traces counted (64 ∷ 32 ∷ 16 ∷ [])

-- Of the 47 samples of this stack only 40 are left.
converted_run : converted_data traces counted ≡ (64 ∷ 32 ∷ 16 ∷ [], 40) ∷ []
unfolding converted_data separate add_stack stack_of frames_of nonzero convert_key bytes_eq
    Assoc.insert Assoc.insert_all
converted_run = refl

abbrev symbols : List (ℕ × Bytes)
symbols = (4096, codes "do_idle") ∷ (8192, codes "schedule") ∷ []

-- A name that is cut inside a character.
clean_run : clean_go_function_name (codes "0x1234567" ++ (0xc3 ∷ 0xa9 ∷ [])) ≡ panic
unfolding clean_go_function_name replace_all hex_part is_char_boundary replace replace_loop
    begins_with
clean_run = refl
