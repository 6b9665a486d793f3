-- ===== src/Collect/Stacks.antt =====
-- From the aggregated counts to stacks, and the folded lines.
pub mod Order
pub mod Counts
pub mod Entries
pub mod Totals
pub mod Rows
pub mod Bag
use golang_profiling.Base.{
  ℕ, Option, none, some, List, [], ◌∷◌, ◌++◌, ltb, ◌==◌, if◌then◌else◌, is_empty,
}
use golang_profiling.Base.Bytes.{Bytes}
use golang_profiling.Base.Run.{Run, done, ◌>>=◌}
use golang_profiling.Base.Text.{bytes_eq, bytes_eq→eq, bytes_eq_refl, codes, decimal}
use golang_profiling.Base.Assoc
use golang_profiling.Base.Assoc.{Keys}
use golang_profiling.Probe.Maps.{sample_type_off_cpu}
use golang_profiling.Collect.Counts.{ProfileKey}
use mathlib.Core.List.{reverse}

-- A stack is a list of instruction pointers.
abbrev pub stacks : Keys (List ℕ)
stacks = record {
  same = bytes_eq;
  same_iff = λ a b. (bytes_eq→eq a b, λ e. rw e (bytes_eq_refl b));
}

-- The frames with an address.
unfoldable pub nonzero : List ℕ → List ℕ
nonzero [] = []
nonzero (ip ∷ ips) = if ip == 0 then nonzero ips else ip ∷ nonzero ips

abbrev pub or_no_frames : Option (List ℕ) → List ℕ
or_no_frames none = []
or_no_frames (some frames) = frames

-- `traces` is the map of stack traces that the kernel fills, from an id to the frames, innermost first.
module _ (traces : ℕ → Option (List ℕ)) where
  -- The frames under an id, outermost first; a negative id stands for no stack.
  unfoldable pub frames_of : ℕ → List ℕ
  frames_of stack_id =
      if ltb stack_id 0x8000_0000 then nonzero (reverse (or_no_frames (traces stack_id))) else []

  unfoldable pub stack_of : ProfileKey → List ℕ
  stack_of key = frames_of key.kernel_stack_id ++ frames_of key.user_stack_id

  pub record CpuData : Type 0 where
    pub on_cpu_data : List (List ℕ × ℕ)
    pub off_cpu_data : List (List ℕ × ℕ)

  unfoldable pub add_stack : ProfileKey → ℕ → CpuData → CpuData
  add_stack key count d =
      let stack = stack_of key in
      if is_empty stack
      then d
      else if key.sample_type == sample_type_off_cpu
      then record d { off_cpu_data = Assoc.insert stacks stack count d.off_cpu_data }
      else record d { on_cpu_data = Assoc.insert stacks stack count d.on_cpu_data }

  unfoldable pub separate : List (ProfileKey × ℕ) → CpuData → CpuData
  separate [] d = d
  separate ((key, count) ∷ counts) d = separate counts (add_stack key count d)

  -- `on_cpu_data.clone()`, into which the off-CPU data is inserted.
  unfoldable pub converted_data : List (ProfileKey × ℕ) → List (List ℕ × ℕ)
  converted_data counts =
      let d = separate counts (record { on_cpu_data = []; off_cpu_data = [] }) in
      Assoc.insert_all stacks d.off_cpu_data d.on_cpu_data

-- The symbols of a stack, joined by `;` behind what there is already.
unfoldable pub join_symbols : (ℕ → Run Bytes) → List ℕ → Run Bytes
join_symbols resolve_pc [] = done []
join_symbols resolve_pc (pc ∷ pcs) = do
  symbol ← resolve_pc pc
  rest ← join_symbols resolve_pc pcs
  done (if is_empty pcs then symbol else symbol ++ (codes ";" ++ rest))

-- `"{} {}"`, with the frames in reverse order.
unfoldable pub folded_stack : (ℕ → Run Bytes) → List ℕ → ℕ → Run Bytes
folded_stack resolve_pc stack count = do
  stack_str ← join_symbols resolve_pc (reverse stack)
  done (stack_str ++ (codes " " ++ decimal count))

-- The lines of the file that `export_folded_stacks` writes.
unfoldable pub export_folded_stacks : (ℕ → Run Bytes) → List (List ℕ × ℕ) → Run (List Bytes)
export_folded_stacks resolve_pc [] = done []
export_folded_stacks resolve_pc ((stack, count) ∷ data_rest) = do
  line ← folded_stack resolve_pc stack count
  lines ← export_folded_stacks resolve_pc data_rest
  done (line ∷ lines)
