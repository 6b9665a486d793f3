-- ===== src/Pclntab/Pcvalue.antt =====
-- `Pcval`, the reader of the tables that give a value (a line, a file) for each range of pcs, and the
-- two methods of `Gopclntab` that use it.
pub mod Encoding
pub mod Ends
pub mod Lookup
pub mod Safe
use golang_profiling.Base.{
  ℕ, zero, suc, ◌-◌, ◌/◌, bit_and, bit_or, Bool, true, false, not, Option, none, some, [], ◌∷◌, ltb,
  leb, ◌==◌, if◌then◌else◌, length,
}
use golang_profiling.Base.Bytes.{Bytes, u32_mod, i32_as_usize}
use golang_profiling.Base.Words.{add64, add32, mul32, shl32, not32}
use golang_profiling.Base.Run.{Run, done, stuck, ◌>>=◌, slice_from}
use golang_profiling.Pclntab.Parse.{Gopclntab}

-- `val` is the bit pattern of an `i32`.
pub record Pcval : Type 0 where
  pub ptr : Bytes
  pub pc_start : ℕ
  pub pc_end : ℕ
  pub val : ℕ
  pub quantum : ℕ

-- The loop of `get_int`: the number so far and the shift; the number read, and the bytes left.
unfoldable pub get_int_loop : Bytes → ℕ → ℕ → ℕ × Bytes
get_int_loop [] v shift = (0, [])
get_int_loop (b ∷ bs) v shift =
    let v' = bit_or v (shl32 (bit_and b 0x7f) shift) in
    let more = get_int_loop bs v' (add32 shift 7) in if bit_and b 0x80 == 0 then (v', bs) else more

unfoldable pub get_int : Bytes → ℕ × Bytes
get_int bs = get_int_loop bs 0 0

-- The zig-zag decoding of a delta.
unfoldable pub zigzag : ℕ → ℕ
zigzag d = if not (bit_and d 1 == 0) then not32 (d / 2) else d / 2

-- The part of `step` behind its guard: two numbers are read.
unfoldable pub advance : Pcval → Pcval
advance p =
    let (d, ptr') = get_int p.ptr in
    let (n, ptr'') = get_int ptr' in
    record {
      ptr = ptr'';
      pc_start = p.pc_end;
      pc_end = add64 p.pc_end (mul32 n p.quantum);
      val = add32 p.val (zigzag d);
      quantum = p.quantum;
    }

-- `self.ptr.is_empty() || self.ptr[0] == 0`
unfoldable pub at_end : Bytes → Bool
at_end [] = true
at_end (b ∷ bs) = b == 0

unfoldable pub step : Pcval → Pcval × Bool
step p = if at_end p.ptr then (p, false) else (advance p, true)

-- `Pcval::new`: the value starts at -1, and one line is executed, whether or not it succeeds.
unfoldable pub pcval_new : Bytes → ℕ → ℕ → Pcval
pcval_new bs pc quantum =
    (step (record { ptr = bs; pc_start = 0; pc_end = pc; val = u32_mod - 1; quantum = quantum })).0

unfoldable pub get_pcval : Gopclntab → ℕ → ℕ → Run (Option Pcval)
get_pcval g offs start_pc =
    if ltb (i32_as_usize offs) (length g.pctab)
    then (do
      bs ← slice_from g.pctab (i32_as_usize offs)
      done (some (pcval_new bs start_pc g.quantum)))
    else done none

-- `while pc >= p.pc_end { if !p.step() { return None; } }`
unfoldable pub map_pcval_loop : ℕ → Pcval → ℕ → Run (Option ℕ)
map_pcval_loop zero p pc = stuck
map_pcval_loop (suc fuel) p pc =
    let rest = map_pcval_loop fuel (step p).0 pc in
    if leb p.pc_end pc then if (step p).1 then rest else done none else done (some p.val)

-- Each step reads a byte at least, so one round more than there are bytes is enough.
unfoldable pub search_pcval : Option Pcval → ℕ → Run (Option ℕ)
search_pcval none pc = done none
search_pcval (some p) pc = map_pcval_loop (suc (length p.ptr)) p pc

unfoldable pub map_pcval : Gopclntab → ℕ → ℕ → ℕ → Run (Option ℕ)
map_pcval g offs start_pc pc = do p ← get_pcval g offs start_pc; search_pcval p pc
