-- ===== src/Probe/Maps.antt =====
-- The profile key, the kernel's maps as an interface, and the state of the probe.
use golang_profiling.Base.{ℕ, ◌/◌, ◌%◌, ◌^◌, ◌≡◌, ◌≢◌, ◌⊎◌, Option, none, some}

abbrev pub sample_type_on_cpu : ℕ
sample_type_on_cpu = 1

abbrev pub sample_type_off_cpu : ℕ
sample_type_off_cpu = 2

-- Stack ids are bit patterns of `i32`. The three bytes of padding are always 0 and are left out.
pub record EbpfProfileKey : Type 0 where
  pub pid : ℕ
  pub user_stack_id : ℕ
  pub kernel_stack_id : ℕ
  pub sample_type : ℕ

-- A BPF hash map with `u64` values, as the kernel documents it. An insertion of a new key into a full
-- map fails and leaves the map; the code drops that error, so `insert` here gives the map alone.
pub record BpfHashMap (K : Type 0) : Type 1 where
  pub Map : Type 0
  pub get : K → Map → Option ℕ
  pub insert : K → ℕ → Map → Map
  pub remove : K → Map → Map
  pub get-insert_self :
      (k : K) (v : ℕ) (m : Map)
      → (get k (insert k v m) ≡ some v) ⊎ ((get k m ≡ none) × (get k (insert k v m) ≡ none))
  pub get-insert_other : (k j : K) (v : ℕ) (m : Map) → k ≢ j → get j (insert k v m) ≡ get j m
  pub get-remove_self : (k : K) (m : Map) → get k (remove k m) ≡ none
  pub get-remove_other : (k j : K) (m : Map) → k ≢ j → get j (remove k m) ≡ get j m
  -- There is room for a key that has just been removed.
  pub get-insert-remove :
      (k : K) (v w : ℕ) (m : Map) → get k m ≡ some w → get k (insert k v (remove k m)) ≡ some v

-- What a program sees of the event that runs it: the ids of the current thread, what the two calls of
-- `get_stackid` would answer (`none` for an error), and the clock.
pub record Context : Type 0 where
  pub pid_tgid : ℕ
  pub user_stackid : Option ℕ
  pub kernel_stackid : Option ℕ
  pub now : ℕ

-- `.unwrap_or(-1) as i32`
unfoldable pub stack_id : Option ℕ → ℕ
stack_id none = 0xffff_ffff
stack_id (some n) = n % 0x1_0000_0000

-- `(pid_tgid >> 32) as u32`
unfoldable pub tgid_of : Context → ℕ
tgid_of ctx = ctx.pid_tgid / 2 ^ 32 % 2 ^ 32
