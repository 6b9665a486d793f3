-- ===== src/Collect/Counts.antt =====
-- One round of `read_aggregated_counts`.
pub mod Totals
use golang_profiling.Base.{
  ℕ, ◌≡◌, Bool, true, ◌&&◌, Option, none, some, List, [], ◌∷◌, arith, ◌==◌, if◌then◌else◌, is_empty,
}
use golang_profiling.Base.Bytes.{Bytes}
use golang_profiling.Base.Words.{add64}
use golang_profiling.Base.Text.{bytes_eq, bytes_eq→eq, bytes_eq_refl}
use golang_profiling.Base.Assoc
use golang_profiling.Base.Assoc.{Keys}
use golang_profiling.Probe.Maps.{EbpfProfileKey, sample_type_off_cpu}

-- golang-profiling-common: `ProfileKey`
pub record ProfileKey : Type 0 where
  pub pid : ℕ
  pub kernel_ip : ℕ
  pub user_stack_id : ℕ
  pub kernel_stack_id : ℕ
  pub name : Bytes
  pub sample_type : ℕ

unfoldable pub same_profile_key : ProfileKey → ProfileKey → Bool
same_profile_key a b =
    a.pid == b.pid
    && a.kernel_ip == b.kernel_ip
    && a.user_stack_id == b.user_stack_id
    && a.kernel_stack_id == b.kernel_stack_id
    && bytes_eq a.name b.name
    && a.sample_type == b.sample_type

pub same_profile_key→eq : (a b : ProfileKey) → same_profile_key a b ≡ true → a ≡ b
unfolding same_profile_key
same_profile_key→eq a b h = ground (arith, bytes_eq→eq a.name b.name)

pub same_profile_key_refl : (a : ProfileKey) → same_profile_key a a ≡ true
unfolding same_profile_key
same_profile_key_refl a = ground (arith, bytes_eq_refl a.name)

abbrev pub profile_keys : Keys ProfileKey
profile_keys = record {
  same = same_profile_key;
  same_iff = λ a b. (same_profile_key→eq a b, λ e. rw e (same_profile_key_refl b));
}

unfoldable pub convert_key : EbpfProfileKey → ProfileKey
convert_key k = record {
  pid = k.pid;
  kernel_ip = 0;
  user_stack_id = k.user_stack_id;
  kernel_stack_id = k.kernel_stack_id;
  name = 0 ∷ 0 ∷ 0 ∷ 0 ∷ 0 ∷ 0 ∷ 0 ∷ 0 ∷ 0 ∷ 0 ∷ 0 ∷ 0 ∷ 0 ∷ 0 ∷ 0 ∷ 0 ∷ [];
  sample_type = k.sample_type;
}

-- What the loop over the map's entries builds.
pub record Round : Type 0 where
  pub current_counts : List (ProfileKey × ℕ)
  pub total_samples : ℕ
  pub on_cpu_samples : ℕ
  pub off_cpu_samples : ℕ

abbrev pub empty_round : Round
empty_round = record {
  current_counts = [];
  total_samples = 0;
  on_cpu_samples = 0;
  off_cpu_samples = 0;
}

unfoldable pub read_item : EbpfProfileKey → ℕ → Round → Round
read_item key value r =
    let off = key.sample_type == sample_type_off_cpu in
    record {
      current_counts = Assoc.insert profile_keys (convert_key key) value r.current_counts;
      total_samples = add64 r.total_samples value;
      on_cpu_samples = (if off then r.on_cpu_samples else add64 r.on_cpu_samples value);
      off_cpu_samples = (if off then add64 r.off_cpu_samples value else r.off_cpu_samples);
    }

-- An entry that cannot be read (`none`) is passed over.
unfoldable pub read_items : List (Option (EbpfProfileKey × ℕ)) → Round → Round
read_items [] r = r
read_items (none ∷ items) r = read_items items r
read_items (some (key, value) ∷ items) r = read_items items (read_item key value r)

-- The end of a round: the state is replaced, unless nothing was read. (The log lines are left out.)
unfoldable pub publish : Round → List (ProfileKey × ℕ) → List (ProfileKey × ℕ)
publish r aggregated = if is_empty r.current_counts then aggregated else r.current_counts

unfoldable pub read_aggregated_counts :
    List (Option (EbpfProfileKey × ℕ)) → List (ProfileKey × ℕ) → List (ProfileKey × ℕ)
read_aggregated_counts items aggregated = publish (read_items items empty_round) aggregated
