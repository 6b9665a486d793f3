-- ===== src/Collect/Counts/Totals.antt =====
-- What one round over the kernel's map collects: the totals, and the count of each key.
use golang_profiling.Base.{
  ℕ, ◌+◌, ◌<◌, ◌≡◌, refl, sym, ap, ◌∙◌, ◌⊎◌, inl, inr, true, false, Option, none, some, List, [],
  ◌∷◌, arith, if◌then◌else◌, Bool-cases, is_empty,
}
use golang_profiling.Base.Bytes.{u64_mod}
use golang_profiling.Base.Text.{bytes_eq}
use golang_profiling.Base.Words.{add64_exact}
use golang_profiling.Base.Assoc
use golang_profiling.Base.Assoc.Merge.{or_else-none, or_else_assoc, or_else}
use golang_profiling.Probe.Maps.{EbpfProfileKey}
use golang_profiling.Probe.Program.Keys.{same_key}
use golang_profiling.Collect.Counts.{
  ProfileKey, same_profile_key, profile_keys, convert_key, Round, empty_round, read_item,
  read_items, publish, read_aggregated_counts,
}

-- The sum of the values that can be read.
unfoldable pub readable_total : List (Option (EbpfProfileKey × ℕ)) → ℕ
readable_total [] = 0
readable_total (none ∷ items) = readable_total items
readable_total (some (key, value) ∷ items) = value + readable_total items

abbrev pub Balanced : Round → Type 0
Balanced r = r.on_cpu_samples + r.off_cpu_samples ≡ r.total_samples

-- Reading the entries of the map keeps the on-CPU and the off-CPU samples adding up to the total,
-- and adds the sum of the readable values to the total, if that fits 64 bits.
read_items-Balanced :
    (items : List (Option (EbpfProfileKey × ℕ))) (r : Round)
    → Balanced r
    → r.total_samples + readable_total items < u64_mod
    → Balanced (read_items items r)
      × ((read_items items r).total_samples ≡ r.total_samples + readable_total items)
unfolding read_items readable_total
read_items-Balanced [] r h small = (h, omega arith)
read_items-Balanced (none ∷ items) r h small = read_items-Balanced items r h small
read_items-Balanced (some (key, value) ∷ items) r h small =
    let once = one_item key value r h (omega arith) in
    let rest = read_items-Balanced items (read_item key value r) once.0 (omega (arith, once.1)) in
    (rest.0, omega (arith, once.1, rest.1))
  where
    one_item :
        (key : EbpfProfileKey) (value : ℕ) (r : Round)
        → Balanced r
        → r.total_samples + value < u64_mod
        → Balanced (read_item key value r)
          × ((read_item key value r).total_samples ≡ r.total_samples + value)
    one_item key value r h small =
        unfold read_item in
        ground (
          arith,
          add64_exact r.total_samples value small,
          add64_exact r.on_cpu_samples value,
          add64_exact r.off_cpu_samples value,
        )

-- The last readable value of a key.
unfoldable pub last_value : List (Option (EbpfProfileKey × ℕ)) → EbpfProfileKey → Option ℕ
last_value [] k = none
last_value (none ∷ items) k = last_value items k
last_value (some (key, value) ∷ items) k =
    or_else (last_value items k) (if same_key key k then some value else none)

-- Keys that the kernel tells apart stay apart.
same_profile_key-convert_key :
    (a b : EbpfProfileKey) → same_profile_key (convert_key a) (convert_key b) ≡ same_key a b
unfolding same_profile_key convert_key same_key bytes_eq
same_profile_key-convert_key a b = ground arith

lookup-read_items :
    (items : List (Option (EbpfProfileKey × ℕ))) (r : Round) (k : EbpfProfileKey)
    → Assoc.lookup profile_keys (convert_key k) (read_items items r).current_counts
      ≡ or_else (last_value items k) (Assoc.lookup profile_keys (convert_key k) r.current_counts)
unfolding read_items last_value
lookup-read_items [] r k = refl
lookup-read_items (none ∷ items) r k = lookup-read_items items r k
lookup-read_items (some (key, value) ∷ items) r k =
    lookup-read_items items (read_item key value r) k
    ∙ ap (or_else (last_value items k)) (one_item (Bool-cases (same_key key k)))
    ∙ sym (
        or_else_assoc (last_value items k) (if same_key key k then some value else none)
          (Assoc.lookup profile_keys (convert_key k) r.current_counts))
  where
    one_item :
        (same_key key k ≡ true) ⊎ (same_key key k ≡ false)
        → Assoc.lookup profile_keys (convert_key k) (read_item key value r).current_counts
          ≡ or_else
              (if same_key key k then some value else none)
              (Assoc.lookup profile_keys (convert_key k) r.current_counts)
    one_item c =
        unfold read_item in
        rw
          (
            Assoc.lookup-insert profile_keys (convert_key key) (convert_key k) value
                r.current_counts,
            same_profile_key-convert_key key k,
          )
          (elim c [ inl e ↦ rw e refl | inr e ↦ rw e refl ])

nothing : (j : ProfileKey) → Assoc.lookup profile_keys j [] ≡ none
unfolding Assoc.lookup
nothing j = refl

fresh_lookup :
    (items : List (Option (EbpfProfileKey × ℕ))) (k : EbpfProfileKey)
    → Assoc.lookup profile_keys (convert_key k) (read_items items empty_round).current_counts
      ≡ last_value items k
fresh_lookup items k =
    lookup-read_items items empty_round k
    ∙ ap (or_else (last_value items k)) (nothing (convert_key k))
    ∙ or_else-none (last_value items k)

-- A map that has a value is not empty.
has_value :
    (m : List (ProfileKey × ℕ)) (j : ProfileKey) {v : ℕ}
    → Assoc.lookup profile_keys j m ≡ some v
    → is_empty m ≡ false
has_value [] j h = cc (nothing j)
has_value (e ∷ m) j h = refl

-- After a round of `read_aggregated_counts` in which some key could be read, the new counts give,
-- for every key of the kernel, the last value that was read for it, and none for a key that was
-- not read, whatever the counts were before.
pub lookup-read_aggregated_counts :
    (items : List (Option (EbpfProfileKey × ℕ))) (aggregated : List (ProfileKey × ℕ))
    (j k : EbpfProfileKey) {v : ℕ}
    → last_value items j ≡ some v
    → Assoc.lookup profile_keys (convert_key k) (read_aggregated_counts items aggregated)
      ≡ last_value items k
unfolding read_aggregated_counts publish
lookup-read_aggregated_counts items aggregated j k h =
    let full =
      has_value (read_items items empty_round).current_counts (convert_key j)
        (fresh_lookup items j ∙ h) in
    rw full (fresh_lookup items k)
