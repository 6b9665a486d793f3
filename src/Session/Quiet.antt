-- ===== src/Session/Quiet.antt =====
-- A round of the reader with no event of the kernel in between, and the samples before it.
use golang_profiling.Base.{
  ℕ, ◌+◌, ◌<◌, ◌≡◌, refl, sym, ap, ◌∙◌, inl, inr, Bool, true, false, ◌||◌, Option, none, some, List,
  [], ◌∷◌, ◌++◌, if◌then◌else◌, Bool-cases, length,
}
use golang_profiling.Base.Assoc
use golang_profiling.Base.Assoc.Merge.{or_else, or_else-none}
use golang_profiling.Base.Bytes.{u64_mod}
use golang_profiling.Probe.Maps.{EbpfProfileKey, BpfHashMap, Context}
use golang_profiling.Probe.Program.{Maps, golang_profile}
use golang_profiling.Probe.Program.Keys.{same_key, same_key→eq}
use golang_profiling.Probe.Program.OnCpu.{profile_all, hits, profile_all-hits}
use golang_profiling.Collect.Counts.{
  profile_keys, convert_key, Round, empty_round, read_items, read_aggregated_counts,
}
use golang_profiling.Collect.Counts.Totals.{last_value, lookup-read_aggregated_counts}
use golang_profiling.Session.{
  Event, sampled, woken, visited, finished, visit, Session, wake, visit_key, finish, act, run,
}

-- The keys that the iterator goes through, and what a round with them is.
abbrev pub visits : List EbpfProfileKey → List Event
visits [] = []
visits (k ∷ ks) = visited k ∷ visits ks

abbrev pub round_of : List EbpfProfileKey → List Event
round_of ks = woken ∷ (visits ks ++ (finished ∷ []))

abbrev pub has_key : List EbpfProfileKey → EbpfProfileKey → Bool
has_key [] k = false
has_key (j ∷ ks) k = same_key j k || has_key ks k

abbrev pub samplings : List Context → List Event
samplings [] = []
samplings (ctx ∷ ctxs) = sampled ctx ∷ samplings ctxs

abbrev keyed : EbpfProfileKey → Option ℕ → Option (EbpfProfileKey × ℕ)
keyed k none = none
keyed k (some v) = some (k, v)

module _ (counts : BpfHashMap EbpfProfileKey) (stamps : BpfHashMap ℕ) where
  -- The items that the iterator gives.
  unfoldable pub items_of :
      Maps counts stamps → List EbpfProfileKey → List (Option (EbpfProfileKey × ℕ))
  items_of m [] = []
  items_of m (k ∷ ks) = keyed k (counts.get k m.counted) ∷ items_of m ks

  run-append :
      (es fs : List Event) (s : Session counts stamps)
      → run counts stamps (es ++ fs) s ≡ run counts stamps fs (run counts stamps es s)
  unfolding run
  run-append [] fs s = refl
  run-append (e ∷ es) fs s = run-append es fs (act counts stamps e s)

  read_items-keyed :
      (k : EbpfProfileKey) (o : Option ℕ) (items : List (Option (EbpfProfileKey × ℕ))) (r : Round)
      → read_items (keyed k o ∷ items) r ≡ read_items items (visit k o r)
  unfolding read_items visit
  read_items-keyed k none items r = refl
  read_items-keyed k (some v) items r = refl

  run-visits :
      (ks : List EbpfProfileKey) (s : Session counts stamps) (r : Round)
      → run counts stamps (visits ks) (record s { round = some r })
        ≡ record s { round = some (read_items (items_of s.maps ks) r) }
  unfolding run act visit_key items_of
  run-visits [] s r = unfold read_items in refl
  run-visits (k ∷ ks) s r =
      run-visits ks s (visit k (counts.get k s.maps.counted) r)
      ∙ ap (λ (q : Round). record s { round = some q })
          (sym (read_items-keyed k (counts.get k s.maps.counted) (items_of s.maps ks) r))

  run-finished :
      (ks : List EbpfProfileKey) (s : Session counts stamps)
      → run counts stamps (visits ks ++ (finished ∷ [])) (record s { round = some empty_round })
        ≡ record s {
          round = none;
          aggregated_counts = read_aggregated_counts (items_of s.maps ks) s.aggregated_counts;
        }
  unfolding run act finish read_aggregated_counts
  run-finished ks s =
      run-append (visits ks) (finished ∷ []) (record s { round = some empty_round })
      ∙ ap (run counts stamps (finished ∷ [])) (run-visits ks s empty_round)

  -- The round as a whole is what `read_aggregated_counts` does with these items.
  run-round_of :
      (ks : List EbpfProfileKey) (s : Session counts stamps)
      → s.round ≡ none
      → (run counts stamps (round_of ks) s).aggregated_counts
        ≡ read_aggregated_counts (items_of s.maps ks) s.aggregated_counts
  unfolding run act wake
  run-round_of ks s h =
      ap
        (λ o.
          (run counts stamps (visits ks ++ (finished ∷ []))
            (wake counts stamps o s)).aggregated_counts)
        h
      ∙ ap (λ (t : Session counts stamps). t.aggregated_counts) (run-finished ks s)

  last_value-keyed :
      (k j : EbpfProfileKey) (o : Option ℕ) (items : List (Option (EbpfProfileKey × ℕ)))
      → last_value (keyed k o ∷ items) j
        ≡ or_else (last_value items j) (if same_key k j then o else none)
  unfolding last_value
  last_value-keyed k j none items = elim (Bool-cases (same_key k j)) [
    | inl e ↦ rw e (sym (or_else-none (last_value items j)))
    | inr e ↦ rw e (sym (or_else-none (last_value items j)))
  ]
  last_value-keyed k j (some v) items = refl

  last_value-items_of :
      (ks : List EbpfProfileKey) (m : Maps counts stamps) (j : EbpfProfileKey)
      → last_value (items_of m ks) j ≡ (if has_key ks j then counts.get j m.counted else none)
  unfolding items_of
  last_value-items_of [] m j = unfold last_value in refl
  last_value-items_of (k ∷ ks) m j =
      last_value-keyed k j (counts.get k m.counted) (items_of m ks)
      ∙ ap (λ o. or_else o (if same_key k j then counts.get k m.counted else none))
          (last_value-items_of ks m j)
      ∙ (elim (Bool-cases (same_key k j)) [
        | inr e ↦ rw e (or_else-none (if has_key ks j then counts.get j m.counted else none))
        | inl e ↦ rw e (rw (same_key→eq k j e) (either (has_key ks j) (counts.get j m.counted)))
      ])
    where
      either : (b : Bool) (o : Option ℕ) → or_else (if b then o else none) o ≡ o
      either false o = refl
      either true none = refl
      either true (some v) = refl

  run-samplings :
      (ctxs : List Context) (s : Session counts stamps)
      → run counts stamps (samplings ctxs) s
        ≡ record s { maps = profile_all counts stamps ctxs s.maps }
  unfolding run act profile_all
  run-samplings [] s = refl
  run-samplings (ctx ∷ ctxs) s =
      run-samplings ctxs (record s { maps = (golang_profile counts stamps ctx s.maps).1 })

  lookup-run :
      (ks : List EbpfProfileKey) (s : Session counts stamps) (k j : EbpfProfileKey) {v : ℕ}
      → s.round ≡ none
      → has_key ks k ≡ true
      → counts.get k s.maps.counted ≡ some v
      → Assoc.lookup profile_keys
          (convert_key j)
          (run counts stamps (round_of ks) s).aggregated_counts
        ≡ (if has_key ks j then counts.get j s.maps.counted else none)
  lookup-run ks s k j {v} h listed g = rw (run-round_of ks s h) (
      lookup-read_aggregated_counts (items_of s.maps ks) s.aggregated_counts k j {v = v}
        (last_value-items_of ks s.maps k ∙ rw (listed, g) refl)
      ∙ last_value-items_of ks s.maps j)

  -- If a key is counted `n` times, no round is under way, samples are taken (fewer than would make
  -- `n` reach 2^64) and then a round goes through keys with this one among them, with no event of
  -- the kernel in between, the published count of the key is `n` plus the number of samples with
  -- this key that the filter lets through.
  pub run-published :
      (ctxs : List Context) (ks : List EbpfProfileKey) (s : Session counts stamps)
      (k : EbpfProfileKey) (n : ℕ)
      → s.round ≡ none
      → has_key ks k ≡ true
      → counts.get k s.maps.counted ≡ some n
      → n + length ctxs < u64_mod
      → Assoc.lookup profile_keys
          (convert_key k)
          (run counts stamps (samplings ctxs ++ round_of ks) s).aggregated_counts
        ≡ some (n + hits counts stamps s.maps.target_pid k ctxs)
  run-published ctxs ks s k n h listed g small =
      let grown = profile_all-hits counts stamps ctxs s.maps k n g small in
      rw (run-append (samplings ctxs) (round_of ks) s, run-samplings ctxs s)
        (lookup-run ks (record s { maps = profile_all counts stamps ctxs s.maps }) k k h listed
            grown
          ∙ rw listed grown)
