-- ===== src/Session/Sourced.antt =====
-- Where the published counts come from.
use golang_profiling.Base.{
  ℕ, ◌≡◌, refl, ◌⊎◌, inl, inr, Bool, true, Option, none, some, List, [], ◌∷◌, Bool-cases, is_empty,
  All,
}
use golang_profiling.Base.Assoc.Entries.{insert-All}
use golang_profiling.Probe.Maps.{
  EbpfProfileKey, BpfHashMap, sample_type_on_cpu, sample_type_off_cpu,
}
use golang_profiling.Probe.Program.{Maps}
use golang_profiling.Probe.Program.Filter.{IsOfTarget, IsFiltered}
use golang_profiling.Collect.Counts.{
  ProfileKey, profile_keys, convert_key, Round, read_item, publish,
}
use golang_profiling.Session.{
  Event, sampled, switched, woken, visited, failed, finished, visit, Session, attach, wake,
  visit_key, finish, act, run,
}
use golang_profiling.Session.Filter.{IsOnCpu, Kept, act-Kept}

module _ (counts : BpfHashMap EbpfProfileKey) (stamps : BpfHashMap ℕ) where
  -- The kernel's count of `k` is `v` at some moment of the run.
  unfoldable pub WasCounted : EbpfProfileKey → ℕ → List Event → Session counts stamps → Type 0
  WasCounted k v [] s = counts.get k s.maps.counted ≡ some v
  WasCounted k v (e ∷ es) s =
      (counts.get k s.maps.counted ≡ some v) ⊎ WasCounted k v es (act counts stamps e s)

  module _ (P : ProfileKey × ℕ → Type 0) where
    -- Each published entry, and each one that the round under way has read, has the property.
    abbrev AllRound : Option Round → Type 0
    AllRound none = Unit {0}
    AllRound (some r) = All P r.current_counts

    abbrev AllRead : Session counts stamps → Type 0
    AllRead s = All P s.aggregated_counts × AllRound s.round

    wake-AllRead :
        (r : Option Round) (s : Session counts stamps)
        → All P s.aggregated_counts
        → AllRound s.round
        → AllRead (wake counts stamps r s)
    unfolding wake
    wake-AllRead none s h g = (h, tt)
    wake-AllRead (some r) s h g = (h, g)

    visit-All :
        (key : EbpfProfileKey) (o : Option ℕ) (r : Round)
        → ((v : ℕ) → o ≡ some v → P (convert_key key, v))
        → All P r.current_counts
        → All P (visit key o r).current_counts
    unfolding visit read_item
    visit-All key none r p h = h
    visit-All key (some v) r p h =
        insert-All profile_keys P (convert_key key) v r.current_counts (p v refl) h

    visit_key-AllRead :
        (key : EbpfProfileKey) (r : Option Round) (s : Session counts stamps)
        → ((v : ℕ) → counts.get key s.maps.counted ≡ some v → P (convert_key key, v))
        → All P s.aggregated_counts
        → AllRound s.round
        → AllRound r
        → AllRead (visit_key counts stamps key r s)
    unfolding visit_key
    visit_key-AllRead key none s p h g q = (h, g)
    visit_key-AllRead key (some r) s p h g q =
        (h, visit-All key (counts.get key s.maps.counted) r p q)

    finish-AllRead :
        (r : Option Round) (s : Session counts stamps)
        → All P s.aggregated_counts
        → AllRound s.round
        → AllRound r
        → AllRead (finish counts stamps r s)
    unfolding finish publish
    finish-AllRead none s h g q = (h, g)
    finish-AllRead (some r) s h g q = elim (Bool-cases (is_empty r.current_counts)) [
      | inl e ↦ rw e (h, tt)
      | inr e ↦ rw e (q, tt)
    ]

    act-AllRead :
        (e : Event) (s : Session counts stamps)
        → ((k : EbpfProfileKey) (v : ℕ)
            → counts.get k s.maps.counted ≡ some v
            → P (convert_key k, v))
        → AllRead s
        → AllRead (act counts stamps e s)
    unfolding act
    act-AllRead (sampled ctx) s p h = h
    act-AllRead (switched ctx) s p h = elim (Bool-cases s.off_cpu) [
      | inl e ↦ rw e h
      | inr e ↦ rw e h
    ]
    act-AllRead woken s p h = wake-AllRead s.round s h.0 h.1
    act-AllRead (visited key) s p h = visit_key-AllRead key s.round s (p key) h.0 h.1 h.1
    act-AllRead failed s p h = h
    act-AllRead finished s p h = finish-AllRead s.round s h.0 h.1 h.1

    -- A property of all that the kernel counts in a run is one of all that is published.
    run-All :
        (es : List Event) (s : Session counts stamps)
        → ((k : EbpfProfileKey) (v : ℕ) → WasCounted k v es s → P (convert_key k, v))
        → AllRead s
        → All P (run counts stamps es s).aggregated_counts
    unfolding run WasCounted
    run-All [] s p h = h.0
    run-All (e ∷ es) s p h =
        run-All es (act counts stamps e s) (λ k v w. p k v (inr w))
          (act-AllRead e s (λ k v g. p k v (inl g)) h)

  -- What the filter lets the kernel count, under the options of the session.
  abbrev pub IsWanted : ℕ → Bool → EbpfProfileKey → Type 0
  IsWanted target off_cpu k =
      IsOfTarget (some target) k.pid
      × ((k.sample_type ≡ sample_type_on_cpu)
          ⊎ ((off_cpu ≡ true) × (k.sample_type ≡ sample_type_off_cpu)))

  counted-IsWanted :
      (target : ℕ) (off_cpu : Bool) (s : Session counts stamps)
      → Kept counts stamps (some target) off_cpu s
      → (k : EbpfProfileKey) (v : ℕ) → counts.get k s.maps.counted ≡ some v
      → IsWanted target off_cpu k
  unfolding IsFiltered IsOnCpu
  counted-IsWanted target off_cpu s h k v g =
      let f = h.filtered k v g in
      (
        rw h.same_target at f.0,
        elim (Bool-cases off_cpu) [
          | inr e ↦ inl (h.on_cpu_only e k v g)
          | inl e ↦ elim f.1 [ inl on ↦ inl on | inr off ↦ inr (e, off) ]
        ],
      )

  WasCounted-IsWanted :
      (target : ℕ) (off_cpu : Bool) (es : List Event) (s : Session counts stamps)
      → Kept counts stamps (some target) off_cpu s
      → (k : EbpfProfileKey) (v : ℕ) → WasCounted k v es s
      → IsWanted target off_cpu k
  unfolding WasCounted
  WasCounted-IsWanted target off_cpu [] s h k v w = counted-IsWanted target off_cpu s h k v w
  WasCounted-IsWanted target off_cpu (e ∷ es) s h k v (inl g) =
      counted-IsWanted target off_cpu s h k v g
  WasCounted-IsWanted target off_cpu (e ∷ es) s h k v (inr w) =
      WasCounted-IsWanted target off_cpu es (act counts stamps e s)
        (act-Kept counts stamps (some target) off_cpu e s h) k v w

  -- No key is counted yet, as in the map of a program that has just been loaded.
  abbrev pub IsFresh : Maps counts stamps → Type 0
  IsFresh m = (k : EbpfProfileKey) → counts.get k m.counted ≡ none

  pub attach-Kept :
      (target : ℕ) (off_cpu : Bool) (m : Maps counts stamps)
      → IsFresh m
      → Kept counts stamps (some target) off_cpu (attach counts stamps target off_cpu m)
  unfolding attach IsFiltered IsOnCpu
  attach-Kept target off_cpu m fresh = record {
    same_target = refl;
    same_off_cpu = refl;
    filtered = λ k n g. let f = fresh k in absurd (cc);
    on_cpu_only = λ q k n g. let f = fresh k in absurd (cc);
  }

  -- The entry is that of a key of the kernel that the options let through, with a count that the
  -- kernel had for it at some moment.
  abbrev pub IsSourced : ℕ → Bool → List Event → Session counts stamps → ProfileKey × ℕ → Type 0
  IsSourced target off_cpu es s (key, v) =
      (k : EbpfProfileKey) × (convert_key k ≡ key) × IsWanted target off_cpu k × WasCounted k v es s

  pub run-IsSourced :
      (target : ℕ) (off_cpu : Bool) (m : Maps counts stamps) (es : List Event)
      → IsFresh m
      → All
          (IsSourced target off_cpu es (attach counts stamps target off_cpu m))
          (run counts stamps es (attach counts stamps target off_cpu m)).aggregated_counts
  run-IsSourced target off_cpu m es fresh =
      run-All (IsSourced target off_cpu es (attach counts stamps target off_cpu m)) es
        (attach counts stamps target off_cpu m)
        (λ k v w. (
          k,
          refl,
          WasCounted-IsWanted target off_cpu es (attach counts stamps target off_cpu m)
              (attach-Kept target off_cpu m fresh) k v w,
          w,
        ))
        (unfold attach in (tt, tt))
