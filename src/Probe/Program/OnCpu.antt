-- ===== src/Probe/Program/OnCpu.antt =====
-- `golang_profile`: what a sample does to the counts, and a whole run of samples.
use golang_profiling.Base.{
  ℕ, ◌+◌, ◌<◌, ◌≡◌, refl, ap, ◌∙◌, ◌≢◌, ◌⊎◌, inl, inr, true, false, ◌&&◌, Option, none, some, List,
  [], ◌∷◌, arith, if◌then◌else◌, Bool-cases, length,
}
use golang_profiling.Base.Bytes.{u64_mod}
use golang_profiling.Base.Words.{add64, add64_exact}
use golang_profiling.Probe.Maps.{EbpfProfileKey, BpfHashMap, Context, tgid_of, sample_type_on_cpu}
use golang_profiling.Probe.Program.{
  return_code, accepts, profile_key, or_zero, Maps, add_count, try_golang_profile, golang_profile,
}
use golang_profiling.Probe.Program.Keys.{same_key, same_key→eq, not-same_key→ne}

module _ (counts : BpfHashMap EbpfProfileKey) (stamps : BpfHashMap ℕ) where
  -- The key that a sample is counted under.
  abbrev pub sample_key : Context → EbpfProfileKey
  sample_key ctx = profile_key ctx (tgid_of ctx) sample_type_on_cpu

  -- A rejected event changes nothing.
  pub golang_profile-rejected :
      (ctx : Context) (s : Maps counts stamps)
      → accepts s.target_pid (tgid_of ctx) ≡ false
      → golang_profile counts stamps ctx s ≡ (0, s)
  unfolding golang_profile try_golang_profile return_code
  golang_profile-rejected ctx s h = rw h

  pub golang_profile-accepted :
      (ctx : Context) (s : Maps counts stamps)
      → accepts s.target_pid (tgid_of ctx) ≡ true
      → golang_profile counts stamps ctx s
        ≡ (0, record s { counted = add_count counts stamps (sample_key ctx) 1 s.counted })
  unfolding golang_profile try_golang_profile return_code
  golang_profile-accepted ctx s h = rw h

  -- One more of `n` under `key`, and every other count as before; a new key may find the map full.
  pub add_count_lem :
      (key : EbpfProfileKey) (n : ℕ) (m : counts.Map)
      → ((j : EbpfProfileKey)
          → key ≢ j
          → counts.get j (add_count counts stamps key n m) ≡ counts.get j m)
        × ((counts.get key (add_count counts stamps key n m)
              ≡ some (add64 (or_zero (counts.get key m)) n))
            ⊎ ((counts.get key m ≡ none)
                × (counts.get key (add_count counts stamps key n m) ≡ none)))
  unfolding add_count
  add_count_lem key n m =
      (λ j h. counts.get-insert_other key j _ m h, counts.get-insert_self key _ m)

  -- A count that is there goes on being there.
  pub add_count-present :
      (key : EbpfProfileKey) (n c : ℕ) (m : counts.Map)
      → counts.get key m ≡ some c
      → counts.get key (add_count counts stamps key n m) ≡ some (add64 c n)
  add_count-present key n c m h = elim (add_count_lem key n m).1 [
    | inl e ↦ rw e (ap (λ o. some (add64 (or_zero o) n)) h)
    | inr (gone, still) ↦ cc
  ]

  -- The samples of a run, from the first to the last.
  unfoldable pub profile_all : List Context → Maps counts stamps → Maps counts stamps
  profile_all [] s = s
  profile_all (ctx ∷ ctxs) s = profile_all ctxs (golang_profile counts stamps ctx s).1

  -- How many of them are let through and have this key.
  unfoldable pub hits : Option ℕ → EbpfProfileKey → List Context → ℕ
  hits target key [] = 0
  hits target key (ctx ∷ ctxs) =
      (if accepts target (tgid_of ctx) && same_key (sample_key ctx) key then 1 else 0)
      + hits target key ctxs

  one_sample :
      (ctx : Context) (s : Maps counts stamps) (key : EbpfProfileKey) (c : ℕ)
      → counts.get key s.counted ≡ some c
      → c + 1 < u64_mod
      → (counts.get key (golang_profile counts stamps ctx s).1.counted
          ≡ some (
              c
              + (if accepts s.target_pid (tgid_of ctx) && same_key (sample_key ctx) key
                  then 1
                  else 0)))
        × ((golang_profile counts stamps ctx s).1.target_pid ≡ s.target_pid)
  one_sample ctx s key c h small = elim (Bool-cases (accepts s.target_pid (tgid_of ctx))) [
    | inr e ↦
        rw (golang_profile-rejected ctx s e, e)
          (h ∙ ap some (let z : c ≡ c + 0 = omega arith in z), refl)
    | inl e ↦ elim (Bool-cases (same_key (sample_key ctx) key)) [
      | inl same ↦
          rw (golang_profile-accepted ctx s e, e, same)
            (
              rw (same_key→eq (sample_key ctx) key same)
                  (add_count-present key 1 c s.counted h ∙ ap some (add64_exact c 1 small)),
              refl,
            )
      | inr other ↦
          rw (golang_profile-accepted ctx s e, e, other)
            (
              (add_count_lem (sample_key ctx) 1 s.counted).0 key
                    (not-same_key→ne (sample_key ctx) key other)
                  ∙ h
                  ∙ ap some (let z : c ≡ c + 0 = omega arith in z),
              refl,
            )
    ]
  ]

  -- After a run of samples by `golang_profile`, the count of a key that was in the map has grown
  -- by the number of samples with that key that the filter lets through, as long as the sum fits
  -- 64 bits.
  pub profile_all-hits :
      (ctxs : List Context) (s : Maps counts stamps) (key : EbpfProfileKey) (c : ℕ)
      → counts.get key s.counted ≡ some c
      → c + length ctxs < u64_mod
      → counts.get key (profile_all ctxs s).counted ≡ some (c + hits s.target_pid key ctxs)
  unfolding profile_all hits
  profile_all-hits [] s key c h small = h ∙ ap some (let z : c ≡ c + 0 = omega arith in z)
  profile_all-hits (ctx ∷ ctxs) s key c h small =
      let once = one_sample ctx s key c h (omega arith) in
      ground (
        arith,
        once,
        profile_all-hits ctxs (golang_profile counts stamps ctx s).1 key
            (c
              + (if accepts s.target_pid (tgid_of ctx) && same_key (sample_key ctx) key
                  then 1
                  else 0))
            once.0 (ground arith),
      )
