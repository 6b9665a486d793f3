-- ===== src/Probe/Races/Exact.antt =====
-- When the counts are exact: while no two processors have read the same count at once.
use golang_profiling.Base.{
  ℕ, ◌+◌, ◌<◌, ◌≡◌, refl, sym, ap, ◌∙◌, inl, inr, Option, none, some, List, [], ◌∷◌, arith,
  Bool-cases,
}
use golang_profiling.Base.Bytes.{u64_mod}
use golang_profiling.Base.Words.{add64, add64_exact}
use golang_profiling.Probe.Maps.{EbpfProfileKey, BpfHashMap}
use golang_profiling.Probe.Program.Keys.{same_key, same_key→eq, not-same_key→ne}
use golang_profiling.Probe.Races.{
  Local, idle, counting, adding, removing, storing, Turn, sampled, switched, resumed, update,
  after_count, added_once, Racing, resume, turn, race, added,
}
use golang_profiling.Probe.Races.Bounds.{
  update_self, update-cases, after_count-IsSilent, after_stamp-IsSilent, counting-IsSilent,
  storing-IsSilent, idle-IsSilent,
}
use golang_profiling.Probe.Races.Held.{
  IsFree, IsExact, silent-IsExact, begin-IsExact, counting-IsExact,
}

module _ (counts : BpfHashMap EbpfProfileKey) (stamps : BpfHashMap ℕ) (key : EbpfProfileKey) where
  -- The count of the key is read only while no processor has read it and not inserted the sum.
  unfoldable pub IsExclusive : List Turn → Racing counts stamps → Type 0
  IsExclusive [] s = Unit
  IsExclusive (sampled cpu ctx ∷ ts) s = IsExclusive ts (turn counts stamps (sampled cpu ctx) s)
  IsExclusive (switched cpu ctx ∷ ts) s = IsExclusive ts (turn counts stamps (switched cpu ctx) s)
  IsExclusive (resumed cpu ∷ ts) s =
      ((amount : ℕ) (after : Option (ℕ × ℕ))
        → s.locals cpu ≡ counting key amount after
        → IsFree counts stamps key s)
      × IsExclusive ts (turn counts stamps (resumed cpu) s)

  inserted_eq :
      (k : EbpfProfileKey) (amount v c : ℕ) (after : Option (ℕ × ℕ)) (m : counts.Map)
      → counts.get key m ≡ some c
      → (k ≡ key → v ≡ c)
      → c + added_once key (adding k amount v after) < u64_mod
      → counts.get key (counts.insert k (add64 v amount) m)
        ≡ some (c + added_once key (adding k amount v after))
  unfolding added_once
  inserted_eq k amount v c after m got same_value small = elim (Bool-cases (same_key k key)) [
    | inr e ↦
        rw (counts.get-insert_other k key (add64 v amount) m (not-same_key→ne k key e), e)
          (got ∙ ap some (let z : c ≡ c + 0 = omega arith in z))
    | inl e ↦
        let same = same_key→eq k key e in
        let fits : c + amount < u64_mod = rw e at small in
        elim (counts.get-insert_self key (add64 v amount) m) [
          | inl q ↦ rw (e, same, q, same_value same) (ap some (add64_exact c amount fits))
          | inr (gone, still) ↦ absurd (let z : none ≡ some c = sym gone ∙ got in cc)
        ]
  ]

  -- A processor inserts a count: it is the one that has read the key's count, or another key is changed.
  adding-IsExact :
      (cpu amount v c : ℕ) (k : EbpfProfileKey) (after : Option (ℕ × ℕ)) (s : Racing counts stamps)
      → s.locals cpu ≡ adding k amount v after
      → c + added_once key (adding k amount v after) < u64_mod
      → IsExact counts stamps key c s
      → IsExact counts stamps key
          (c + added_once key (adding k amount v after))
          (resume counts stamps cpu (adding k amount v after) s)
  unfolding resume
  adding-IsExact cpu amount v c k after s e small h = record {
    count_eq =
        inserted_eq k amount v c after s.maps.counted h.count_eq
          (λ same. h.read_eq cpu amount v after (e ∙ ap (λ j. adding j amount v after) same)) small;
    read_eq = λ other a w o q. elim (update-cases s.locals cpu other (after_count after) _ q) [
      | inl (same, mine) ↦ absurd (after_count-IsSilent after key a w o mine)
      | inr old ↦ elim (Bool-cases (same_key k key)) [
        | inr other_key ↦
            h.read_eq other a w o old
            ∙ (unfold added_once in rw other_key (let z : c ≡ c + 0 = omega arith in z))
        | inl its_key ↦
            let mine = e ∙ ap (λ j. adding j amount v after) (same_key→eq k key its_key) in
            let same = h.one other cpu a w amount v o after old mine in
            absurd (
              after_count-IsSilent after key a w o (
                sym (update_self s.locals cpu (after_count after))
                ∙ ap (update s.locals cpu (after_count after)) (sym same)
                ∙ q))
      ]
    ];
    one = λ a b x y n w o p q r. elim (update-cases s.locals cpu a (after_count after) _ q) [
      | inl (same, mine) ↦ absurd (after_count-IsSilent after key x y o mine)
      | inr old ↦ elim (update-cases s.locals cpu b (after_count after) _ r) [
        | inl (same, mine) ↦ absurd (after_count-IsSilent after key n w p mine)
        | inr other_old ↦ h.one a b x y n w o p old other_old
      ]
    ];
  }

  resume-IsExact :
      (cpu : ℕ) (l : Local) (c : ℕ) (s : Racing counts stamps)
      → s.locals cpu ≡ l
      → ((amount : ℕ) (after : Option (ℕ × ℕ))
          → l ≡ counting key amount after
          → IsFree counts stamps key s)
      → c + added_once key l < u64_mod
      → IsExact counts stamps key c s
      → IsExact counts stamps key (c + added_once key l) (resume counts stamps cpu l s)
  resume-IsExact cpu idle c s e free small h =
      unfold resume added_once in rw (let q : c + 0 ≡ c = omega arith in q) h
  resume-IsExact cpu (counting k amount after) c s e free small h =
      unfold added_once in
      rw (let q : c + 0 ≡ c = omega arith in q) (
        counting-IsExact counts stamps key cpu amount c k after s
          (λ same. free amount after (ap (λ j. counting j amount after) same)) h)
  resume-IsExact cpu (adding k amount v after) c s e free small h =
      adding-IsExact cpu amount v c k after s e small h
  resume-IsExact cpu (removing pid now) c s e free small h =
      unfold resume added_once in
      rw (let q : c + 0 ≡ c = omega arith in q) (
        silent-IsExact counts stamps key cpu (storing pid now) c s (storing-IsSilent pid now) h _
          h.count_eq)
  resume-IsExact cpu (storing pid now) c s e free small h =
      unfold resume added_once in
      rw (let q : c + 0 ≡ c = omega arith in q)
        (silent-IsExact counts stamps key cpu idle c s idle-IsSilent h _ h.count_eq)

  race-IsExact :
      (ts : List Turn) (c : ℕ) (s : Racing counts stamps)
      → IsExclusive ts s
      → c + added counts stamps key ts s < u64_mod
      → IsExact counts stamps key c s
      → IsExact counts stamps key (c + added counts stamps key ts s) (race counts stamps ts s)
  unfolding race added turn IsExclusive
  race-IsExact [] c s alone small h = rw (let q : c + 0 ≡ c = omega arith in q) h
  race-IsExact (sampled cpu ctx ∷ ts) c s alone small h =
      race-IsExact ts c _ alone small (
        begin-IsExact counts stamps key cpu ctx (s.locals cpu) _ c s (counting-IsSilent _ 1 none) h)
  race-IsExact (switched cpu ctx ∷ ts) c s alone small h =
      race-IsExact ts c _ alone small (
        begin-IsExact counts stamps key cpu ctx (s.locals cpu) _ c s (after_stamp-IsSilent ctx _) h)
  race-IsExact (resumed cpu ∷ ts) c s alone small h =
      let once = added_once key (s.locals cpu) in
      let rest = resume counts stamps cpu (s.locals cpu) s in
      let q : c + once + added counts stamps key ts rest
          ≡ c + (once + added counts stamps key ts rest) =
        omega arith in
      rw (← q) (
        race-IsExact ts (c + once) rest alone.1 (omega (arith, small))
          (resume-IsExact cpu (s.locals cpu) c s refl alone.0 (omega (arith, small)) h))

  -- With the two programs on several processors at once, whose reads and writes of the maps
  -- interleave in any order: if all processors start idle, the key is in the map, its count is
  -- never read while another processor has read it and not inserted the sum, and the sum fits 64
  -- bits, then at the end the count has grown by the amounts of the insertions made for the key.
  pub race-added :
      (ts : List Turn) (c : ℕ) (s : Racing counts stamps)
      → ((cpu : ℕ) → s.locals cpu ≡ idle)
      → counts.get key s.maps.counted ≡ some c
      → IsExclusive ts s
      → c + added counts stamps key ts s < u64_mod
      → counts.get key (race counts stamps ts s).maps.counted
        ≡ some (c + added counts stamps key ts s)
  race-added ts c s quiet got alone small =
      (race-IsExact ts c s alone small (record {
        count_eq = got;
        read_eq = λ cpu amount v after e. let q = quiet cpu in absurd (cc);
        one = λ cpu other amount v n w after last e f. let q = quiet cpu in absurd (cc);
      })).count_eq
