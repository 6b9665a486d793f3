-- ===== src/Probe/Races/Held.antt =====
-- At most one processor has read a count and not inserted the sum.
use golang_profiling.Base.{ℕ, ◌≡◌, sym, ap, ◌∙◌, ◌≢◌, inl, inr, Option, some, Bool-cases}
use golang_profiling.Probe.Maps.{EbpfProfileKey, BpfHashMap, Context, tgid_of}
use golang_profiling.Probe.Program.{accepts, or_zero, Maps}
use golang_profiling.Probe.Races.{
  Local, idle, counting, adding, removing, storing, update, Racing, begin, resume,
}
use golang_profiling.Probe.Races.Bounds.{update-cases, IsSilent, adding_key, adding_value}

module _ (counts : BpfHashMap EbpfProfileKey) (stamps : BpfHashMap ℕ) (key : EbpfProfileKey) where
  -- No processor has read the count of the key.
  abbrev pub IsFree : Racing counts stamps → Type 0
  IsFree s = (cpu amount v : ℕ) (after : Option (ℕ × ℕ)) → s.locals cpu ≢ adding key amount v after

  -- The count is `c`, and at most one processor has read it, and has this value.
  pub record IsExact (c : ℕ) (s : Racing counts stamps) : Type 0 where
    pub count_eq : counts.get key s.maps.counted ≡ some c
    pub read_eq :
        (cpu amount v : ℕ) (after : Option (ℕ × ℕ))
        → s.locals cpu ≡ adding key amount v after
        → v ≡ c
    pub one :
        (cpu other amount v n w : ℕ) (after last : Option (ℕ × ℕ))
        → s.locals cpu ≡ adding key amount v after
        → s.locals other ≡ adding key n w last
        → cpu ≡ other

  -- A processor goes on to something else than an insertion, and the count stays.
  pub silent-IsExact :
      (cpu : ℕ) (next : Local) (c : ℕ) (s : Racing counts stamps)
      → IsSilent next
      → IsExact c s
      → (m : Maps counts stamps) → counts.get key m.counted ≡ some c
      → IsExact c (record { maps = m; locals = update s.locals cpu next })
  silent-IsExact cpu next c s silent h m got = record {
    count_eq = got;
    read_eq =
        λ other amount v after q. h.read_eq other amount v after (kept other amount v after q);
    one = λ a b x v y w o p q r. h.one a b x v y w o p (kept a x v o q) (kept b y w p r);
  }
    where
      kept :
          (other amount v : ℕ) (after : Option (ℕ × ℕ))
          → update s.locals cpu next other ≡ adding key amount v after
          → s.locals other ≡ adding key amount v after
      kept other amount v after q = elim (update-cases s.locals cpu other next _ q) [
        | inl (same, mine) ↦ absurd (silent key amount v after mine)
        | inr old ↦ old
      ]

  pub begin-IsExact :
      (cpu : ℕ) (ctx : Context) (l next : Local) (c : ℕ) (s : Racing counts stamps)
      → IsSilent next
      → IsExact c s
      → IsExact c (begin counts stamps cpu ctx l next s)
  unfolding begin
  begin-IsExact cpu ctx idle next c s silent h =
      elim (Bool-cases (accepts s.maps.target_pid (tgid_of ctx))) [
        | inr e ↦ rw e h
        | inl e ↦ rw e (silent-IsExact cpu next c s silent h s.maps h.count_eq)
      ]
  begin-IsExact cpu ctx (counting k amount after) next c s silent h = h
  begin-IsExact cpu ctx (adding k amount v after) next c s silent h = h
  begin-IsExact cpu ctx (removing pid now) next c s silent h = h
  begin-IsExact cpu ctx (storing pid now) next c s silent h = h

  -- A processor reads the count of a key.
  pub counting-IsExact :
      (cpu amount c : ℕ) (k : EbpfProfileKey) (after : Option (ℕ × ℕ)) (s : Racing counts stamps)
      → (k ≡ key → IsFree s)
      → IsExact c s
      → IsExact c (resume counts stamps cpu (counting k amount after) s)
  unfolding resume
  counting-IsExact cpu amount c k after s free h = record {
    count_eq = h.count_eq;
    read_eq = λ other a v o q. elim (update-cases s.locals cpu other next _ q) [
      | inr old ↦ h.read_eq other a v o old
      | inl (same, mine) ↦
          let its : k ≡ key = adding_key mine in
          let got : counts.get k s.maps.counted ≡ some c = rw its h.count_eq in
          let value : or_zero (counts.get k s.maps.counted) ≡ v = adding_value mine in
          sym value ∙ ap or_zero got
    ];
    one = λ a b x v y w o p q r. elim (update-cases s.locals cpu a next _ q) [
      | inl (same, mine) ↦ elim (update-cases s.locals cpu b next _ r) [
        | inl (other_same, _) ↦ same ∙ sym other_same
        | inr old ↦ absurd (free (adding_key mine) b y w p old)
      ]
      | inr old ↦ elim (update-cases s.locals cpu b next _ r) [
        | inl (same, mine) ↦ absurd (free (adding_key mine) a x v o old)
        | inr other_old ↦ h.one a b x v y w o p old other_old
      ]
    ];
  }
    where
      next : Local
      next = adding k amount (or_zero (counts.get k s.maps.counted)) after
