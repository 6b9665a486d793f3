-- ===== src/Probe/Races/Bounds.antt =====
-- However the processors interleave, no count is too large.
use golang_profiling.Base.{
  ℕ, ◌≤◌, ◌≡◌, refl, sym, ap, ◌∙◌, ◌≢◌, ◌⊎◌, inl, inr, false, Option, none, some, arith, ◌==◌,
  ==_iff, Bool-cases,
}
use golang_profiling.Probe.Maps.{EbpfProfileKey, BpfHashMap, Context}
use golang_profiling.Probe.Program.{or_zero, Maps}
use golang_profiling.Probe.Races.{
  Local, idle, counting, adding, storing, update, after_count, after_stamp, Racing,
}

pub update_self : (locals : ℕ → Local) (cpu : ℕ) (l : Local) → update locals cpu l cpu ≡ l
unfolding update
update_self locals cpu l = ground arith

update_other :
    (locals : ℕ → Local) (cpu other : ℕ) (l : Local)
    → (other == cpu) ≡ false
    → update locals cpu l other ≡ locals other
unfolding update
update_other locals cpu other l e = rw e refl

-- What a processor is about to do after one of them has gone on.
pub update-cases :
    (locals : ℕ → Local) (cpu other : ℕ) (l goal : Local)
    → update locals cpu l other ≡ goal
    → ((other ≡ cpu) × (l ≡ goal)) ⊎ (locals other ≡ goal)
update-cases locals cpu other l goal q = elim (Bool-cases (other == cpu)) [
  | inr far ↦ inr (sym (update_other locals cpu other l far) ∙ q)
  | inl near ↦
      let same = (==_iff other cpu).0 near in
      inl (same, sym (update_self locals cpu l) ∙ ap (update locals cpu l) (sym same) ∙ q)
]

-- A local variable with which the next step does not insert a count.
abbrev pub IsSilent : Local → Type 0
IsSilent l =
    (k : EbpfProfileKey) (amount v : ℕ) (after : Option (ℕ × ℕ)) → l ≢ adding k amount v after

pub after_count-IsSilent : (after : Option (ℕ × ℕ)) → IsSilent (after_count after)
unfolding after_count
after_count-IsSilent none k amount v a e = absurd (cc)
after_count-IsSilent (some (pid, now)) k amount v a e = absurd (cc)

pub after_stamp-IsSilent : (ctx : Context) (o : Option ℕ) → IsSilent (after_stamp ctx o)
unfolding after_stamp
after_stamp-IsSilent ctx none k amount v a e = absurd (cc)
after_stamp-IsSilent ctx (some t) k amount v a e = ground arith

pub counting-IsSilent :
    (j : EbpfProfileKey) (n : ℕ) (o : Option (ℕ × ℕ)) → IsSilent (counting j n o)
counting-IsSilent j n o k amount v a e = absurd (cc)

pub storing-IsSilent : (pid now : ℕ) → IsSilent (storing pid now)
storing-IsSilent pid now k amount v a e = absurd (cc)

pub idle-IsSilent : IsSilent idle
idle-IsSilent k amount v a e = absurd (cc)

pub adding_key :
    {k j : EbpfProfileKey} {m n v w : ℕ} {a b : Option (ℕ × ℕ)}
    → adding k m v a ≡ adding j n w b
    → k ≡ j
adding_key e = cc

pub adding_value :
    {k j : EbpfProfileKey} {m n v w : ℕ} {a b : Option (ℕ × ℕ)}
    → adding k m v a ≡ adding j n w b
    → v ≡ w
adding_value e = cc

module _ (counts : BpfHashMap EbpfProfileKey) (stamps : BpfHashMap ℕ) (key : EbpfProfileKey) where
  -- The count is at most `n`, and so is every count of the key that a processor has read.
  record IsAtMost (n : ℕ) (s : Racing counts stamps) : Type 0 where
    count_le : or_zero (counts.get key s.maps.counted) ≤ n
    read_le :
        (cpu amount v : ℕ) (after : Option (ℕ × ℕ))
        → s.locals cpu ≡ adding key amount v after
        → v ≤ n
