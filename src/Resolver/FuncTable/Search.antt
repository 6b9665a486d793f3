-- ===== src/Resolver/FuncTable/Search.antt =====
-- What `find_function_by_pc` finds in a table that is sorted by entry.
use golang_profiling.Base.{
  ℕ, zero, suc, ◌+◌, ◌-◌, ◌/◌, ◌%◌, ◌≤◌, ◌<◌, ◌≡◌, refl, sym, ap, ◌∙◌, ◌⊎◌, inl, inr, true, false,
  Option, none, some, List, arith, ltb, if◌then◌else◌, ltb→lt, Bool-cases, Option-cases, length,
  get_elem?, get_or, get_elem?-ne_none, get_elem?-get_or, get_elem?-length,
}
use golang_profiling.Base.Run.{Run, done, panic, stuck, Returns}
use golang_profiling.Base.Bytes.{u64_mod}
use golang_profiling.Base.Words.{add64}
use golang_profiling.Resolver.FuncTable.{
  FuncInfo, within_function, next_begins, find_loop, find_function_by_pc,
}

abbrev pub IsSorted : List FuncInfo → Type 0
IsSorted table =
    (i j : ℕ) (f g : FuncInfo)
    → i ≤ j
    → get_elem? table i ≡ some f
    → get_elem? table j ≡ some g
    → f.entry ≤ g.entry

-- Function `i` is the last one that begins at or before `pc`.
pub record IsLast (table : List FuncInfo) (pc i : ℕ) (func : FuncInfo) : Type 0 where
  pub here : get_elem? table i ≡ some func
  pub begins : func.entry ≤ pc
  pub last : (j : ℕ) (g : FuncInfo) → i < j → get_elem? table j ≡ some g → pc < g.entry

-- That function, if the code's own test on it holds.
abbrev IsSearched : List FuncInfo → ℕ → Option FuncInfo → Type 0
IsSearched table pc (some func) =
    (i : ℕ) × IsLast table pc i func × (within_function func pc ≡ true)
IsSearched table pc none =
    (i : ℕ) (func : FuncInfo) → IsLast table pc i func → within_function func pc ≡ false

-- A function is found if it is the last one, the pc is less than 64 KB behind its entry, and the entry is
-- not within 64 KB of 2^64.
abbrev pub Located : List FuncInfo → ℕ → Option FuncInfo → Type 0
Located table pc (some func) =
    (i : ℕ) × IsLast table pc i func
    × (pc < func.entry + 0x10000)
    × (func.entry + 0x10000 < 0x1_0000_0000_0000_0000)
Located table pc none =
    (i : ℕ) (func : FuncInfo)
    → IsLast table pc i func
    → (func.entry + 0x10000 ≤ pc) ⊎ (0x1_0000_0000_0000_0000 ≤ func.entry + 0x10000)

within_function-true :
    (func : FuncInfo) (pc : ℕ)
    → func.entry ≤ pc
    → within_function func pc ≡ true
    → (pc < func.entry + 0x10000) × (func.entry + 0x10000 < 0x1_0000_0000_0000_0000)
unfolding within_function add64
within_function-true func pc le e =
    let near : pc < (func.entry + 0x10000) % u64_mod = ltb→lt _ _ e in
    (omega (arith, near, le), omega (arith, near, le))

within_function-false :
    (func : FuncInfo) (pc : ℕ)
    → within_function func pc ≡ false
    → (func.entry + 0x10000 ≤ pc) ⊎ (0x1_0000_0000_0000_0000 ≤ func.entry + 0x10000)
unfolding within_function add64
within_function-false func pc e = ground arith

IsSearched-Located :
    (table : List FuncInfo) (pc : ℕ) (m : Run (Option FuncInfo))
    → Returns m (IsSearched table pc)
    → Returns m (Located table pc)
IsSearched-Located table pc (done none) h =
    λ i func last. within_function-false func pc (h i func last)
IsSearched-Located table pc (done (some func)) (i, last, e) =
    let near = within_function-true func pc last.begins e in (i, last, near.0, near.1)
IsSearched-Located table pc panic h = h
IsSearched-Located table pc stuck h = h

module _ (table : List FuncInfo) (pc : ℕ) (sorted : IsSorted table) where
  record Inv (left right : ℕ) : Type 0 where
    ordered : left ≤ right
    inside : right ≤ length table
    above : (i : ℕ) (f : FuncInfo) → right ≤ i → get_elem? table i ≡ some f → pc < f.entry
    begun : (left ≡ 0) ⊎ ((f : FuncInfo) × (get_elem? table left ≡ some f) × (f.entry ≤ pc))

  -- Where the range is empty no function begins at or before `pc`.
  empty-IsSearched : (left : ℕ) → Inv left left → IsSearched table pc none
  empty-IsSearched left inv i func last = elim inv.begun [
    | inl e ↦ absurd (omega (arith, inv.above i func (omega arith) last.here, last.begins))
    | inr (f, h, le) ↦ absurd (omega (arith, inv.above left f (omega arith) h, le))
  ]

  some_eq : {f g : FuncInfo} → some f ≡ some g → f ≡ g
  some_eq e = cc

  IsLast-unique : (i j : ℕ) (f g : FuncInfo) → IsLast table pc i f → IsLast table pc j g → f ≡ g
  IsLast-unique i j f g p q = elim (nat_cases i j) [
    | inl lt ↦ absurd (omega (arith, p.last j g lt q.here, q.begins))
    | inr (inl gt) ↦ absurd (omega (arith, q.last i f gt p.here, p.begins))
    | inr (inr e) ↦ some_eq (sym p.here ∙ ap (get_elem? table) e ∙ q.here)
  ]
    where
      nat_cases : (a b : ℕ) → (a < b) ⊎ ((b < a) ⊎ (a ≡ b))
      nat_cases a b = grind arith

  -- The function at `mid`, if the next one does not begin by `pc`.
  found-IsLast :
      (mid : ℕ) (func : FuncInfo)
      → get_elem? table mid ≡ some func
      → func.entry ≤ pc
      → next_begins table mid pc ≡ false
      → IsLast table pc mid func
  unfolding next_begins
  found-IsLast mid func h le stop = record {
    here = h;
    begins = le;
    last = λ j g lt hj.
        let next =
          get_elem?-get_or table (mid + 1) func (omega (arith, get_elem?-length table j g hj)) in
        let past = get_or table (mid + 1) func in
        let after : past.entry ≤ g.entry = sorted (mid + 1) j past g (omega arith) next hj in
        ground (arith, next, after);
  }

  next_begins-true :
      (mid : ℕ)
      → next_begins table mid pc ≡ true
      → (f : FuncInfo) × (get_elem? table (mid + 1) ≡ some f) × (f.entry ≤ pc)
  unfolding next_begins
  next_begins-true mid h = elim (Option-cases (get_elem? table (mid + 1))) [
    | inl e ↦ absurd (ground arith)
    | inr (f, e) ↦ (f, e, ground arith)
  ]

  -- One round, for any rest of the search in either half.
  round-Returns :
      (left right mid : ℕ) (lower upper : Run (Option FuncInfo))
      → Inv left right
      → left ≤ mid
      → mid < right
      → (Inv left mid → Returns lower (IsSearched table pc))
      → (Inv (mid + 1) right → Returns upper (IsSearched table pc))
      → Returns
          (elim (get_elem? table mid) [
            | none ↦ panic
            | some func ↦
                if ltb pc func.entry
                then lower
                else if next_begins table mid pc
                then upper
                else if within_function func pc
                then done (some func)
                else done none
          ])
          (IsSearched table pc)
  round-Returns left right mid lower upper inv lo hi go_lower go_upper =
      elim (Option-cases (get_elem? table mid)) [
        | inl e ↦ absurd (get_elem?-ne_none table mid (omega (arith, inv.inside)) e)
        | inr (func, e) ↦ rw e (elim (Bool-cases (ltb pc func.entry)) [
          | inl past ↦ rw past (
              go_lower (record {
                ordered = lo;
                inside = omega (arith, inv.inside);
                above = λ i f le h. omega (arith, sorted mid i func f le e h, ltb→lt _ _ past);
                begun = inv.begun;
              }))
          | inr before ↦ elim (Bool-cases (next_begins table mid pc)) [
            | inl more ↦
                rw (before, more)
                  (go_upper (record {
                    ordered = omega arith;
                    inside = inv.inside;
                    above = inv.above;
                    begun = inr (next_begins-true mid more);
                  }))
            | inr stop ↦
                let last = found-IsLast mid func e (ground arith) stop in
                elim (Bool-cases (within_function func pc)) [
                  | inl near ↦ rw (before, stop, near) (mid, last, near)
                  | inr far ↦
                      rw (before, stop, far) (λ i f p. rw (IsLast-unique i mid f func p last) far)
                ]
          ]
        ])
      ]

  find_loop-Returns :
      (fuel left right : ℕ)
      → right - left < fuel
      → Inv left right
      → Returns (find_loop fuel table pc left right) (IsSearched table pc)
  unfolding find_loop
  find_loop-Returns zero left right h inv = absurd (omega arith)
  find_loop-Returns (suc fuel) left right h inv = elim (Bool-cases (ltb left right)) [
    | inr e ↦
        let same : right ≡ left = ground (arith, inv.ordered) in
        rw e (empty-IsSearched left (rw same at inv))
    | inl e ↦
        let mid = (left + right) / 2 in
        let some_left : left < right = ltb→lt _ _ e in
        rw e (
          round-Returns left right mid (find_loop fuel table pc left mid)
            (find_loop fuel table pc (mid + 1) right) inv (omega arith) (omega arith)
            (find_loop-Returns fuel left mid (omega arith))
            (find_loop-Returns fuel (mid + 1) right (omega arith)))
  ]

-- On a table sorted by entry `find_function_by_pc` ends without a panic, and what it finds is the
-- last function that begins at or before the pc, with the pc less than 64 KB behind its entry and
-- the sum of the entry and 64 KB below 2^64; where it finds nothing, there is no function that
-- begins at or before the pc, or the pc is 64 KB or more behind the entry of the last one, or that
-- sum reaches 2^64.
pub find_function_by_pc-Located :
    (table : List FuncInfo) (pc : ℕ)
    → IsSorted table
    → Returns (find_function_by_pc table pc) (Located table pc)
unfolding find_function_by_pc
find_function_by_pc-Located table pc sorted =
    IsSearched-Located table pc (find_loop (suc (length table)) table pc 0 (length table)) (
      find_loop-Returns table pc sorted (suc (length table)) 0 (length table) (omega arith)
        (record {
          ordered = omega arith;
          inside = omega arith;
          above = λ i f le h. absurd (omega (arith, get_elem?-length table i f h));
          begun = inl refl;
        }))
