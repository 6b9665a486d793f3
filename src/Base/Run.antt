-- ===== src/Base/Run.antt =====
-- What a call of the Rust code does: it returns, or it panics (an index or a slice out of range).
-- `stuck` is neither: a loop of the model ran out of fuel.
-- Arithmetic wraps around, as in the release build, which checks no overflow.
use golang_profiling.Base.{
  Bool, true, false, arith, ◌≡◌, refl, ◌≤◌, ℕ, ◌-◌, ◌&&◌, leb, if◌then◌else◌, length, take, drop,
}
use golang_profiling.Base.Bytes.{Bytes}

pub data Run {ℓ} (A : Type ℓ) : Type ℓ where
  done : A → Run A
  panic : Run A
  stuck : Run A

infixl 5 ◌>>=◌
abbrev pub ◌>>=◌ {ℓ κ} : {A : Type ℓ} {B : Type κ} → Run A → (A → Run B) → Run B
done a >>= f = f a
panic >>= f = panic
stuck >>= f = stuck

-- The call returns, with a result that satisfies `P`.
abbrev pub Returns {ℓ} : {A : Type ℓ} → Run A → (A → Type 0) → Type 0
Returns (done a) P = P a
Returns panic P = ⊥
Returns stuck P = ⊥

-- The call returns or panics: no loop ran out of fuel.
abbrev pub Ends {ℓ} : {A : Type ℓ} → Run A → Type 0
Ends (done a) = Unit
Ends panic = Unit
Ends stuck = ⊥

pub Ends-bind {ℓ κ} :
    {A : Type ℓ} {B : Type κ} (r : Run A) (f : A → Run B)
    → Ends r
    → ((a : A) → Ends (f a))
    → Ends (r >>= f)
Ends-bind (done a) f h k = k a
Ends-bind panic f h k = tt
Ends-bind stuck f h k = h

pub Ends-if {ℓ} :
    {A : Type ℓ} (b : Bool) (r s : Run A) → Ends r → Ends s → Ends (if b then r else s)
Ends-if true r s h k = h
Ends-if false r s h k = k

pub Returns→done {ℓ} :
    {A : Type ℓ} (r : Run A) {P : A → Type 0} → Returns r P → (a : A) × (r ≡ done a) × P a
Returns→done (done a) h = (a, refl, h)
Returns→done panic h = absurd h
Returns→done stuck h = absurd h

pub Returns-bind {ℓ κ} :
    {A : Type ℓ} {B : Type κ} (Q : A → Type 0) (R : B → Type 0) (r : Run A) (f : A → Run B)
    → Returns r Q
    → ((a : A) → Q a → Returns (f a) R)
    → Returns (r >>= f) R
Returns-bind Q R (done a) f h k = k a h
Returns-bind Q R panic f h k = absurd h
Returns-bind Q R stuck f h k = absurd h

-- The call returns, or it panics and then `P` holds.
abbrev pub Allows {ℓ} : {A : Type ℓ} → Type 0 → Run A → Type 0
Allows P (done a) = Unit
Allows P panic = P
Allows P stuck = ⊥

pub Allows-bind {ℓ κ} :
    {A : Type ℓ} {B : Type κ} (P : Type 0) (Q : A → Type 0) (r : Run A) (f : A → Run B)
    → Returns r Q
    → ((a : A) → r ≡ done a → Q a → Allows P (f a))
    → Allows P (r >>= f)
Allows-bind P Q (done a) f h k = k a refl h
Allows-bind P Q panic f h k = absurd h
Allows-bind P Q stuck f h k = absurd h

pub Allows-then {ℓ κ} :
    {A : Type ℓ} {B : Type κ} (P : Type 0) (r : Run A) (f : A → Run B)
    → Allows P r
    → ((a : A) → r ≡ done a → Allows P (f a))
    → Allows P (r >>= f)
Allows-then P (done a) f h k = k a refl
Allows-then P panic f h k = h
Allows-then P stuck f h k = h

pub Allows-if {ℓ} :
    {A : Type ℓ} (P : Type 0) (b : Bool) (r s : Run A)
    → Allows P r
    → Allows P s
    → Allows P (if b then r else s)
Allows-if P true r s h k = h
Allows-if P false r s h k = k

-- `data[from..]`
unfoldable pub slice_from : Bytes → ℕ → Run Bytes
slice_from bs from = if leb from (length bs) then done (drop from bs) else panic

-- `data[from..to]`
unfoldable pub slice : Bytes → ℕ → ℕ → Run Bytes
slice bs from to =
    if leb from to && leb to (length bs) then done (take (to - from) (drop from bs)) else panic

pub slice_from-inside :
    (bs : Bytes) (from : ℕ) → from ≤ length bs → slice_from bs from ≡ done (drop from bs)
unfolding slice_from
slice_from-inside bs from h = ground arith

pub slice_from-Ends : (bs : Bytes) (from : ℕ) → Ends (slice_from bs from)
unfolding slice_from
slice_from-Ends bs from = Ends-if (leb from (length bs)) (done (drop from bs)) panic tt tt
