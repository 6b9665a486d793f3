-- ===== src/Probe/Program/Keys.antt =====
-- Equality of profile keys as a test.
use golang_profiling.Base.{◌≡◌, ap, ◌≢◌, Bool, true, false, ◌&&◌, arith, ◌==◌}
use golang_profiling.Probe.Maps.{EbpfProfileKey}

unfoldable pub same_key : EbpfProfileKey → EbpfProfileKey → Bool
same_key a b =
    a.pid == b.pid
    && a.user_stack_id == b.user_stack_id
    && a.kernel_stack_id == b.kernel_stack_id
    && a.sample_type == b.sample_type

pub same_key→eq : (a b : EbpfProfileKey) → same_key a b ≡ true → a ≡ b
unfolding same_key
same_key→eq a b h = ground arith

pub not-same_key→ne : (a b : EbpfProfileKey) → same_key a b ≡ false → a ≢ b
unfolding same_key
not-same_key→ne a b h e = ground (
  arith,
  ap (λ (k : EbpfProfileKey). k.pid) e,
  ap (λ (k : EbpfProfileKey). k.user_stack_id) e,
  ap (λ (k : EbpfProfileKey). k.kernel_stack_id) e,
  ap (λ (k : EbpfProfileKey). k.sample_type) e,
)

pub same_key_refl : (a : EbpfProfileKey) → same_key a a ≡ true
unfolding same_key
same_key_refl a = ground arith
