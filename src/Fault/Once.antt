-- ===== src/Fault/Once.antt =====
-- A configured point of src/wepoll_ex_fault.c fails on exactly the hits that it was configured for.
use wepoll_ex.Prelude.{
  ℕ, zero, suc, ◌+◌, ◌^◌, ◌<◌, bit_and, bit_or, ◌≡◌, Bool, true, not, arith, ◌==◌, ltb, leb,
  if◌then◌else◌, subst,
}
use wepoll_ex.Bits.{
  test_bit, test_bit-zero, complement, test_bit-bit_or, test_bit-pow, bit_and-pow_is_zero,
}
use wepoll_ex.Status.{ok, failed}
use wepoll_ex.Errno.State.{ErrorState, set_errno}
use wepoll_ex.Fault.{FaultState, point_count, configure, hit_when, hit, hit_through, reset}

-- The point is armed, and has been hit `k` times since.
pub record Armed (point fail_at error k : ℕ) (f : FaultState) : Type 0 where
  pub valid : point < point_count
  pub masked : test_bit point f.mask ≡ true
  pub fail_at_slot : (f.slots point).fail_at ≡ fail_at
  pub hits_slot : (f.slots point).hits ≡ k
  pub error_slot : (f.slots point).error ≡ error

test_bit-configure : (point x m : ℕ) → test_bit point (bit_or (bit_and m x) (2 ^ point)) ≡ true
test_bit-configure point x m =
    rw (test_bit-bit_or point (bit_and m x) (2 ^ point), test_bit-pow point point) (ground arith)

configure-Armed :
    (point fail_at error : ℕ) (f : FaultState) (s : ErrorState)
    → point < point_count
    → 0 < fail_at
    → 0 < error
    → Armed point fail_at error 0 (configure point fail_at error f s).1
unfolding configure
configure-Armed point fail_at error f s h p q =
    ground (arith, test_bit-configure point (complement 64 (2 ^ point)) f.mask)

-- One hit of an armed point counts, and fails by the test alone.
hit_when-Armed :
    (quiet : ℕ → ℕ → Bool) (point fail_at error k : ℕ) (f : FaultState) (s : ErrorState)
    → k + 1 < 2 ^ 64
    → Armed point fail_at error k f
    → let (r, f', s') = hit_when quiet point f s in
      Armed point fail_at error (k + 1) f'
      × (r ≡ (if quiet (k + 1) fail_at then ok else failed))
      × (s' ≡ (if quiet (k + 1) fail_at then s else set_errno error s))
unfolding hit_when
hit_when-Armed quiet point fail_at error k f s h a =
    ground (arith, bit_and-pow_is_zero f.mask point)

-- `k` hits of a point in a row, whatever they return.
pub hit_times : (ℕ → ℕ → Bool) → ℕ → ℕ → FaultState → ErrorState → FaultState × ErrorState
hit_times quiet point zero f s = (f, s)
hit_times quiet point (suc k) f s =
    let (f', s') = hit_times quiet point k f s in
    let (_, f'', s'') = hit_when quiet point f' s' in (f'', s'')

hit_times-Armed :
    (quiet : ℕ → ℕ → Bool) (point fail_at error k : ℕ) (f : FaultState) (s : ErrorState)
    → k < 2 ^ 64
    → Armed point fail_at error 0 f
    → Armed point fail_at error k (hit_times quiet point k f s).0
unfolding hit_times
hit_times-Armed quiet point fail_at error zero f s h a = a
hit_times-Armed quiet point fail_at error (suc k) f s h a =
    let r = hit_times quiet point k f s in
    let before = hit_times-Armed quiet point fail_at error k f s (omega arith) a in
    let after = hit_when-Armed quiet point fail_at error k r.0 r.1 (omega arith) before in
    subst (λ n. Armed point fail_at error n (hit_when quiet point r.0 r.1).1) (omega arith) after.0

module _ (point fail_at error k : ℕ) (f : FaultState) (s : ErrorState) (valid : point < point_count)
    (some_hit : 0 < fail_at) (positive : 0 < error) (no_wrap : k + 1 < 2 ^ 64) where
  -- After `ep_fault_configure`, hit number `k + 1` of `ep_fault_hit` fails, with the configured errno,
  -- exactly when it is the configured hit; every other returns 0 and leaves errno alone.
  pub hit-configure :
      let (_, g, t) = configure point fail_at error f s in
      let (h, u) = hit_times (λ ordinal at. not (ordinal == at)) point k g t in
      let (r, _, v) = hit point h u in
      (r ≡ (if k + 1 == fail_at then failed else ok))
      × (v ≡ (if k + 1 == fail_at then set_errno error u else u))
  unfolding hit
  hit-configure =
      let c = configure point fail_at error f s in
      let quiet = λ (ordinal at : ℕ). not (ordinal == at) in
      let r = hit_times quiet point k c.1 c.2 in
      let armed =
        hit_times-Armed quiet point fail_at error k c.1 c.2 (omega arith)
          (configure-Armed point fail_at error f s valid some_hit positive) in
      let one = hit_when-Armed quiet point fail_at error k r.0 r.1 no_wrap armed in
      ground (arith, one)

  -- `ep_fault_hit_through` fails on every hit up to the configured one, and on none after it.
  pub hit_through-configure :
      let (_, g, t) = configure point fail_at error f s in
      let (h, u) = hit_times (λ ordinal at. ltb at ordinal) point k g t in
      let (r, _, v) = hit_through point h u in
      (r ≡ (if leb (k + 1) fail_at then failed else ok))
      × (v ≡ (if leb (k + 1) fail_at then set_errno error u else u))
  unfolding hit_through
  hit_through-configure =
      let c = configure point fail_at error f s in
      let quiet = λ (ordinal at : ℕ). ltb at ordinal in
      let r = hit_times quiet point k c.1 c.2 in
      let armed =
        hit_times-Armed quiet point fail_at error k c.1 c.2 (omega arith)
          (configure-Armed point fail_at error f s valid some_hit positive) in
      let one = hit_when-Armed quiet point fail_at error k r.0 r.1 no_wrap armed in
      ground (arith, one)

-- After `ep_fault_reset` no point fails, and no hit changes anything.
pub hit_when-reset :
    (quiet : ℕ → ℕ → Bool) (point : ℕ) (f : FaultState) (s : ErrorState)
    → hit_when quiet point (reset f) s ≡ (ok, reset f, s)
unfolding hit_when reset
hit_when-reset quiet point f s = ground (arith, bit_and-pow_is_zero 0 point, test_bit-zero point)
