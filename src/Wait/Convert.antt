-- ===== src/Wait/Convert.antt =====
-- The conversions of timeouts in src/wepoll_ex_port.c round up and saturate.
use wepoll_ex.Prelude.{
  ℕ, ◌+◌, ◌*◌, ◌/◌, ◌≤◌, ◌<◌, ◌≡◌, min, refl, Bool, false, some, arith, leb, ltb, if◌then◌else◌,
  ◌⊎◌,
}
use wepoll_ex.Prelude.Int.{ℤ, pos, negsuc}
use wepoll_ex.Status.{ok, failed}
use wepoll_ex.Errno.Codes.{einval}
use wepoll_ex.Errno.State.{ErrorState, set_errno}
use wepoll_ex.Wait.{Timespec, uint64_max, saturating_mul_add, from_valid, from_timespec}

-- At the two factors the code uses, `ep_saturating_mul_add_u64` is the exact value, cut at the greatest
-- 64-bit number.
pub saturating_mul_add-min :
    (value addend : ℕ)
    → addend ≤ uint64_max
    → (saturating_mul_add value 1000 addend ≡ min uint64_max (value * 1000 + addend))
      × (saturating_mul_add value 10000000 addend ≡ min uint64_max (value * 10000000 + addend))
unfolding saturating_mul_add
saturating_mul_add-min value addend h = (ground arith, ground arith)

-- A duration of `ns` nanoseconds is held as `n` units of `unit` ns, rounded up, or as the greatest 64-bit
-- number if that does not fit.
abbrev pub RoundsUp : (unit ns n : ℕ) → Type 0
RoundsUp unit ns n =
    ((ns ≤ n * unit) × (n * unit < ns + unit)) ⊎ ((n ≡ uint64_max) × (uint64_max * unit < ns))

-- A valid `struct timespec` never becomes a shorter wait than it asks for, unless it is longer than the
-- 64-bit counters can tell: its milliseconds and its 100-ns intervals are rounded up, by less than
-- one unit. `precise` says that the intervals are not cut.
pub from_timespec-RoundsUp :
    (seconds nsec : ℕ) (err : ErrorState)
    → nsec < 1000000000
    → let (r, t, err') =
        from_timespec (some (record { tv_sec = pos seconds; tv_nsec = pos nsec })) err in
      let ns = seconds * 1000000000 + nsec in
      (r ≡ ok)
      × (err' ≡ err)
      × (t.infinite ≡ false)
      × RoundsUp 1000000 ns t.milliseconds
      × RoundsUp 100 ns t.intervals_100ns
      × (t.precise ≡ leb ((ns + 99) / 100) uint64_max)
unfolding from_timespec from_valid
from_timespec-RoundsUp seconds nsec err h =
    let m = saturating_mul_add-min seconds ((nsec + 999999) / 1000000) (omega arith) in
    let n = saturating_mul_add-min seconds ((nsec + 99) / 100) (omega arith) in
    (ground arith, ground arith, ground arith, ground (arith, m), ground (arith, n), ground arith)

-- No field is negative, and the nanoseconds are less than a second.
abbrev pub in_range : ℤ → ℤ → Bool
in_range (pos seconds) (pos nsec) = ltb nsec 1000000000
in_range (pos seconds) (negsuc n) = false
in_range (negsuc s) nsec = false

from_timespec-fields :
    (seconds nsec : ℤ) (err : ErrorState)
    → let (r, w, err') = from_timespec (some (record { tv_sec = seconds; tv_nsec = nsec })) err in
      (r ≡ (if in_range seconds nsec then ok else failed))
      × (err' ≡ (if in_range seconds nsec then err else set_errno einval err))
unfolding from_timespec
from_timespec-fields (pos seconds) (pos nsec) err = (ground arith, ground arith)
from_timespec-fields (pos seconds) (negsuc n) err = (refl, refl)
from_timespec-fields (negsuc s) nsec err = (refl, refl)

-- A `struct timespec` is refused, with EINVAL, exactly if one of its fields is negative or its
-- nanoseconds are a second or more; otherwise the errors are untouched.
pub from_timespec-refused :
    (t : Timespec) (err : ErrorState)
    → let (r, w, err') = from_timespec (some t) err in
      (r ≡ (if in_range t.tv_sec t.tv_nsec then ok else failed))
      × (err' ≡ (if in_range t.tv_sec t.tv_nsec then err else set_errno einval err))
from_timespec-refused t err = from_timespec-fields t.tv_sec t.tv_nsec err
