-- ===== src/Wait.antt =====
-- The timeouts of src/wepoll_ex_port.c: `ep_saturating_mul_add_u64`, `ep_wait_timeout_from_milliseconds`,
-- `ep_wait_timeout_from_timespec`, and what is left of a timeout while a call waits.
pub mod Convert
pub mod Remaining
mod Examples
use wepoll_ex.Prelude.{
  ℕ, ◌+◌, ◌-◌, ◌*◌, ◌/◌, ◌%◌, ◌^◌, Bool, true, false, not, ◌&&◌, ◌||◌, Option, none, some, ltb, leb,
  ◌==◌, if◌then◌else◌,
}
use wepoll_ex.Prelude.Int.{ℤ, pos, negsuc, is_negative}
use wepoll_ex.Status.{Status, ok, failed}
use wepoll_ex.Errno.Codes.{einval, efault}
use wepoll_ex.Errno.State.{ErrorState, set_errno}

abbrev pub uint64_mod : ℕ
uint64_mod = 2 ^ 64

abbrev pub uint64_max : ℕ
uint64_max = 2 ^ 64 - 1

-- EP_100NS_PER_MILLISECOND
abbrev pub intervals_per_ms : ℕ
intervals_per_ms = 10000

-- `ep_wait_timeout_t` of src/wepoll_ex_internal.h.
pub record Timeout : Type 0 where
  pub milliseconds : ℕ
  pub intervals_100ns : ℕ
  pub infinite : Bool
  pub precise : Bool

abbrev pub zero_timeout : Timeout
zero_timeout = record { milliseconds = 0; intervals_100ns = 0; infinite = false; precise = false }

-- `struct timespec`.
pub record Timespec : Type 0 where
  pub tv_sec : ℤ
  pub tv_nsec : ℤ

-- The product and the sum are of `uint64_t`.
unfoldable pub saturating_mul_add : (value multiplier addend : ℕ) → ℕ
saturating_mul_add value multiplier addend =
    if ltb ((uint64_max - addend) / multiplier) value
    then uint64_max
    else (value * multiplier + addend) % uint64_mod

unfoldable pub from_milliseconds : ℤ → Timeout
from_milliseconds (negsuc n) = record zero_timeout { infinite = true }
from_milliseconds (pos ms) = record zero_timeout {
  milliseconds = ms;
  intervals_100ns = ms * intervals_per_ms % uint64_mod;
}

-- The conversion of a `struct timespec` whose two fields are not negative.
unfoldable pub from_valid : (seconds nsec : ℕ) → Timeout
from_valid seconds nsec =
    let millis_remainder = (nsec + 999999) / 1000000 in
    let intervals_remainder = (nsec + 99) / 100 in
    record zero_timeout {
      milliseconds = saturating_mul_add seconds 1000 millis_remainder;
      intervals_100ns = saturating_mul_add seconds 10000000 intervals_remainder;
      precise = leb seconds ((uint64_max - intervals_remainder) / 10000000);
    }

-- The result is never written through a null pointer here: every caller passes the address of a local.
unfoldable pub from_timespec : Option Timespec → ErrorState → Status × Timeout × ErrorState
from_timespec none err = (ok, record zero_timeout { infinite = true }, err)
from_timespec (some t) err = elim t.tv_sec [
  | negsuc n ↦ (failed, zero_timeout, set_errno einval err)
  | pos seconds ↦ elim t.tv_nsec [
    | negsuc n ↦ (failed, zero_timeout, set_errno einval err)
    | pos nsec ↦
        if leb 1000000000 nsec
        then (failed, zero_timeout, set_errno einval err)
        else (ok, from_valid seconds nsec, err)
  ]
]
