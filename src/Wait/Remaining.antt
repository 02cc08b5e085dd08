-- ===== src/Wait/Remaining.antt =====
-- What is left of a timeout while a call waits: `ep_wait_state_initialize` to
-- `ep_wait_backstop_milliseconds` of src/wepoll_ex_port.c. The readings of the two clocks are arguments.
use wepoll_ex.Prelude.{
  ℕ, ◌+◌, ◌-◌, ◌*◌, ◌/◌, ◌%◌, ◌^◌, ◌≤◌, ◌<◌, ◌≡◌, ◌↔◌, Bool, true, false, not, ◌&&◌, Option, none,
  some, arith, leb, ltb, ◌==◌, if◌then◌else◌, ◌⊎◌,
}
use wepoll_ex.Wait.{Timeout, uint64_mod, intervals_per_ms}

-- `ep_wait_state_t`; `timeout_generation` and `precise_attempted` steer the timer alone.
pub record WaitState : Type 0 where
  pub timeout : Timeout
  pub start_ms : ℕ
  pub start_100ns : ℕ
  pub precise_clock : Bool
  pub precise_enabled : Bool

-- INFINITE and EP_MAX_FINITE_IOCP_WAIT_MS.
abbrev pub infinite_wait : ℕ
infinite_wait = 2 ^ 32 - 1

abbrev pub max_finite_wait : ℕ
max_finite_wait = infinite_wait - 1

-- `precise_now` is the reading of the precise clock, if the system has one.
unfoldable pub initialize : Timeout → (now_ms : ℕ) → (precise_now : Option ℕ) → WaitState
initialize timeout now_ms precise_now =
    let base : WaitState = record {
      timeout = timeout;
      start_ms = now_ms;
      start_100ns = 0;
      precise_clock = false;
      precise_enabled = false;
    } in
    if timeout.precise && not timeout.infinite && not (timeout.intervals_100ns == 0)
    then elim precise_now [
      | none ↦ base
      | some now ↦ record base { start_100ns = now; precise_clock = true }
    ]
    else base

-- The difference of two readings of a 64-bit clock.
abbrev pub elapsed_since : (start now : ℕ) → ℕ
elapsed_since start now = (now + uint64_mod - start) % uint64_mod

-- Intervals in milliseconds, rounded up.
abbrev pub whole_milliseconds : ℕ → ℕ
whole_milliseconds remaining =
    remaining / intervals_per_ms + (if remaining % intervals_per_ms == 0 then 0 else 1)

unfoldable pub remaining_milliseconds : WaitState → (now_ms now_100ns : ℕ) → ℕ
remaining_milliseconds s now_ms now_100ns =
    let precise_elapsed = elapsed_since s.start_100ns now_100ns in
    let elapsed = elapsed_since s.start_ms now_ms in
    if s.precise_enabled
    then if leb s.timeout.intervals_100ns precise_elapsed
      then 0
      else whole_milliseconds (s.timeout.intervals_100ns - precise_elapsed)
    else if leb s.timeout.milliseconds elapsed
    then 0
    else s.timeout.milliseconds - elapsed

unfoldable pub remaining_100ns : WaitState → (now_100ns : ℕ) → ℕ
remaining_100ns s now_100ns =
    let elapsed = elapsed_since s.start_100ns now_100ns in
    if leb s.timeout.intervals_100ns elapsed then 0 else s.timeout.intervals_100ns - elapsed

unfoldable pub expired : WaitState → (now_ms now_100ns : ℕ) → Bool
expired s now_ms now_100ns =
    not s.timeout.infinite && remaining_milliseconds s now_ms now_100ns == 0

unfoldable pub backstop_milliseconds : WaitState → (now_ms now_100ns : ℕ) → ℕ
backstop_milliseconds s now_ms now_100ns =
    if s.timeout.infinite
    then infinite_wait
    else let remaining = remaining_milliseconds s now_ms now_100ns in
      if ltb max_finite_wait remaining then max_finite_wait else remaining

-- On the precise clock, `e` intervals after the start and with any wrap of the clock, the milliseconds
-- that are left are those of `ep_wait_remaining_100ns`, rounded up, and these are the exact rest.
pub remaining-precise :
    (s : WaitState) (e now_ms : ℕ)
    → s.precise_enabled ≡ true
    → s.start_100ns < uint64_mod
    → e < uint64_mod
    → let now = (s.start_100ns + e) % uint64_mod in
      let ms = remaining_milliseconds s now_ms now in
      (remaining_100ns s now ≡ s.timeout.intervals_100ns - e)
      × (s.timeout.intervals_100ns ≤ ms * intervals_per_ms + e)
      × (ms * intervals_per_ms < s.timeout.intervals_100ns - e + intervals_per_ms)
unfolding remaining_milliseconds remaining_100ns
remaining-precise s e now_ms p h k = ground arith

-- On the tick clock, `e` milliseconds after the start and with any wrap of the clock, the milliseconds
-- that are left are the exact rest.
pub remaining-ticks :
    (s : WaitState) (e now_100ns : ℕ)
    → s.precise_enabled ≡ false
    → s.start_ms < uint64_mod
    → e < uint64_mod
    → remaining_milliseconds s ((s.start_ms + e) % uint64_mod) now_100ns
      ≡ s.timeout.milliseconds - e
unfolding remaining_milliseconds
remaining-ticks s e now_100ns p h k = ground arith

-- The wait that the code hands to the kernel is INFINITE exactly for an infinite timeout; for a finite
-- one it is never longer than what is left, and it is 0 exactly when the timeout has expired.
pub backstop-bounds :
    (s : WaitState) (now_ms now_100ns : ℕ)
    → let b = backstop_milliseconds s now_ms now_100ns in
      ((b ≡ infinite_wait) ↔ (s.timeout.infinite ≡ true))
      × ((s.timeout.infinite ≡ true) ⊎ (b ≤ remaining_milliseconds s now_ms now_100ns))
      × ((b ≡ 0) ↔ (expired s now_ms now_100ns ≡ true))
unfolding backstop_milliseconds expired
backstop-bounds s now_ms now_100ns =
    ((λ h. ground arith, λ h. ground arith), ground arith, (λ h. ground arith, λ h. ground arith))
