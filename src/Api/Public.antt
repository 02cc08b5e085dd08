-- ===== src/Api/Public.antt =====
-- The public functions of src/wepoll_ex_api.c that create ports, wait on them and rearm or wake them.
pub mod Create
pub mod Wait
use wepoll_ex.Prelude.{
  ℕ, ◌+◌, ◌^◌, ◌/◌, Bool, true, false, not, ◌&&◌, ◌||◌, Option, none, some, List, bit_and, ltb,
  ◌==◌, if◌then◌else◌,
}
use wepoll_ex.Prelude.Int.{ℤ, pos, negsuc, not_positive, is_negative, exceeds}
use wepoll_ex.Bits.{complement}
use wepoll_ex.Status.{Status, ok, failed}
use wepoll_ex.Errno.Codes.{ebadf, efault, einval, enoent, eoverflow}
use wepoll_ex.Errno.State.{
  ErrorState, set_errno, set_winsock_error, get_last_error_info, restore_last_error_info,
}
use wepoll_ex.Api.Table.{Table, alloc_fd, duplicate, int_max}
use wepoll_ex.Api.Port.{Effect, Event, PortApi, fd_invalid}
use wepoll_ex.Api.Call.{Machine, with_port, require, put, run, put_in, fail_with, int_of, minus_one}
use wepoll_ex.Wait.{Timeout, Timespec, from_milliseconds, from_timespec}

-- EPOLL_CLOEXEC, octal 2000000, and WEPOLL_EX_CREATE_EXPLICIT_REARM.
abbrev pub epoll_cloexec : ℕ
epoll_cloexec = 2 ^ 19

abbrev pub create_explicit_rearm : ℕ
create_explicit_rearm = 2 ^ 24

-- WEPOLL_EPOLL_MAX_EVENTS: `struct epoll_event` has 12 bytes. On 64-bit Windows it is also
-- WEPOLL_EPOLL_EX_MAX_EVENTS.
abbrev pub max_events : ℕ
max_events = int_max / 12

-- WEPOLL_EX_REARM_ALL
abbrev pub rearm_all : ℕ
rearm_all = 7

-- The `allowed_events` of `wepoll_ex_wake_event`.
abbrev pub wake_allowed : ℕ
wake_allowed = 1 + 2 + 4 + 8 + 16 + 2 ^ 6 + 2 ^ 7 + 2 ^ 8 + 2 ^ 9 + 2 ^ 10 + 2 ^ 13

-- What `epfd_alloc` meets: the outcomes of its second `calloc` and of `CreateEventW`.
pub record AllocOutcome : Type 0 where
  pub entry_ok : Bool
  pub event_error : Option ℕ

abbrev pub fd_result : Option ℕ → ℤ
fd_result none = minus_one
fd_result (some fd) = pos fd

module _ {W : Type 0} where
  -- A call of the table from a public function.
  abbrev pub on_table :
      {A : Type 0} → (Table → ErrorState → A × Table × ErrorState) → Machine W → A × Machine W
  on_table f m = let (a, t, err) = f m.table m.err in (a, record m { table = t; err = err })

module _ {W : Type 0} (api : PortApi W) where
  -- The clean-up of `epoll_create_ex` when no descriptor could be had.
  abbrev pub abandon : ℕ → Machine W → Machine W
  abandon port m =
      let saved_error = get_last_error_info m.err in
      let m1 = put_in (api.begin_close port (m.world, m.err)) m in
      let m2 = (run (api.destroy port) m1).1 in
      record m2 { err = restore_last_error_info saved_error m2.err }

  unfoldable pub epoll_create_ex : AllocOutcome → (size : ℤ) (flags : ℕ) → Machine W → ℤ × Machine W
  epoll_create_ex o size flags m =
      if is_negative size
        || not (bit_and flags (complement 32 (epoll_cloexec + create_explicit_rearm)) == 0)
      then fail_with einval m
      else (let (init, m1) = run api.global_init m in
          elim init [
            | failed ↦ (minus_one, m1)
            | ok ↦
                let (created, m2) = run (api.create size flags) m1 in
                elim created [
                  | none ↦ (minus_one, m2)
                  | some port ↦
                      let (fd, m3) = on_table (alloc_fd o.entry_ok o.event_error port) m2 in
                      elim fd [ none ↦ (minus_one, abandon port m3) | some d ↦ (pos d, m3) ]
                ]
          ])

  unfoldable pub epoll_create : AllocOutcome → ℤ → Machine W → ℤ × Machine W
  epoll_create o size m =
      if not_positive size then fail_with einval m else epoll_create_ex o (pos 0) 0 m

  unfoldable pub epoll_create1 : AllocOutcome → (flags : ℕ) → Machine W → ℤ × Machine W
  epoll_create1 o flags m =
      if not (bit_and flags (complement 32 epoll_cloexec) == 0)
      then fail_with einval m
      else epoll_create_ex o (pos 0) flags m

  -- The guards that all waits share, before the port is called.
  abbrev pub checked_wait :
      (epfd maxevents : ℤ) (no_events : Bool)
      → (ℕ → Effect W ℤ)
      → Machine W
      → Option (ℤ × Machine W)
  checked_wait epfd maxevents no_events call m =
      if not_positive maxevents || exceeds maxevents max_events
      then some (fail_with einval m)
      else if no_events
      then some (fail_with efault m)
      else with_port api epfd minus_one call m

  -- The buffer is told by whether it is NULL; the port's `wait` answers the number of events.
  unfoldable pub wait_basic_timeout :
      (epfd maxevents : ℤ) (no_events : Bool)
      → Timeout
      → (sigmask : ℕ) → Machine W
      → Option (ℤ × Machine W)
  wait_basic_timeout epfd maxevents no_events timeout sigmask m =
      checked_wait epfd maxevents no_events
        (λ port. api.wait_basic_timeout port maxevents timeout sigmask) m

  unfoldable pub epoll_pwait :
      (epfd maxevents : ℤ) (no_events : Bool) (timeout : ℤ) (sigmask : ℕ)
      → Machine W
      → Option (ℤ × Machine W)
  epoll_pwait epfd maxevents no_events timeout sigmask m =
      wait_basic_timeout epfd maxevents no_events (from_milliseconds timeout) sigmask m

  abbrev pub epoll_wait :
      (epfd maxevents : ℤ) (no_events : Bool) (timeout : ℤ) → Machine W → Option (ℤ × Machine W)
  epoll_wait epfd maxevents no_events timeout m = epoll_pwait epfd maxevents no_events timeout 0 m

  abbrev pub epoll_drain :
      (epfd maxevents : ℤ) (no_events : Bool) → Machine W → Option (ℤ × Machine W)
  epoll_drain epfd maxevents no_events m = epoll_wait epfd maxevents no_events (pos 0) m

  unfoldable pub epoll_pwait2 :
      (epfd maxevents : ℤ) (no_events : Bool)
      → Option Timespec
      → (sigmask : ℕ) → Machine W
      → Option (ℤ × Machine W)
  epoll_pwait2 epfd maxevents no_events timeout sigmask m =
      let (r, wait_timeout, err) = from_timespec timeout m.err in
      let m1 = record m { err = err } in
      elim r [
        | failed ↦ some (minus_one, m1)
        | ok ↦ wait_basic_timeout epfd maxevents no_events wait_timeout sigmask m1
      ]

  unfoldable pub epoll_wait_ex :
      (epfd maxevents : ℤ) (no_events : Bool) (timeout : ℤ) → Machine W → Option (ℤ × Machine W)
  epoll_wait_ex epfd maxevents no_events timeout m =
      checked_wait epfd maxevents no_events (λ port. api.wait port maxevents timeout 0) m

  unfoldable pub epoll_pwait2_ex :
      (epfd maxevents : ℤ) (no_events : Bool)
      → Option Timespec
      → (sigmask : ℕ) → Machine W
      → Option (ℤ × Machine W)
  epoll_pwait2_ex epfd maxevents no_events timeout sigmask m =
      let (r, wait_timeout, err) = from_timespec timeout m.err in
      let m1 = record m { err = err } in
      elim r [
        | failed ↦ some (minus_one, m1)
        | ok ↦
            checked_wait epfd maxevents no_events
              (λ port. api.wait_timeout port maxevents wait_timeout sigmask) m1
      ]
