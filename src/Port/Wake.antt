-- ===== src/Port/Wake.antt =====
-- Wakes of a port of src/wepoll_ex_port.c: the pending state, the coalescing of requests, the control
-- packet, and the end of the port when it cannot be posted.
pub mod Coalesce
mod Examples
use wepoll_ex.Prelude.{
  ℕ, zero, ◌+◌, ◌%◌, ◌^◌, Bool, true, false, not, ◌||◌, Option, none, some, ◌==◌, if◌then◌else◌,
  List, [], ◌∷◌,
}
use wepoll_ex.Status.{Status, ok, failed}
use wepoll_ex.Errno.Codes.{ebadf, efault, eio, error_invalid_handle, error_gen_failure}
use wepoll_ex.Errno.Mapping.{winerr_to_errno}
use wepoll_ex.Errno.State.{ErrorState, set_errno}
use wepoll_ex.Api.Port.{Event}

-- EP_WAKE_NONE, EP_WAKE_UNTAGGED and EP_WAKE_TAGGED.
pub data WakePending : Type 0 where
  wake_none untagged tagged : WakePending

-- The fields of `ep_port_t` that wakes use. `iocp_post_handle` says whether the handle is not NULL;
-- `packets` counts the control packets that the completion port has taken.
pub record WakePort : Type 0 where
  pub wake_pending : WakePending
  pub wake_event : Event
  pub wake_requests : ℕ
  pub wake_coalesced : ℕ
  pub wake_returns : ℕ
  pub closing : Bool
  pub iocp_closed : Bool
  pub iocp_post_handle : Bool
  pub iocp_post_error : ℕ
  pub iocp_post_failures : ℕ
  pub packets : ℕ

-- What a post meets: whether the fault point hits, and the error of `PostQueuedCompletionStatus`, `none` if
-- it succeeds.
pub record PostOutcome : Type 0 where
  pub fault_hit : Bool
  pub post_error : Option ℕ

-- The first answer is the error, `none` if the packet was posted.
unfoldable pub post_iocp : PostOutcome → WakePort → Option ℕ × WakePort
post_iocp o p =
    if not p.iocp_post_handle
    then (some error_invalid_handle, p)
    else if o.fault_hit
    then (some error_gen_failure, p)
    else elim o.post_error [
      | none ↦ (none, record p { packets = p.packets + 1 })
      | some code ↦ (some (if code == 0 then error_gen_failure else code), p)
    ]

-- The first answer: the caller closes the handle.
unfoldable pub revoke_iocp_posts : WakePort → Bool × WakePort
revoke_iocp_posts p = (
  if p.iocp_closed then false else p.iocp_post_handle,
  record p { iocp_post_handle = false; iocp_closed = true },
)

unfoldable pub fail_iocp_post : (win_error : ℕ) → WakePort → Bool × WakePort
fail_iocp_post win_error p =
    let mapped = winerr_to_errno win_error in
    let error = if mapped == 0 then eio else mapped in
    if p.closing
    then (false, p)
    else revoke_iocp_posts (record p {
      iocp_post_error = if p.iocp_post_error == 0 then error else p.iocp_post_error;
      iocp_post_failures = (p.iocp_post_failures + 1) % 2 ^ 64;
      closing = true;
    })

abbrev pub is_shut : WakePort → Bool
is_shut p = p.closing || p.iocp_closed

-- The section under `wake_lock`, on a port that is open. The first answer: a packet is to be posted.
unfoldable pub mark_wake : Option Event → WakePort → Bool × WakePort
mark_wake event p =
    let p1 = record p { wake_requests = (p.wake_requests + 1) % 2 ^ 64 } in
    elim p.wake_pending [
      | wake_none ↦ elim event [
        | none ↦ (true, record p1 { wake_pending = untagged })
        | some e ↦ (true, record p1 { wake_pending = tagged; wake_event = e })
      ]
      | untagged ↦ elim event [
        | none ↦ (false, record p1 { wake_coalesced = (p.wake_coalesced + 1) % 2 ^ 64 })
        | some e ↦ (
          false,
          record p1 {
            wake_pending = tagged;
            wake_event = e;
            wake_coalesced = (p.wake_coalesced + 1) % 2 ^ 64;
          },
        )
      ]
      | tagged ↦ (false, record p1 { wake_coalesced = (p.wake_coalesced + 1) % 2 ^ 64 })
    ]

-- After the lock: the post, and what follows when it fails.
unfoldable pub post_wake : PostOutcome → WakePort → ErrorState → Status × WakePort × ErrorState
post_wake o p err =
    let (error, p1) = post_iocp o p in
    elim error [
      | none ↦ (ok, p1, err)
      | some code ↦
          let mapped = if p1.closing then ebadf else winerr_to_errno code in
          let (closes, p2) = fail_iocp_post code (record p1 { wake_pending = wake_none }) in
          (failed, p2, set_errno (if mapped == 0 then eio else mapped) err)
    ]

unfoldable pub request_wake :
    PostOutcome → Option Event → WakePort → ErrorState → Status × WakePort × ErrorState
request_wake o event p err =
    if is_shut p
    then (failed, p, set_errno ebadf err)
    else (let (posts, p1) = mark_wake event p in
        if posts then post_wake o p1 err else (ok, p1, err))

unfoldable pub wake : PostOutcome → WakePort → ErrorState → Status × WakePort × ErrorState
wake o p err = request_wake o none p err

unfoldable pub wake_event :
    PostOutcome → Option Event → WakePort → ErrorState → Status × WakePort × ErrorState
wake_event o event p err = elim event [
  | none ↦ (failed, p, set_errno efault err)
  | some e ↦ request_wake o (some e) p err
]

-- What a wait gets from `ep_port_take_wake`: no wake, a return without events, or the tagged event, with a
-- time stamp where the caller takes extended events (their flags are WEPOLL_FLAG_WAKE_EVENT).
pub data TakenWake : Type 0 where
  no_wake zero_events : TakenWake
  basic_event : Event → TakenWake
  extended_event : (event : Event) (timestamp : ℕ) → TakenWake

unfoldable pub take_wake : (basic_events : Bool) (now : ℕ) → WakePort → TakenWake × WakePort
take_wake basic_events now p =
    let p1 = record p { wake_pending = wake_none; wake_returns = (p.wake_returns + 1) % 2 ^ 64 } in
    elim p.wake_pending [
      | wake_none ↦ (no_wake, p)
      | untagged ↦ (zero_events, p1)
      | tagged ↦
          (if basic_events then basic_event p.wake_event else extended_event p.wake_event now, p1)
    ]
