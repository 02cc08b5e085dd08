-- ===== src/Api/Sockets.antt =====
-- The public functions of src/wepoll_ex_api.c on one socket or one descriptor: rearming, waking,
-- duplicating, counting, and closing or shutting down a socket.
pub mod Checks
use wepoll_ex.Prelude.{
  ℕ, ◌^◌, Bool, true, false, not, ◌&&◌, ◌||◌, Option, none, some, List, bit_and, ltb, ◌==◌,
  if◌then◌else◌,
}
use wepoll_ex.Prelude.Int.{ℤ, pos, negsuc, not_positive}
use wepoll_ex.Bits.{complement}
use wepoll_ex.Status.{Status, ok, failed}
use wepoll_ex.Errno.Codes.{ebadf, efault, einval, enoent, eoverflow}
use wepoll_ex.Errno.State.{ErrorState, set_errno, set_winsock_error}
use wepoll_ex.Api.Table.{Table, duplicate, int_max}
use wepoll_ex.Api.Port.{Effect, Event, PortApi, fd_invalid}
use wepoll_ex.Api.Call.{Machine, with_port, require, put, run, fail_with, int_of, minus_one}
use wepoll_ex.Api.Control.{refuse}
use wepoll_ex.Api.Public.{rearm_all, wake_allowed, fd_result}

abbrev as_int : {W : Type 0} → Option (Status × Machine W) → Option (ℤ × Machine W)
as_int none = none
as_int (some (r, m)) = some (int_of r, m)

module _ {W : Type 0} (api : PortApi W) where
  -- The two functions below check their arguments when they hold the port.
  unfoldable pub epoll_rearm : (epfd : ℤ) (fd : ℕ) → Machine W → Option (ℤ × Machine W)
  epoll_rearm epfd fd m = as_int (
      with_port api epfd failed
        (λ port. if fd == fd_invalid then refuse ebadf else api.rearm port fd) m)

  unfoldable pub epoll_rearm_classes :
      (epfd : ℤ) (fd classes : ℕ) → Machine W → Option (ℤ × Machine W)
  epoll_rearm_classes epfd fd classes m = as_int (
      with_port api epfd failed
        (λ port.
          if fd == fd_invalid
          then refuse ebadf
          else if classes == 0 || not (bit_and classes (complement 32 rearm_all) == 0)
          then refuse einval
          else api.rearm_classes port fd classes)
        m)

  unfoldable pub epoll_rearm_classes_batch :
      (epfd : ℤ) (no_arrays : Bool) (fds classes : List ℕ) (count : ℤ)
      → Machine W
      → Option (ℤ × Machine W)
  epoll_rearm_classes_batch epfd no_arrays fds classes count m =
      if not_positive count
      then some (fail_with einval m)
      else if no_arrays
      then some (fail_with efault m)
      else as_int
          (with_port api epfd failed (λ port. api.rearm_classes_batch port fds classes count) m)

  unfoldable pub epoll_fd_count : ℤ → Machine W → Option (ℤ × Machine W)
  epoll_fd_count epfd m =
      elim (with_port api epfd none (λ port (w, err). (some (api.fd_table_count port w), w, err))
        m) [
          | none ↦ none
          | some (none, m1) ↦ some (minus_one, m1)
          | some (some count, m1) ↦
              if ltb int_max count then some (fail_with eoverflow m1) else some (pos count, m1)
        ]

  unfoldable pub wake : ℤ → Machine W → Option (ℤ × Machine W)
  wake epfd m = as_int (with_port api epfd failed (λ port. api.wake port) m)

  unfoldable pub wake_event : ℤ → Option Event → Machine W → Option (ℤ × Machine W)
  wake_event epfd none m = some (fail_with efault m)
  wake_event epfd (some event) m =
      if event.events == 0 || not (bit_and event.events (complement 32 wake_allowed) == 0)
      then some (fail_with einval m)
      else as_int (with_port api epfd failed (λ port. api.wake_event port event) m)

  unfoldable pub shutdown_socket :
      (epfd : ℤ) (fd : ℕ) (how : ℤ) → Machine W → Option (ℤ × Machine W)
  shutdown_socket epfd fd how m =
      if fd == fd_invalid
      then some (fail_with ebadf m)
      else as_int (with_port api epfd failed (λ port. api.shutdown_socket port fd how) m)

  -- The part of `wepoll_ex_close_socket` under the reference. The second answer is the Winsock error of
  -- `closesocket`.
  unfoldable pub close_registered : (fd port : ℕ) → Effect W (Status × Option ℕ)
  close_registered fd port s =
      let (r, w1, err1) = api.unregister port fd s in
      if r_failed r && not (err1.errno == enoent)
      then ((failed, none), w1, err1)
      else (let (error, w2) = api.closesocket fd w1 in
          elim error [ some e ↦ ((failed, some e), w2, err1) | none ↦ ((ok, none), w2, err1) ])
    where
      r_failed : Status → Bool
      r_failed ok = false
      r_failed failed = true

  -- The Winsock error is set after `epfd_put`.
  unfoldable pub close_socket : (epfd : ℤ) (fd : ℕ) → Machine W → Option (ℤ × Machine W)
  close_socket epfd fd m =
      if fd == fd_invalid
      then some (fail_with ebadf m)
      else elim (with_port api epfd (failed, none) (close_registered fd) m) [
        | none ↦ none
        | some ((r, none), m1) ↦ some (int_of r, m1)
        | some ((r, some error), m1) ↦
            some (minus_one, record m1 { err = set_winsock_error error m1.err })
      ]

  -- `wepoll_ex_dup`, with the outcome of `calloc`.
  unfoldable pub dup : (entry_ok : Bool) → ℤ → Machine W → Option (ℤ × Machine W)
  dup entry_ok epfd m = elim (duplicate entry_ok epfd m.table m.err) [
    | none ↦ none
    | some (r, t, err) ↦ some (fd_result r, record m { table = t; err = err })
  ]
