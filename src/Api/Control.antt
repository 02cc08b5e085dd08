-- ===== src/Api/Control.antt =====
-- `epoll_ctl_port`, `epoll_ctl`, `epoll_ctl_ctx` and `epoll_ctl_batch` of src/wepoll_ex_api.c.
pub mod Guards
use wepoll_ex.Prelude.{
  ℕ, zero, suc, ◌+◌, ◌^◌, Bool, true, false, not, ◌&&◌, ◌||◌, Option, none, some, List, [], ◌∷◌,
  bit_and, bit_or, ◌==◌, if◌then◌else◌, is_some,
}
use wepoll_ex.Prelude.Int.{ℤ, pos, negsuc, not_positive}
use wepoll_ex.Bits.{complement}
use wepoll_ex.Status.{Status, ok, failed}
use wepoll_ex.Errno.Codes.{ebadf, efault, einval}
use wepoll_ex.Errno.State.{ErrorState, set_errno, get_last_error_info, restore_last_error_info}
use wepoll_ex.Api.Port.{Effect, Event, PortApi, fd_invalid}
use wepoll_ex.Api.Call.{Machine, with_port, fail_with, int_of, minus_one}

-- EPOLL_CTL_ADD, EPOLL_CTL_DEL, EPOLL_CTL_MOD, or an `op` that is none of these.
pub data Op : Type 0 where
  add : Op
  del : Op
  mod_op : Op
  unknown_op : ℤ → Op

unfoldable pub op_of : ℤ → Op
op_of (pos n) =
    if n == 1 then add else if n == 2 then del else if n == 3 then mod_op else unknown_op (pos n)
op_of (negsuc n) = unknown_op (negsuc n)

abbrev pub epoll_exclusive : ℕ
epoll_exclusive = 2 ^ 28

-- EPOLLONESHOT | EPOLLEXCLUSIVE | EPOLLET, and the same without the middle one.
abbrev pub add_flags : ℕ
add_flags = 2 ^ 30 + 2 ^ 28 + 2 ^ 31

abbrev pub mod_flags : ℕ
mod_flags = 2 ^ 30 + 2 ^ 31

-- EPOLLIN | EPOLLOUT | EPOLLWAKEUP | EPOLLET | EPOLLERR | EPOLLHUP | EPOLLEXCLUSIVE
abbrev pub exclusive_allowed : ℕ
exclusive_allowed = 1 + 4 + 2 ^ 29 + 2 ^ 31 + 8 + 16 + 2 ^ 28

module _ {W : Type 0} where
  abbrev pub refuse : ℕ → Effect W Status
  refuse error (w, err) = (failed, w, set_errno error err)

  -- `if (call != 0) return -1;` before the rest.
  abbrev pub and_then : Effect W Status → Effect W Status → Effect W Status
  and_then call rest s =
      let (r, w, err) = call s in elim r [ ok ↦ rest (w, err) | failed ↦ (failed, w, err) ]

module _ {W : Type 0} (api : PortApi W) (port : ℕ) where
  abbrev pub ctl_add : (fd : ℕ) → Event → (user_ctx : ℕ) → Effect W Status
  ctl_add fd event user_ctx =
      let flags = bit_and event.events add_flags in
      let registers = api.register port fd event.events flags event.user_data user_ctx in
      if bit_and event.events epoll_exclusive == 0
      then registers
      else and_then (api.validate_target port fd true) (
          if bit_and event.events (complement 32 exclusive_allowed) == 0
          then registers
          else refuse einval)

  abbrev pub ctl_mod : (fd : ℕ) → Event → (user_ctx : ℕ) → Effect W Status
  ctl_mod fd event user_ctx =
      let flags = bit_and event.events mod_flags in
      if bit_and event.events epoll_exclusive == 0
      then api.modify port fd event.events flags event.user_data user_ctx
      else and_then (api.validate_target port fd false) (refuse einval)

  -- The switch of `epoll_ctl_port`.
  abbrev pub ctl_switch : Op → (fd : ℕ) → Option Event → (user_ctx : ℕ) → Effect W Status
  ctl_switch add fd none user_ctx = refuse efault
  ctl_switch add fd (some event) user_ctx = ctl_add fd event user_ctx
  ctl_switch mod_op fd none user_ctx = refuse efault
  ctl_switch mod_op fd (some event) user_ctx = ctl_mod fd event user_ctx
  ctl_switch del fd event user_ctx = api.unregister port fd
  ctl_switch (unknown_op n) fd event user_ctx =
      and_then (api.validate_target port fd false) (refuse einval)

  unfoldable pub ctl_port : Op → (fd : ℕ) → Option Event → (user_ctx : ℕ) → Effect W Status
  ctl_port op fd event user_ctx =
      if fd == fd_invalid then refuse ebadf else ctl_switch op fd event user_ctx

-- One entry of the arrays `ops`, `fds` and `events` that `epoll_ctl_batch` takes.
pub record Item : Type 0 where
  pub op : Op
  pub fd : ℕ
  pub event : Event

abbrev pub is_del : Op → Bool
is_del del = true
is_del add = false
is_del mod_op = false
is_del (unknown_op n) = false

abbrev pub is_add : Op → Bool
is_add add = true
is_add del = false
is_add mod_op = false
is_add (unknown_op n) = false

abbrev pub is_known : Op → Bool
is_known (unknown_op n) = false
is_known add = true
is_known del = true
is_known mod_op = true

-- The first loop of `epoll_ctl_batch`: the error of the first entry that is refused. `no_events` tells
-- whether `events` is NULL.
unfoldable pub batch_error : (no_events : Bool) → List Item → Option ℕ
batch_error no_events [] = none
batch_error no_events (i ∷ is) =
    if not (is_known i.op)
    then some einval
    else if not (is_del i.op) && no_events
    then some efault
    else if i.fd == fd_invalid
    then some ebadf
    else batch_error no_events is

abbrev pub batch_event : Item → Option Event
batch_event i = if is_del i.op then none else some i.event

module _ {W : Type 0} (api : PortApi W) where
  -- `op` is the raw argument and `event` the pointer.
  unfoldable pub epoll_ctl_ctx :
      (epfd op : ℤ) (fd : ℕ) → Option Event → (user_ctx : ℕ) → Machine W → Option (ℤ × Machine W)
  epoll_ctl_ctx epfd op fd event user_ctx m =
      if not (is_del (op_of op)) && not (is_some event)
      then some (fail_with efault m)
      else if fd == fd_invalid
      then some (fail_with ebadf m)
      else elim (with_port api epfd failed
          (λ port.
            ctl_port api port (op_of op) fd (if is_del (op_of op) then none else event) user_ctx)
          m) [ none ↦ none | some (r, m1) ↦ some (int_of r, m1) ]

  abbrev pub epoll_ctl : (epfd op : ℤ) (fd : ℕ) → Option Event → Machine W → Option (ℤ × Machine W)
  epoll_ctl epfd op fd event m = epoll_ctl_ctx epfd op fd event 0 m

  module _ (port : ℕ) where
    -- The entries that were applied are in `done`, the latest first.
    unfoldable pub rollback : (done : List Item) → W × ErrorState → W × ErrorState
    rollback [] s = s
    rollback (i ∷ is) s =
        let (r, w, err) = ctl_port api port del i.fd none 0 s in
        rollback is (if is_add i.op then (w, err) else s)

    -- The second loop of `epoll_ctl_batch`.
    unfoldable pub batch_apply : (todo done : List Item) → Effect W Status
    batch_apply [] done (w, err) = (ok, w, err)
    batch_apply (i ∷ is) done s =
        let (r, w1, err1) = ctl_port api port i.op i.fd (batch_event i) 0 s in
        elim r [
          | ok ↦ batch_apply is (i ∷ done) (w1, err1)
          | failed ↦
              let saved_error = get_last_error_info err1 in
              let (w2, err2) = rollback done (w1, err1) in
              (failed, w2, restore_last_error_info saved_error err2)
        ]

  -- `no_arrays` tells whether `ops` or `fds` is NULL, and the list holds the `count` entries.
  unfoldable pub epoll_ctl_batch :
      (epfd count : ℤ) (no_arrays no_events : Bool) → List Item → Machine W → Option (ℤ × Machine W)
  epoll_ctl_batch epfd count no_arrays no_events items m =
      if not_positive count
      then some (fail_with einval m)
      else if no_arrays
      then some (fail_with efault m)
      else elim (batch_error no_events items) [
        | some error ↦ some (fail_with error m)
        | none ↦ elim (with_port api epfd failed (λ port. batch_apply port items []) m) [
          | none ↦ none
          | some (r, m1) ↦ some (int_of r, m1)
        ]
      ]
