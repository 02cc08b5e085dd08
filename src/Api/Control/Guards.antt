-- ===== src/Api/Control/Guards.antt =====
-- What `epoll_ctl` and `epoll_ctl_ctx` of src/wepoll_ex_api.c let through to the port.
use wepoll_ex.Prelude.{
  ℕ, ◌≡◌, refl, false, not, ◌&&◌, Option, none, some, arith, ◌==◌, if◌then◌else◌, is_some,
}
use wepoll_ex.Prelude.Int.{ℤ}
use wepoll_ex.Status.{failed}
use wepoll_ex.Api.Table.{Shared}
use wepoll_ex.Api.Port.{Event, PortApi, fd_invalid}
use wepoll_ex.Api.Call.{Machine, int_of, run}
use wepoll_ex.Api.Call.Balance.{Open, with_port-Open}
use wepoll_ex.Api.Control.{op_of, is_del, ctl_port, epoll_ctl_ctx}

module _ {W : Type 0} (api : PortApi W) where
  -- With a socket and, but for EPOLL_CTL_DEL, an event, a call on an open descriptor is the port's answer
  -- to the operation, which gets no event for EPOLL_CTL_DEL; the table of descriptors is as before.
  pub epoll_ctl_ctx-Open :
      (epfd op : ℤ) (fd : ℕ) (event : Option Event) (user_ctx s : ℕ) (v : Shared) (m : Machine W)
      → Open epfd s v m.table
      → (fd == fd_invalid) ≡ false
      → (not (is_del (op_of op)) && not (is_some event)) ≡ false
      → let event' = if is_del (op_of op) then none else event in
        let (r, m') = run (ctl_port api v.port (op_of op) fd event' user_ctx) m in
        (epoll_ctl_ctx api epfd op fd event user_ctx m ≡ some (int_of r, m')) × (m'.table ≡ m.table)
  unfolding epoll_ctl_ctx
  epoll_ctl_ctx-Open epfd op fd event user_ctx s v m o valid has_event = (
    ground (
      arith,
      valid,
      has_event,
      with_port-Open api epfd s v failed
          (λ port.
            ctl_port api port (op_of op) fd (if is_del (op_of op) then none else event) user_ctx)
          m o,
    ),
    refl,
  )
