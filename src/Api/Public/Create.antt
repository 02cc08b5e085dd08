-- ===== src/Api/Public/Create.antt =====
-- What `epoll_create_ex` of src/wepoll_ex_api.c leaves when it fails to publish a port.
use wepoll_ex.Prelude.{ℕ, ◌+◌, ◌≡◌, refl, true, false, Option, none, some, arith, ◌==◌, bit_and}
use wepoll_ex.Prelude.Int.{ℤ, is_negative}
use wepoll_ex.Bits.{complement}
use wepoll_ex.Status.{ok}
use wepoll_ex.Errno.Channel.{IsCoherent, restore-get_last_error_info}
use wepoll_ex.Api.Table.{alloc_fd}
use wepoll_ex.Api.Port.{PortApi}
use wepoll_ex.Api.Call.{Machine, minus_one, run}
use wepoll_ex.Api.Call.Errors.{SameErrors}
use wepoll_ex.Api.Public.{
  AllocOutcome, on_table, abandon, epoll_create_ex, epoll_cloexec, create_explicit_rearm,
}

module _ {W : Type 0} (api : PortApi W) (o : AllocOutcome) (size : ℤ) (flags port : ℕ)
    (m : Machine W) (size_ok : is_negative size ≡ false)
    (flags_ok : (bit_and flags (complement 32 (epoll_cloexec + create_explicit_rearm)) == 0) ≡ true)
    (started : (run api.global_init m).0 ≡ ok)
    (created : (run (api.create size flags) (run api.global_init m).1).0 ≡ some port) where
  -- The state after `ep_port_create`, and the answer of `epfd_alloc` to it.
  abbrev pub with_new_port : Machine W
  with_new_port = (run (api.create size flags) (run api.global_init m).1).1

  abbrev pub allocated : Option ℕ × Machine W
  allocated = on_table (alloc_fd o.entry_ok o.event_error port) with_new_port

  -- When a port was created and no descriptor can be had for it, `epoll_create_ex` fails, begins the
  -- close of that port and destroys it; the errors that the caller reads are those of `epfd_alloc`.
  pub epoll_create_ex-abandons :
      allocated.0 ≡ none
      → IsCoherent allocated.1.err
      → let (r, n) = epoll_create_ex api o size flags m in
        let (w, err) = api.begin_close port (allocated.1.world, allocated.1.err) in
        (r ≡ minus_one)
        × (n.world ≡ (api.destroy port (w, err)).1)
        × (n.table ≡ allocated.1.table)
        × SameErrors allocated.1.err n.err
  unfolding epoll_create_ex
  epoll_create_ex-abandons none_left coherent =
      let same : epoll_create_ex api o size flags m ≡ (minus_one, abandon api port allocated.1) =
        ground (arith, size_ok, flags_ok, started, created, none_left) in
      rw same (refl, refl, refl, restore-get_last_error_info allocated.1.err _ coherent)
