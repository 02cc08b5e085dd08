-- ===== src/Api/Sockets/Checks.antt =====
-- What the functions on sockets in src/wepoll_ex_api.c refuse, and how they end.
use wepoll_ex.Prelude.{
  ℕ, ◌≡◌, ◌≢◌, ◌⊎◌, inl, inr, refl, true, false, Option, none, some, arith, ◌==◌, Option-cases,
}
use wepoll_ex.Prelude.Int.{ℤ, pos}
use wepoll_ex.Status.{Status, ok, failed}
use wepoll_ex.Errno.Codes.{enoent}
use wepoll_ex.Errno.Mapping.{winerr_to_errno}
use wepoll_ex.Errno.State.{ErrorState, set_winsock_error, domain_winsock}
use wepoll_ex.Errno.Channel.{Reports, set_native_error-Reports}
use wepoll_ex.Api.Table.{Shared}
use wepoll_ex.Api.Port.{PortApi, fd_invalid}
use wepoll_ex.Api.Call.{Machine, minus_one}
use wepoll_ex.Api.Call.Balance.{Open, with_port-Open}
use wepoll_ex.Api.Sockets.{close_registered, close_socket}

module _ {W : Type 0} (api : PortApi W) (epfd : ℤ) (fd s : ℕ) (v : Shared) (m : Machine W)
    (o : Open epfd s v m.table) (valid : (fd == fd_invalid) ≡ false) where
  -- The answer of `ep_port_unregister`.
  abbrev pub unregistered : Status × W × ErrorState
  unregistered = api.unregister v.port fd (m.world, m.err)

  -- If the socket's registration cannot be taken away, but for one that is not there, the socket is not
  -- closed: `wepoll_ex_close_socket` fails with that error.
  pub close_socket-keeps :
      unregistered.0 ≡ failed
      → unregistered.2.errno ≢ enoent
      → close_socket api epfd fd m
        ≡ some (minus_one, record m { world = unregistered.1; err = unregistered.2 })
  unfolding close_socket close_registered
  close_socket-keeps bad other = ground (
    arith,
    valid,
    bad,
    other,
    with_port-Open api epfd s v (failed, none) (close_registered api fd) m o,
  )

  -- What `closesocket` does after that.
  abbrev pub closed : Option ℕ × W
  closed = api.closesocket fd unregistered.1

  module _ (gone : (unregistered.0 ≡ ok) ⊎ (unregistered.2.errno ≡ enoent)) where
    closes_well :
        closed.0 ≡ none
        → close_socket api epfd fd m
          ≡ some (pos 0, record m { world = closed.1; err = unregistered.2 })
    unfolding close_socket close_registered
    closes_well h = ground (
      arith,
      gone,
      valid,
      h,
      with_port-Open api epfd s v (failed, none) (close_registered api fd) m o,
    )

    closes_badly :
        (e : ℕ)
        → closed.0 ≡ some e
        → close_socket api epfd fd m
          ≡ some
              (minus_one, record m { world = closed.1; err = set_winsock_error e unregistered.2 })
    unfolding close_socket close_registered
    closes_badly e h = ground (
      arith,
      gone,
      valid,
      h,
      with_port-Open api epfd s v (failed, none) (close_registered api fd) m o,
    )

    -- If the registration is gone, or there was none, `wepoll_ex_close_socket` closes the socket: the
    -- answer is 0, or else -1 and the errors report the Winsock error of `closesocket`. The table is as
    -- before.
    pub close_socket-closes :
        (n : Machine W) × (n.table ≡ m.table)
        × (n.world ≡ closed.1)
        × (((close_socket api epfd fd m ≡ some (pos 0, n)) × (closed.0 ≡ none))
            ⊎ ((e : ℕ) × ((closed.0 ≡ some e)
                  × (close_socket api epfd fd m ≡ some (minus_one, n))
                  × Reports domain_winsock e (winerr_to_errno e) n.err)))
    close_socket-closes = elim (Option-cases closed.0) [
      | inl h ↦
          (record m { world = closed.1; err = unregistered.2 }, refl, refl, inl (closes_well h, h))
      | inr (e, h) ↦ (
        record m { world = closed.1; err = set_winsock_error e unregistered.2 },
        refl,
        refl,
        inr (e, (h, closes_badly e h, (set_native_error-Reports (λ x. x) true e unregistered.2).1)),
      )
    ]
