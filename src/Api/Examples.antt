-- ===== src/Api/Examples.antt =====
-- Concrete calls of the functions of src/wepoll_ex_api.c, on the toy port and on one open descriptor.
use wepoll_ex.Prelude.{
  ℕ, ◌+◌, ◌^◌, ◌<◌, ◌≤◌, ◌≡◌, ◌⊎◌, inl, refl, true, false, none, some, List, [], ◌∷◌, update, arith,
}
use wepoll_ex.Prelude.Int.{pos}
use wepoll_ex.Errno.Mapping.{winerr_to_errno}
use wepoll_ex.Errno.State.{ErrorState, fresh_thread, domain_winsock}
use wepoll_ex.Errno.Channel.{Reports}
use wepoll_ex.Api.Table.{Shared, find_locked, allocate_id_locked, int_max, put_locked}
use wepoll_ex.Api.Lookup.{IsTable}
use wepoll_ex.Api.Allocate.{with_next, InUse, allocate_id-fresh}
use wepoll_ex.Api.Port.{Event}
use wepoll_ex.Api.Call.{Machine, put, put_destroy, destroy, minus_one}
use wepoll_ex.Api.Call.Balance.{Open}
use wepoll_ex.Api.Call.Errors.{SameErrors, put-SameErrors}
use wepoll_ex.Api.Control.{add, op_of, Item, ctl_port, epoll_ctl_ctx}
use wepoll_ex.Api.Control.Guards.{epoll_ctl_ctx-Open}
use wepoll_ex.Api.Sockets.{close_socket}
use wepoll_ex.Api.Sockets.Checks.{close_socket-closes}
use wepoll_ex.Api.Close.{wepoll_close, timed_out}
use wepoll_ex.Api.Close.Outcomes.{Names, wepoll_close-deferred, given_up, held_up}
use wepoll_ex.Api.Toy.{toy, Sockets, record_of, entry_one, table_of, machine_of}

abbrev idle : Machine Sockets
idle = machine_of (record_of 0 1)

idle-IsTable : IsTable (idle.table)
idle-IsTable = record {
  next_positive = omega arith;
  next_small = omega arith;
  chains = λ b. ground arith;
}

unfoldable named : (v : Shared) → v.closing ≡ false → Names (pos 1) 1 v (table_of v)
unfolding find_locked
named v h = record { entry = entry_one; found = refl; here = refl; there = refl; open_still = h }

idle-Open : Open (pos 1) 1 (record_of 0 1) idle.table
unfolding find_locked
idle-Open = record {
  entry = entry_one;
  found = refl;
  here = refl;
  there = refl;
  open_still = refl;
  few = omega arith;
}

allocate_id-fresh_example :
    let (r, t') = allocate_id_locked idle.table in
    ((fd : ℕ) × (r ≡ some fd)
      × (0 < fd)
      × (fd ≤ int_max)
      × (find_locked (pos fd) idle.table ≡ none)
      × (t' ≡ with_next t'.next_fd idle.table)
      × IsTable t')
    ⊎ ((r ≡ none)
        × ((fd : ℕ) → 0 < fd → fd ≤ int_max → InUse fd idle.table)
        × (t' ≡ with_next t'.next_fd idle.table)
        × IsTable t')
allocate_id-fresh_example = allocate_id-fresh idle.table idle-IsTable

-- The second entry adds a socket that is there, so the first is undone.
abbrev two_adds : List Item
two_adds =
    record { op = add; fd = 4; event = record { events = 1; user_data = 0 } }
    ∷ record { op = add; fd = 3; event = record { events = 1; user_data = 0 } }
    ∷ []

abbrev busy : Machine Sockets
busy = machine_of (record_of 1 1)

abbrev busy_names : Names (pos 1) 1 (record_of 1 1) busy.table
busy_names = named (record_of 1 1) refl

-- The thread of the holding call has set errno without the record.
abbrev errno_alone : ErrorState
errno_alone = record fresh_thread { errno = 9 }

wepoll_close-deferred_example :
    let m = given_up toy (pos 1) 1 (record_of 1 1) busy busy_names in
    (n : Machine Sockets) × (wepoll_close toy timed_out (λ x. x) (λ x. x) (pos 1) busy
      ≡ some (minus_one, m))
    × (put toy 1 (held_up toy (pos 1) 1 (record_of 1 1) busy busy_names errno_alone) ≡ some n)
    × (n.world ≡ (λ fd. false))
    × (n.table.shareds.cell 1 ≡ none)
    × SameErrors errno_alone n.err
wepoll_close-deferred_example =
    wepoll_close-deferred toy (pos 1) 1 (record_of 1 1) busy busy_names errno_alone refl refl

-- A record in its teardown.
abbrev detached_one : Shared
detached_one = record (record_of 1 0) { closing = true; detached = true }

abbrev leaving : Machine Sockets
leaving = record (machine_of detached_one) { err = errno_alone }

abbrev after_put : Machine Sockets
after_put = elim (put toy 1 leaving) [ none ↦ idle | some n ↦ n ]

put-SameErrors_example : SameErrors errno_alone after_put.err
unfolding put put_locked put_destroy destroy
put-SameErrors_example = put-SameErrors toy 1 leaving after_put refl

epoll_ctl_ctx-Open_example :
    (epoll_ctl_ctx toy (pos 1) (pos 2) 3 none 0 idle
      ≡ some (pos 0, record idle { world = update idle.world 3 false }))
    × (idle.table ≡ idle.table)
unfolding ctl_port op_of
epoll_ctl_ctx-Open_example =
    epoll_ctl_ctx-Open toy (pos 1) (pos 2) 3 none 0 1 (record_of 0 1) idle idle-Open refl refl

-- EPOLLEXCLUSIVE with EPOLLONESHOT.
abbrev exclusive_oneshot : Event
exclusive_oneshot = record { events = 2 ^ 28 + 2 ^ 30; user_data = 0 }

close_socket-closes_example :
    (n : Machine Sockets) × (n.table ≡ idle.table)
    × (n.world ≡ update idle.world 3 false)
    × (((close_socket toy (pos 1) 3 idle ≡ some (pos 0, n))
          × ((toy.closesocket 3 idle.world).0 ≡ none))
        ⊎ ((e : ℕ) × (((toy.closesocket 3 idle.world).0 ≡ some e)
              × (close_socket toy (pos 1) 3 idle ≡ some (minus_one, n))
              × Reports domain_winsock e (winerr_to_errno e) n.err)))
close_socket-closes_example =
    close_socket-closes toy (pos 1) 3 1 (record_of 0 1) idle idle-Open refl (inl refl)

-- EPOLLET is no readiness event.
