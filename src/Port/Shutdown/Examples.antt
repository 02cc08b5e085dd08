-- ===== src/Port/Shutdown/Examples.antt =====
-- Local shutdowns of src/wepoll_ex_port.c on a port with two registered sockets.
use wepoll_ex.Prelude.{
  if◌then◌else◌, zero, suc, ◌^◌, ◌≡◌, ◌≢◌, refl, true, false, ◌&&◌, ◌||◌, not, arith, none, some,
}
use wepoll_ex.Prelude.Int.{pos}
use wepoll_ex.Bits.{test_bit, test_bit-pow}
use wepoll_ex.Bits.Masks.{meets}
use wepoll_ex.Status.{ok}
use wepoll_ex.Port.FdTable.{lookup}
use wepoll_ex.Port.FdTable.Examples.{first}
use wepoll_ex.Port.State.{
  Registration, ReadyNode, PortState, PortKernel, matches, submitted, epollet,
}
use wepoll_ex.Port.Levels.{Winsock, reported, local_shutdown_mask}
use wepoll_ex.Port.Shutdown.Queue.{Within}
use wepoll_ex.Port.Shutdown.{Calls, a_socket, edge, publish, shutdown_socket}
use wepoll_ex.Port.Shutdown.Queue.{waiting, edge-exact}
use wepoll_ex.Port.Shutdown.Retry.{shutdown_socket-retry}
use wepoll_ex.Port.Shutdown.Publish.{Live, publish-Live}
use wepoll_ex.Port.Sample.{registration, port, lists-Linked}

-- The receive side is shut down, and EPOLLIN is armed on edges.
abbrev half_shut : Registration
half_shut = record registration {
  local_shutdown = 1;
  interest = record registration.interest { user_flags = 2 ^ 31 };
}

abbrev half_port : PortState
half_port = record port { sock = λ s. half_shut }

-- Nothing is writable or has urgent data.
abbrev quiet : Winsock
quiet = record { poll = some 0; select_read = false; select_write = false; select_priority = false }

abbrev calm : PortKernel
calm = record {
  validate_control = λ s p. (matches, p);
  fail_absent = λ fd p. p;
  cancel = λ s p. (ok, p);
  submit = λ s p. (submitted, p);
  take_node = λ p. (true, p);
}

abbrev calls : Calls
calls = record {
  probed = a_socket;
  native = none;
  reserve_fault = false;
  queue_fault = false;
  winsock = quiet;
  post = record { fault_hit = false; post_error = none };
  now = 9;
}

-- A level of EPOLLIN is within what the registration is told.
readable-Within : Within 1 (reported half_shut)
unfolding test_bit
readable-Within zero h = refl
readable-Within (suc k) h = absurd (ground (arith, h, test_bit-pow (suc k) 0))

edge-exact_example :
    (test_bit 0 (edge half_shut 1).delivered ≡ (
      test_bit 0 (waiting half_shut)
      || test_bit 0 1
        && not (
            meets half_shut.interest.user_flags epollet
            && test_bit 0 half_shut.interest.observed_events)))
    × (test_bit 0 (edge half_shut 1).observed ≡ (
        if meets half_shut.interest.user_flags epollet
        then test_bit 0 1
        else test_bit 0 half_shut.interest.observed_events))
edge-exact_example = edge-exact half_shut 1 0 readable-Within (omega arith) (omega arith)

some_addr : first.addr ≢ 0
some_addr e = absurd (omega (arith, e))

publish-Live_example :
    (q : PortState) × ((publish 100 9 1 1 half_port ≡ some q)
      × ((node : ReadyNode) × ((node.events ≡ 1) × Live 100 half_port q node)))
publish-Live_example = publish-Live 100 9 1 1 half_port (lists-Linked 2 (omega arith)) some_addr

found : lookup 5 half_port.table ≡ some first
unfolding lookup wepoll_ex.Port.FdTable.lookup_from
found = refl

receive_only : local_shutdown_mask (pos 0) ≡ some 1
unfolding local_shutdown_mask
receive_only = refl

shutdown_socket-retry_example :
    shutdown_socket calm (record calls { native = some 10054 }) 5 (pos 0) half_port
    ≡ shutdown_socket calm calls 5 (pos 0) half_port
shutdown_socket-retry_example =
    shutdown_socket-retry calm calls (some 10054) 5 1 (pos 0) first half_port half_port refl found
      refl receive_only (record { is_tcp_socket = refl; recorded = refl })
