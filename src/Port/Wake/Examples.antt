-- ===== src/Port/Wake/Examples.antt =====
-- Wakes of src/wepoll_ex_port.c on a port that is open and idle.
use wepoll_ex.Prelude.{◌+◌, ◌≡◌, ◌⊎◌, refl, false, true, none, some, List, [], ◌∷◌}
use wepoll_ex.Status.{ok, failed}
use wepoll_ex.Errno.State.{ErrorState, zero_info}
use wepoll_ex.Api.Port.{Event}
use wepoll_ex.Port.Wake.{WakePort, PostOutcome, wake_none, untagged, request_wake, take_wake}
use wepoll_ex.Port.Wake.Coalesce.{
  Request, Waits, Ended, after, or_else, first_event, taken, request_wake-posts, after-take,
}

abbrev event_one : Event
event_one = record { events = 1; user_data = 7 }

abbrev event_two : Event
event_two = record { events = 4; user_data = 8 }

abbrev idle_port : WakePort
idle_port = record {
  wake_pending = wake_none;
  wake_event = record { events = 0; user_data = 0 };
  wake_requests = 0;
  wake_coalesced = 0;
  wake_returns = 0;
  closing = false;
  iocp_closed = false;
  iocp_post_handle = true;
  iocp_post_error = 0;
  iocp_post_failures = 0;
  packets = 0;
}

abbrev posts : PostOutcome
posts = record { fault_hit = false; post_error = none }

abbrev fails : PostOutcome
fails = record { fault_hit = false; post_error = some 6 }

abbrev no_error : ErrorState
no_error = record { errno = 0; last = zero_info }

abbrev woken : WakePort
woken = record idle_port { wake_pending = untagged; packets = 1 }

abbrev two_events : List Request
two_events =
    record { outcome = fails; event = some event_one }
    ∷ record { outcome = fails; event = some event_two }
    ∷ []

request_wake-posts_example :
    (((request_wake fails none idle_port no_error).0 ≡ ok)
      × Waits (request_wake fails none idle_port no_error).1 none (0 + 1))
    ⊎ (((request_wake fails none idle_port no_error).0 ≡ failed)
        × Ended (request_wake fails none idle_port no_error).1)
request_wake-posts_example = request_wake-posts fails none idle_port no_error refl refl

after-take_example :
    ((take_wake true 9 (after two_events woken no_error)).0
      ≡ taken true 9 (or_else none (first_event two_events)))
    × ((take_wake true 9 (after two_events woken no_error)).1.wake_pending ≡ wake_none)
    × ((after two_events woken no_error).packets ≡ 1)
after-take_example =
    after-take two_events none 1 true 9 woken no_error
      (record { open_port = refl; carries = refl; posted = refl })
