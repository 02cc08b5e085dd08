-- ===== src/Port/Sample.antt =====
-- A port of src/wepoll_ex_port.c with two registered sockets, for the examples of its operations.
use wepoll_ex.Prelude.{ℕ, ◌-◌, ◌^◌, ◌<◌, refl, false, true, arith, [], ◌∷◌}
use wepoll_ex.Errno.State.{fresh_thread}
use wepoll_ex.Afd.{tcp}
use wepoll_ex.Port.Classes.{no_class}
use wepoll_ex.Port.FdTable.Examples.{two}
use wepoll_ex.Port.Worklist.{Links, Worklist, Worklists}
use wepoll_ex.Port.Worklist.Flags.{Keeps}
use wepoll_ex.Port.Exclusive.{invalid_socket}
use wepoll_ex.Port.Wake.{WakePort, wake_none}
use wepoll_ex.Port.State.{Registration, PortState, socket, no_semantics, registered, idle}
use wepoll_ex.Port.Modify.Lists.{Linked}

-- Of the socket 5, its registration at address 100, with EPOLLIN.
abbrev pub registration : Registration
registration = record {
  fd = 5;
  kind = socket;
  waitable_semantics = no_semantics;
  base_socket = 5;
  endpoint_id = 0;
  endpoint_id_state = 0;
  afd = record {
    socket_protocol = tcp;
    udp_afd_qualifier_eligible = false;
    async_read_safe = true;
    udp_probe_available = false;
    endpoint_id_transitional = false;
  };
  interest = record {
    user_events = 1;
    user_flags = 0;
    user_data = 7;
    user_ctx = 0;
    observed_events = 0;
    explicit_disarmed_classes = no_class;
    pipe_terminal_delivered = false;
    et_holdoff = false;
    udp_readless_receive_parked = false;
  };
  state = registered;
  poll_status = idle;
  pending_events = 0;
  submitted_afd_events = 0;
  waitable_notification_owned = false;
  ready_queued = false;
  delete_pending = false;
  local_shutdown = 0;
  generation = 1;
  afd_poll_key_held = false;
  wait_registration = false;
  callback_active = false;
  completion_posted = false;
}

abbrev pub no_links : Links
no_links = record { next = λ s. 0; prev = λ s. 0; head = 0; tail = 0 }

abbrev pub empty : Worklist
empty = record { flag = λ s. false; links = no_links; count = 0 }

pub empty-Keeps : Keeps empty []
empty-Keeps = record {
  list = record {
    head_eq = refl;
    tail_eq = refl;
    run = tt;
    once = tt;
    outside = λ s h. (refl, refl);
  };
  flagged = λ s. refl;
  counted = refl;
  fits = omega arith;
}

abbrev pub lists : Worklists
lists = record { rearm = empty; oneshot = empty }

pub lists-Linked : (n : ℕ) → n < 2 ^ 64 - 1 → Linked n lists
lists-Linked n h = record {
  rearms = [];
  fired = [];
  keeps = record { rearm = empty-Keeps; oneshot = empty-Keeps; apart = λ s. refl };
  room = omega (arith, h);
  room' = omega (arith, h);
}

abbrev pub wakes : WakePort
wakes = record {
  wake_pending = wake_none;
  wake_event = record { events = 0; user_data = 0 };
  wake_requests = 0;
  wake_coalesced = 0;
  wake_returns = 0;
  closing = false;
  iocp_closed = false;
  iocp_post_handle = true;
  iocp_post_error = 0;
  iocp_post_failures = 0;
  packets = 0;
}

-- A waiter is active. The registrations differ in their numbers only, which the table has.
abbrev pub port : PortState
port = record {
  table = two;
  sock = λ s. registration;
  socks = 200 ∷ 100 ∷ [];
  worklists = lists;
  claims = record {
    chains = λ b. [];
    claim_base = λ s. invalid_socket;
    claim_classes = λ s. no_class;
  };
  ready = [];
  wake = wakes;
  next_sock_generation = 1;
  pending_poll_count = 1;
  generation = 0;
  explicit_rearm = false;
  waiter_active = true;
  waiter_coalescing = false;
  tcp_current_level_fallbacks = 0;
  err = fresh_thread;
}
