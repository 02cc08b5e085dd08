-- ===== src/Port/Shutdown.antt =====
-- The local shutdown of a socket of src/wepoll_ex_port.c: the native call, the record of it in the
-- registration, and its publication as readiness.
pub mod Queue
pub mod Retry
pub mod Publish
mod Examples
use wepoll_ex.Prelude.{
  ℕ, ◌+◌, ◌%◌, ◌^◌, Bool, true, false, ◌&&◌, ◌||◌, not, ◌==◌, if◌then◌else◌, Option, none, some,
  List, [], ◌∷◌, ◌++◌, bit_and, bit_or,
}
use wepoll_ex.Bits.Masks.{meets, without}
use wepoll_ex.Prelude.Int.{ℤ}
use wepoll_ex.Status.{Status, ok, failed}
use wepoll_ex.Errno.Codes.{ebadf, enomem, enotsock, wsaeinval}
use wepoll_ex.Errno.State.{
  set_errno, set_win32_error, set_winsock_error, get_last_error_info, restore_last_error_info,
}
use wepoll_ex.Port.Classes.{join, explicit_delivery_classes}
use wepoll_ex.Port.FdTable.{lookup}
use wepoll_ex.Port.Worklist.{Worklists, set_needs_rearm, set_oneshot_fired}
use wepoll_ex.Port.Exclusive.{Claims, try_claim}
use wepoll_ex.Port.Wake.{PostOutcome, post_iocp, fail_iocp_post}
use wepoll_ex.Port.State.{
  Registration, Interest, ReadyNode, PortState, PortKernel, ready, is_socket, is_pending, is_idle,
  matches, retired, query_failed, refuse_with, epolloneshot, epollet, epollexclusive,
  next_generation, with_sock,
}
use wepoll_ex.Port.Modify.{◌and_do◌, node_flags}
use wepoll_ex.Port.Levels.{
  Winsock, is_tcp, local_shutdown_mask, local_shutdown_level, count_fallback, reported,
  explicit_rearm_enabled,
}

-- What is to be reported, and what is then known as observed.
pub record Edge : Type 0 where
  pub delivered : ℕ
  pub observed : ℕ

unfoldable pub edge : Registration → (level : ℕ) → Edge
edge r level =
    let before = if r.ready_queued then r.pending_events else 0 in
    let old = bit_and r.interest.observed_events (bit_and level (reported r)) in
    let fresh = without level old in
    if meets r.interest.user_flags epollet
    then record { delivered = bit_or before fresh; observed = bit_or old fresh }
    else record { delivered = bit_or before level; observed = r.interest.observed_events }

-- Nothing is to be reported that is not on its way.
abbrev pub nothing_new : Registration → (delivered : ℕ) → Bool
nothing_new r delivered = (delivered == 0) || r.ready_queued && (delivered == r.pending_events)

abbrev pub observe : (sock observed : ℕ) → PortState → PortState
observe s observed p =
    with_sock s (λ r. record r { interest = record r.interest { observed_events = observed } }) p

unfoldable pub published :
    Registration
    → (explicit : Bool) (delivered observed generation : ℕ) → Registration
    → Registration
published old explicit delivered observed generation r = record r {
  interest = record r.interest {
    observed_events = if meets old.interest.user_flags epollet then observed else 0;
    explicit_disarmed_classes =
        if explicit
        then join old.interest.explicit_disarmed_classes (explicit_delivery_classes delivered)
        else old.interest.explicit_disarmed_classes;
    et_holdoff = false;
  };
  pending_events = delivered;
  ready_queued = true;
  state = ready;
  generation = generation;
}

abbrev pub node_of : Registration → (now delivered generation : ℕ) → ReadyNode
node_of r now delivered generation = record {
  data_ = r.interest.user_data;
  user_ctx = r.interest.user_ctx;
  fd = r.fd;
  sock_generation = generation;
  events = delivered;
  flags = node_flags r.interest.user_flags;
  timestamp = now;
}

-- The lists once a node is queued.
unfoldable pub relist_queued : (sock : ℕ) → Registration → Worklists → Option Worklists
relist_queued s r p = set_needs_rearm s false p and_do (λ l.
    if meets r.interest.user_flags epolloneshot then set_oneshot_fired s true l else some l)

abbrev pub queued_generation : Registration → (next_sock_generation : ℕ) → ℕ
queued_generation r next = if r.ready_queued then next_generation next else r.generation

-- The state with the node queued, and the lists `lists`.
unfoldable pub with_node : (sock now delivered observed : ℕ) → Worklists → PortState → PortState
with_node s now delivered observed lists p =
    let r = p.sock s in
    let g = queued_generation r p.next_sock_generation in
    with_sock s (published r (explicit_rearm_enabled p r) delivered observed g) (record p {
      worklists = lists;
      next_sock_generation = if r.ready_queued then g else p.next_sock_generation;
      ready = p.ready ++ node_of r now delivered g ∷ [];
    })

-- From the claim on, which grants `delivered`.
unfoldable pub publish : (sock now delivered observed : ℕ) → PortState → Option PortState
publish s now delivered observed p = elim (relist_queued s (p.sock s) p.worklists) [
  | none ↦ none
  | some lists ↦ some (with_node s now delivered observed lists p)
]

-- The answers 1, 0 and -1 of `ep_sock_queue_local_shutdown_locked`.
pub data Queued : Type 0 where
  queued not_queued queue_failed : Queued

-- The exclusive claim was denied: `delivered` waits.
unfoldable pub hold_off : (sock observed : ℕ) → PortState → Option (Queued × PortState)
hold_off s observed p =
    let q =
      with_sock s
        (λ r. record r {
          interest = record r.interest {
            observed_events = if meets r.interest.user_flags epollet then observed else 0;
            et_holdoff = true;
          };
        })
        p in
    elim (set_needs_rearm s true p.worklists) [
      | none ↦ none
      | some lists ↦ some (not_queued, record q { worklists = lists })
    ]

-- With a node at hand.
unfoldable pub claim_and_publish : (sock now : ℕ) → Edge → PortState → Option (Queued × PortState)
claim_and_publish s now e p =
    let r = p.sock s in
    let (granted, claims) = try_claim s r.base_socket e.delivered p.claims in
    let with_claims = record p { claims = claims } in
    let publishes : ℕ → PortState → Option (Queued × PortState) = λ delivered q.
      elim (publish s now delivered e.observed q) [ none ↦ none | some x ↦ some (queued, x) ] in
    if meets r.interest.user_flags epollexclusive
    then elim granted [
      | none ↦ hold_off s e.observed with_claims
      | some delivered ↦ publishes delivered with_claims
    ]
    else publishes e.delivered p

-- A node, or errno of why there is none; the fault point is asked first.
unfoldable pub reserve : PortKernel → (fault_hit : Bool) → PortState → Bool × PortState
reserve k fault_hit p =
    let (granted, q) = if fault_hit then (false, p) else k.take_node p in
    (
      granted,
      if not granted && (q.err.errno == 0) then record q { err = set_errno enomem q.err } else q,
    )

-- `supplied` says that the caller has a node.
unfoldable pub queue_local_shutdown :
    PortKernel
    → Winsock
    → (fault_hit supplied : Bool) (sock now : ℕ) → PortState
    → Option (Queued × PortState)
queue_local_shutdown k w fault_hit supplied s now p0 =
    let r = p0.sock s in
    let e = edge r (local_shutdown_level w s p0) in
    let p = count_fallback w s p0 in
    let (granted, reserved) = if supplied then (true, p) else reserve k fault_hit p in
    if not r.ready_queued && p.worklists.oneshot.flag s
    then some (not_queued, p)
    else if nothing_new r e.delivered
    then some
        (not_queued, if meets r.interest.user_flags epollet then observe s e.observed p else p)
    else if not granted
    then some (queue_failed, reserved)
    else claim_and_publish s now e reserved

-- What the probe of a number that is not registered finds; `probe_failed` is the errno it leaves.
pub data Probed : Type 0 where
  probe_failed : (error : ℕ) → Probed
  no_handle a_socket another_kind : Probed

-- What the calls of the system answer: `native` is the error of `shutdown`, if any.
pub record Calls : Type 0 where
  pub probed : Probed
  pub native : Option ℕ
  pub reserve_fault : Bool
  pub queue_fault : Bool
  pub winsock : Winsock
  pub post : PostOutcome
  pub now : ℕ

abbrev pub invalid_how : PortState → Status × PortState
invalid_how p = (failed, record p { err = set_winsock_error wsaeinval p.err })

-- The native call.
unfoldable pub shut_natively : Calls → PortState → Status × PortState
shut_natively c p = elim c.native [
  | none ↦ (ok, p)
  | some error ↦ (failed, record p { err = set_winsock_error error p.err })
]

unfoldable pub shutdown_unregistered : Calls → (how : ℤ) → PortState → Status × PortState
shutdown_unregistered c how p = elim c.probed [
  | probe_failed error ↦ refuse_with error p
  | no_handle ↦ refuse_with ebadf p
  | another_kind ↦ refuse_with enotsock p
  | a_socket ↦ elim (local_shutdown_mask how) [
    | none ↦ invalid_how p
    | some requested ↦ shut_natively c p
  ]
]

abbrev pub count_change : PortState → PortState
count_change p = record p { generation = (p.generation + 1) % 2 ^ 64 }

-- A publication that failed is repeated by a later wait.
abbrev pub give_up : PortState → Status × PortState
give_up p = (
  failed,
  record (count_change p) { err = restore_last_error_info (get_last_error_info p.err) p.err },
)

-- The end of the call; `changed` says that a new direction is shut down.
unfoldable pub finish_shutdown : Calls → (changed wakes : Bool) → PortState → Status × PortState
finish_shutdown c changed wakes p =
    let p1 = if changed then count_change p else p in
    let (error, posted) = post_iocp c.post p1.wake in
    if not wakes then (ok, p1) else elim error [
      | none ↦ (ok, record p1 { wake = posted })
      | some code ↦ (
        failed,
        record p1 { wake = (fail_iocp_post code posted).1; err = set_win32_error code p1.err },
      )
    ]

unfoldable pub keep_deferred : (sock : ℕ) → PortState → Option PortState
keep_deferred s p = elim (set_needs_rearm s true p.worklists) [
  | none ↦ none
  | some lists ↦ some (record p { worklists = lists })
]

-- With no poll pending, or a node queued.
unfoldable pub publish_level :
    PortKernel
    → Calls
    → (supplied changed : Bool) (sock : ℕ) → PortState
    → Option (Status × PortState)
publish_level k c supplied changed s p =
    elim (queue_local_shutdown k c.winsock c.queue_fault supplied s c.now p) [
      | none ↦ none
      | some (answer, q) ↦ elim answer [
        | queued ↦ some (finish_shutdown c changed (q.waiter_active && not q.waiter_coalescing) q)
        | not_queued ↦ some (finish_shutdown c changed false q)
        | queue_failed ↦ elim (keep_deferred s q) [ none ↦ none | some x ↦ some (give_up x) ]
      ]
    ]

abbrev pub may_publish : Registration → Bool
may_publish r = is_idle r.poll_status || r.ready_queued

unfoldable pub publish_settled :
    PortKernel
    → Calls
    → (supplied changed : Bool) (sock : ℕ) → PortState
    → Option (Status × PortState)
publish_settled k c supplied changed s p =
    if may_publish (p.sock s)
    then publish_level k c supplied changed s p
    else some (finish_shutdown c changed false p)

-- A pending poll is cancelled first, and the socket deferred.
unfoldable pub publish_shutdown :
    PortKernel
    → Calls
    → (supplied changed : Bool) (sock : ℕ) → PortState
    → Option (Status × PortState)
publish_shutdown k c supplied changed s p =
    if not (is_pending (p.sock s).poll_status)
    then publish_settled k c supplied changed s p
    else elim (keep_deferred s p) [
      | none ↦ none
      | some q ↦
          let (status, cancelled) = k.cancel s q in
          elim status [
            | ok ↦ publish_settled k c supplied changed s cancelled
            | failed ↦ some (give_up cancelled)
          ]
    ]

abbrev pub record_shutdown : (sock proposed : ℕ) → PortState → PortState
record_shutdown s proposed p = with_sock s (λ r. record r { local_shutdown = proposed }) p

-- What follows the native call: the record and the publication.
unfoldable pub after_native :
    PortKernel
    → Calls
    → (supplied changed publishes : Bool) (sock proposed : ℕ) → Status × PortState
    → Option (Status × PortState)
after_native k c supplied changed publishes s proposed (failed, q) = some (failed, q)
after_native k c supplied changed publishes s proposed (ok, q) =
    let recorded = if changed then record_shutdown s proposed q else q in
    if publishes
    then publish_shutdown k c supplied changed s recorded
    else some (finish_shutdown c changed false recorded)

-- A direction that is recorded is not shut down natively again.
unfoldable pub shut_and_publish :
    PortKernel
    → Calls
    → (supplied : Bool) (sock requested : ℕ) → PortState
    → Option (Status × PortState)
shut_and_publish k c supplied s requested p =
    let r = p.sock s in
    let tcp = is_tcp r.afd.socket_protocol in
    let proposed = bit_or r.local_shutdown requested in
    let changed = tcp && not (proposed == r.local_shutdown) in
    after_native k c supplied changed (tcp && (changed || p.worklists.rearm.flag s)) s proposed
      (if not tcp || changed then shut_natively c p else (ok, p))

-- A node is reserved before anything is changed.
abbrev pub needs_node : (sock requested : ℕ) → PortState → Bool
needs_node s requested p =
    let r = p.sock s in
    is_tcp r.afd.socket_protocol
    && (not (bit_or r.local_shutdown requested == r.local_shutdown) || p.worklists.rearm.flag s)
    && may_publish r
    && (r.ready_queued || not (p.worklists.oneshot.flag s))

unfoldable pub shutdown_registered :
    PortKernel → Calls → (sock : ℕ) (how : ℤ) → PortState → Option (Status × PortState)
shutdown_registered k c s how p =
    if not (is_socket (p.sock s).kind)
    then some (refuse_with enotsock p)
    else elim (local_shutdown_mask how) [
      | none ↦ some (invalid_how p)
      | some requested ↦
          let (granted, q) = reserve k c.reserve_fault p in
          if not (needs_node s requested p)
          then shut_and_publish k c false s requested p
          else if granted
          then shut_and_publish k c true s requested q
          else some (failed, q)
    ]

-- `ep_port_shutdown_socket`; `none` is a failed assertion.
unfoldable pub shutdown_socket :
    PortKernel → Calls → (fd : ℕ) (how : ℤ) → PortState → Option (Status × PortState)
shutdown_socket k c fd how p = elim (lookup fd p.table) [
  | none ↦ some (shutdown_unregistered c how p)
  | some sock ↦
      let (answer, q) = k.validate_control sock.addr p in
      elim answer [
        | matches ↦ shutdown_registered k c sock.addr how q
        | retired ↦ some (failed, q)
        | query_failed ↦ some (failed, q)
      ]
]
