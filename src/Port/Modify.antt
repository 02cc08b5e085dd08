-- ===== src/Port/Modify.antt =====
-- `ep_port_modify` of src/wepoll_ex_port.c.
pub mod Lists
pub mod Effect
pub mod Outcome
pub mod Submission
pub mod Request
mod Examples
use wepoll_ex.Prelude.{
  ℕ, ◌+◌, ◌%◌, ◌^◌, Bool, true, false, ◌&&◌, ◌||◌, not, ◌==◌, if◌then◌else◌, Option, none, some,
  List, [], ◌∷◌, ◌++◌, bit_and, bit_or, is_some,
}
use wepoll_ex.Bits.{complement}
use wepoll_ex.Bits.Masks.{meets, without}
use wepoll_ex.Status.{Status, ok, failed}
use wepoll_ex.Errno.Codes.{einval, eopnotsupp}
use wepoll_ex.Errno.State.{
  ErrorState, ErrorInfo, set_errno, set_win32_error, get_last_error_info, restore_last_error_info,
}
use wepoll_ex.Afd.{epollerr, epollhup}
use wepoll_ex.Port.Classes.{no_class, afd_events_for_state}
use wepoll_ex.Port.FdTable.{Sock, lookup}
use wepoll_ex.Port.Worklist.{Worklists, set_needs_rearm, set_oneshot_fired, restore_worklist_state}
use wepoll_ex.Port.Wake.{PostOutcome, post_iocp, fail_iocp_post}
use wepoll_ex.Port.State.{
  Registration, Interest, ReadyNode, PortState, PortKernel, is_socket, is_waitable,
  is_et_unsupported, may_consume, is_pending, is_idle, registered, ready, matches, retired,
  query_failed, Submitted, submitted, withdrawn, submit_failed, refuse_with, epolloneshot, epollet,
  epollexclusive, next_generation, with_sock,
}

-- The arguments of the call.
pub record Wish : Type 0 where
  pub events : ℕ
  pub flags : ℕ
  pub user_data : ℕ
  pub user_ctx : ℕ

-- EPOLLIN | EPOLLPRI | EPOLLOUT | EPOLLRDNORM | EPOLLRDBAND | EPOLLWRNORM | EPOLLWRBAND | EPOLLRDHUP
abbrev pub waitable_events : ℕ
waitable_events = 0x23C7

abbrev pub waitable_interest : (user_events : ℕ) → ℕ
waitable_interest user_events = bit_and user_events waitable_events

abbrev pub new_interest : Wish → Registration → ℕ
new_interest w r = if is_waitable r.kind then waitable_interest w.events else 0

-- `new_waitable_dormant`
abbrev pub goes_dormant : Wish → Registration → Bool
goes_dormant w r = is_waitable r.kind && (new_interest w r == 0)

-- The errno of a request that the registration does not admit.
unfoldable pub refusal : (explicit_rearm : Bool) → Wish → Registration → Option ℕ
refusal explicit_rearm w r =
    if meets r.interest.user_flags epollexclusive
    then some einval
    else if is_waitable r.kind
        && (meets w.flags epollet
            && not (goes_dormant w r)
            && is_et_unsupported r.waitable_semantics)
    then some einval
    else if explicit_rearm && meets w.flags epollet && not (is_socket r.kind)
    then some eopnotsupp
    else none

-- A pending poll is kept (the answer is `true`) if it covers the request, or else cancelled. `none` is a
-- cancellation that failed.
unfoldable pub settle_poll : PortKernel → (sock : ℕ) → Wish → PortState → Option Bool × PortState
settle_poll k s w p =
    let r = p.sock s in
    let wanted = afd_events_for_state r.afd w.events false no_class in
    let (status, cancelled) = k.cancel s p in
    let cancels : Option Bool × PortState =
      (elim status [ ok ↦ some false | failed ↦ none ], cancelled) in
    if not (is_pending r.poll_status)
    then (some false, p)
    else if is_waitable r.kind && goes_dormant w r
    then cancels
    else if not (is_socket r.kind)
    then (some true, p)
    else if not (r.local_shutdown == 0)
    then cancels
    else if not (meets wanted (complement 32 r.submitted_afd_events))
    then (some true, p)
    else cancels

-- A ready node holds a notification that the kernel object has given up.
abbrev pub holds_notification : Registration → Bool
holds_notification r =
    r.ready_queued
    && is_waitable r.kind
    && may_consume r.waitable_semantics
    && meets r.pending_events (complement 32 (bit_or epollerr epollhup))

-- `preserve_waitable_ready` and `transfer_waitable_notification`
abbrev pub preserves : Wish → Registration → Bool
preserves w r = holds_notification r && not (new_interest w r == 0)

abbrev pub transfers : Wish → Registration → Bool
transfers w r = holds_notification r && (new_interest w r == 0)

abbrev pub fresh_interest : Wish → (observed : ℕ) → Interest
fresh_interest w observed = record {
  user_events = w.events;
  user_flags = w.flags;
  user_data = w.user_data;
  user_ctx = w.user_ctx;
  observed_events = observed;
  explicit_disarmed_classes = no_class;
  pipe_terminal_delivered = false;
  et_holdoff = false;
  udp_readless_receive_parked = false;
}

unfoldable pub modified : Wish → (generation : ℕ) → Registration → Registration
modified w generation r =
    let kept = preserves w r in
    record r {
      interest = fresh_interest w (if kept && meets w.flags epollet then new_interest w r else 0);
      pending_events = if kept then new_interest w r else 0;
      waitable_notification_owned = transfers w r || r.waitable_notification_owned;
      ready_queued = kept;
      generation = generation;
      state = if kept then ready else if goes_dormant w r then registered else r.state;
    }

-- WEPOLL_FLAG_ET_DELIVERED | WEPOLL_FLAG_EDGE_ARMED, and WEPOLL_FLAG_ONESHOT_FIRED
abbrev pub node_flags : (user_flags : ℕ) → ℕ
node_flags user_flags =
    bit_or (if meets user_flags epollet then 6 else 0)
      (if meets user_flags epolloneshot then 1 else 0)

abbrev pub replacement : Wish → (now generation : ℕ) → Registration → ReadyNode
replacement w now generation r = record {
  data_ = w.user_data;
  user_ctx = w.user_ctx;
  fd = r.fd;
  sock_generation = generation;
  events = new_interest w r;
  flags = node_flags w.flags;
  timestamp = now;
}

infixl 5 ◌and_do◌
abbrev pub ◌and_do◌ : Option Worklists → (Worklists → Option Worklists) → Option Worklists
none and_do f = none
some p and_do f = f p

-- The lists once the request is in effect.
unfoldable pub relist :
    (sock : ℕ) → Wish → (covers : Bool) → Registration → Worklists → Option Worklists
relist s w covers r p =
    set_oneshot_fired s false p
    and_do (λ q.
        if goes_dormant w r || preserves w r
        then set_needs_rearm s false q
        else if not covers
        then set_needs_rearm s true q
        else some q)
    and_do (λ q.
        if preserves w r && meets w.flags epolloneshot then set_oneshot_fired s true q else some q)

-- The request in effect with the lists `lists`.
unfoldable pub enacted : (sock : ℕ) → Wish → (now : ℕ) → Worklists → PortState → PortState
enacted s w now lists p =
    let r = p.sock s in
    let g = next_generation p.next_sock_generation in
    with_sock s (modified w g) (record p {
      worklists = lists;
      next_sock_generation = g;
      ready = if preserves w r then p.ready ++ replacement w now g r ∷ [] else p.ready;
    })

-- `none` is a failed assertion.
unfoldable pub take_effect :
    (sock : ℕ) → Wish → (covers : Bool) (now : ℕ) → PortState → Option PortState
take_effect s w covers now p = elim (relist s w covers (p.sock s) p.worklists) [
  | none ↦ none
  | some lists ↦ some (enacted s w now lists p)
]

-- The registration of before the request, after a submission that failed.
abbrev pub rolled_back : (old now : Registration) → Registration
rolled_back old now = record now {
  interest = old.interest;
  pending_events = old.pending_events;
  waitable_notification_owned = old.waitable_notification_owned;
  base_socket = old.base_socket;
  endpoint_id = old.endpoint_id;
  endpoint_id_state = old.endpoint_id_state;
  generation = old.generation;
  ready_queued = old.ready_queued;
  state = old.state;
}

-- `old` is the state with which the request began to take effect.
unfoldable pub roll_back : (sock : ℕ) → (old now : PortState) → Option (Status × PortState)
roll_back s old now =
    elim (restore_worklist_state s (old.worklists.rearm.flag s) (old.worklists.oneshot.flag s)
      now.worklists) [
        | none ↦ none
        | some lists ↦ some (
          failed,
          with_sock s (rolled_back (old.sock s)) (record now {
            worklists = lists;
            err = restore_last_error_info (get_last_error_info now.err) now.err;
          }),
        )
      ]

-- The end of the call, where a waiter is to see a ready node.
unfoldable pub finish : PostOutcome → (wakes : Bool) → PortState → Status × PortState
finish o wakes p =
    let p1 = record p { generation = (p.generation + 1) % 2 ^ 64 } in
    let (error, posted) = post_iocp o p1.wake in
    if not wakes then (ok, p1) else elim error [
      | none ↦ (ok, record p1 { wake = posted })
      | some code ↦ (
        failed,
        record p1 { wake = (fail_iocp_post code posted).1; err = set_win32_error code p1.err },
      )
    ]

-- What follows the answer of a submission that ended in `q`.
unfoldable pub answered :
    PostOutcome
    → (sock : ℕ) → (old : PortState) → Submitted
    → (q : PortState) → Option (Status × PortState)
answered o s old submitted q =
    some (finish o (not ((q.sock s).local_shutdown == 0) && (q.sock s).ready_queued) q)
answered o s old withdrawn q =
    some (failed, record q { err = restore_last_error_info (get_last_error_info q.err) q.err })
answered o s old submit_failed q = roll_back s old q

-- From `old` on, with the request in effect in `p`.
unfoldable pub submit_request :
    PortKernel → PostOutcome → (sock : ℕ) → Wish → (old p : PortState) → Option (Status × PortState)
submit_request k o s w old p =
    let r = p.sock s in
    let (answer, q) = k.submit s p in
    if not (goes_dormant w r) && is_idle r.poll_status && p.waiter_active && not p.waiter_coalescing
    then answered o s old answer q
    else some (finish o false p)

-- With the poll settled: the node for a notification that is kept, the effect, the submission.
unfoldable pub apply_request :
    PortKernel
    → PostOutcome
    → (sock : ℕ) → Wish
    → (covers : Bool) (now : ℕ) → PortState
    → Option (Status × PortState)
apply_request k o s w covers now p =
    let (granted, taken) = k.take_node p in
    let q = if preserves w (p.sock s) then taken else p in
    if preserves w (p.sock s) && not granted
    then some (failed, taken)
    else elim (take_effect s w covers now q) [ none ↦ none | some r ↦ submit_request k o s w p r ]

-- With the socket's identity validated.
unfoldable pub modify_registered :
    PortKernel
    → PostOutcome
    → (sock : ℕ) → Wish
    → (now : ℕ) → PortState
    → Option (Status × PortState)
modify_registered k o s w now p =
    let (covers, q) = settle_poll k s w p in
    elim (refusal p.explicit_rearm w (p.sock s)) [
      | some error ↦ some (refuse_with error p)
      | none ↦ elim covers [ none ↦ some (failed, q) | some c ↦ apply_request k o s w c now q ]
    ]

-- `none` is a failed assertion. `o` is what the last post meets, `now` the time.
unfoldable pub modify :
    PortKernel → PostOutcome → (fd : ℕ) → Wish → (now : ℕ) → PortState → Option (Status × PortState)
modify k o fd w now p = elim (lookup fd p.table) [
  | none ↦ some (failed, k.fail_absent fd p)
  | some sock ↦
      let (answer, q) = k.validate_control sock.addr p in
      elim answer [
        | matches ↦ modify_registered k o sock.addr w now q
        | retired ↦ some (failed, q)
        | query_failed ↦ some (failed, q)
      ]
]
