-- ===== src/Port/Register.antt =====
-- `ep_port_register` of src/wepoll_ex_port.c, EPOLL_CTL_ADD.
pub mod Undone
pub mod Admit
mod Examples
use wepoll_ex.Prelude.{
  ℕ, ◌+◌, ◌%◌, ◌^◌, Bool, true, false, ◌&&◌, ◌||◌, not, ◌==◌, if◌then◌else◌, Option, none, some,
  ◌∷◌,
}
use wepoll_ex.Bits.Masks.{meets}
use wepoll_ex.Status.{Status, ok, failed}
use wepoll_ex.Errno.Codes.{ebadf, eexist, einval, enoent, eopnotsupp}
use wepoll_ex.Errno.State.{get_last_error_info, restore_last_error_info}
use wepoll_ex.Port.FdTable.{Sock, lookup, insert}
use wepoll_ex.Port.Worklist.{set_needs_rearm}
use wepoll_ex.Port.Exclusive.{invalid_socket}
use wepoll_ex.Port.Classes.{no_class}
use wepoll_ex.Port.State.{
  Registration, PortState, PortKernel, Submitted, is_socket, is_waitable, is_et_unsupported,
  matches, retired, query_failed, submitted, withdrawn, submit_failed, refuse_with, epollet,
  epollexclusive, with_sock,
}
use wepoll_ex.Port.Modify.{Wish, goes_dormant}
use wepoll_ex.Port.Retire.{◌and_then◌, remove_sock, free_sock}

-- What ADD uses beside: `enrol` probes the target and allocates its registration, `none` if that fails; it
-- answers the address. `granted` is the outcome of the `calloc` of a table that grows.
pub record Enrolment : Type 0 where
  pub enrol : (fd : ℕ) → PortState → Option ℕ × PortState
  pub granted : Bool

abbrev pub requested : Wish → Registration → Registration
requested w r = record r {
  interest = record r.interest {
    user_events = w.events;
    user_flags = w.flags;
    user_data = w.user_data;
    user_ctx = w.user_ctx;
    observed_events = 0;
    explicit_disarmed_classes = no_class;
    pipe_terminal_delivered = false;
    et_holdoff = false;
  };
}

-- The errno of a request that the target does not admit.
unfoldable pub unsuited : (explicit_rearm : Bool) → Wish → Registration → Option ℕ
unsuited explicit_rearm w r =
    if explicit_rearm && meets w.flags epollet && not (is_socket r.kind)
    then some eopnotsupp
    else if meets w.flags epollexclusive
        && (explicit_rearm && meets w.flags epollet || not (is_socket r.kind))
    then some einval
    else if is_waitable r.kind
        && meets w.flags epollet
        && not (goes_dormant w r)
        && is_et_unsupported r.waitable_semantics
    then some einval
    else none

abbrev pub keep_error : PortState → PortState
keep_error p = record p { err = restore_last_error_info (get_last_error_info p.err) p.err }

-- The answer of the first submission; on a failure the registration is taken back.
unfoldable pub submitted_first : Sock → Submitted → PortState → Option (Status × PortState)
submitted_first s submitted q = some (ok, record q { generation = (q.generation + 1) % 2 ^ 64 })
submitted_first s withdrawn q = some (failed, keep_error q)
submitted_first s submit_failed q = elim (remove_sock s q and_then free_sock s.addr) [
  | none ↦ none
  | some x ↦
      some (failed, record x { err = restore_last_error_info (get_last_error_info q.err) x.err })
]

-- A socket is submitted at once, anything else only for a waiter.
abbrev pub submits_now : Wish → Registration → PortState → Bool
submits_now w r p =
    not (goes_dormant w r) && (is_socket r.kind || p.waiter_active && not p.waiter_coalescing)

-- The registration is in the table.
unfoldable pub link_and_submit : PortKernel → Sock → Wish → PortState → Option (Status × PortState)
link_and_submit k s w p =
    let r = p.sock s.addr in
    let listed = record p { socks = s.addr ∷ p.socks } in
    elim (if goes_dormant w r then some p.worklists else set_needs_rearm s.addr true p.worklists) [
      | none ↦ none
      | some lists ↦
          let q = record listed { worklists = lists } in
          let (answer, x) = k.submit s.addr q in
          if submits_now w r q then submitted_first s answer x else submitted_first s submitted q
    ]

unfoldable pub admit :
    PortKernel → (granted : Bool) → Sock → Wish → PortState → Option (Status × PortState)
admit k granted s w p =
    let q = with_sock s.addr (requested w) p in
    elim (unsuited p.explicit_rearm w (p.sock s.addr)) [
      | some error ↦ some (refuse_with error q)
      | none ↦ elim (insert granted s q.table q.err) [
        | none ↦ none
        | some (failed, table, err) ↦ some (failed, record q { table = table; err = err })
        | some (ok, table, err) ↦ link_and_submit k s w (record q { table = table; err = err })
      ]
    ]

-- No registration has the number, or none any more.
unfoldable pub register_new :
    PortKernel → Enrolment → (fd : ℕ) → Wish → PortState → Option (Status × PortState)
register_new k a fd w p =
    let (addr, q) = a.enrol fd p in
    elim addr [
      | none ↦ some (failed, q)
      | some s ↦ admit k a.granted (record { addr = s; fd = fd }) w q
    ]

-- `none` is a failed assertion.
unfoldable pub register :
    PortKernel → Enrolment → (fd : ℕ) → Wish → PortState → Option (Status × PortState)
register k a fd w p =
    if (fd == invalid_socket) || p.wake.closing
    then some (refuse_with ebadf p)
    else elim (lookup fd p.table) [
      | none ↦ register_new k a fd w p
      | some existing ↦
          let (answer, q) = k.validate_control existing.addr p in
          elim answer [
            | matches ↦ some (refuse_with eexist q)
            | query_failed ↦ some (failed, q)
            | retired ↦
                if not (q.err.errno == enoent) then some (failed, q) else register_new k a fd w q
          ]
    ]
