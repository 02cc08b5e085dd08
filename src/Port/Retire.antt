-- ===== src/Port/Retire.antt =====
-- The end of a registration of src/wepoll_ex_port.c: EPOLL_CTL_DEL, and the retirement of a socket that
-- is closed.
pub mod Flags
pub mod Gone
mod Examples
use wepoll_ex.Prelude.{
  ℕ, ◌+◌, ◌%◌, ◌^◌, Bool, true, false, not, ◌&&◌, ◌||◌, ◌==◌, if◌then◌else◌, Option, none, some,
  erase,
}
use wepoll_ex.Bits.Masks.{meets}
use wepoll_ex.Status.{Status, ok, failed}
use wepoll_ex.Errno.State.{set_errno}
use wepoll_ex.Port.FdTable.{Sock, FdTable, lookup, remove}
use wepoll_ex.Port.Worklist.{set_needs_rearm, set_oneshot_fired}
use wepoll_ex.Port.Exclusive.{release_owner}
use wepoll_ex.Port.State.{
  Registration, PortState, PortKernel, deleted, is_pending, is_idle, is_socket, matches, retired,
  query_failed, epollexclusive, next_generation, with_sock,
}

infixl 5 ◌and_then◌
abbrev pub ◌and_then◌ : Option PortState → (PortState → Option PortState) → Option PortState
none and_then f = none
some p and_then f = f p

-- The setters of the flags and the removal from the table on the whole state; `none` is a failed assertion.
unfoldable pub clear_rearm : (sock : ℕ) → PortState → Option PortState
clear_rearm s p = elim (set_needs_rearm s false p.worklists) [
  | none ↦ none
  | some lists ↦ some (record p { worklists = lists })
]

unfoldable pub clear_oneshot : (sock : ℕ) → PortState → Option PortState
clear_oneshot s p = elim (set_oneshot_fired s false p.worklists) [
  | none ↦ none
  | some lists ↦ some (record p { worklists = lists })
]

unfoldable pub remove_sock : Sock → PortState → Option PortState
remove_sock s p = elim (remove s p.table) [
  | none ↦ none
  | some table ↦ some (record p { table = table })
]

unfoldable pub release_claims : (sock : ℕ) → PortState → PortState
release_claims s p = record p {
  claims =
      if meets (p.sock s).interest.user_flags epollexclusive
      then release_owner s p.claims
      else p.claims;
}

abbrev pub forgotten : Registration → Registration
forgotten r = record r {
  interest = record r.interest {
    observed_events = 0;
    pipe_terminal_delivered = false;
    et_holdoff = false;
  };
}

-- The assertions of `ep_sock_free_locked`: the key of an AFD poll is given back, and nobody outside refers
-- to a waitable or a pipe.
abbrev pub releasable : Registration → Bool
releasable r =
    not r.afd_poll_key_held
    && (is_socket r.kind
        || not r.wait_registration && not r.callback_active && not r.completion_posted)

-- `ep_sock_free_locked`; its socket leaves the list of all sockets.
unfoldable pub free_sock : (sock : ℕ) → PortState → Option PortState
free_sock s p =
    let freed = clear_rearm s p and_then clear_oneshot s and_then (λ q.
      let r = release_claims s q in
      some (with_sock s forgotten (record r { socks = erase s r.socks }))) in
    if releasable (p.sock s) then freed else none

-- If its poll is idle, the storage of a registration can be released.
abbrev pub endable : Registration → Bool
endable r = not (is_idle r.poll_status) || releasable r

abbrev pub free_if_idle : (sock : ℕ) → PortState → Option PortState
free_if_idle s p = if is_idle (p.sock s).poll_status then free_sock s p else some p

abbrev pub mark_deleted : (sock : ℕ) → PortState → PortState
mark_deleted s p = with_sock s (λ r. record r { delete_pending = true; state = deleted }) p

abbrev pub renew : (sock : ℕ) → PortState → PortState
renew s p =
    let g = next_generation p.next_sock_generation in
    with_sock s (λ r. record r { generation = g }) (record p { next_sock_generation = g })

abbrev pub is_sock : (addr : ℕ) → Option Sock → Bool
is_sock addr none = false
is_sock addr (some x) = x.addr == addr

-- `ep_sock_drop_closed_locked`
unfoldable pub drop_closed : (sock : ℕ) → PortState → Option PortState
drop_closed s p =
    let fd = (p.sock s).fd in
    (if is_sock s (lookup fd p.table) then remove_sock (record { addr = s; fd = fd }) p else some p)
    and_then (λ q. clear_rearm s (mark_deleted s (release_claims s q)))
    and_then clear_oneshot s
    and_then (λ q. free_if_idle s (renew s q))

-- The answer of a cancellation is ignored.
abbrev pub cancel_pending : PortKernel → (sock : ℕ) → PortState → PortState
cancel_pending k s p = if is_pending (p.sock s).poll_status then (k.cancel s p).1 else p

-- From the release of the claims on.
unfoldable pub detach : PortKernel → Sock → PortState → Option PortState
detach k s p =
    remove_sock s (cancel_pending k s.addr (release_claims s.addr p))
    and_then (λ q. clear_rearm s.addr (mark_deleted s.addr q))
    and_then (λ q.
        let r = renew s.addr q in
        free_if_idle s.addr (record r { generation = (r.generation + 1) % 2 ^ 64 }))

-- `ep_port_unregister`
unfoldable pub unregister : PortKernel → (fd : ℕ) → PortState → Option (Status × PortState)
unregister k fd p = elim (lookup fd p.table) [
  | none ↦ some (failed, k.fail_absent fd p)
  | some sock ↦
      let (answer, q) = k.validate_control sock.addr p in
      elim answer [
        | matches ↦ elim (detach k sock q) [
          | none ↦ none
          | some r ↦ some (ok, record r { err = set_errno p.err.errno r.err })
        ]
        | retired ↦ some (failed, q)
        | query_failed ↦ some (failed, q)
      ]
]
