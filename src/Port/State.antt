-- ===== src/Port/State.antt =====
-- The state of a port of src/wepoll_ex_port.c and of its registrations, as far as EPOLL_CTL_MOD and
-- EPOLL_CTL_DEL read and write it.
use wepoll_ex.Prelude.{ℕ, ◌+◌, ◌%◌, ◌^◌, Bool, true, false, ◌==◌, if◌then◌else◌, List}
use wepoll_ex.Status.{Status, failed}
use wepoll_ex.Errno.State.{ErrorState, set_errno}
use wepoll_ex.Port.Classes.{Classes, AfdInterest}
use wepoll_ex.Port.FdTable.{FdTable}
use wepoll_ex.Port.Worklist.{Worklists}
use wepoll_ex.Port.Exclusive.{Claims}
use wepoll_ex.Port.Wake.{WakePort}

-- `ep_reg_kind_t`
pub data RegKind : Type 0 where
  socket waitable pipe : RegKind

abbrev pub is_socket : RegKind → Bool
is_socket socket = true
is_socket waitable = false
is_socket pipe = false

abbrev pub is_waitable : RegKind → Bool
is_waitable waitable = true
is_waitable socket = false
is_waitable pipe = false

-- `ep_waitable_semantics_t`
pub data WaitableSemantics : Type 0 where
  no_semantics persistent lasting consumptive et_unsupported : WaitableSemantics

abbrev pub is_et_unsupported : WaitableSemantics → Bool
is_et_unsupported et_unsupported = true
is_et_unsupported no_semantics = false
is_et_unsupported persistent = false
is_et_unsupported lasting = false
is_et_unsupported consumptive = false

-- Neither EP_WAITABLE_PERSISTENT nor EP_WAITABLE_TERMINAL.
abbrev pub may_consume : WaitableSemantics → Bool
may_consume persistent = false
may_consume lasting = false
may_consume no_semantics = true
may_consume consumptive = true
may_consume et_unsupported = true

-- `ep_sock_state_t`
pub data SockState : Type 0 where
  invalid registered polling ready deleted : SockState

-- `ep_poll_status_t`
pub data PollStatus : Type 0 where
  idle pending cancelled : PollStatus

abbrev pub is_pending : PollStatus → Bool
is_pending pending = true
is_pending idle = false
is_pending cancelled = false

abbrev pub is_idle : PollStatus → Bool
is_idle idle = true
is_idle pending = false
is_idle cancelled = false

-- What the caller of `epoll_ctl` asks for, and the memory of what it was told.
pub record Interest : Type 0 where
  pub user_events : ℕ
  pub user_flags : ℕ
  pub user_data : ℕ
  pub user_ctx : ℕ
  pub observed_events : ℕ
  pub explicit_disarmed_classes : Classes
  pub pipe_terminal_delivered : Bool
  pub et_holdoff : Bool
  pub udp_readless_receive_parked : Bool

-- `ep_sock_t`. `needs_rearm` and `oneshot_fired` are in the worklists, the claims of EPOLLEXCLUSIVE in
-- `Claims`.
pub record Registration : Type 0 where
  pub fd : ℕ
  pub kind : RegKind
  pub waitable_semantics : WaitableSemantics
  pub base_socket : ℕ
  pub endpoint_id : ℕ
  pub endpoint_id_state : ℕ
  pub afd : AfdInterest
  pub interest : Interest
  pub state : SockState
  pub poll_status : PollStatus
  pub pending_events : ℕ
  pub submitted_afd_events : ℕ
  pub waitable_notification_owned : Bool
  pub ready_queued : Bool
  pub delete_pending : Bool
  pub local_shutdown : ℕ
  pub generation : ℕ
  pub afd_poll_key_held : Bool
  pub wait_registration : Bool
  pub callback_active : Bool
  pub completion_posted : Bool

-- `ep_ready_node_t` without its link.
pub record ReadyNode : Type 0 where
  pub data_ : ℕ
  pub user_ctx : ℕ
  pub fd : ℕ
  pub sock_generation : ℕ
  pub events : ℕ
  pub flags : ℕ
  pub timestamp : ℕ

-- `socks` is the list of all sockets from `sock_list_head` on; `closing` is a field of `wake`; `ready` is
-- the ready queue, its first node first.
pub record PortState : Type 0 where
  pub table : FdTable
  pub sock : ℕ → Registration
  pub socks : List ℕ
  pub worklists : Worklists
  pub claims : Claims
  pub ready : List ReadyNode
  pub wake : WakePort
  pub next_sock_generation : ℕ
  pub pending_poll_count : ℕ
  pub generation : ℕ
  pub explicit_rearm : Bool
  pub waiter_active : Bool
  pub waiter_coalescing : Bool
  pub tcp_current_level_fallbacks : ℕ
  pub err : ErrorState

-- The answer of `ep_sock_validate_control_locked`: 0, 1 and -1.
pub data Validated : Type 0 where
  matches retired query_failed : Validated

-- The answer of `ep_sock_submit_locked`: 0, positive and negative.
pub data Submitted : Type 0 where
  submitted withdrawn submit_failed : Submitted

-- Functions of the port that calls of the system decide: the control of a socket's identity, the errno
-- for a descriptor that is not registered, the cancellation and the submission of a poll,
-- and the allocation of a ready node.
pub record PortKernel : Type 0 where
  pub validate_control : (sock : ℕ) → PortState → Validated × PortState
  pub fail_absent : (fd : ℕ) → PortState → PortState
  pub cancel : (sock : ℕ) → PortState → Status × PortState
  pub submit : (sock : ℕ) → PortState → Submitted × PortState
  pub take_node : PortState → Bool × PortState

abbrev pub refuse_with : ℕ → PortState → Status × PortState
refuse_with error p = (failed, record p { err = set_errno error p.err })

abbrev pub epolloneshot : ℕ
epolloneshot = 2 ^ 30

abbrev pub epollet : ℕ
epollet = 2 ^ 31

abbrev pub epollexclusive : ℕ
epollexclusive = 2 ^ 28

-- `++port->next_sock_generation`, which is never 0.
unfoldable pub next_generation : ℕ → ℕ
next_generation n = let g = (n + 1) % 2 ^ 64 in if g == 0 then 1 else g

abbrev pub with_sock : ℕ → (Registration → Registration) → PortState → PortState
with_sock s f p = record p { sock = λ t. if s == t then f (p.sock t) else p.sock t }
