-- ===== src/Port/Classes.antt =====
-- Readiness classes of src/wepoll_ex_port.c: the read, write and terminal parts of a set of events.
pub mod Filter
mod Examples
use wepoll_ex.Prelude.{ℕ, ◌^◌, Bool, true, false, ◌&&◌, ◌||◌, not, ◌==◌, if◌then◌else◌, bit_or}
use wepoll_ex.Bits.{complement}
use wepoll_ex.Bits.Masks.{meets, without}
use wepoll_ex.Afd.{
  SocketProtocol, is_udp, or_if, readable, writable, epollpri, epollerr, epollhup, epollrdhup,
  afd_poll_receive, afd_poll_receive_expedited, afd_poll_send, afd_poll_disconnect, afd_poll_abort,
  afd_poll_local_close, afd_poll_accept, afd_poll_connect_fail, afd_poll_all_events,
  epoll_to_afd_events,
}

-- The three flags of a `uint8_t` of EP_READINESS_CLASS_READ, _WRITE and _TERMINAL.
pub record Classes : Type 0 where
  pub read : Bool
  pub write : Bool
  pub terminal : Bool

abbrev pub no_class : Classes
no_class = record { read = false; write = false; terminal = false }

abbrev pub terminal_class : Classes
terminal_class = record { read = false; write = false; terminal = true }

abbrev pub directions : Classes
directions = record { read = true; write = true; terminal = false }

-- `a | b`, `a & b`, `a & ~b` and `a != 0`
abbrev pub join : Classes → Classes → Classes
join a b = record {
  read = a.read || b.read;
  write = a.write || b.write;
  terminal = a.terminal || b.terminal;
}

abbrev pub meet : Classes → Classes → Classes
meet a b = record {
  read = a.read && b.read;
  write = a.write && b.write;
  terminal = a.terminal && b.terminal;
}

abbrev pub minus : Classes → Classes → Classes
minus a b = record {
  read = a.read && not b.read;
  write = a.write && not b.write;
  terminal = a.terminal && not b.terminal;
}

abbrev pub any_class : Classes → Bool
any_class a = a.read || a.write || a.terminal

-- EPOLLIN | EPOLLRDNORM | EPOLLRDHUP | EPOLLPRI
abbrev pub read_events : ℕ
read_events = bit_or (bit_or readable epollrdhup) epollpri

abbrev pub terminal_events : ℕ
terminal_events = bit_or epollerr epollhup

unfoldable pub readiness_classes : ℕ → Classes
readiness_classes delivered = record {
  read = meets delivered read_events;
  write = meets delivered writable;
  terminal = meets delivered terminal_events;
}

abbrev pub read_afd_events : ℕ
read_afd_events =
    bit_or (bit_or afd_poll_receive afd_poll_receive_expedited)
      (bit_or afd_poll_accept afd_poll_disconnect)

abbrev pub terminal_class_afd_events : ℕ
terminal_class_afd_events =
    bit_or (bit_or afd_poll_abort afd_poll_connect_fail) afd_poll_local_close

-- `if (test) events &= ~mask`
abbrev pub without_if : Bool → (mask events : ℕ) → ℕ
without_if test mask events = if test then without events mask else events

unfoldable pub filter_classes : (delivered : ℕ) (denied : Classes) → ℕ
filter_classes delivered denied =
    without_if denied.terminal terminal_events
      (without_if denied.write writable (without_if denied.read read_events delivered))

-- `ep_readiness_classes_afd_events`, its loop over the three classes written out.
unfoldable pub classes_afd_events : Classes → ℕ
classes_afd_events c =
    or_if c.terminal terminal_class_afd_events
      (or_if c.write afd_poll_send (or_if c.read read_afd_events 0))

unfoldable pub explicit_delivery_classes : (delivered : ℕ) → Classes
unfolding readiness_classes
explicit_delivery_classes delivered =
    let classes = readiness_classes delivered in
    if classes.terminal then join classes directions else classes

-- `(class_events & ~submitted) == 0`
abbrev pub covers : (submitted class_events : ℕ) → Bool
covers submitted class_events = not (meets class_events (complement 32 submitted))

-- A read request proves quiescence without expedited reads.
unfoldable pub quiescent_classes : (submitted_afd_events : ℕ) → Classes
quiescent_classes submitted = record {
  read = covers submitted (without read_afd_events afd_poll_receive_expedited);
  write = covers submitted afd_poll_send;
  terminal = covers submitted terminal_class_afd_events;
}

-- The fields of `ep_sock_t` and of its port that its AFD mask depends on.
pub record AfdInterest : Type 0 where
  pub socket_protocol : SocketProtocol
  pub udp_afd_qualifier_eligible : Bool
  pub async_read_safe : Bool
  pub udp_probe_available : Bool
  pub endpoint_id_transitional : Bool

-- `ep_sock_afd_events_for_state_locked` of the build that checks the identity of sockets;
-- `udp_probe_available` says that `udp_probe_event` and `udp_probe_read` of the port are not NULL.
unfoldable pub afd_events_for_state :
    AfdInterest
    → (user_events : ℕ) (udp_readless_receive_parked : Bool) (explicit_disarmed : Classes) → ℕ
afd_events_for_state s user_events parked disarmed =
    let probes =
      is_udp s.socket_protocol
      && s.udp_afd_qualifier_eligible
      && s.async_read_safe
      && s.udp_probe_available
      && not (meets user_events readable)
      && not parked in
    let afd_events = or_if probes afd_poll_receive (epoll_to_afd_events user_events) in
    without (if s.endpoint_id_transitional then afd_poll_all_events else afd_events)
      (classes_afd_events disarmed)
