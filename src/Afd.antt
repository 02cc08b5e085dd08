-- ===== src/Afd.antt =====
-- The translation between epoll events and AFD poll events, of src/wepoll_ex_afd.c.
pub mod Interest
mod Examples
use wepoll_ex.Prelude.{ℕ, ◌^◌, Bool, true, false, ◌==◌, not, leb, if◌then◌else◌, bit_or}
use wepoll_ex.Bits.Masks.{meets}

abbrev pub epollin : ℕ
epollin = 2 ^ 0

abbrev pub epollpri : ℕ
epollpri = 2 ^ 1

abbrev pub epollout : ℕ
epollout = 2 ^ 2

abbrev pub epollerr : ℕ
epollerr = 2 ^ 3

abbrev pub epollhup : ℕ
epollhup = 2 ^ 4

abbrev pub epollrdnorm : ℕ
epollrdnorm = 2 ^ 6

abbrev pub epollwrnorm : ℕ
epollwrnorm = 2 ^ 8

abbrev pub epollrdhup : ℕ
epollrdhup = 2 ^ 13

abbrev pub afd_poll_receive : ℕ
afd_poll_receive = 2 ^ 0

abbrev pub afd_poll_receive_expedited : ℕ
afd_poll_receive_expedited = 2 ^ 1

abbrev pub afd_poll_send : ℕ
afd_poll_send = 2 ^ 2

abbrev pub afd_poll_disconnect : ℕ
afd_poll_disconnect = 2 ^ 3

abbrev pub afd_poll_abort : ℕ
afd_poll_abort = 2 ^ 4

abbrev pub afd_poll_local_close : ℕ
afd_poll_local_close = 2 ^ 5

abbrev pub afd_poll_accept : ℕ
afd_poll_accept = 2 ^ 7

abbrev pub afd_poll_connect_fail : ℕ
afd_poll_connect_fail = 2 ^ 8

-- AFD_POLL_ALL_EVENTS
abbrev pub afd_poll_all_events : ℕ
afd_poll_all_events = 0x1BF

-- `ep_socket_protocol_t`
pub data SocketProtocol : Type 0 where
  other tcp udp : SocketProtocol

abbrev pub is_udp : SocketProtocol → Bool
is_udp udp = true
is_udp tcp = false
is_udp other = false

-- `if (test) out |= events`
abbrev pub or_if : Bool → ℕ → ℕ → ℕ
or_if test events out = if test then bit_or out events else out

-- EPOLLIN | EPOLLRDNORM
abbrev pub readable : ℕ
readable = bit_or epollin epollrdnorm

-- EPOLLOUT | EPOLLWRNORM
abbrev pub writable : ℕ
writable = bit_or epollout epollwrnorm

-- `afd_status` is the pattern of 32 bits of an NTSTATUS.
unfoldable pub afd_to_epoll_events : (afd_events afd_status : ℕ) → SocketProtocol → ℕ
afd_to_epoll_events afd_events afd_status protocol =
    let on = meets afd_events in
    let failed = or_if (leb (2 ^ 31) afd_status) epollerr 0 in
    let received = or_if (on (bit_or afd_poll_receive afd_poll_accept)) readable failed in
    let expedited = or_if (on afd_poll_receive_expedited) epollpri received in
    let sent = or_if (on afd_poll_send) writable expedited in
    let disconnected = or_if (on afd_poll_disconnect) (bit_or readable epollrdhup) sent in
    let aborted =
      if on afd_poll_abort
      then or_if (not (is_udp protocol)) epollhup (bit_or disconnected epollerr)
      else disconnected in
    let refused =
      or_if (on afd_poll_connect_fail)
        (bit_or (bit_or readable writable) (bit_or (bit_or epollerr epollhup) epollrdhup))
        aborted in
    or_if (on afd_poll_local_close) epollhup refused

-- The conditions that are always polled for.
abbrev pub terminal_afd_events : ℕ
terminal_afd_events = bit_or (bit_or afd_poll_abort afd_poll_connect_fail) afd_poll_local_close

unfoldable pub epoll_to_afd_events : ℕ → ℕ
epoll_to_afd_events epoll_events =
    let reads =
      if meets epoll_events readable
      then bit_or terminal_afd_events
          (bit_or (bit_or afd_poll_receive afd_poll_accept) afd_poll_disconnect)
      else or_if (meets epoll_events epollrdhup) afd_poll_disconnect terminal_afd_events in
    or_if (meets epoll_events writable) afd_poll_send
      (or_if (meets epoll_events epollpri) afd_poll_receive_expedited reads)
