-- ===== src/Port/Levels.antt =====
-- The levels of readiness of a socket that src/wepoll_ex_port.c takes beside AFD: what WSAPoll and select
-- report, and a local shutdown.
use wepoll_ex.Prelude.{
  ℕ, ◌+◌, ◌%◌, ◌^◌, Bool, true, false, ◌&&◌, ◌||◌, not, ◌==◌, if◌then◌else◌, Option, none, some,
  bit_and, bit_or,
}
use wepoll_ex.Bits.{complement}
use wepoll_ex.Bits.Masks.{meets}
use wepoll_ex.Prelude.Int.{ℤ, pos, negsuc}
use wepoll_ex.Afd.{
  SocketProtocol, other, tcp, udp, or_if, readable, writable, epollpri, epollerr, epollhup,
  epollrdhup,
}
use wepoll_ex.Port.Classes.{filter_classes}
use wepoll_ex.Port.State.{Registration, PortState, is_socket, epollet}

-- POLLERR, POLLHUP, POLLRDNORM and POLLWRNORM of Winsock.
abbrev pub poll_err : ℕ
poll_err = 1

abbrev pub poll_hup : ℕ
poll_hup = 2

abbrev pub poll_rdnorm : ℕ
poll_rdnorm = 0x100

abbrev pub poll_wrnorm : ℕ
poll_wrnorm = 0x10

abbrev pub is_tcp : SocketProtocol → Bool
is_tcp tcp = true
is_tcp udp = false
is_tcp other = false

abbrev pub terminal_report : ℕ
terminal_report = bit_or epollerr epollhup

-- What the calls of Winsock find: the answer of WSAPoll, `none` if it cannot tell, and whether select
-- reports the socket as readable, writable and with urgent data.
pub record Winsock : Type 0 where
  pub poll : Option ℕ
  pub select_read : Bool
  pub select_write : Bool
  pub select_priority : Bool

-- The answer of WSAPoll joins what is delivered.
unfoldable pub merge_poll : (user_events revents delivered : ℕ) → ℕ
merge_poll user_events revents delivered =
    let read_interest = bit_and user_events readable in
    let read_side =
      if meets revents poll_err
      then bit_or delivered terminal_report
      else if meets revents poll_hup
      then bit_or (bit_or delivered read_interest) (bit_and user_events epollrdhup)
      else or_if (meets revents poll_rdnorm) read_interest delivered in
    or_if (meets revents poll_wrnorm) (bit_and user_events writable) read_side

-- The fallback on select.
unfoldable pub merge_select : Winsock → (user_events delivered : ℕ) → ℕ
merge_select w user_events delivered =
    let read_interest = bit_and user_events readable in
    let write_interest = bit_and user_events writable in
    let d =
      or_if (meets read_interest (complement 32 delivered) && w.select_read) read_interest
        delivered in
    or_if (meets write_interest (complement 32 d) && w.select_write) write_interest d

unfoldable pub merge_priority : Winsock → (user_events delivered : ℕ) → ℕ
merge_priority w user_events delivered =
    or_if
      (meets user_events epollpri
        && not (meets delivered epollpri)
        && not (meets delivered terminal_report)
        && w.select_priority)
      epollpri delivered

-- `ep_socket_merge_current_levels`: the answer of WSAPoll where it qualifies, and `*delivered`.
unfoldable pub merge_current_levels :
    Winsock → SocketProtocol → (user_events delivered : ℕ) → Option ℕ × ℕ
merge_current_levels w protocol user_events delivered =
    if not (is_tcp protocol) || meets delivered terminal_report
    then (none, delivered)
    else elim w.poll [
      | none ↦ (none, merge_priority w user_events (merge_select w user_events delivered))
      | some revents ↦ (
        if meets revents (bit_or poll_err poll_hup) then none else some revents,
        merge_priority w user_events (merge_poll user_events revents delivered),
      )
    ]

-- Whether the call counts in `tcp_current_level_fallbacks`.
abbrev pub falls_back : Winsock → SocketProtocol → (delivered : ℕ) → Bool
falls_back w protocol delivered =
    is_tcp protocol
    && not (meets delivered terminal_report)
    && elim w.poll [ none ↦ true | some revents ↦ false ]

-- EP_LOCAL_SHUTDOWN_READ and EP_LOCAL_SHUTDOWN_WRITE
abbrev pub local_read : ℕ
local_read = 1

abbrev pub local_write : ℕ
local_write = 2

-- `none` is WSAEINVAL; SD_RECEIVE is 0, SD_SEND 1 and SD_BOTH 2.
unfoldable pub local_shutdown_mask : (how : ℤ) → Option ℕ
local_shutdown_mask (negsuc n) = none
local_shutdown_mask (pos n) =
    if n == 0
    then some local_read
    else if n == 1
    then some local_write
    else if n == 2
    then some (bit_or local_read local_write)
    else none

unfoldable pub merge_local_shutdown : Registration → (level : ℕ) → ℕ
merge_local_shutdown r level =
    let d =
      or_if (meets r.local_shutdown local_read)
        (bit_and r.interest.user_events (bit_or readable epollrdhup)) level in
    if not (is_socket r.kind) || not (is_tcp r.afd.socket_protocol)
    then level
    else or_if (r.local_shutdown == bit_or local_read local_write) epollhup d

abbrev pub explicit_rearm_enabled : PortState → Registration → Bool
explicit_rearm_enabled p r =
    p.explicit_rearm && is_socket r.kind && meets r.interest.user_flags epollet

-- What a registration is ever told.
abbrev pub reported : Registration → ℕ
reported r = bit_or r.interest.user_events terminal_report

unfoldable pub local_shutdown_level : Winsock → (sock : ℕ) → PortState → ℕ
local_shutdown_level w s p =
    let r = p.sock s in
    let merged =
      merge_local_shutdown r
        (merge_current_levels w r.afd.socket_protocol r.interest.user_events 0).1 in
    let level = bit_and merged (reported r) in
    if not (is_socket r.kind) || not (is_tcp r.afd.socket_protocol) || (r.local_shutdown == 0)
    then 0
    else if explicit_rearm_enabled p r
    then filter_classes level r.interest.explicit_disarmed_classes
    else level

-- The fallbacks of the level are counted.
unfoldable pub count_fallback : Winsock → (sock : ℕ) → PortState → PortState
count_fallback w s p =
    let r = p.sock s in
    if is_socket r.kind
      && is_tcp r.afd.socket_protocol
      && not (r.local_shutdown == 0)
      && falls_back w r.afd.socket_protocol 0
    then record p { tcp_current_level_fallbacks = (p.tcp_current_level_fallbacks + 1) % 2 ^ 64 }
    else p
