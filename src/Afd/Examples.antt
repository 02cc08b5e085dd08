-- ===== src/Afd/Examples.antt =====
-- The translation of src/wepoll_ex_afd.c at a mask of readable and half-closed events.
use wepoll_ex.Prelude.{◌^◌, ◌≡◌, refl, bit_or}
use wepoll_ex.Bits.{test_bit}
use wepoll_ex.Bits.Masks.{meets}
use wepoll_ex.Afd.{
  tcp, udp, epollin, epollerr, epollhup, epollrdhup, afd_to_epoll_events, epoll_to_afd_events,
}
use wepoll_ex.Afd.Interest.{epoll_to_afd-exact}

reads_with_disconnect : epoll_to_afd_events epollin ≡ 0x1B9
unfolding epoll_to_afd_events
reads_with_disconnect = refl

-- A reset of a datagram socket is an error and no hang-up.
reset_of_udp : afd_to_epoll_events (2 ^ 4) 0 udp ≡ epollerr
unfolding afd_to_epoll_events
reset_of_udp = refl

epoll_to_afd-exact_example :
    meets (epoll_to_afd_events epollrdhup) (2 ^ 3)
    ≡ meets (afd_to_epoll_events (2 ^ 3) 0 tcp) (bit_or epollrdhup (bit_or epollerr epollhup))
unfolding test_bit
epoll_to_afd-exact_example = epoll_to_afd-exact 3 epollrdhup tcp refl
