-- ===== src/Afd/Interest.antt =====
-- The AFD events that src/wepoll_ex_afd.c polls for are those whose report is of interest.
use wepoll_ex.Prelude.{ℕ, zero, suc, ◌^◌, ◌≡◌, refl, Bool, true, false, ◌||◌, arith, bit_or}
use wepoll_ex.Bits.{test_bit, test_bit-zero}
use wepoll_ex.Bits.Masks.{meets, meets-bit_or, meets_comm}
use wepoll_ex.Afd.{
  SocketProtocol, other, tcp, udp, readable, writable, epollpri, epollerr, epollhup, epollrdhup,
  afd_poll_all_events, afd_to_epoll_events, epoll_to_afd_events,
}

-- EPOLLERR | EPOLLHUP, which are reported without a request.
abbrev always : ℕ
always = bit_or epollerr epollhup

abbrev wanted : ℕ → ℕ → Bool
wanted u events = meets events (bit_or u always)

wanted-other : (u events : ℕ) → meets events always ≡ false → wanted u events ≡ meets u events
wanted-other u events h =
    rw (meets-bit_or events u always, h, meets_comm events u) (or_false (meets u events))
  where
    or_false : (b : Bool) → (b || false) ≡ b
    or_false true = refl
    or_false false = refl

wanted-always : (u events : ℕ) → meets events always ≡ true → wanted u events ≡ true
wanted-always u events h = rw (meets-bit_or events u always, h) (or_true (meets events u))
  where
    or_true : (b : Bool) → (b || true) ≡ true
    or_true true = refl
    or_true false = refl

-- For every user mask and every single AFD event, that event is polled for exactly when the epoll events
-- it is reported as have one that the user asked for, or EPOLLERR or EPOLLHUP.
pub epoll_to_afd-exact :
    (k u : ℕ) (protocol : SocketProtocol)
    → test_bit k afd_poll_all_events ≡ true
    → meets (epoll_to_afd_events u) (2 ^ k)
      ≡ meets (afd_to_epoll_events (2 ^ k) 0 protocol) (bit_or u (bit_or epollerr epollhup))
unfolding epoll_to_afd_events afd_to_epoll_events test_bit
epoll_to_afd-exact zero u protocol h = ground (arith, wanted-other u readable refl)
epoll_to_afd-exact (suc zero) u protocol h = ground (arith, wanted-other u epollpri refl)
epoll_to_afd-exact (suc (suc zero)) u protocol h = ground (arith, wanted-other u writable refl)
epoll_to_afd-exact (suc (suc (suc zero))) u protocol h =
    ground
      (arith, wanted-other u (bit_or readable epollrdhup) refl, meets-bit_or u readable epollrdhup)
epoll_to_afd-exact (suc (suc (suc (suc zero)))) u udp h =
    ground (arith, wanted-always u epollerr refl)
epoll_to_afd-exact (suc (suc (suc (suc zero)))) u tcp h =
    ground (arith, wanted-always u always refl)
epoll_to_afd-exact (suc (suc (suc (suc zero)))) u other h =
    ground (arith, wanted-always u always refl)
epoll_to_afd-exact (suc (suc (suc (suc (suc zero))))) u protocol h =
    ground (arith, wanted-always u epollhup refl)
epoll_to_afd-exact (suc (suc (suc (suc (suc (suc zero)))))) u protocol h = absurd (cc)
epoll_to_afd-exact (suc (suc (suc (suc (suc (suc (suc zero))))))) u protocol h =
    ground (arith, wanted-other u readable refl)
epoll_to_afd-exact (suc (suc (suc (suc (suc (suc (suc (suc zero)))))))) u protocol h =
    ground
      (arith, wanted-always u (bit_or (bit_or readable writable) (bit_or always epollrdhup)) refl)
epoll_to_afd-exact (suc (suc (suc (suc (suc (suc (suc (suc (suc k))))))))) u protocol h =
    absurd (ground (arith, h, test_bit-zero k))
