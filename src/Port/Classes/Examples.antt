-- ===== src/Port/Classes/Examples.antt =====
-- The filters of readiness classes of src/wepoll_ex_port.c at a socket that reads and writes.
use wepoll_ex.Prelude.{◌≡◌, refl, false, true}
use wepoll_ex.Bits.Masks.{without}
use wepoll_ex.Afd.{epollin, epoll_to_afd_events}
use wepoll_ex.Port.Classes.{quiescent_classes}

-- A read request covers reads without the expedited kind, and the conditions that are always polled for.
covers_reads :
    quiescent_classes (epoll_to_afd_events epollin)
    ≡ record { read = true; write = false; terminal = true }
unfolding quiescent_classes epoll_to_afd_events without
covers_reads = refl
