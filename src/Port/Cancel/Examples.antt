-- ===== src/Port/Cancel/Examples.antt =====
-- Cancellations of src/wepoll_ex_port.c: of the poll of a pipe, without a packet from its timer.
use wepoll_ex.Prelude.{true}
use wepoll_ex.Status.{Status}
use wepoll_ex.Port.State.{PortState, pipe, pending}
use wepoll_ex.Port.Sample.{registration, port}

abbrev polling : PortState
polling = record port {
  sock = λ s. record registration { kind = pipe; poll_status = pending; wait_registration = true };
}
