-- ===== src/Wait/Examples.antt =====
-- Concrete timeouts of src/wepoll_ex_port.c.
use wepoll_ex.Prelude.{◌+◌, ◌/◌, ◌≡◌, Bool, true, false, some, arith, leb}
use wepoll_ex.Prelude.Int.{pos}
use wepoll_ex.Status.{ok}
use wepoll_ex.Errno.State.{fresh_thread}
use wepoll_ex.Wait.{from_timespec, uint64_max}
use wepoll_ex.Wait.Convert.{RoundsUp, from_timespec-RoundsUp}
use wepoll_ex.Wait.Remaining.{WaitState}

from_timespec-RoundsUp_example :
    let (r, t, err') =
      from_timespec (some (record { tv_sec = pos 1; tv_nsec = pos 1500001 })) fresh_thread in
    (r ≡ ok)
    × (err' ≡ fresh_thread)
    × (t.infinite ≡ false)
    × RoundsUp 1000000 1001500001 t.milliseconds
    × RoundsUp 100 1001500001 t.intervals_100ns
    × (t.precise ≡ leb ((1001500001 + 99) / 100) uint64_max)
from_timespec-RoundsUp_example = from_timespec-RoundsUp 1 1500001 fresh_thread (omega arith)

-- A wait of 1.5 ms, whose precise clock is about to wrap.
abbrev wait : Bool → WaitState
wait precise = record {
  timeout = record { milliseconds = 2; intervals_100ns = 15000; infinite = false; precise = true };
  start_ms = uint64_max;
  start_100ns = uint64_max;
  precise_clock = true;
  precise_enabled = precise;
}
