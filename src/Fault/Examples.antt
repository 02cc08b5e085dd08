-- ===== src/Fault/Examples.antt =====
-- Concrete hits of a fault point of src/wepoll_ex_fault.c: point 3 is to fail on hit 2 with errno 12.
use wepoll_ex.Prelude.{◌≡◌, ◌==◌, not, arith}
use wepoll_ex.Status.{failed}
use wepoll_ex.Errno.State.{set_errno, fresh_thread}
use wepoll_ex.Fault.{configure, hit, no_faults}
use wepoll_ex.Fault.Once.{hit_times, hit-configure}

hit-configure_example :
    let (_, g, t) = configure 3 2 12 no_faults fresh_thread in
    let (h, u) = hit_times (λ ordinal at. not (ordinal == at)) 3 1 g t in
    let (r, _, v) = hit 3 h u in (r ≡ failed) × (v ≡ set_errno 12 u)
hit-configure_example =
    hit-configure 3 2 12 1 no_faults fresh_thread (omega arith) (omega arith) (omega arith)
      (omega arith)
