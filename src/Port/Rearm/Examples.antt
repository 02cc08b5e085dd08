-- ===== src/Port/Rearm/Examples.antt =====
-- A rearming of src/wepoll_ex_port.c whose submission fails.
use wepoll_ex.Prelude.{◌^◌, ◌≡◌, ◌≢◌, true, false, arith, none, some}
use wepoll_ex.Status.{Status}
use wepoll_ex.Port.Classes.{Classes}
use wepoll_ex.Port.FdTable.Examples.{first}
use wepoll_ex.Port.Wake.{PostOutcome}
use wepoll_ex.Port.State.{PortState, PortKernel, Registration, matches, submit_failed}
use wepoll_ex.Port.Modify.Lists.{weaken}
use wepoll_ex.Port.Rearm.{rearm_locked}
use wepoll_ex.Port.Rearm.Outcome.{Calm, Outcome}
use wepoll_ex.Port.Rearm.Acknowledge.{rearm_locked-Outcome}
use wepoll_ex.Port.Cancel.Kernel.{joined_callback, cancelling, cancelling-Kept, cancelling-Linked}
use wepoll_ex.Port.Sample.{registration, port, lists-Linked}

abbrev refusing : PortKernel
refusing = record {
  validate_control = λ s p. (matches, p);
  fail_absent = λ fd p. p;
  cancel = cancelling joined_callback;
  submit = λ s p. (submit_failed, p);
  take_node = λ p. (true, p);
}

refusing-Calm : Calm refusing
refusing-Calm = record {
  cancel_keeps = cancelling-Kept joined_callback;
  cancel_lists = cancelling-Linked joined_callback;
  submit_lists = λ n s p v. weaken n p.worklists v;
}

abbrev reads : Classes
reads = record { read = true; write = false; terminal = false }

-- EPOLLET, with the read class disarmed.
abbrev delivered : Registration
delivered = record registration {
  interest = record registration.interest {
    user_flags = 2 ^ 31;
    explicit_disarmed_classes = reads;
  };
}

abbrev disarmed_port : PortState
disarmed_port = record port { sock = λ s. delivered; explicit_rearm = true }

abbrev posts : PostOutcome
posts = record { fault_hit = false; post_error = none }

some_addr : first.addr ≢ 0
some_addr e = absurd (omega (arith, e))

rearm_locked-Outcome_example :
    (status : Status) × ((q : PortState) × ((rearm_locked refusing posts 100 reads disarmed_port
          ≡ some (status, q))
        × Outcome refusing posts 100 reads disarmed_port status q))
rearm_locked-Outcome_example =
    rearm_locked-Outcome refusing posts 100 reads disarmed_port refusing-Calm
      (lists-Linked 4 (omega arith)) some_addr
