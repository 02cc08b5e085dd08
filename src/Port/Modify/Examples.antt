-- ===== src/Port/Modify/Examples.antt =====
-- Modifications of src/wepoll_ex_port.c on a port with two registered sockets.
use wepoll_ex.Prelude.{◌≡◌, ◌≢◌, refl, true, false, arith, none, some}
use wepoll_ex.Status.{Status}
use wepoll_ex.Port.FdTable.{lookup}
use wepoll_ex.Port.FdTable.Examples.{first}
use wepoll_ex.Port.Wake.{PostOutcome}
use wepoll_ex.Port.State.{PortState, PortKernel, matches, submit_failed}
use wepoll_ex.Port.Modify.{Wish, modify}
use wepoll_ex.Port.Modify.Lists.{weaken}
use wepoll_ex.Port.Modify.Outcome.{Lawful, Outcome}
use wepoll_ex.Port.Modify.Request.{modify-Outcome}
use wepoll_ex.Port.Cancel.Kernel.{
  joined_callback, cancelling, cancelling-Kept, cancelling-next, cancelling-Linked,
}
use wepoll_ex.Port.Sample.{port, lists-Linked}

-- Every submission fails; the cancellation is that of the port.
abbrev refusing : PortKernel
refusing = record {
  validate_control = λ s p. (matches, p);
  fail_absent = λ fd p. p;
  cancel = cancelling joined_callback;
  submit = λ s p. (submit_failed, p);
  take_node = λ p. (true, p);
}

refusing-Lawful : Lawful refusing
refusing-Lawful = record {
  cancel_keeps = cancelling-Kept joined_callback;
  cancel_next = cancelling-next joined_callback;
  cancel_lists = cancelling-Linked joined_callback;
  take_socks = λ p. refl;
  take_lists = λ p. refl;
  take_next = λ p. refl;
  submit_keeps = λ w g s p e a. a;
  submit_lists = λ n s p v. weaken n p.worklists v;
}

-- EPOLLIN | EPOLLOUT, EPOLLONESHOT
abbrev both_ways : Wish
both_ways = record { events = 5; flags = 1073741824; user_data = 8; user_ctx = 0 }

abbrev posts : PostOutcome
posts = record { fault_hit = false; post_error = none }

some_addr : first.addr ≢ 0
some_addr e = absurd (omega (arith, e))

found : lookup 5 port.table ≡ some first
unfolding lookup wepoll_ex.Port.FdTable.lookup_from
found = refl

modify-Outcome_example :
    (status : Status) × ((r : PortState) × ((modify refusing posts 5 both_ways 0 port
          ≡ some (status, r))
        × Outcome refusing posts first.addr both_ways port status r))
modify-Outcome_example =
    modify-Outcome refusing posts 5 first both_ways 0 port port refusing-Lawful found refl
      (lists-Linked 5 (omega arith)) some_addr
