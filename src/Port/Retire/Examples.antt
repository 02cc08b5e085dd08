-- ===== src/Port/Retire/Examples.antt =====
-- EPOLL_CTL_DEL of src/wepoll_ex_port.c on a port with two registered sockets.
use wepoll_ex.Prelude.{◌≡◌, ◌≢◌, refl, true, arith, some}
use wepoll_ex.Status.{ok}
use wepoll_ex.Port.FdTable.{lookup}
use wepoll_ex.Port.FdTable.Examples.{first, two-WellFormed, first-IsOnly}
use wepoll_ex.Port.State.{PortState, PortKernel, cancelled, matches, submitted, with_sock}
use wepoll_ex.Port.Retire.{unregister}
use wepoll_ex.Port.Retire.Gone.{Spared, Detached, unregister-Detached}
use wepoll_ex.Port.Sample.{port, lists-Linked}

-- Every cancellation is on its way.
abbrev cancelling : PortKernel
cancelling = record {
  validate_control = λ s p. (matches, p);
  fail_absent = λ fd p. p;
  cancel = λ s p. (ok, with_sock s (λ r. record r { poll_status = cancelled }) p);
  submit = λ s p. (submitted, p);
  take_node = λ p. (true, p);
}

spares : (p : PortState) → Spared first.addr p (cancelling.cancel first.addr p).1
spares p = record {
  table_eq = refl;
  claims_eq = refl;
  socks_eq = refl;
  next_eq = refl;
  linked = λ n v. v;
  fit = λ e. ground arith;
}

some_addr : first.addr ≢ 0
some_addr e = absurd (omega (arith, e))

found : lookup 5 port.table ≡ some first
unfolding lookup wepoll_ex.Port.FdTable.lookup_from
found = refl

unregister-Detached_example :
    (r : PortState) × ((unregister cancelling 5 port ≡ some (ok, r))
      × Detached first port r
      × (r.err.errno ≡ port.err.errno))
unregister-Detached_example =
    unregister-Detached cancelling first 5 1 port port spares found refl two-WellFormed refl
      first-IsOnly (lists-Linked 3 (omega arith)) (refl, (refl, tt)) some_addr refl
