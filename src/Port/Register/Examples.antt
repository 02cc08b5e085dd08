-- ===== src/Port/Register/Examples.antt =====
-- EPOLL_CTL_ADD of src/wepoll_ex_port.c of a third socket, whose submission fails.
use wepoll_ex.Prelude.{◌≢◌, refl, true, arith, subst, ap, inl, inr}
use wepoll_ex.Status.{ok}
use wepoll_ex.Port.FdTable.{Sock, lookup}
use wepoll_ex.Port.FdTable.Find.{lookup-found}
use wepoll_ex.Port.FdTable.Examples.{two, cell, third, third-IsNew, two-WellFormed}
use wepoll_ex.Port.State.{PortState, PortKernel, matches, submit_failed, submitted, withdrawn}
use wepoll_ex.Port.Modify.{Wish}
use wepoll_ex.Port.Modify.Lists.{weaken}
use wepoll_ex.Port.Register.{admit}
use wepoll_ex.Port.Register.Undone.{IsFree}
use wepoll_ex.Port.Register.Admit.{IsFresh, Gentle, EndsIn, admit-EndsIn}
use wepoll_ex.Port.Sample.{registration, port, lists-Linked}

-- The first submission fails and leaves everything.
abbrev refusing : PortKernel
refusing = record {
  validate_control = λ s p. (matches, p);
  fail_absent = λ fd p. p;
  cancel = λ s p. (ok, p);
  submit = λ s p. (submit_failed, p);
  take_node = λ p. (true, p);
}

failed≢withdrawn : submit_failed ≢ withdrawn
failed≢withdrawn e =
    subst (λ x. elim x [ submitted ↦ ⊥ | withdrawn ↦ ⊥ | submit_failed ↦ Unit ]) e tt

refusing-Gentle : Gentle refusing third
refusing-Gentle = record {
  dropped = λ p f h e. absurd (failed≢withdrawn e);
  table_eq = λ p f e. refl;
  socks_eq = λ p f e. refl;
  lists = λ n p f v. weaken n p.worklists v;
  fresh = λ p f e. f;
}

-- A port where the registration of the third socket is allocated.
abbrev allocated : PortState
allocated = record port { sock = λ s. record registration { fd = third.fd } }

third-IsFresh : IsFresh third allocated
third-IsFresh = record { number = refl; idle = refl; fit = refl }

-- EPOLLIN
abbrev wish : Wish
wish = record { events = 1; flags = 0; user_data = 3; user_ctx = 0 }

third-IsFree : IsFree third two
unfolding lookup wepoll_ex.Port.FdTable.lookup_from
third-IsFree = record {
  no_number = refl;
  no_addr = λ fd x e same.
      let (number, j, at) = lookup-found fd two two-WellFormed.table x e in
      elim (cell j x at) [
        | inl (slot, is) ↦ absurd (omega (arith, same, ap (λ (y : Sock). y.addr) is))
        | inr (slot, is) ↦ absurd (omega (arith, same, ap (λ (y : Sock). y.addr) is))
      ];
}

some_addr : third.addr ≢ 0
some_addr e = absurd (omega (arith, e))

admit-EndsIn_example : EndsIn third two (admit refusing true third wish allocated)
admit-EndsIn_example =
    admit-EndsIn refusing true third wish allocated refusing-Gentle two-WellFormed third-IsNew
      third-IsFree third-IsFresh (lists-Linked 4 (omega arith)) (refl, (refl, (refl, tt))) refl
      some_addr
