-- ===== src/Port/Shutdown/Retry.antt =====
-- A local shutdown of src/wepoll_ex_port.c that is repeated.
use wepoll_ex.Prelude.{
  ℕ, ◌≡◌, refl, sym, ap, ◌∙◌, Bool, true, false, ◌&&◌, ◌||◌, not, arith, ◌==◌, if◌then◌else◌,
  Option, some, bit_or,
}
use wepoll_ex.Prelude.Int.{ℤ}
use wepoll_ex.Errno.Codes.{enotsock}
use wepoll_ex.Status.{Status, ok, failed}
use wepoll_ex.Port.FdTable.{Sock, lookup}
use wepoll_ex.Port.State.{PortState, PortKernel, is_socket, matches, refuse_with}
use wepoll_ex.Port.Levels.{is_tcp, local_shutdown_mask}
use wepoll_ex.Port.Shutdown.{
  Calls, finish_shutdown, publish_level, publish_settled, publish_shutdown, after_native,
  shut_natively, shut_and_publish, needs_node, reserve, shutdown_registered, shutdown_socket,
}

-- The direction is recorded as shut down.
pub record Recorded (s requested : ℕ) (p : PortState) : Type 0 where
  pub is_tcp_socket : is_tcp (p.sock s).afd.socket_protocol ≡ true
  pub recorded : bit_or (p.sock s).local_shutdown requested ≡ (p.sock s).local_shutdown

after_native-native :
    (k : PortKernel) (c : Calls) (native : Option ℕ) (supplied changed publishes : Bool)
    (s proposed : ℕ) (x : Status × PortState)
    → after_native k (record c { native = native }) supplied changed publishes s proposed x
      ≡ after_native k c supplied changed publishes s proposed x
unfolding after_native publish_shutdown publish_settled publish_level finish_shutdown
after_native-native k c native supplied changed publishes s proposed (failed, q) = refl
after_native-native k c native supplied changed publishes s proposed (ok, q) = refl

no_call :
    {A : Type 0}
    → (tcp same : Bool) (x y : A) → tcp ≡ true
    → same ≡ true
    → (if not tcp || tcp && not same then x else y) ≡ y
no_call true true x y e f = refl
no_call true false x y e f = absurd (ground (arith, f))
no_call false same x y e f = absurd (ground (arith, e))

shut_and_publish-native :
    (k : PortKernel) (c : Calls) (native : Option ℕ) (supplied : Bool) (s requested : ℕ)
    (p : PortState)
    → Recorded s requested p
    → shut_and_publish k (record c { native = native }) supplied s requested p
      ≡ shut_and_publish k c supplied s requested p
unfolding shut_and_publish
shut_and_publish-native k c native supplied s requested p done =
    after_native-native k c native supplied changed publishes s proposed _
    ∙ ap (after_native k c supplied changed publishes s proposed)
        (quiet (record c { native = native }) ∙ sym (quiet c))
  where
    proposed : ℕ
    proposed = bit_or (p.sock s).local_shutdown requested

    changed : Bool
    changed = is_tcp (p.sock s).afd.socket_protocol && not (proposed == (p.sock s).local_shutdown)

    publishes : Bool
    publishes = is_tcp (p.sock s).afd.socket_protocol && (changed || p.worklists.rearm.flag s)

    known : (proposed == (p.sock s).local_shutdown) ≡ true
    known = ground (arith, done.recorded)

    quiet :
        (d : Calls)
        → (if not (is_tcp (p.sock s).afd.socket_protocol) || changed
            then shut_natively d p
            else (ok, p))
          ≡ (ok, p)
    quiet d =
        no_call (is_tcp (p.sock s).afd.socket_protocol) (proposed == (p.sock s).local_shutdown)
          (shut_natively d p) (ok, p) done.is_tcp_socket known

reserve-Recorded :
    (k : PortKernel) (fault_hit : Bool) (s requested : ℕ) (p : PortState)
    → (k.take_node p).1.sock ≡ p.sock
    → Recorded s requested p
    → Recorded s requested (reserve k fault_hit p).1
unfolding reserve
reserve-Recorded k fault_hit s requested p law done = record {
  is_tcp_socket = ap (λ f. is_tcp (f s).afd.socket_protocol) same ∙ done.is_tcp_socket;
  recorded =
      ap (λ f. bit_or (f s).local_shutdown requested) same
      ∙ done.recorded
      ∙ ap (λ f. (f s).local_shutdown) (sym same);
}
  where
    same : (reserve k fault_hit p).1.sock ≡ p.sock
    same = ground (arith, law)

shutdown_registered-native :
    (k : PortKernel) (c : Calls) (native : Option ℕ) (s requested : ℕ) (how : ℤ) (p : PortState)
    → (k.take_node p).1.sock ≡ p.sock
    → local_shutdown_mask how ≡ some requested
    → Recorded s requested p
    → shutdown_registered k (record c { native = native }) s how p ≡ shutdown_registered k c s how p
unfolding shutdown_registered
shutdown_registered-native k c native s requested how p law valid done =
    ap (λ x. if not (is_socket (p.sock s).kind) then some (refuse_with enotsock p) else x)
      (rw valid (
        ap
          (λ x. branches x (
            shut_and_publish k (record c { native = native }) true s requested
              (reserve k c.reserve_fault p).1))
          without_node
        ∙ ap (branches (shut_and_publish k c false s requested p)) with_node))
  where
    branches : (without_node with_node : Option (Status × PortState)) → Option (Status × PortState)
    branches x y =
        if not (needs_node s requested p)
        then x
        else if (reserve k c.reserve_fault p).0
        then y
        else some (failed, (reserve k c.reserve_fault p).1)

    without_node :
        shut_and_publish k (record c { native = native }) false s requested p
        ≡ shut_and_publish k c false s requested p
    without_node = shut_and_publish-native k c native false s requested p done

    with_node :
        shut_and_publish k
          (record c { native = native })
          true
          s
          requested
          (reserve k c.reserve_fault p).1
        ≡ shut_and_publish k c true s requested (reserve k c.reserve_fault p).1
    with_node =
        shut_and_publish-native k c native true s requested _
          (reserve-Recorded k c.reserve_fault s requested p law done)

-- A shutdown of directions of a TCP socket that are recorded already makes no native call: what such a call
-- would answer does not matter. So a call that failed after the native shutdown can be repeated.
pub shutdown_socket-retry :
    (k : PortKernel) (c : Calls) (native : Option ℕ) (fd requested : ℕ) (how : ℤ) (sock : Sock)
    (p q : PortState)
    → (k.take_node q).1.sock ≡ q.sock
    → lookup fd p.table ≡ some sock
    → k.validate_control sock.addr p ≡ (matches, q)
    → local_shutdown_mask how ≡ some requested
    → Recorded sock.addr requested q
    → shutdown_socket k (record c { native = native }) fd how p ≡ shutdown_socket k c fd how p
unfolding shutdown_socket
shutdown_socket-retry k c native fd requested how sock p q law found valid mask done =
    rw (shutdown_socket, found, ap (λ x. x.0) valid, ap (λ x. x.1) valid)
      (shutdown_registered-native k c native sock.addr requested how q law mask done)
