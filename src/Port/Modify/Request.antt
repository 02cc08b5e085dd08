-- ===== src/Port/Modify/Request.antt =====
-- `ep_port_modify` of src/wepoll_ex_port.c as a whole.
use wepoll_ex.Prelude.{
  either, ℕ, zero, suc, ◌≡◌, ◌≢◌, refl, sym, ap, subst, Bool, true, false, ◌&&◌, not, ◌==◌,
  if◌then◌else◌, Option, none, some,
}
use wepoll_ex.Bits.{complement}
use wepoll_ex.Bits.Masks.{meets}
use wepoll_ex.Port.Classes.{no_class, afd_events_for_state}
use wepoll_ex.Status.{Status, ok, failed}
use wepoll_ex.Port.FdTable.{Sock, lookup}
use wepoll_ex.Port.Worklist.{Worklists}
use wepoll_ex.Port.Wake.{PostOutcome}
use wepoll_ex.Port.State.{
  Registration, PortState, PortKernel, is_pending, is_socket, is_waitable, matches, next_generation,
  refuse_with,
}
use wepoll_ex.Port.Modify.{
  Wish, goes_dormant, preserves, refusal, settle_poll, take_effect, modified, submit_request,
  apply_request, modify_registered, modify,
}
use wepoll_ex.Port.Modify.Lists.{Linked, loosen}
use wepoll_ex.Port.Modify.Effect.{take_effect-some}
use wepoll_ex.Port.Modify.Outcome.{
  Kept, Answers, Lawful, Outcome, self_Kept, failed_Outcome, rebase, Runs,
}
use wepoll_ex.Port.Modify.Submission.{submit_request-Outcome}

-- The registration that `modified` leaves answers to the request.
modified-Answers : (w : Wish) (g : ℕ) (r x : Registration) → x ≡ modified w g r → Answers w g x
unfolding modified
modified-Answers w g r x e = record {
  events_eq = ap (λ y. y.interest.user_events) e;
  flags_eq = ap (λ y. y.interest.user_flags) e;
  data_eq = ap (λ y. y.interest.user_data) e;
  ctx_eq = ap (λ y. y.interest.user_ctx) e;
  generation_eq = ap (λ y. y.generation) e;
}

pub Linked-apart :
    (n s : ℕ) (p : Worklists) → Linked n p → (p.rearm.flag s && p.oneshot.flag s) ≡ false
Linked-apart n s p v = rw (v.keeps.rearm.flagged s, v.keeps.oneshot.flagged s) (v.keeps.apart s)

-- What the allocation of a node leaves alone.
record Untouched (s : ℕ) (p q : PortState) : Type 0 where
  socks : q.sock ≡ p.sock
  lists : q.worklists ≡ p.worklists
  next : q.next_sock_generation ≡ p.next_sock_generation

Untouched-Kept : (s : ℕ) (p q : PortState) → Untouched s p q → Kept s p q
Untouched-Kept s p q u = record {
  interest_eq = ap (λ f. (f s).interest) u.socks;
  generation_eq = ap (λ f. (f s).generation) u.socks;
  rearm_eq = ap (λ l. l.rearm.flag s) u.lists;
  fired_eq = ap (λ l. l.oneshot.flag s) u.lists;
}

taken_Untouched :
    (k : PortKernel) (s : ℕ) (kept : Bool) (p : PortState)
    → Lawful k
    → Untouched s p (if kept then (k.take_node p).1 else p)
taken_Untouched k s true p law = record {
  socks = law.take_socks p;
  lists = law.take_lists p;
  next = law.take_next p;
}
taken_Untouched k s false p law = record { socks = refl; lists = refl; next = refl }

enacted_Runs :
    (k : PortKernel) (o : PostOutcome) (n s : ℕ) (w : Wish) (covers : Bool) (now : ℕ)
    (p q : PortState)
    → Lawful k
    → Linked (suc (suc (suc (suc (suc n))))) p.worklists
    → s ≢ 0
    → Untouched s p q
    → Runs k o s w p
        (elim (take_effect s w covers now q) [ none ↦ none | some r ↦ submit_request k o s w p r ])
enacted_Runs k o n s w covers now p q law v nz u =
    let v' = subst (λ l. Linked (suc (suc (suc (suc (suc n))))) l) (sym u.lists) v in
    let (r, (runs, done, sock, wake)) = take_effect-some (suc (suc n)) s w covers now q v' nz in
    let answers : Answers w (next_generation p.next_sock_generation) (r.sock s) =
      subst (λ g. Answers w (next_generation g) (r.sock s)) u.next
        (modified-Answers w _ (q.sock s) (r.sock s) sock) in
    subst (λ x. Runs k o s w p (elim x [ none ↦ none | some r ↦ submit_request k o s w p r ]))
      (sym runs)
      (submit_request-Outcome k o n s w p r law done.linked nz (Linked-apart _ s p.worklists v)
        answers)

apply_request-Outcome :
    (k : PortKernel) (o : PostOutcome) (n s : ℕ) (w : Wish) (covers : Bool) (now : ℕ)
    (p : PortState)
    → Lawful k
    → Linked (suc (suc (suc (suc (suc n))))) p.worklists
    → s ≢ 0
    → Runs k o s w p (apply_request k o s w covers now p)
unfolding apply_request
apply_request-Outcome k o n s w covers now p law v nz =
    either (Runs k o s w p) (preserves w (p.sock s) && not (k.take_node p).0)
      (some (failed, (k.take_node p).1)) _
      (
        failed,
        (
          _,
          (
            refl,
            failed_Outcome k o s w p (k.take_node p).1
                (subst (λ l. Linked zero l) (sym (law.take_lists p)) (loosen _ _ v))
                (Untouched-Kept s p _ (taken_Untouched k s true p law)),
          ),
        ),
      )
      (enacted_Runs k o n s w covers now p _ law v nz
        (taken_Untouched k s (preserves w (p.sock s)) p law))

five_ways :
    {A : Type 0}
    → (P : A → Type 0) (a b c d e : Bool) (x y z : A) → P x
    → P y
    → P z
    → P (if a then x else if b then z else if c then y else if d then z else if e then y else z)
five_ways P true b c d e x y z p q r = p
five_ways P false true c d e x y z p q r = r
five_ways P false false true d e x y z p q r = q
five_ways P false false false true e x y z p q r = r
five_ways P false false false false e x y z p q r = either P e y z q r

-- What settling a poll leaves alone.
record Settled (n s : ℕ) (p : PortState) (x : Option Bool × PortState) : Type 0 where
  kept : Kept s p x.1
  next : x.1.next_sock_generation ≡ p.next_sock_generation
  linked : Linked n x.1.worklists

settle_poll-Settled :
    (k : PortKernel) (n s : ℕ) (w : Wish) (p : PortState)
    → Lawful k
    → Linked n p.worklists
    → Settled n s p (settle_poll k s w p)
unfolding settle_poll
settle_poll-Settled k n s w p law v =
    let r = p.sock s in
    five_ways (Settled n s p) (not (is_pending r.poll_status))
      (is_waitable r.kind && goes_dormant w r) (not (is_socket r.kind))
      (not (r.local_shutdown == 0))
      (not (
        meets (afd_events_for_state r.afd w.events false no_class)
          (complement 32 r.submitted_afd_events)))
      (some false, p) (some true, p)
      (elim (k.cancel s p).0 [ ok ↦ some false | failed ↦ none ], (k.cancel s p).1) stays stays
      cancels
  where
    stays : {b : Option Bool} → Settled n s p (b, p)
    stays = record { kept = self_Kept s p; next = refl; linked = v }

    cancels : {b : Option Bool} → Settled n s p (b, (k.cancel s p).1)
    cancels = record {
      kept = law.cancel_keeps s p;
      next = law.cancel_next s p;
      linked = law.cancel_lists n s p v;
    }

Runs-rebase :
    (k : PortKernel) (o : PostOutcome) (s : ℕ) (w : Wish) (p q : PortState)
    (x : Option (Status × PortState))
    → Kept s p q
    → q.next_sock_generation ≡ p.next_sock_generation
    → Runs k o s w q x
    → Runs k o s w p x
Runs-rebase k o s w p q x kept next (status, (r, (runs, done))) =
    (status, (r, (runs, rebase k o s w p q r status kept next done)))

modify_registered-Outcome :
    (k : PortKernel) (o : PostOutcome) (n s : ℕ) (w : Wish) (now : ℕ) (p : PortState)
    → Lawful k
    → Linked (suc (suc (suc (suc (suc n))))) p.worklists
    → s ≢ 0
    → Runs k o s w p (modify_registered k o s w now p)
unfolding modify_registered
modify_registered-Outcome k o n s w now p law v nz =
    by_refusal (refusal p.explicit_rearm w (p.sock s))
  where
    settled : Settled (suc (suc (suc (suc (suc n))))) s p (settle_poll k s w p)
    settled = settle_poll-Settled k _ s w p law v

    by_cover :
        (covers : Option Bool)
        → Runs k o s w p (elim covers [
          | none ↦ some (failed, (settle_poll k s w p).1)
          | some c ↦ apply_request k o s w c now (settle_poll k s w p).1
        ])
    by_cover none =
        (failed, (_, (refl, failed_Outcome k o s w p _ (loosen _ _ settled.linked) settled.kept)))
    by_cover (some c) =
        Runs-rebase k o s w p _ _ settled.kept settled.next
          (apply_request-Outcome k o n s w c now (settle_poll k s w p).1 law settled.linked nz)

    by_refusal :
        (error : Option ℕ)
        → Runs k o s w p (elim error [
          | some code ↦ some (refuse_with code p)
          | none ↦ elim (settle_poll k s w p).0 [
            | none ↦ some (failed, (settle_poll k s w p).1)
            | some c ↦ apply_request k o s w c now (settle_poll k s w p).1
          ]
        ])
    by_refusal none = by_cover (settle_poll k s w p).0
    by_refusal (some code) = (
      failed,
      (
        _,
        (
          refl,
          failed_Outcome k o s w p (refuse_with code p).1 (loosen _ _ v) (record {
            interest_eq = refl;
            generation_eq = refl;
            rearm_eq = refl;
            fired_eq = refl;
          }),
        ),
      ),
    )

-- The rest of the port, the cancellation and submission of a poll and the allocation of a node, is a
-- parameter with the laws of `Lawful`: it keeps the caller's requests and well-formed lists. Then a
-- modification of a registered socket whose identity holds, on well-formed lists with room, fails no
-- assertion of its own or of the operations on the lists, and leaves the lists well formed. If it
-- succeeds, the registration answers to the new request, under the next generation. If it fails, there are
-- three ways: the old request with its generation and its deferred work is still in force; or the
-- submission retired the registration; or the new request is in force, the packet for the waiter was
-- refused, and the port shut itself down for that.
pub modify-Outcome :
    (k : PortKernel) (o : PostOutcome) (fd : ℕ) (sock : Sock) (w : Wish) (now : ℕ) (p q : PortState)
    → Lawful k
    → lookup fd p.table ≡ some sock
    → k.validate_control sock.addr p ≡ (matches, q)
    → Linked 5 q.worklists
    → sock.addr ≢ 0
    → (status : Status) × ((r : PortState) × ((modify k o fd w now p ≡ some (status, r))
          × Outcome k o sock.addr w q status r))
unfolding modify
modify-Outcome k o fd sock w now p q law found valid v nz =
    let (status, (r, (runs, done))) = modify_registered-Outcome k o 0 sock.addr w now q law v nz in
    (status, (r, (rw (modify, found, ap (λ x. x.0) valid, ap (λ x. x.1) valid) runs, done)))
