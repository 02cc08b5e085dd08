-- ===== src/Port/Rearm/Outcome.antt =====
-- The end of a rearming of classes of src/wepoll_ex_port.c, from its submission on.
use wepoll_ex.Prelude.{
  ℕ, zero, suc, ◌≡◌, ◌≢◌, ◌⊎◌, inl, inr, refl, ap, Bool, true, false, ◌&&◌, not, either, Option,
  Option-cases, some,
}
use wepoll_ex.Status.{Status, ok, failed}
use wepoll_ex.Errno.State.{get_last_error_info, restore_last_error_info}
use wepoll_ex.Port.Classes.{Classes, minus}
use wepoll_ex.Port.Wake.{PostOutcome, post_iocp}
use wepoll_ex.Port.State.{
  PortState, PortKernel, Submitted, submitted, withdrawn, submit_failed, is_idle, with_sock,
}
use wepoll_ex.Port.Modify.{finish}
use wepoll_ex.Port.Modify.Lists.{Linked, loosen, restore-Linked}
use wepoll_ex.Port.Modify.Effect.{own_sock}
use wepoll_ex.Port.Modify.Outcome.{Kept, Withdrawn, PostFailed}
use wepoll_ex.Port.Rearm.{wants_poll, rolled_back, roll_back, answered, submit_armed}

-- What the port relies on.
pub record Calm (k : PortKernel) : Type 0 where
  pub cancel_keeps : (s : ℕ) (p : PortState) → Kept s p (k.cancel s p).1
  pub cancel_lists :
      (n s : ℕ) (p : PortState) → Linked n p.worklists → Linked n (k.cancel s p).1.worklists
  pub submit_lists :
      (n s : ℕ) (p : PortState) → Linked (suc n) p.worklists → Linked n (k.submit s p).1.worklists

-- The acknowledged classes are as before the call, and so is the deferred work.
pub record Untaken (s : ℕ) (p q : PortState) : Type 0 where
  pub disarmed_eq :
      (q.sock s).interest.explicit_disarmed_classes ≡ (p.sock s).interest.explicit_disarmed_classes
  pub observed_eq : (q.sock s).interest.observed_events ≡ (p.sock s).interest.observed_events
  pub parked_eq :
      (q.sock s).interest.udp_readless_receive_parked
      ≡ (p.sock s).interest.udp_readless_receive_parked
  pub holdoff_eq : (q.sock s).interest.et_holdoff ≡ (p.sock s).interest.et_holdoff
  pub generation_eq : (q.sock s).generation ≡ (p.sock s).generation
  pub rearm_eq : q.worklists.rearm.flag s ≡ p.worklists.rearm.flag s
  pub fired_eq : q.worklists.oneshot.flag s ≡ p.worklists.oneshot.flag s

-- The classes are acknowledged: they no longer wait for a rearm. The sockets are as the rearming left
-- them, or as a submission left them that got them so.
pub record Armed (k : PortKernel) (s : ℕ) (classes : Classes) (p q : PortState) : Type 0 where
  pub from : PortState
  pub acknowledged :
      (from.sock s).interest.explicit_disarmed_classes
      ≡ minus (p.sock s).interest.explicit_disarmed_classes classes
  pub reached :
      (q.sock ≡ from.sock)
      ⊎ (((k.submit s from).0 ≡ submitted) × (q.sock ≡ (k.submit s from).1.sock))

pub record Outcome (k : PortKernel) (o : PostOutcome) (s : ℕ) (classes : Classes) (p : PortState)
    (status : Status) (q : PortState) : Type 0 where
  pub linked : Linked zero q.worklists
  pub ended :
      ((status ≡ ok) × Armed k s classes p q)
      ⊎ ((status ≡ failed)
          × (Untaken s p q ⊎ (Withdrawn k s q ⊎ (Armed k s classes p q × PostFailed o q))))

abbrev pub Runs :
    (k : PortKernel) (o : PostOutcome) (s : ℕ) (classes : Classes) (p : PortState)
    → Option (Status × PortState)
    → Type 0
Runs k o s classes p x =
    (status : Status) × ((q : PortState) × ((x ≡ some (status, q))
        × Outcome k o s classes p status q))

pub untaken :
    (k : PortKernel) (o : PostOutcome) (s : ℕ) (classes : Classes) (p q : PortState)
    → Linked zero q.worklists
    → Untaken s p q
    → Runs k o s classes p (some (failed, q))
untaken k o s classes p q v same =
    (failed, (q, (refl, record { linked = v; ended = inr (refl, inl same) })))

pub succeeds :
    (k : PortKernel) (o : PostOutcome) (s : ℕ) (classes : Classes) (p q : PortState)
    → Linked zero q.worklists
    → Armed k s classes p q
    → Runs k o s classes p (some (ok, q))
succeeds k o s classes p q v armed =
    (ok, (q, (refl, record { linked = v; ended = inl (refl, armed) })))

finishes :
    (k : PortKernel) (o : PostOutcome) (s : ℕ) (classes : Classes) (wakes : Bool) (p q : PortState)
    → Linked zero q.worklists
    → Armed k s classes p q
    → Runs k o s classes p (some (finish o wakes q))
unfolding finish
finishes k o s classes false p q v a =
    succeeds k o s classes p _ v
      (record { from = a.from; acknowledged = a.acknowledged; reached = a.reached })
finishes k o s classes true p q v a = elim (Option-cases (post_iocp o q.wake).0) [
  | inl posted ↦ rw posted (
      succeeds k o s classes p _ v
        (record { from = a.from; acknowledged = a.acknowledged; reached = a.reached }))
  | inr (code, refused) ↦ rw refused (
    failed,
    (
      _,
      (
        refl,
        record {
          linked = v;
          ended = inr (
            refl,
            inr (
                inr (
                  record { from = a.from; acknowledged = a.acknowledged; reached = a.reached },
                  record { before = q.wake; code = code; refused = refused; wake_eq = refl },
                )),
          );
        },
      ),
    ),
  )
]

rolls_back :
    (k : PortKernel) (o : PostOutcome) (n s : ℕ) (classes : Classes) (old now : PortState)
    → Linked (suc n) now.worklists
    → s ≢ 0
    → (old.worklists.rearm.flag s && old.worklists.oneshot.flag s) ≡ false
    → Runs k o s classes old (roll_back s old now)
unfolding roll_back
rolls_back k o n s classes old now v nz one =
    let (lists, (runs, linked, rearm, fired)) =
      restore-Linked n s (old.worklists.rearm.flag s) (old.worklists.oneshot.flag s) now.worklists v
        nz one in
    let same = own_sock s (λ t. rolled_back (old.sock s) (now.sock t)) now.sock in
    (
      failed,
      (
        with_sock s (rolled_back (old.sock s)) (record now {
          worklists = lists;
          err = restore_last_error_info (get_last_error_info now.err) now.err;
        }),
        (
          rw (roll_back, runs) refl,
          record {
            linked = linked;
            ended = inr (
              refl,
              inl (record {
                disarmed_eq = ap (λ r. r.interest.explicit_disarmed_classes) same;
                observed_eq = ap (λ r. r.interest.observed_events) same;
                parked_eq = ap (λ r. r.interest.udp_readless_receive_parked) same;
                holdoff_eq = ap (λ r. r.interest.et_holdoff) same;
                generation_eq = ap (λ r. r.generation) same;
                rearm_eq = rearm;
                fired_eq = fired;
              }),
            );
          },
        ),
      ),
    )

answers :
    (k : PortKernel) (o : PostOutcome) (n s : ℕ) (classes : Classes) (old p : PortState)
    (answer : Submitted)
    → Calm k
    → Linked (suc (suc n)) p.worklists
    → s ≢ 0
    → (old.worklists.rearm.flag s && old.worklists.oneshot.flag s) ≡ false
    → (p.sock s).interest.explicit_disarmed_classes
      ≡ minus (old.sock s).interest.explicit_disarmed_classes classes
    → (k.submit s p).0 ≡ answer
    → Runs k o s classes old (answered o s old answer (k.submit s p).1)
unfolding answered
answers k o n s classes old p submitted law v nz one ack e =
    finishes k o s classes _ old (k.submit s p).1
      (loosen (suc n) _ (law.submit_lists (suc n) s p v))
      (record { from = p; acknowledged = ack; reached = inr (e, refl) })
answers k o n s classes old p withdrawn law v nz one ack e = (
  failed,
  (
    _,
    (
      refl,
      record {
        linked = loosen (suc n) _ (law.submit_lists (suc n) s p v);
        ended =
            inr
              (refl, inr (inl (record { from = p; answer = e; socks_eq = refl; table_eq = refl })));
      },
    ),
  ),
)
answers k o n s classes old p submit_failed law v nz one ack e =
    rolls_back k o n s classes old (k.submit s p).1 (law.submit_lists (suc n) s p v) nz one

pub submits :
    (k : PortKernel) (o : PostOutcome) (n s wanted : ℕ) (classes : Classes) (old p : PortState)
    → Calm k
    → Linked (suc (suc n)) p.worklists
    → s ≢ 0
    → (old.worklists.rearm.flag s && old.worklists.oneshot.flag s) ≡ false
    → (p.sock s).interest.explicit_disarmed_classes
      ≡ minus (old.sock s).interest.explicit_disarmed_classes classes
    → Runs k o s classes old (submit_armed k o s wanted old p)
unfolding submit_armed
submits k o n s wanted classes old p law v nz one ack =
    either (Runs k o s classes old)
      (is_idle (p.sock s).poll_status
        && wants_poll wanted (p.sock s)
        && p.waiter_active
        && not p.waiter_coalescing)
      (answered o s old (k.submit s p).0 (k.submit s p).1) (some (finish o false p))
      (answers k o n s classes old p (k.submit s p).0 law v nz one ack refl)
      (finishes k o s classes false old p (loosen (suc (suc n)) _ v)
        (record { from = p; acknowledged = ack; reached = inl refl }))
