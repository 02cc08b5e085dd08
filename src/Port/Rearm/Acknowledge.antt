-- ===== src/Port/Rearm/Acknowledge.antt =====
-- A rearming of classes of src/wepoll_ex_port.c as a whole.
use wepoll_ex.Prelude.{
  ℕ, suc, ◌≡◌, ◌≢◌, inl, refl, ◌∙◌, Bool, true, false, ◌&&◌, not, arith, if◌then◌else◌, either,
  Option, none, some,
}
use wepoll_ex.Status.{Status, ok, failed}
use wepoll_ex.Errno.Codes.{ebusy}
use wepoll_ex.Port.Classes.{Classes, any_class, meet, minus}
use wepoll_ex.Port.Wake.{PostOutcome}
use wepoll_ex.Port.State.{PortState, PortKernel, refuse_with}
use wepoll_ex.Port.Modify.Lists.{Linked, loosen}
use wepoll_ex.Port.Modify.Request.{Linked-apart}
use wepoll_ex.Port.Rearm.{
  completes, still_parked, wanted_events, acknowledge_part, settle_poll, arm, rearm_disarmed,
  rearm_locked,
}
use wepoll_ex.Port.Rearm.Outcome.{Calm, Untaken, Outcome, Runs, untaken, succeeds}
use wepoll_ex.Port.Rearm.Settle.{arms, Settled, settles}

unmet-minus : (a b : Classes) → any_class (meet a b) ≡ false → a ≡ minus a b
unmet-minus a b e = λ i. record {
  read = left a.read b.read (ground (arith, e)) i;
  write = left a.write b.write (ground (arith, e)) i;
  terminal = left a.terminal b.terminal (ground (arith, e)) i;
}
  where
    left : (x y : Bool) → (x && y) ≡ false → x ≡ (x && not y)
    left x y h = ground (arith, h)

acknowledge_part-minus :
    (s : ℕ) (classes : Classes) (parked : Bool) (p : PortState)
    → ((acknowledge_part s classes parked p).sock s).interest.explicit_disarmed_classes
      ≡ minus (p.sock s).interest.explicit_disarmed_classes classes
unfolding acknowledge_part
acknowledge_part-minus s classes parked p = ground arith

rearms_disarmed :
    (k : PortKernel) (o : PostOutcome) (n s : ℕ) (classes : Classes) (p : PortState)
    → Calm k
    → Linked (suc (suc (suc (suc n)))) p.worklists
    → s ≢ 0
    → Runs k o s classes p (rearm_disarmed k o s classes p)
unfolding rearm_disarmed acknowledge_part
rearms_disarmed k o n s classes p law v nz = by_part (fired && not whole) refl
  where
    fired : Bool
    fired = p.worklists.oneshot.flag s

    whole : Bool
    whole = completes fired classes (p.sock s)

    parked : Bool
    parked = still_parked fired classes (p.sock s)

    wanted : ℕ
    wanted = wanted_events classes parked (p.sock s)

    settled : Settled (suc (suc (suc (suc n)))) s p (settle_poll k s whole wanted parked p)
    settled = settles k _ s whole wanted parked p law v

    q : PortState
    q = (settle_poll k s whole wanted parked p).1

    by_cover :
        (covers : Option Bool)
        → (settle_poll k s whole wanted parked p).0 ≡ covers
        → (fired && not whole) ≡ false
        → Runs k o s classes p (elim covers [
          | none ↦ some (failed, q)
          | some c ↦ arm k o s whole c wanted classes p q
        ])
    by_cover none e idle =
        untaken k o s classes p q (loosen _ _ settled.linked) (settled.restored e)
    by_cover (some c) e idle =
        arms k o n s whole c wanted classes p q law settled.linked nz
          (λ part. settled.fired ∙ ground (arith, part, idle)) (Linked-apart _ s p.worklists v)
          settled.disarmed_eq

    by_part :
        (part : Bool)
        → (fired && not whole) ≡ part
        → Runs k o s classes p (
            if part
            then some (ok, acknowledge_part s classes parked p)
            else elim (settle_poll k s whole wanted parked p).0 [
              | none ↦ some (failed, q)
              | some c ↦ arm k o s whole c wanted classes p q
            ])
    by_part true e =
        succeeds k o s classes p (acknowledge_part s classes parked p) (loosen _ _ v) (record {
          from = acknowledge_part s classes parked p;
          acknowledged = acknowledge_part-minus s classes parked p;
          reached = inl refl;
        })
    by_part false e = by_cover (settle_poll k s whole wanted parked p).0 refl e

-- The cancellation and submission of a poll are a parameter with the laws of `Calm`: a cancellation keeps
-- the caller's request, and both keep well-formed lists. Then a rearming of classes, on well-formed lists
-- with room, fails no assertion of its own or of the operations on the lists, and leaves the lists well
-- formed. If it succeeds, the classes are no longer disarmed in the registration, which a submission may
-- then have got. If it fails, there are three ways: the registration has the disarmed classes, the
-- observed events, the generation and the deferred work of before; or the submission retired it; or the
-- classes are acknowledged, the packet for the waiter was refused, and the port shut itself down for that.
pub rearm_locked-Outcome :
    (k : PortKernel) (o : PostOutcome) (s : ℕ) (classes : Classes) (p : PortState)
    → Calm k
    → Linked 4 p.worklists
    → s ≢ 0
    → (status : Status) × ((q : PortState) × ((rearm_locked k o s classes p ≡ some (status, q))
          × Outcome k o s classes p status q))
unfolding rearm_locked
rearm_locked-Outcome k o s classes p law v nz =
    either (Runs k o s classes p) (p.sock s).ready_queued _ _
      (untaken k o s classes p (refuse_with ebusy p).1 (loosen _ _ v) same)
      (by_met (any_class (meet (p.sock s).interest.explicit_disarmed_classes classes)) refl)
  where
    by_met :
        (met : Bool)
        → any_class (meet (p.sock s).interest.explicit_disarmed_classes classes) ≡ met
        → Runs k o s classes p (if not met then some (ok, p) else rearm_disarmed k o s classes p)
    by_met true e = rearms_disarmed k o 0 s classes p law v nz
    by_met false e = succeeds k o s classes p p (loosen _ _ v) (record {
      from = p;
      acknowledged = unmet-minus (p.sock s).interest.explicit_disarmed_classes classes e;
      reached = inl refl;
    })

    same : Untaken s p (refuse_with ebusy p).1
    same = record {
      disarmed_eq = refl;
      observed_eq = refl;
      parked_eq = refl;
      holdoff_eq = refl;
      generation_eq = refl;
      rearm_eq = refl;
      fired_eq = refl;
    }
