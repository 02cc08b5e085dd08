-- ===== src/Port/Rearm/Settle.antt =====
-- The lists and the poll under a rearming of classes of src/wepoll_ex_port.c.
use wepoll_ex.Prelude.{
  ℕ, suc, ◌≡◌, ◌≢◌, refl, ap, ◌∙◌, subst, Bool, true, false, ◌&&◌, ◌||◌, not, arith, ◌==◌,
  if◌then◌else◌, either, Option, none, some,
}
use wepoll_ex.Bits.{complement}
use wepoll_ex.Bits.Masks.{meets}
use wepoll_ex.Status.{Status, ok, failed}
use wepoll_ex.Port.Classes.{Classes, minus}
use wepoll_ex.Port.Worklist.{Worklists, set_needs_rearm, set_oneshot_fired}
use wepoll_ex.Port.Wake.{PostOutcome}
use wepoll_ex.Port.State.{Registration, PortState, PortKernel, is_pending, next_generation}
use wepoll_ex.Port.Modify.Lists.{Linked, weaken, set_needs_rearm-Linked, set_oneshot_fired-Linked}
use wepoll_ex.Port.Modify.Effect.{own_sock}
use wepoll_ex.Port.Modify.Outcome.{Kept}
use wepoll_ex.Port.Rearm.{wants_poll, park, settle_poll, relist, armed, arm, rearmed}
use wepoll_ex.Port.Rearm.Outcome.{Calm, Untaken, Runs, submits}

clears :
    (whole : Bool) (n s : ℕ) (p : Worklists)
    → Linked (suc n) p
    → s ≢ 0
    → (whole ≡ false → p.oneshot.flag s ≡ false)
    → (q : Worklists) × (((if whole then set_oneshot_fired s false p else some p) ≡ some q)
        × Linked n q
        × (q.oneshot.flag s ≡ false))
clears true n s p v nz idle =
    let (q, (runs, linked, off, same)) = set_oneshot_fired-Linked n s false p v nz refl in
    (q, (runs, linked, off))
clears false n s p v nz idle = (p, (refl, weaken n p v, idle refl))

defers :
    (covers wants : Bool) (n s : ℕ) (p : Worklists)
    → Linked (suc n) p
    → s ≢ 0
    → p.oneshot.flag s ≡ false
    → (q : Worklists) × (((if not covers then set_needs_rearm s wants p else some p) ≡ some q)
        × Linked n q)
defers true wants n s p v nz off = (p, (refl, weaken n p v))
defers false wants n s p v nz off =
    let (q, (runs, linked, flag, same)) =
      set_needs_rearm-Linked n s wants p v nz (ground (arith, off)) in
    (q, (runs, linked))

rearmed-minus :
    (whole : Bool) (classes : Classes) (g : ℕ) (r : Registration)
    → (rearmed whole classes g r).interest.explicit_disarmed_classes
      ≡ minus r.interest.explicit_disarmed_classes classes
unfolding rearmed
rearmed-minus true classes g r = refl
rearmed-minus false classes g r = refl

armed-minus :
    (s : ℕ) (whole : Bool) (classes : Classes) (l : Worklists) (p : PortState)
    → ((armed s whole classes l p).sock s).interest.explicit_disarmed_classes
      ≡ minus (p.sock s).interest.explicit_disarmed_classes classes
unfolding armed
armed-minus s whole classes l p =
    ap (λ r. r.interest.explicit_disarmed_classes)
      (own_sock s (λ t. rearmed whole classes (next_generation p.next_sock_generation) (p.sock t))
        p.sock)
    ∙ rearmed-minus whole classes _ (p.sock s)

pub arms :
    (k : PortKernel) (o : PostOutcome) (n s : ℕ) (whole covers : Bool) (wanted : ℕ)
    (classes : Classes) (old p : PortState)
    → Calm k
    → Linked (suc (suc (suc (suc n)))) p.worklists
    → s ≢ 0
    → (whole ≡ false → p.worklists.oneshot.flag s ≡ false)
    → (old.worklists.rearm.flag s && old.worklists.oneshot.flag s) ≡ false
    → (p.sock s).interest.explicit_disarmed_classes
      ≡ (old.sock s).interest.explicit_disarmed_classes
    → Runs k o s classes old (arm k o s whole covers wanted classes old p)
unfolding arm armed relist
arms k o n s whole covers wanted classes old p law v nz idle one same =
    let wants = wants_poll wanted (p.sock s) in
    let (l1, (a, v1, off)) = clears whole (suc (suc (suc n))) s p.worklists v nz idle in
    let (l2, (b, v2)) = defers covers wants (suc (suc n)) s l1 v1 nz off in
    rw (arm, relist, a, b)
      (submits k o n s wanted classes old (armed s whole classes l2 p) law v2 nz one
        (armed-minus s whole classes l2 p ∙ ap (λ c. minus c classes) same))

some≢none : {b : Bool} → some b ≢ none
some≢none e = subst (λ x. elim x [ some b ↦ Unit | none ↦ ⊥ ]) e tt

-- What settling a poll promises: a failure restores the parking.
pub record Settled (n s : ℕ) (p : PortState) (x : Option Bool × PortState) : Type 0 where
  pub linked : Linked n x.1.worklists
  pub fired : x.1.worklists.oneshot.flag s ≡ p.worklists.oneshot.flag s
  pub disarmed_eq :
      (x.1.sock s).interest.explicit_disarmed_classes
      ≡ (p.sock s).interest.explicit_disarmed_classes
  pub restored : x.0 ≡ none → Untaken s p x.1

pub settles :
    (k : PortKernel) (n s : ℕ) (whole : Bool) (wanted : ℕ) (parked : Bool) (p : PortState)
    → Calm k
    → Linked n p.worklists
    → Settled n s p (settle_poll k s whole wanted parked p)
unfolding settle_poll
settles k n s whole wanted parked p law v =
    either (Settled n s p) (not (is_pending (p.sock s).poll_status)) _ _ (keeps false) (
      either (Settled n s p) (whole || not ((p.sock s).local_shutdown == 0)) _ _
        (cancels (k.cancel s q).0)
        (either (Settled n s p) (not (meets wanted (complement 32 (p.sock s).submitted_afd_events)))
          (some true, q) _ (keeps true) (cancels (k.cancel s q).0)))
  where
    q : PortState
    q = park s parked p

    after : PortState
    after = (k.cancel s q).1

    kept : Kept s q after
    kept = law.cancel_keeps s q

    own : q.sock s ≡ record (p.sock s) {
      interest = record (p.sock s).interest { udp_readless_receive_parked = parked };
    }
    own =
        own_sock s
          (λ t. record (p.sock t) {
            interest = record (p.sock t).interest { udp_readless_receive_parked = parked };
          })
          p.sock

    back :
        (park s (p.sock s).interest.udp_readless_receive_parked after).sock s
        ≡ record (after.sock s) {
          interest = record (after.sock s).interest {
            udp_readless_receive_parked = (p.sock s).interest.udp_readless_receive_parked;
          };
        }
    back =
        own_sock s
          (λ t. record (after.sock t) {
            interest = record (after.sock t).interest {
              udp_readless_receive_parked = (p.sock s).interest.udp_readless_receive_parked;
            };
          })
          after.sock

    same :
        ((park s (p.sock s).interest.udp_readless_receive_parked after).sock
          s).interest.explicit_disarmed_classes
        ≡ (p.sock s).interest.explicit_disarmed_classes
    same =
        ap (λ r. r.interest.explicit_disarmed_classes) back
        ∙ ap (λ i. i.explicit_disarmed_classes) kept.interest_eq
        ∙ ap (λ r. r.interest.explicit_disarmed_classes) own

    keeps : (b : Bool) → Settled n s p (some b, q)
    keeps b = record {
      linked = v;
      fired = refl;
      disarmed_eq = ap (λ r. r.interest.explicit_disarmed_classes) own;
      restored = λ e. absurd (some≢none e);
    }

    cancels :
        (status : Status)
        → Settled n s p (elim status [
          | ok ↦ (some false, after)
          | failed ↦ (none, park s (p.sock s).interest.udp_readless_receive_parked after)
        ])
    cancels ok = record {
      linked = law.cancel_lists n s q v;
      fired = kept.fired_eq;
      disarmed_eq =
          ap (λ i. i.explicit_disarmed_classes) kept.interest_eq
          ∙ ap (λ r. r.interest.explicit_disarmed_classes) own;
      restored = λ e. absurd (some≢none e);
    }
    cancels failed = record {
      linked = law.cancel_lists n s q v;
      fired = kept.fired_eq;
      disarmed_eq = same;
      restored = λ e. record {
        disarmed_eq = same;
        observed_eq =
            ap (λ r. r.interest.observed_events) back
            ∙ ap (λ i. i.observed_events) kept.interest_eq
            ∙ ap (λ r. r.interest.observed_events) own;
        parked_eq = ap (λ r. r.interest.udp_readless_receive_parked) back;
        holdoff_eq =
            ap (λ r. r.interest.et_holdoff) back
            ∙ ap (λ i. i.et_holdoff) kept.interest_eq
            ∙ ap (λ r. r.interest.et_holdoff) own;
        generation_eq =
            ap (λ r. r.generation) back ∙ kept.generation_eq ∙ ap (λ r. r.generation) own;
        rearm_eq = kept.rearm_eq;
        fired_eq = kept.fired_eq;
      };
    }
