-- ===== src/Port/Cancel/Kernel.antt =====
-- `ep_sock_cancel_locked` of src/wepoll_ex_port.c in the place of the cancellation that the operations of a
-- port are parametrized by.
use wepoll_ex.Prelude.{
  ℕ, ◌≡◌, refl, ap, subst, sym, either, Bool, true, false, not, ◌==◌, Option, none, some,
}
use wepoll_ex.Status.{Status, ok, failed}
use wepoll_ex.Errno.State.{ErrorState}
use wepoll_ex.Port.State.{PortState, is_pending, is_socket, with_sock}
use wepoll_ex.Port.Modify.Lists.{Linked}
use wepoll_ex.Port.Modify.Effect.{own_sock}
use wepoll_ex.Port.Modify.Outcome.{Kept, self_Kept}
use wepoll_ex.Port.Cancel.{
  joined, joins, Answers, retired_poll, disarmed, cancel_locked, Runs, unmoved, cancels_afd,
  disarms_posted,
}

-- Where an assertion would fail, which needs a pending poll that is not counted, nothing happens.
abbrev pub settled : PortState → Option (Status × PortState) → Status × PortState
settled p none = (failed, p)
settled p (some x) = x

abbrev pub cancelling : Answers → (sock : ℕ) → PortState → Status × PortState
cancelling a s p = settled p (cancel_locked a s p)

-- What the operations of the port rely on.
pub record Calms (s : ℕ) (p : PortState) (x : Option (Status × PortState)) : Type 0 where
  pub kept : Kept s p (settled p x).1
  pub next_eq : (settled p x).1.next_sock_generation ≡ p.next_sock_generation
  pub lists_eq : (settled p x).1.worklists ≡ p.worklists

Runs-Calms : (s : ℕ) (p : PortState) (x : Option (Status × PortState)) → Runs s p x → Calms s p x
Runs-Calms s p x (status, (q, (e, done))) =
    subst (λ y. Calms s p y) (sym e)
      (record { kept = done.kept; next_eq = done.next_eq; lists_eq = done.lists_eq })

disarmed-Calms : (posted : Bool) (s : ℕ) (p : PortState) → Calms s p (disarmed posted s p)
unfolding disarmed
disarmed-Calms true s p = Runs-Calms s p _ (disarms_posted s p)
disarmed-Calms false s p =
    either (Calms s p) (p.pending_poll_count == 0) none _
      (record { kept = self_Kept s p; next_eq = refl; lists_eq = refl })
      (record { kept = same; next_eq = refl; lists_eq = refl })
  where
    own :
        (with_sock s (retired_poll p.wake.closing) p).sock s
        ≡ retired_poll p.wake.closing (p.sock s)
    own = own_sock s (λ t. retired_poll p.wake.closing (p.sock t)) p.sock

    same :
        {n : ℕ}
        → Kept s p (record (with_sock s (retired_poll p.wake.closing) p) { pending_poll_count = n })
    same = record {
      interest_eq = ap (λ r. r.interest) own;
      generation_eq = ap (λ r. r.generation) own;
      rearm_eq = refl;
      fired_eq = refl;
    }

cancel_locked-Calms : (a : Answers) (s : ℕ) (p : PortState) → Calms s p (cancel_locked a s p)
unfolding cancel_locked
cancel_locked-Calms a s p =
    either (Calms s p) (not (is_pending (p.sock s).poll_status)) _ _
      (Runs-Calms s p _ (ok, (p, (refl, unmoved s ok p p.err))))
      (either (Calms s p) (is_socket (p.sock s).kind) _ _ (Runs-Calms s p _ (cancels_afd a s p))
        (by_disarm a.disarm_error))
  where
    by_disarm :
        (error : Option (ErrorState → ErrorState))
        → Calms s p (elim error [
          | some e ↦ some (failed, with_sock s joined (record p { err = e p.err }))
          | none ↦ disarmed a.posted s p
        ])
    by_disarm (some e) = Runs-Calms s p _ (joins s p (e p.err))
    by_disarm none = disarmed-Calms a.posted s p

pub cancelling-Kept : (a : Answers) (s : ℕ) (p : PortState) → Kept s p (cancelling a s p).1
cancelling-Kept a s p = (cancel_locked-Calms a s p).kept

pub cancelling-next :
    (a : Answers) (s : ℕ) (p : PortState)
    → (cancelling a s p).1.next_sock_generation ≡ p.next_sock_generation
cancelling-next a s p = (cancel_locked-Calms a s p).next_eq

pub cancelling-Linked :
    (a : Answers) (n s : ℕ) (p : PortState)
    → Linked n p.worklists
    → Linked n (cancelling a s p).1.worklists
cancelling-Linked a n s p v = subst (λ l. Linked n l) (sym (cancel_locked-Calms a s p).lists_eq) v

-- The disarm joins the callback, which has posted no packet, or the cancellation wins.
abbrev pub joined_callback : Answers
joined_callback = record { disarm_error = none; posted = false; afd_error = none; afd_won = true }
