-- ===== src/Port/Cancel.antt =====
-- `ep_sock_cancel_locked` of src/wepoll_ex_port.c, which withdraws the poll of a registration.
pub mod Kernel
mod Examples
use wepoll_ex.Prelude.{
  ℕ, ◌+◌, ◌-◌, ◌≡◌, ◌≢◌, refl, ◌∙◌, ap, Bool, true, false, not, ◌&&◌, ◌||◌, ◌==◌, if◌then◌else◌,
  Option, none, some, arith, ℕ_discrete,
}
use wepoll_ex.Status.{Status, ok, failed}
use wepoll_ex.Errno.State.{ErrorState}
use wepoll_ex.Port.State.{
  Registration, PortState, PollStatus, idle, pending, cancelled, registered, is_pending, is_idle,
  is_socket, with_sock,
}
use wepoll_ex.Port.Modify.Effect.{own_sock}
use wepoll_ex.Port.Modify.Outcome.{Kept}

-- What the system answers: the error that a failed disarm of a wait or a timer leaves; whether a callback
-- posted its packet before the disarm; the error of a failed `ep_afd_cancel`, and else whether it won
-- over the completion.
pub record Answers : Type 0 where
  pub disarm_error : Option (ErrorState → ErrorState)
  pub posted : Bool
  pub afd_error : Option (ErrorState → ErrorState)
  pub afd_won : Bool

-- Of a socket.
abbrev pub withdrawn_poll : (won : Bool) → Registration → Registration
withdrawn_poll won r = record r {
  pending_events = 0;
  poll_status = if won then cancelled else r.poll_status;
}

unfoldable pub cancel_afd : Answers → (sock : ℕ) → PortState → Status × PortState
cancel_afd a s p = elim a.afd_error [
  | some error ↦ (failed, record p { err = error p.err })
  | none ↦ (ok, with_sock s (withdrawn_poll a.afd_won) p)
]

-- Of a waitable or a pipe, after the disarm: its packet is queued, or nobody outside refers to it.
abbrev pub posted_poll : Registration → Registration
posted_poll r = record r {
  pending_events = 0;
  wait_registration = false;
  callback_active = false;
  completion_posted = true;
  poll_status = cancelled;
}

abbrev pub retired_poll : (closing : Bool) → Registration → Registration
retired_poll closing r = record r {
  pending_events = 0;
  wait_registration = false;
  callback_active = false;
  completion_posted = false;
  poll_status = idle;
  state = if not r.delete_pending && not closing then registered else r.state;
}

-- `none` is the failed assertion of `ep_sock_complete_pending_locked`.
unfoldable pub disarmed : (posted : Bool) → (sock : ℕ) → PortState → Option (Status × PortState)
disarmed posted s p =
    if posted
    then some (ok, with_sock s posted_poll p)
    else if p.pending_poll_count == 0
    then none
    else some (
      ok,
      record (with_sock s (retired_poll p.wake.closing) p) {
        pending_poll_count = p.pending_poll_count - 1;
      },
    )

-- Also a failed disarm waits until no callback runs.
abbrev pub joined : Registration → Registration
joined r = record r { callback_active = false }

unfoldable pub cancel_locked : Answers → (sock : ℕ) → PortState → Option (Status × PortState)
cancel_locked a s p =
    if not (is_pending (p.sock s).poll_status)
    then some (ok, p)
    else if is_socket (p.sock s).kind
    then some (cancel_afd a s p)
    else elim a.disarm_error [
      | some error ↦ some (failed, with_sock s joined (record p { err = error p.err }))
      | none ↦ disarmed a.posted s p
    ]

-- A cancellation keeps the caller's request, the deferred work and all other registrations, and the count of
-- pending polls goes down by one exactly if the poll of the registration goes from pending to idle.
pub record Cancelled (s : ℕ) (p : PortState) (status : Status) (q : PortState) : Type 0 where
  pub kept : Kept s p q
  pub lists_eq : q.worklists ≡ p.worklists
  pub next_eq : q.next_sock_generation ≡ p.next_sock_generation
  pub others : (t : ℕ) → t ≢ s → q.sock t ≡ p.sock t
  pub balance :
      q.pending_poll_count
        + (if is_pending (p.sock s).poll_status && is_idle (q.sock s).poll_status then 1 else 0)
      ≡ p.pending_poll_count

abbrev pub Runs : (s : ℕ) (p : PortState) → Option (Status × PortState) → Type 0
Runs s p x =
    (status : Status) × ((q : PortState) × ((x ≡ some (status, q)) × Cancelled s p status q))

pub unmoved :
    (s : ℕ) (status : Status) (p : PortState) (err : ErrorState)
    → Cancelled s p status (record p { err = err })
unmoved s status p err = record {
  kept = record { interest_eq = refl; generation_eq = refl; rearm_eq = refl; fired_eq = refl };
  lists_eq = refl;
  next_eq = refl;
  others = λ t h. refl;
  balance = both_not (p.sock s).poll_status;
}
  where
    both_not :
        (x : PollStatus)
        → p.pending_poll_count + (if is_pending x && is_idle x then 1 else 0) ≡ p.pending_poll_count
    both_not idle = omega arith
    both_not pending = omega arith
    both_not cancelled = omega arith

-- One registration changes, and not in what the caller asked for.
changed :
    (s n : ℕ) (f : Registration → Registration) (p : PortState)
    → ((r : Registration) → (f r).interest ≡ r.interest)
    → ((r : Registration) → (f r).generation ≡ r.generation)
    → (n
          + (if is_pending (p.sock s).poll_status && is_idle (f (p.sock s)).poll_status
              then 1
              else 0)
        ≡ p.pending_poll_count)
    → Cancelled s p ok (record (with_sock s f p) { pending_poll_count = n })
changed s n f p same_interest same_generation balance = record {
  kept = record {
    interest_eq = ap (λ r. r.interest) own ∙ same_interest (p.sock s);
    generation_eq = ap (λ r. r.generation) own ∙ same_generation (p.sock s);
    rearm_eq = refl;
    fired_eq = refl;
  };
  lists_eq = refl;
  next_eq = refl;
  others = λ t h. ground (arith, h);
  balance =
      ap
        (λ (r : Registration).
          n + (if is_pending (p.sock s).poll_status && is_idle r.poll_status then 1 else 0))
        own
      ∙ balance;
}
  where
    own : (with_sock s f p).sock s ≡ f (p.sock s)
    own = own_sock s (λ t. f (p.sock t)) p.sock

pub cancels_afd : (a : Answers) (s : ℕ) (p : PortState) → Runs s p (some (cancel_afd a s p))
unfolding cancel_afd
cancels_afd a s p = by_error a.afd_error
  where
    never_idle :
        (won : Bool) (x : PollStatus)
        → p.pending_poll_count
            + (if is_pending x && is_idle (if won then cancelled else x) then 1 else 0)
          ≡ p.pending_poll_count
    never_idle true idle = omega arith
    never_idle true pending = omega arith
    never_idle true cancelled = omega arith
    never_idle false idle = omega arith
    never_idle false pending = omega arith
    never_idle false cancelled = omega arith

    by_error :
        (error : Option (ErrorState → ErrorState))
        → Runs s p (
            some (elim error [
              | some e ↦ (failed, record p { err = e p.err })
              | none ↦ (ok, with_sock s (withdrawn_poll a.afd_won) p)
            ]))
    by_error (some e) = (failed, (_, (refl, unmoved s failed p (e p.err))))
    by_error none = (
      ok,
      (
        _,
        (
          refl,
          changed s p.pending_poll_count (withdrawn_poll a.afd_won) p (λ r. refl) (λ r. refl)
              (never_idle a.afd_won (p.sock s).poll_status),
        ),
      ),
    )

pub joins :
    (s : ℕ) (p : PortState) (err : ErrorState)
    → Runs s p (some (failed, with_sock s joined (record p { err = err })))
joins s p err =
    let same = unmoved s failed p err in
    let own : (with_sock s joined p).sock s ≡ joined (p.sock s) =
      own_sock s (λ t. joined (p.sock t)) p.sock in
    (
      failed,
      (
        _,
        (
          refl,
          record {
            kept = record {
              interest_eq = ap (λ r. r.interest) own;
              generation_eq = ap (λ r. r.generation) own;
              rearm_eq = refl;
              fired_eq = refl;
            };
            lists_eq = refl;
            next_eq = refl;
            others = λ t h. ground (arith, h);
            balance =
                ap
                  (λ (r : Registration).
                    p.pending_poll_count
                    + (if is_pending (p.sock s).poll_status && is_idle r.poll_status then 1 else 0))
                  own
                ∙ same.balance;
          },
        ),
      ),
    )

pub disarms_posted : (s : ℕ) (p : PortState) → Runs s p (disarmed true s p)
unfolding disarmed
disarms_posted s p = (
  ok,
  (_, (refl, changed s p.pending_poll_count posted_poll p (λ r. refl) (λ r. refl) (ground arith))),
)
