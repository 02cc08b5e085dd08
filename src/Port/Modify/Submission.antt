-- ===== src/Port/Modify/Submission.antt =====
-- `ep_port_modify` of src/wepoll_ex_port.c from the submission of the poll on.
use wepoll_ex.Prelude.{
  either, ℕ, zero, suc, ◌≡◌, ◌≢◌, inl, inr, refl, ap, Bool, true, false, ◌&&◌, not, Option-cases,
  some,
}
use wepoll_ex.Status.{failed}
use wepoll_ex.Errno.State.{get_last_error_info, restore_last_error_info}
use wepoll_ex.Port.Wake.{PostOutcome, post_iocp}
use wepoll_ex.Port.State.{
  PortState, PortKernel, is_idle, Submitted, submitted, withdrawn, submit_failed, next_generation,
  with_sock,
}
use wepoll_ex.Port.Modify.{
  Wish, goes_dormant, rolled_back, roll_back, finish, answered, submit_request,
}
use wepoll_ex.Port.Modify.Lists.{Linked, loosen, restore-Linked}
use wepoll_ex.Port.Modify.Effect.{own_sock}
use wepoll_ex.Port.Modify.Outcome.{Answers, Lawful, Outcome, failed_Outcome, ok_Outcome, Runs}

finish-Outcome :
    (k : PortKernel) (o : PostOutcome) (s : ℕ) (w : Wish) (wakes : Bool) (p q : PortState)
    → Linked zero q.worklists
    → Answers w (next_generation p.next_sock_generation) (q.sock s)
    → Outcome k o s w p (finish o wakes q).0 (finish o wakes q).1
unfolding finish
finish-Outcome k o s w false p q v answers = ok_Outcome k o s w p _ v answers
finish-Outcome k o s w true p q v answers = elim (Option-cases (post_iocp o q.wake).0) [
  | inl posted ↦ rw posted (ok_Outcome k o s w p _ v answers)
  | inr (code, refused) ↦ rw refused (record {
    linked = v;
    ended = inl (
      refl,
      inr (
          inr
            (answers, record { before = q.wake; code = code; refused = refused; wake_eq = refl })),
    );
  })
]

-- The registration is as it was, and so are its flags.
roll_back-Outcome :
    (k : PortKernel) (o : PostOutcome) (n s : ℕ) (w : Wish) (old now : PortState)
    → Linked (suc n) now.worklists
    → s ≢ 0
    → (old.worklists.rearm.flag s && old.worklists.oneshot.flag s) ≡ false
    → (q : PortState) × ((roll_back s old now ≡ some (failed, q)) × Outcome k o s w old failed q)
unfolding roll_back
roll_back-Outcome k o n s w old now v nz one =
    let (lists, (runs, linked, rearm, fired)) =
      restore-Linked n s (old.worklists.rearm.flag s) (old.worklists.oneshot.flag s) now.worklists v
        nz one in
    let q : PortState = with_sock s (rolled_back (old.sock s)) (record now {
      worklists = lists;
      err = restore_last_error_info (get_last_error_info now.err) now.err;
    }) in
    let same : q.sock s ≡ rolled_back (old.sock s) (now.sock s) =
      own_sock s (λ t. rolled_back (old.sock s) (now.sock t)) now.sock in
    (
      q,
      (
        rw (roll_back, runs) refl,
        failed_Outcome k o s w old q linked (record {
          interest_eq = ap (λ r. r.interest) same;
          generation_eq = ap (λ r. r.generation) same;
          rearm_eq = rearm;
          fired_eq = fired;
        }),
      ),
    )

answered-Outcome :
    (k : PortKernel) (o : PostOutcome) (n s : ℕ) (w : Wish) (old p : PortState) (answer : Submitted)
    → Lawful k
    → Linked (suc (suc n)) p.worklists
    → s ≢ 0
    → (old.worklists.rearm.flag s && old.worklists.oneshot.flag s) ≡ false
    → Answers w (next_generation old.next_sock_generation) (p.sock s)
    → (k.submit s p).0 ≡ answer
    → Runs k o s w old (answered o s old answer (k.submit s p).1)
unfolding answered
answered-Outcome k o n s w old p submitted law v nz one answers e = (
  _,
  (
    _,
    (
      refl,
      finish-Outcome k o s w _ old (k.submit s p).1
          (loosen (suc n) _ (law.submit_lists (suc n) s p v)) (law.submit_keeps w _ s p e answers),
    ),
  ),
)
answered-Outcome k o n s w old p withdrawn law v nz one answers e = (
  failed,
  (
    _,
    (
      refl,
      record {
        linked = loosen (suc n) _ (law.submit_lists (suc n) s p v);
        ended =
            inl
              (refl, inr (inl (record { from = p; answer = e; socks_eq = refl; table_eq = refl })));
      },
    ),
  ),
)
answered-Outcome k o n s w old p submit_failed law v nz one answers e =
    let (q, (runs, done)) =
      roll_back-Outcome k o n s w old (k.submit s p).1 (law.submit_lists (suc n) s p v) nz one in
    (failed, (q, (runs, done)))

pub submit_request-Outcome :
    (k : PortKernel) (o : PostOutcome) (n s : ℕ) (w : Wish) (old p : PortState)
    → Lawful k
    → Linked (suc (suc n)) p.worklists
    → s ≢ 0
    → (old.worklists.rearm.flag s && old.worklists.oneshot.flag s) ≡ false
    → Answers w (next_generation old.next_sock_generation) (p.sock s)
    → Runs k o s w old (submit_request k o s w old p)
unfolding submit_request
submit_request-Outcome k o n s w old p law v nz one answers =
    either (Runs k o s w old)
      (not (goes_dormant w (p.sock s))
        && is_idle (p.sock s).poll_status
        && p.waiter_active
        && not p.waiter_coalescing)
      (answered o s old (k.submit s p).0 (k.submit s p).1) (some (finish o false p))
      (answered-Outcome k o n s w old p (k.submit s p).0 law v nz one answers refl)
      (_, (_, (refl, finish-Outcome k o s w false old p (loosen (suc (suc n)) _ v) answers)))
