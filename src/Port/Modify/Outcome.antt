-- ===== src/Port/Modify/Outcome.antt =====
-- What a modification of src/wepoll_ex_port.c promises of the state it leaves, and what it relies on.
use wepoll_ex.Prelude.{ℕ, zero, suc, ◌≡◌, ◌⊎◌, inl, inr, refl, ◌∙◌, subst, Option, some}
use wepoll_ex.Status.{Status, ok, failed}
use wepoll_ex.Port.Wake.{PostOutcome, WakePort, post_iocp, fail_iocp_post}
use wepoll_ex.Port.State.{
  Registration, PortState, PortKernel, submitted, withdrawn, next_generation,
}
use wepoll_ex.Port.Modify.{Wish}
use wepoll_ex.Port.Modify.Lists.{Linked}

-- Nothing of what the caller asked for is lost between two states, nor its deferred work.
pub record Kept (s : ℕ) (p q : PortState) : Type 0 where
  pub interest_eq : (q.sock s).interest ≡ (p.sock s).interest
  pub generation_eq : (q.sock s).generation ≡ (p.sock s).generation
  pub rearm_eq : q.worklists.rearm.flag s ≡ p.worklists.rearm.flag s
  pub fired_eq : q.worklists.oneshot.flag s ≡ p.worklists.oneshot.flag s

-- A registration answers to a request.
pub record Answers (w : Wish) (generation : ℕ) (r : Registration) : Type 0 where
  pub events_eq : r.interest.user_events ≡ w.events
  pub flags_eq : r.interest.user_flags ≡ w.flags
  pub data_eq : r.interest.user_data ≡ w.user_data
  pub ctx_eq : r.interest.user_ctx ≡ w.user_ctx
  pub generation_eq : r.generation ≡ generation

-- What the rest of the port promises: a cancellation leaves the request and the deferred work alone, the
-- allocation of a node touches neither sockets nor lists, a submission keeps the request.
pub record Lawful (k : PortKernel) : Type 0 where
  pub cancel_keeps : (s : ℕ) (p : PortState) → Kept s p (k.cancel s p).1
  pub cancel_next :
      (s : ℕ) (p : PortState) → (k.cancel s p).1.next_sock_generation ≡ p.next_sock_generation
  pub cancel_lists :
      (n s : ℕ) (p : PortState) → Linked n p.worklists → Linked n (k.cancel s p).1.worklists
  pub take_socks : (p : PortState) → (k.take_node p).1.sock ≡ p.sock
  pub take_lists : (p : PortState) → (k.take_node p).1.worklists ≡ p.worklists
  pub take_next : (p : PortState) → (k.take_node p).1.next_sock_generation ≡ p.next_sock_generation
  pub submit_keeps :
      (w : Wish) (g s : ℕ) (p : PortState)
      → (k.submit s p).0 ≡ submitted
      → Answers w g (p.sock s)
      → Answers w g ((k.submit s p).1.sock s)
  pub submit_lists :
      (n s : ℕ) (p : PortState) → Linked (suc n) p.worklists → Linked n (k.submit s p).1.worklists

-- `q` is the state that a submission which retired the registration left, but for errno.
pub record Withdrawn (k : PortKernel) (s : ℕ) (q : PortState) : Type 0 where
  pub from : PortState
  pub answer : (k.submit s from).0 ≡ withdrawn
  pub socks_eq : q.sock ≡ (k.submit s from).1.sock
  pub table_eq : q.table ≡ (k.submit s from).1.table

-- `q` is the state that a refused post left: the port shut itself down with the error of the post.
pub record PostFailed (o : PostOutcome) (q : PortState) : Type 0 where
  pub before : WakePort
  pub code : ℕ
  pub refused : (post_iocp o before).0 ≡ some code
  pub wake_eq : q.wake ≡ (fail_iocp_post code (post_iocp o before).1).1

-- `p` is the state before the request, `q` the one after it.
pub record Outcome (k : PortKernel) (o : PostOutcome) (s : ℕ) (w : Wish) (p : PortState)
    (status : Status) (q : PortState) : Type 0 where
  pub linked : Linked zero q.worklists
  pub ended :
      ((status ≡ failed)
        × (Kept s p q
            ⊎ (Withdrawn k s q
                ⊎ (Answers w (next_generation p.next_sock_generation) (q.sock s)
                    × PostFailed o q))))
      ⊎ ((status ≡ ok) × Answers w (next_generation p.next_sock_generation) (q.sock s))

pub self_Kept : (s : ℕ) (p : PortState) → Kept s p p
self_Kept s p = record {
  interest_eq = refl;
  generation_eq = refl;
  rearm_eq = refl;
  fired_eq = refl;
}

pub trans_Kept : (s : ℕ) (p q r : PortState) → Kept s p q → Kept s q r → Kept s p r
trans_Kept s p q r a b = record {
  interest_eq = b.interest_eq ∙ a.interest_eq;
  generation_eq = b.generation_eq ∙ a.generation_eq;
  rearm_eq = b.rearm_eq ∙ a.rearm_eq;
  fired_eq = b.fired_eq ∙ a.fired_eq;
}

pub failed_Outcome :
    (k : PortKernel) (o : PostOutcome) (s : ℕ) (w : Wish) (p q : PortState)
    → Linked zero q.worklists
    → Kept s p q
    → Outcome k o s w p failed q
failed_Outcome k o s w p q v kept = record { linked = v; ended = inl (refl, inl kept) }

-- An outcome seen from an earlier state that promises the same.
pub rebase :
    (k : PortKernel) (o : PostOutcome) (s : ℕ) (w : Wish) (p q r : PortState) (status : Status)
    → Kept s p q
    → q.next_sock_generation ≡ p.next_sock_generation
    → Outcome k o s w q status r
    → Outcome k o s w p status r
rebase k o s w p q r status kept next v = record {
  linked = v.linked;
  ended = elim v.ended [
    | inl (e, inl same) ↦ inl (e, inl (trans_Kept s p q r kept same))
    | inl (e, inr (inl gone)) ↦ inl (e, inr (inl gone))
    | inl (e, inr (inr (answers, refused))) ↦ inl (e, inr (inr (renumber answers, refused)))
    | inr (e, answers) ↦ inr (e, renumber answers)
  ];
}
  where
    renumber :
        Answers w (next_generation q.next_sock_generation) (r.sock s)
        → Answers w (next_generation p.next_sock_generation) (r.sock s)
    renumber answers = subst (λ n. Answers w (next_generation n) (r.sock s)) next answers

pub ok_Outcome :
    (k : PortKernel) (o : PostOutcome) (s : ℕ) (w : Wish) (p q : PortState)
    → Linked zero q.worklists
    → Answers w (next_generation p.next_sock_generation) (q.sock s)
    → Outcome k o s w p ok q
ok_Outcome k o s w p q v answers = record { linked = v; ended = inr (refl, answers) }

-- A call that answers, and leaves what its answer promises.
abbrev pub Runs :
    (k : PortKernel) (o : PostOutcome) (s : ℕ) (w : Wish) (p : PortState)
    → Option (Status × PortState)
    → Type 0
Runs k o s w p x =
    (status : Status) × ((q : PortState) × ((x ≡ some (status, q)) × Outcome k o s w p status q))
