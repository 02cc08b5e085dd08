-- ===== src/Port/Retire/Flags.antt =====
-- The steps that end a registration of src/wepoll_ex_port.c never fail an assertion.
use wepoll_ex.Prelude.{
  ℕ, zero, suc, ◌≡◌, ◌≢◌, refl, ap, ◌∙◌, true, false, arith, List, Bool-cases, inl, inr, some, has,
  Distinct, erase, has-erase_distinct,
}
use wepoll_ex.Bits.Masks.{meets}
use wepoll_ex.Port.Worklist.{Worklists}
use wepoll_ex.Port.Exclusive.{Claims, claims_any, unlink, release_owner}
use wepoll_ex.Port.State.{PortState, is_idle, epollexclusive, with_sock}
use wepoll_ex.Port.Modify.Lists.{Linked, loosen, set_needs_rearm-Linked, set_oneshot_fired-Linked}
use wepoll_ex.Port.Modify.Effect.{own_sock}
use wepoll_ex.Port.Retire.{
  clear_rearm, clear_oneshot, release_claims, forgotten, free_sock, free_if_idle, releasable,
  endable,
}

pub clear_rearm-some :
    (n s : ℕ) (p : PortState)
    → Linked (suc n) p.worklists
    → s ≢ 0
    → (l : Worklists) × ((clear_rearm s p ≡ some (record p { worklists = l }))
        × Linked n l
        × (l.rearm.flag s ≡ false)
        × (l.oneshot.flag s ≡ p.worklists.oneshot.flag s))
unfolding clear_rearm
clear_rearm-some n s p v nz =
    let (l, (runs, linked, off, same)) = set_needs_rearm-Linked n s false p.worklists v nz refl in
    (l, (rw (clear_rearm, runs) refl, linked, off, same))

pub clear_oneshot-some :
    (n s : ℕ) (p : PortState)
    → Linked (suc n) p.worklists
    → s ≢ 0
    → (l : Worklists) × ((clear_oneshot s p ≡ some (record p { worklists = l }))
        × Linked n l
        × (l.oneshot.flag s ≡ false)
        × (l.rearm.flag s ≡ p.worklists.rearm.flag s))
unfolding clear_oneshot
clear_oneshot-some n s p v nz =
    let (l, (runs, linked, off, same)) = set_oneshot_fired-Linked n s false p.worklists v nz refl in
    (l, (rw (clear_oneshot, runs) refl, linked, off, same))

unlink-free : (s : ℕ) (c : Claims) → claims_any (unlink s c) s ≡ false
unfolding unlink
unlink-free s c = ground arith

pub release_claims-free :
    (s : ℕ) (p : PortState)
    → meets (p.sock s).interest.user_flags epollexclusive ≡ true
    → claims_any (release_claims s p).claims s ≡ false
unfolding release_claims release_owner
release_claims-free s p e = rw e (unlink-free s p.claims)

-- What the release of the storage, if the poll is idle, leaves of a registration that is gone.
pub record Released (s : ℕ) (p q : PortState) : Type 0 where
  pub linked : Linked zero q.worklists
  pub table_eq : q.table ≡ p.table
  pub rearm_flag : p.worklists.rearm.flag s ≡ false → q.worklists.rearm.flag s ≡ false
  pub fired_flag : p.worklists.oneshot.flag s ≡ false → q.worklists.oneshot.flag s ≡ false
  pub delete_eq : (q.sock s).delete_pending ≡ (p.sock s).delete_pending
  pub generation_eq : (q.sock s).generation ≡ (p.sock s).generation
  pub poll_eq : (q.sock s).poll_status ≡ (p.sock s).poll_status
  pub unclaimed : claims_any p.claims s ≡ false → claims_any q.claims s ≡ false
  pub gone : is_idle (p.sock s).poll_status ≡ true → has s q.socks ≡ false
  pub stays : is_idle (p.sock s).poll_status ≡ false → q.socks ≡ p.socks

released_claims :
    (s : ℕ) (p : PortState)
    → claims_any p.claims s ≡ false
    → claims_any (release_claims s p).claims s ≡ false
unfolding release_claims release_owner
released_claims s p e = ground (arith, e, unlink-free s p.claims)

pub free_sock-Released :
    (n s : ℕ) (p : PortState)
    → Linked (suc (suc n)) p.worklists
    → Distinct p.socks
    → s ≢ 0
    → is_idle (p.sock s).poll_status ≡ true
    → releasable (p.sock s) ≡ true
    → (q : PortState) × ((free_sock s p ≡ some q) × Released s p q)
unfolding free_sock release_claims
free_sock-Released n s p v d nz idle fit =
    let (l1, (a, v1, off1, same1)) = clear_rearm-some (suc n) s p v nz in
    let (l2, (b, v2, off2, same2)) = clear_oneshot-some n s (record p { worklists = l1 }) v1 nz in
    let q = release_claims s (record p { worklists = l2 }) in
    let same : (with_sock s forgotten (record q { socks = erase s q.socks })).sock s
        ≡ forgotten (p.sock s) =
      own_sock s (λ t. forgotten (p.sock t)) p.sock in
    (
      with_sock s forgotten (record q { socks = erase s q.socks }),
      (
        rw (free_sock, fit, a, b) refl,
        record {
          linked = loosen n l2 v2;
          table_eq = refl;
          rearm_flag = λ e. same2 ∙ off1;
          fired_flag = λ e. off2;
          delete_eq = ap (λ r. r.delete_pending) same;
          generation_eq = ap (λ r. r.generation) same;
          poll_eq = ap (λ r. r.poll_status) same;
          unclaimed = released_claims s p;
          gone = λ e. erased s p.socks d;
          stays = λ e. absurd (ground (arith, e, idle));
        },
      ),
    )
  where
    erased : (s : ℕ) (xs : List ℕ) → Distinct xs → has s (erase s xs) ≡ false
    erased s xs d = ground (arith, has-erase_distinct s s xs d)

-- The storage of a registration is released exactly if no poll of it is pending.
pub free_if_idle-Released :
    (n s : ℕ) (p : PortState)
    → Linked (suc (suc n)) p.worklists
    → Distinct p.socks
    → s ≢ 0
    → endable (p.sock s) ≡ true
    → (q : PortState) × ((free_if_idle s p ≡ some q) × Released s p q)
free_if_idle-Released n s p v d nz fit = elim (Bool-cases (is_idle (p.sock s).poll_status)) [
  | inl idle ↦
      let (q, (runs, done)) = free_sock-Released n s p v d nz idle (ground (arith, fit, idle)) in
      (q, (rw (idle) runs, done))
  | inr busy ↦ (
    p,
    (
      rw (busy) refl,
      record {
        linked = loosen (suc (suc n)) p.worklists v;
        table_eq = refl;
        rearm_flag = λ e. e;
        fired_flag = λ e. e;
        delete_eq = refl;
        generation_eq = refl;
        poll_eq = refl;
        unclaimed = λ e. e;
        gone = λ e. absurd (ground (arith, e, busy));
        stays = λ e. refl;
      },
    ),
  )
]
