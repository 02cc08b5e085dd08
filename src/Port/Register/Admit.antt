-- ===== src/Port/Register/Admit.antt =====
-- EPOLL_CTL_ADD of src/wepoll_ex_port.c with an allocated registration.
use wepoll_ex.Prelude.{
  ℕ, suc, ◌≡◌, ◌≢◌, ◌⊎◌, refl, sym, ap, ◌∙◌, subst, Bool, true, false, ◌==◌, if◌then◌else◌, either,
  inl, inr, Option, none, some, ◌∷◌, Distinct, arith, ℕ_discrete,
}
use wepoll_ex.Status.{Status, ok, failed}
use wepoll_ex.Errno.Codes.{enomem}
use wepoll_ex.Errno.State.{ErrorState, set_errno}
use wepoll_ex.Port.FdTable.{Sock, FdTable, lookup, insert}
use wepoll_ex.Port.FdTable.Place.{IsNew}
use wepoll_ex.Port.FdTable.Insert.{WellFormed, Inserted, insert-Inserted}
use wepoll_ex.Port.Worklist.{Worklists, set_needs_rearm}
use wepoll_ex.Port.State.{
  PortState, PortKernel, Submitted, is_idle, submitted, withdrawn, submit_failed, refuse_with,
  with_sock,
}
use wepoll_ex.Port.Modify.{Wish, goes_dormant}
use wepoll_ex.Port.Modify.Lists.{Linked, weaken, set_needs_rearm-Linked}
use wepoll_ex.Port.Modify.Effect.{own_sock}
use wepoll_ex.Port.Retire.{releasable}
use wepoll_ex.Port.Register.{
  requested, unsuited, submits_now, submitted_first, link_and_submit, admit, keep_error,
}
use wepoll_ex.Port.Register.Undone.{IsFree, submitted_first-Undone}

-- The registration `s` as its allocation left it: no poll is pending, nobody outside refers to it.
pub record IsFresh (s : Sock) (p : PortState) : Type 0 where
  pub number : (p.sock s.addr).fd ≡ s.fd
  pub idle : is_idle (p.sock s.addr).poll_status ≡ true
  pub fit : releasable (p.sock s.addr) ≡ true

-- What the first submission of a fresh registration that is in the table does to the port: an answer of
-- `withdrawn` comes after the registration was dropped, the others leave the table; after a failure the
-- storage can be released.
pub record Gentle (k : PortKernel) (s : Sock) : Type 0 where
  pub dropped :
      (p : PortState)
      → IsFresh s p
      → lookup s.fd p.table ≡ some s
      → (k.submit s.addr p).0 ≡ withdrawn
      → (fd : ℕ)
      → lookup fd (k.submit s.addr p).1.table ≡ (if s.fd == fd then none else lookup fd p.table)
  pub table_eq :
      (p : PortState)
      → IsFresh s p
      → ((k.submit s.addr p).0 ≡ submitted) ⊎ ((k.submit s.addr p).0 ≡ submit_failed)
      → (k.submit s.addr p).1.table ≡ p.table
  pub socks_eq :
      (p : PortState)
      → IsFresh s p
      → (k.submit s.addr p).0 ≡ submit_failed
      → (k.submit s.addr p).1.socks ≡ p.socks
  pub lists :
      (n : ℕ) (p : PortState)
      → IsFresh s p
      → Linked (suc n) p.worklists
      → Linked n (k.submit s.addr p).1.worklists
  pub fresh :
      (p : PortState)
      → IsFresh s p
      → (k.submit s.addr p).0 ≡ submit_failed
      → IsFresh s (k.submit s.addr p).1

-- A call succeeds and the table has the registration, or it fails and the table is as `before`.
abbrev pub EndsIn : (s : Sock) (before : FdTable) → Option (Status × PortState) → Type 0
EndsIn s before x =
    (q : PortState) × (((x ≡ some (ok, q))
        × ((fd : ℕ) → lookup fd q.table ≡ (if s.fd == fd then some s else lookup fd before)))
      ⊎ ((x ≡ some (failed, q)) × ((fd : ℕ) → lookup fd q.table ≡ lookup fd before)))

ends_failed :
    (s : Sock) (before : FdTable) (q : PortState)
    → ((fd : ℕ) → lookup fd q.table ≡ lookup fd before)
    → EndsIn s before (some (failed, q))
ends_failed s before q same = (q, inr (refl, same))

-- A registration that was put in and dropped leaves the lookups of before.
as_before :
    (s : Sock) (before : FdTable) (fd : ℕ) (found : Option Sock)
    → IsFree s before
    → found ≡ (if s.fd == fd then some s else lookup fd before)
    → (if s.fd == fd then none else found) ≡ lookup fd before
as_before s before fd found free e = elim (ℕ_discrete s.fd fd) [
  | yes own ↦ ground (arith, own) ∙ sym free.no_number ∙ ap (λ n. lookup n before) own
  | no other ↦ ground (arith, other) ∙ e ∙ ground (arith, other)
]

first_answer :
    (k : PortKernel) (s : Sock) (before : FdTable) (p : PortState) (answer : Submitted)
    → Gentle k s
    → Inserted s before p.table
    → IsFree s before
    → IsFresh s p
    → Linked 3 p.worklists
    → Distinct p.socks
    → s.addr ≢ 0
    → (k.submit s.addr p).0 ≡ answer
    → EndsIn s before (submitted_first s answer (k.submit s.addr p).1)
unfolding submitted_first
first_answer k s before p submitted law i free fresh v d nz e =
    (_, inl (refl, λ fd. ap (lookup fd) (law.table_eq p fresh (inl e)) ∙ i.lookups fd))
first_answer k s before p withdrawn law i free fresh v d nz e =
    ends_failed s before (keep_error (k.submit s.addr p).1) (λ fd.
      law.dropped p fresh (i.lookups s.fd ∙ ground arith) e fd
      ∙ as_before s before fd (lookup fd p.table) free (i.lookups fd))
first_answer k s before p submit_failed law i free fresh v d nz e =
    let left = law.fresh p fresh e in
    let (r, (runs, undone)) =
      submitted_first-Undone s before (k.submit s.addr p).1
        (subst (λ t. Inserted s before t) (sym (law.table_eq p fresh (inr e))) i) free
        (law.lists 2 p fresh v) (subst (λ xs. Distinct xs) (sym (law.socks_eq p fresh e)) d) nz
        left.idle left.fit in
    (r, inr (runs, undone.lookups))

deferred :
    (dormant : Bool) (s : ℕ) (p : Worklists)
    → Linked 4 p
    → s ≢ 0
    → p.oneshot.flag s ≡ false
    → (l : Worklists) × (((if dormant then some p else set_needs_rearm s true p) ≡ some l)
        × Linked 3 l)
deferred true s p v nz off = (p, (refl, weaken 3 p v))
deferred false s p v nz off =
    let (l, (runs, linked, flag, same)) = set_needs_rearm-Linked 3 s true p v nz off in
    (l, (runs, linked))

links :
    (k : PortKernel) (s : Sock) (w : Wish) (before : FdTable) (p : PortState)
    → Gentle k s
    → Inserted s before p.table
    → IsFree s before
    → IsFresh s p
    → Linked 4 p.worklists
    → Distinct (s.addr ∷ p.socks)
    → p.worklists.oneshot.flag s.addr ≡ false
    → s.addr ≢ 0
    → EndsIn s before (link_and_submit k s w p)
unfolding link_and_submit submitted_first
links k s w before p law i free fresh v d off nz =
    let r = p.sock s.addr in
    let (l, (runs, linked)) = deferred (goes_dormant w r) s.addr p.worklists v nz off in
    let q = record p { socks = s.addr ∷ p.socks; worklists = l } in
    rw (link_and_submit, runs)
      (either (EndsIn s before) (submits_now w r q)
        (submitted_first s (k.submit s.addr q).0 (k.submit s.addr q).1)
        (submitted_first s submitted q)
        (first_answer k s before q (k.submit s.addr q).0 law i free
          (record { number = fresh.number; idle = fresh.idle; fit = fresh.fit }) linked d nz refl)
        (_, inl (refl, i.lookups)))

-- The submission of a poll is a parameter with the laws of `Gentle`. ADD with a fresh registration at a
-- free address, on a well-formed table and well-formed lists with room, then fails no assertion of its
-- own, of the operations on the table and the lists or of the release of the storage, where those on
-- groups of AFD polls are left out. If it succeeds, lookups of its number find it and all others answer as
-- before; if it fails, by a refusal, for want of memory, by its first submission or because that dropped
-- the registration, all lookups answer as before.
pub admit-EndsIn :
    (k : PortKernel) (granted : Bool) (s : Sock) (w : Wish) (p : PortState)
    → Gentle k s
    → WellFormed p.table
    → IsNew s p.table.slots
    → IsFree s p.table
    → IsFresh s p
    → Linked 4 p.worklists
    → Distinct (s.addr ∷ p.socks)
    → p.worklists.oneshot.flag s.addr ≡ false
    → s.addr ≢ 0
    → EndsIn s p.table (admit k granted s w p)
unfolding admit
admit-EndsIn k granted s w p law well new free fresh v d off nz =
    by_error (unsuited p.explicit_rearm w (p.sock s.addr))
  where
    q : PortState
    q = with_sock s.addr (requested w) p

    own : q.sock s.addr ≡ requested w (p.sock s.addr)
    own = own_sock s.addr (λ t. requested w (p.sock t)) p.sock

    asked : {table : FdTable} → IsFresh s (record q { table = table })
    asked = record {
      number = ap (λ r. r.fd) own ∙ fresh.number;
      idle = ap (λ r. is_idle r.poll_status) own ∙ fresh.idle;
      fit = ap releasable own ∙ fresh.fit;
    }

    go_on : Option (Status × FdTable × ErrorState) → Option (Status × PortState)
    go_on x = elim x [
      | none ↦ none
      | some (failed, table, err) ↦ some (failed, record q { table = table; err = err })
      | some (ok, table, err) ↦ link_and_submit k s w (record q { table = table; err = err })
    ]

    inserts : EndsIn s p.table (go_on (insert granted s q.table q.err))
    inserts = elim (insert-Inserted granted s p.table p.err well new) [
      | inl full ↦
          subst (λ x. EndsIn s p.table (go_on x)) (sym full)
            (ends_failed s p.table (record q { err = set_errno enomem p.err }) (λ fd. refl))
      | inr (table, (runs, i)) ↦
          subst (λ x. EndsIn s p.table (go_on x)) (sym runs)
            (links k s w p.table (record q { table = table }) law i free asked v d off nz)
    ]

    by_error :
        (error : Option ℕ)
        → EndsIn s p.table (elim error [
          | some code ↦ some (refuse_with code q)
          | none ↦ go_on (insert granted s q.table q.err)
        ])
    by_error none = inserts
    by_error (some code) = ends_failed s p.table (refuse_with code q).1 (λ fd. refl)
