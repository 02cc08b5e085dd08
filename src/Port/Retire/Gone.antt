-- ===== src/Port/Retire/Gone.antt =====
-- `ep_port_unregister` of src/wepoll_ex_port.c takes a registration from all that the port keeps of it.
use wepoll_ex.Prelude.{
  either, ℕ, zero, ◌+◌, ◌%◌, ◌^◌, ◌≡◌, ◌≢◌, refl, sym, ap, ◌∙◌, subst, true, false, ◌==◌,
  if◌then◌else◌, none, some, has, Distinct,
}
use wepoll_ex.Bits.Masks.{meets}
use wepoll_ex.Status.{ok}
use wepoll_ex.Errno.State.{set_errno}
use wepoll_ex.Port.FdTable.{Sock, FdTable, lookup, remove}
use wepoll_ex.Port.FdTable.Insert.{WellFormed}
use wepoll_ex.Port.FdTable.Remove.{IsOnly, remove-Removed}
use wepoll_ex.Port.Exclusive.{claims_any}
use wepoll_ex.Port.State.{
  PortState, PortKernel, deleted, is_idle, is_pending, matches, epollexclusive, next_generation,
}
use wepoll_ex.Port.Modify.Lists.{Linked}
use wepoll_ex.Port.Modify.Effect.{own_sock}
use wepoll_ex.Port.Retire.{
  ◌and_then◌, clear_rearm, remove_sock, release_claims, free_if_idle, mark_deleted, renew,
  cancel_pending, detach, unregister, endable,
}
use wepoll_ex.Port.Retire.Flags.{clear_rearm-some, release_claims-free, free_if_idle-Released}

-- What a cancellation leaves alone.
pub record Spared (s : ℕ) (p q : PortState) : Type 0 where
  pub table_eq : q.table ≡ p.table
  pub claims_eq : q.claims ≡ p.claims
  pub socks_eq : q.socks ≡ p.socks
  pub next_eq : q.next_sock_generation ≡ p.next_sock_generation
  pub linked : (n : ℕ) → Linked n p.worklists → Linked n q.worklists
  pub fit : endable (p.sock s) ≡ true → endable (q.sock s) ≡ true

-- What is left of a registration after EPOLL_CTL_DEL, from `p` to `q`.
pub record Detached (s : Sock) (p q : PortState) : Type 0 where
  pub table : WellFormed q.table
  pub lookups : (fd : ℕ) → lookup fd q.table ≡ (if s.fd == fd then none else lookup fd p.table)
  pub linked : Linked zero q.worklists
  pub rearm_flag : q.worklists.rearm.flag s.addr ≡ false
  pub deleted_eq : (q.sock s.addr).delete_pending ≡ true
  pub generation_eq : (q.sock s.addr).generation ≡ next_generation p.next_sock_generation
  pub unclaimed :
      meets (p.sock s.addr).interest.user_flags epollexclusive ≡ true
      → claims_any q.claims s.addr ≡ false
  pub freed : is_idle (q.sock s.addr).poll_status ≡ true → has s.addr q.socks ≡ false
  pub awaited : is_idle (q.sock s.addr).poll_status ≡ false → q.socks ≡ p.socks

cancel_pending-Spared :
    (k : PortKernel) (s : ℕ) (p : PortState)
    → ((x : PortState) → Spared s x (k.cancel s x).1)
    → Spared s p (cancel_pending k s p)
cancel_pending-Spared k s p law =
    either (Spared s p) (is_pending (p.sock s).poll_status) (k.cancel s p).1 p (law p) (record {
      table_eq = refl;
      claims_eq = refl;
      socks_eq = refl;
      next_eq = refl;
      linked = λ n v. v;
      fit = λ e. e;
    })

pub remove_sock-some :
    (s : Sock) (p : PortState) (t : FdTable)
    → remove s p.table ≡ some t
    → remove_sock s p ≡ some (record p { table = t })
unfolding remove_sock
remove_sock-some s p t e = rw (remove_sock, e) refl

detach-Detached :
    (k : PortKernel) (s : Sock) (slot : ℕ) (p : PortState)
    → ((x : PortState) → Spared s.addr x (k.cancel s.addr x).1)
    → WellFormed p.table
    → p.table.slots slot ≡ some s
    → IsOnly s p.table.slots
    → Linked 3 p.worklists
    → Distinct p.socks
    → s.addr ≢ 0
    → endable (p.sock s.addr) ≡ true
    → (q : PortState) × ((detach k s p ≡ some q) × Detached s p q)
unfolding detach release_claims
detach-Detached k s slot p law w here only v d nz fit =
    let ends = λ (x : PortState).
      let r = renew s.addr x in
      free_if_idle s.addr (record r { generation = (r.generation + 1) % 2 ^ 64 }) in
    let p1 = release_claims s.addr p in
    let p2 = cancel_pending k s.addr p1 in
    let spared = cancel_pending-Spared k s.addr p1 law in
    let (t, (removes, gone)) = remove-Removed s p.table slot w here only in
    let p3 = mark_deleted s.addr (record p2 { table = t }) in
    let (l, (a, v1, off, same)) = clear_rearm-some 2 s.addr p3 (spared.linked 3 v) nz in
    let p4 = renew s.addr (record p3 { worklists = l }) in
    let p5 = record p4 { generation = (p4.generation + 1) % 2 ^ 64 } in
    let marking : p3.sock s.addr
        ≡ record (p2.sock s.addr) { delete_pending = true; state = deleted } =
      own_sock s.addr (λ x. record (p2.sock x) { delete_pending = true; state = deleted })
        p2.sock in
    let marked : (p3.sock s.addr).delete_pending ≡ true = ap (λ r. r.delete_pending) marking in
    let renewed : p5.sock s.addr
        ≡ record (p3.sock s.addr) { generation = next_generation p2.next_sock_generation } =
      own_sock s.addr
        (λ x. record (p3.sock x) { generation = next_generation p2.next_sock_generation })
        p3.sock in
    let (q, (b, released)) =
      free_if_idle-Released 0 s.addr p5 v1 (subst (λ xs. Distinct xs) (sym spared.socks_eq) d) nz
        (ap endable renewed ∙ ap endable marking ∙ spared.fit fit) in
    (
      q,
      (
        ap (λ x. x and_then (λ y. clear_rearm s.addr (mark_deleted s.addr y)) and_then ends)
              (remove_sock-some s p2 t (ap (remove s) spared.table_eq ∙ removes))
            ∙ ap (λ x. x and_then ends) a
            ∙ b,
        record {
          table = subst (λ x. WellFormed x) (sym released.table_eq) gone.well;
          lookups = λ fd. ap (lookup fd) released.table_eq ∙ gone.lookups fd;
          linked = released.linked;
          rearm_flag = released.rearm_flag off;
          deleted_eq = released.delete_eq ∙ ap (λ r. r.delete_pending) renewed ∙ marked;
          generation_eq =
              released.generation_eq
              ∙ ap (λ r. r.generation) renewed
              ∙ ap next_generation spared.next_eq;
          unclaimed = λ e.
              released.unclaimed
                (ap (λ c. claims_any c s.addr) spared.claims_eq ∙ release_claims-free s.addr p e);
          freed = λ e. released.gone (ap is_idle (sym released.poll_eq) ∙ e);
          awaited = λ e. released.stays (ap is_idle (sym released.poll_eq) ∙ e) ∙ spared.socks_eq;
        },
      ),
    )

-- The cancellation is a parameter that leaves alone what `Spared` names. EPOLL_CTL_DEL of a registered
-- socket whose identity holds, which a well-formed table has once, and whose storage can be released in
-- case its poll is idle, fails no assertion, also not in the release of the storage, where those on groups
-- of AFD polls are left out; it succeeds, whatever the cancellation answers, and keeps errno: the table is
-- well formed and answers as before but to the number of the socket; the registration is marked as
-- deleted, has a fresh generation, is not on the rearm list, and an exclusive one claims no class; its
-- storage is released exactly if no poll of it is outstanding.
pub unregister-Detached :
    (k : PortKernel) (s : Sock) (fd slot : ℕ) (p q : PortState)
    → ((x : PortState) → Spared s.addr x (k.cancel s.addr x).1)
    → lookup fd p.table ≡ some s
    → k.validate_control s.addr p ≡ (matches, q)
    → WellFormed q.table
    → q.table.slots slot ≡ some s
    → IsOnly s q.table.slots
    → Linked 3 q.worklists
    → Distinct q.socks
    → s.addr ≢ 0
    → endable (q.sock s.addr) ≡ true
    → (r : PortState) × ((unregister k fd p ≡ some (ok, r))
        × Detached s q r
        × (r.err.errno ≡ p.err.errno))
unfolding unregister set_errno
unregister-Detached k s fd slot p q law found valid w here only v d nz fit =
    let (r, (runs, gone)) = detach-Detached k s slot q law w here only v d nz fit in
    (
      record r { err = set_errno p.err.errno r.err },
      (
        rw (unregister, found, ap (λ x. x.0) valid, ap (λ x. x.1) valid, runs) refl,
        record {
          table = gone.table;
          lookups = gone.lookups;
          linked = gone.linked;
          rearm_flag = gone.rearm_flag;
          deleted_eq = gone.deleted_eq;
          generation_eq = gone.generation_eq;
          unclaimed = gone.unclaimed;
          freed = gone.freed;
          awaited = gone.awaited;
        },
        refl,
      ),
    )
