-- ===== src/Port/Register/Undone.antt =====
-- An EPOLL_CTL_ADD of src/wepoll_ex_port.c whose first submission fails.
use wepoll_ex.Prelude.{
  ℕ, zero, ◌≡◌, ◌≢◌, refl, sym, ap, ◌∙◌, subst, true, false, arith, ◌==◌, if◌then◌else◌, ℕ_discrete,
  none, some, has, Distinct,
}
use wepoll_ex.Status.{failed}
use wepoll_ex.Errno.State.{get_last_error_info, restore_last_error_info}
use wepoll_ex.Port.FdTable.{Sock, FdTable, lookup}
use wepoll_ex.Port.FdTable.Find.{lookup-found, lookup-there}
use wepoll_ex.Port.FdTable.Insert.{WellFormed, Inserted}
use wepoll_ex.Port.FdTable.Remove.{IsOnly, remove-Removed}
use wepoll_ex.Port.State.{PortState, is_idle, submit_failed}
use wepoll_ex.Port.Modify.Lists.{Linked}
use wepoll_ex.Port.Retire.{◌and_then◌, free_sock, releasable}
use wepoll_ex.Port.Retire.Flags.{free_sock-Released}
use wepoll_ex.Port.Retire.Gone.{remove_sock-some}
use wepoll_ex.Port.Register.{submitted_first}

-- `p` is a table without `s` and its address.
pub record IsFree (s : Sock) (p : FdTable) : Type 0 where
  pub no_number : lookup s.fd p ≡ none
  pub no_addr : (fd : ℕ) (x : Sock) → lookup fd p ≡ some x → x.addr ≢ s.addr

Inserted-IsOnly : (s : Sock) (p p1 : FdTable) → Inserted s p p1 → IsFree s p → IsOnly s p1.slots
Inserted-IsOnly s p p1 i free k x here same = elim (ℕ_discrete s.fd x.fd) [
  | yes own ↦ some_injective x s (sym found ∙ i.lookups x.fd ∙ ground (arith, own))
  | no other ↦
      absurd (free.no_addr x.fd x (sym (i.lookups x.fd ∙ ground (arith, other)) ∙ found) same)
]
  where
    found : lookup x.fd p1 ≡ some x
    found = lookup-there x.fd p1 i.well.table k x here refl

    some_injective : (a b : Sock) → some a ≡ some b → a ≡ b
    some_injective a b e = ap (λ z. elim z [ some y ↦ y | none ↦ a ]) e

-- What a failed ADD leaves: the table answers as before, the registration is on no list.
pub record Undone (s : Sock) (before : FdTable) (q : PortState) : Type 0 where
  pub table : WellFormed q.table
  pub lookups : (fd : ℕ) → lookup fd q.table ≡ lookup fd before
  pub linked : Linked zero q.worklists
  pub unlisted : has s.addr q.socks ≡ false

-- If the first submission of an ADD fails, the registration is taken back without a failed assertion:
-- every lookup answers as before the insertion, the deferred work is well formed, and the storage is
-- released.
pub submitted_first-Undone :
    (s : Sock) (before : FdTable) (q : PortState)
    → Inserted s before q.table
    → IsFree s before
    → Linked 2 q.worklists
    → Distinct q.socks
    → s.addr ≢ 0
    → is_idle (q.sock s.addr).poll_status ≡ true
    → releasable (q.sock s.addr) ≡ true
    → (r : PortState) × ((submitted_first s submit_failed q ≡ some (failed, r)) × Undone s before r)
unfolding submitted_first
submitted_first-Undone s before q i free v d nz idle fit =
    let own : lookup s.fd q.table ≡ some s = i.lookups s.fd ∙ ground arith in
    let (number, slot, here) = lookup-found s.fd q.table i.well.table s own in
    let (t, (removes, gone)) =
      remove-Removed s q.table slot i.well here (Inserted-IsOnly s before q.table i free) in
    let (x, (frees, released)) =
      free_sock-Released 0 s.addr (record q { table = t }) v d nz idle fit in
    (
      record x { err = restore_last_error_info (get_last_error_info q.err) x.err },
      (
        ap
              (λ y. elim (y and_then free_sock s.addr) [
                | none ↦ none
                | some z ↦ some (
                  failed,
                  record z { err = restore_last_error_info (get_last_error_info q.err) z.err },
                )
              ])
              (remove_sock-some s q t removes)
            ∙ ap
                (λ y. elim y [
                  | none ↦ none
                  | some z ↦ some (
                    failed,
                    record z { err = restore_last_error_info (get_last_error_info q.err) z.err },
                  )
                ])
                frees,
        record {
          table = subst (λ y. WellFormed y) (sym released.table_eq) gone.well;
          lookups = λ fd. ap (lookup fd) released.table_eq ∙ gone.lookups fd ∙ as_before fd;
          linked = released.linked;
          unlisted = released.gone idle;
        },
      ),
    )
  where
    as_before : (fd : ℕ) → (if s.fd == fd then none else lookup fd q.table) ≡ lookup fd before
    as_before fd = elim (ℕ_discrete s.fd fd) [
      | yes own ↦ ground (arith, own) ∙ sym free.no_number ∙ ap (λ n. lookup n before) own
      | no other ↦ ground (arith, other) ∙ i.lookups fd ∙ ground (arith, other)
    ]
