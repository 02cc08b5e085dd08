-- ===== src/Api/Lifetime/Opens.antt =====
-- `epfd_alloc`: a new shared record under a new number, or nothing.
use wepoll_ex.Prelude.{
  ℕ, ◌+◌, ◌≤◌, ◌≡◌, ◌⊎◌, inl, inr, refl, ◌∙◌, sym, ap, subst, Bool, Option, none, some, arith, ◌==◌,
  if◌then◌else◌, update, Bool-cases, Option-cases,
}
use wepoll_ex.Prelude.Int.{pos}
use wepoll_ex.Heap.{Heap, alloc}
use wepoll_ex.Heap.Grant.{Grown, grant-cases}
use wepoll_ex.Errno.State.{fresh_thread}
use wepoll_ex.Api.Table.{
  Table, Shared, alloc_fd, publish, new_shared, free_shared, allocate_id_locked,
}
use wepoll_ex.Api.Lookup.{IsTable, find-buckets, insert_locked-IsTable, insert_locked-shareds}
use wepoll_ex.Api.Allocate.{allocate_id-fresh}
use wepoll_ex.Api.Count.{aliases_of, aliases_of-buckets, aliases_of-insert_locked}
use wepoll_ex.Api.System.{System, advance, opens}
use wepoll_ex.Api.Lifetime.{Inv, free-IsTable}

-- The descriptors and the records are as before; an address may have been used up.
pub record Keeps (t t' : Table) : Type 0 where
  pub table_after : IsTable t'
  pub same_buckets : t'.buckets ≡ t.buckets
  pub same_cells : (x : ℕ) → t'.shareds.cell x ≡ t.shareds.cell x
  pub grows : t.shareds.fresh ≤ t'.shareds.fresh

-- A new record has come, under one new number.
pub record Adds (f port : ℕ) (t t' : Table) : Type 0 where
  pub table_after : IsTable t'
  pub at_fresh : f ≡ t.shareds.fresh
  pub one_alias : (x : ℕ) → aliases_of x t' ≡ (if x == f then 1 else 0) + aliases_of x t
  pub new_cell :
      (x : ℕ) → t'.shareds.cell x ≡ (if f == x then some (new_shared port) else t.shareds.cell x)
  pub grows : t'.shareds.fresh ≡ t.shareds.fresh + 1

module _ (y : System) (t' : Table) (i : Inv y) where
  Keeps-Inv : Keeps y.table t' → Inv (record y { table = t' })
  Keeps-Inv k = record {
    table_ok = k.table_after;
    owned = λ x.
        ground (arith, i.owned x, k.same_cells x, aliases_of-buckets x t' y.table k.same_buckets);
    unused = λ x h. ground (arith, i.unused x, k.same_cells x, k.grows);
  }

  Adds-Inv : (f port : ℕ) → Adds f port y.table t' → Inv (record y { table = t' })
  Adds-Inv f port k = record {
    table_ok = k.table_after;
    owned = λ x. ground (arith, i.owned x, i.unused x, k.at_fresh, k.one_alias x, k.new_cell x);
    unused = λ x h. ground (arith, i.unused x, k.new_cell x, k.grows, k.at_fresh);
  }

module _ (y : System) (i : Inv y) where
  -- A record that is taken back, at an address used up in the meantime.
  taken_back :
      (u : Table)
      → IsTable u
      → u.buckets ≡ y.table.buckets
      → ((x : ℕ)
          → u.shareds.cell x
            ≡ (if y.table.shareds.fresh == x then none else y.table.shareds.cell x))
      → y.table.shareds.fresh ≤ u.shareds.fresh
      → Keeps y.table u
  taken_back u table same cells grows = record {
    table_after = table;
    same_buckets = same;
    same_cells = λ x. ground (arith, cells x, i.unused y.table.shareds.fresh);
    grows = grows;
  }

  abbrev Outcome : ℕ → Table → Type 0
  Outcome port u = Keeps y.table u ⊎ Adds y.table.shareds.fresh port y.table u

  -- `publish` on a table that has just got the record at its first unused address.
  publish-Outcome :
      (port : ℕ) (u : Table)
      → IsTable u
      → u.buckets ≡ y.table.buckets
      → u.shareds.cell ≡ update y.table.shareds.cell y.table.shareds.fresh (some (new_shared port))
      → u.shareds.fresh ≡ y.table.shareds.fresh + 1
      → Outcome port (publish y.table.shareds.fresh u fresh_thread).1
  unfolding publish
  publish-Outcome port u table same cells grows =
      let f = y.table.shareds.fresh in
      elim (allocate_id-fresh u table) [
        | inl (d, given, positive, small, new, frame, table') ↦
            let u' = (allocate_id_locked u).1 in
            let heap = ap (λ (t : Table). t.shareds) frame in
            let count_in = λ (x : ℕ).
              aliases_of-buckets x u' y.table (ap (λ (t : Table). t.buckets) frame ∙ same) in
            subst (λ t. Outcome port t) (sym (ground (arith, given)))
              (inr (record {
                table_after =
                    insert_locked-IsTable f d u' table' positive small
                      (find-buckets (pos d) u' u (ap (λ (t : Table). t.buckets) frame) ∙ new);
                at_fresh = refl;
                one_alias = λ x. ground (arith, aliases_of-insert_locked x f d u', count_in x);
                new_cell = λ x.
                    ap (λ (h : Heap Shared). h.cell x) (insert_locked-shareds f d u' ∙ heap)
                    ∙ ap (λ (g : ℕ → Option Shared). g x) cells;
                grows =
                    ap (λ (h : Heap Shared). h.fresh) (insert_locked-shareds f d u' ∙ heap) ∙ grows;
              }))
        | inr (full, all, frame, table') ↦
            let u' = (allocate_id_locked u).1 in
            let heap = ap (λ (t : Table). t.shareds) frame in
            subst (λ t. Outcome port t) (sym (ground (arith, full)))
              (inl (
                taken_back (free_shared f u') (free-IsTable f u' table')
                  (ap (λ (t : Table). t.buckets) frame ∙ same)
                  (λ x. ground (
                    arith,
                    ap (λ (h : Heap Shared). h.cell x) heap,
                    ap (λ (g : ℕ → Option Shared). g x) cells,
                  ))
                  (ground (arith, ap (λ (h : Heap Shared). h.fresh) heap, grows))))
      ]

  same-IsTable : (h : Heap Shared) → IsTable (record y.table { shareds = h })
  same-IsTable h = record {
    next_positive = i.table_ok.next_positive;
    next_small = i.table_ok.next_small;
    chains = i.table_ok.chains;
  }

  -- `epfd_alloc` after the allocator has given a record.
  granted-Outcome :
      (entry_ok : Bool) (event_error : Option ℕ) (port : ℕ) (h : Heap Shared)
      → alloc (new_shared port) y.table.shareds ≡ (some y.table.shareds.fresh, h)
      → Grown (new_shared port) y.table.shareds.fresh y.table.shareds h
      → Outcome port (alloc_fd entry_ok event_error port y.table fresh_thread).1
  unfolding alloc_fd
  granted-Outcome entry_ok event_error port h given grown =
      let f = y.table.shareds.fresh in
      let u = record y.table { shareds = h } in
      let back : Outcome port (free_shared f u) = inl (
        taken_back (free_shared f u) (free-IsTable f u (same-IsTable h)) refl
          (λ x. ground (arith, ap (λ (g : ℕ → Option Shared). g x) grown.cells))
          (ground (arith, grown.next_fresh))) in
      elim (Bool-cases entry_ok) [
        | inr refused ↦ subst (λ t. Outcome port t) (sym (ground (arith, given))) back
        | inl entry ↦ elim (Option-cases event_error) [
          | inl no_error ↦
              subst (λ t. Outcome port t) (sym (ground (arith, given)))
                (publish-Outcome port u (same-IsTable h) refl grown.cells grown.next_fresh)
          | inr (e, error) ↦ subst (λ t. Outcome port t) (sym (ground (arith, given))) back
        ]
      ]

  alloc-Outcome :
      (entry_ok : Bool) (event_error : Option ℕ) (port : ℕ)
      → Outcome port (alloc_fd entry_ok event_error port y.table fresh_thread).1
  unfolding alloc_fd
  alloc-Outcome entry_ok event_error port =
      elim (grant-cases y.table.shareds.grants (new_shared port) y.table.shareds) [
        | inl (a, given, grown) ↦
            let h = (alloc (new_shared port) y.table.shareds).1 in
            granted-Outcome entry_ok event_error port h (ground (arith, given, grown.at_fresh))
              (subst (λ n. Grown (new_shared port) n y.table.shareds h) grown.at_fresh grown)
        | inr (refused, same) ↦
            let h = (alloc (new_shared port) y.table.shareds).1 in
            subst (λ t. Outcome port t) (sym (ground (arith, refused)))
              (inl (record {
                table_after = same-IsTable h;
                same_buckets = refl;
                same_cells = λ x. ap (λ (g : ℕ → Option Shared). g x) same.cells;
                grows = ground (arith, same.same_fresh);
              }))
      ]

pub opens_at :
    (y : System) (entry_ok : Bool) (event_error : Option ℕ) (port : ℕ)
    → Inv y
    → (z : System) × (advance (opens entry_ok event_error port) y ≡ some z) × Inv z
unfolding advance
opens_at y entry_ok event_error port i =
    let u = (alloc_fd entry_ok event_error port y.table fresh_thread).1 in
    (
      record y { table = u },
      refl,
      elim (alloc-Outcome y i entry_ok event_error port) [
        | inl kept ↦ Keeps-Inv y u i kept
        | inr added ↦ Adds-Inv y u i y.table.shareds.fresh port added
      ],
    )
