-- ===== src/Api/Lifetime.antt =====
-- The invariant of the descriptor table of src/wepoll_ex_api.c under concurrent calls.
pub mod Release
pub mod Claim
pub mod Opens
pub mod Steps
pub mod Reachable
mod Examples
use wepoll_ex.Prelude.{
  ℕ, zero, suc, ◌+◌, ◌-◌, ◌%◌, ◌≤◌, ◌<◌, ◌≡◌, ◌≢◌, ◌⊎◌, inl, inr, refl, ◌∙◌, sym, ap, subst, Bool,
  true, false, not, ◌&&◌, ◌||◌, Option, none, some, List, [], ◌∷◌, arith, ltb, ◌==◌, if◌then◌else◌,
  update, has, erase, count, length, count-erase, count-pos, has-count, count-le-length,
  Option-cases, Bool-cases, ℕ_discrete,
}
use wepoll_ex.Prelude.Int.{ℤ, pos, negsuc}
use wepoll_ex.Heap.{Heap, size_mod, grant, alloc}
use wepoll_ex.Errno.State.{ErrorState, fresh_thread}
use wepoll_ex.Status.{ok, failed}
use wepoll_ex.Api.Table.{
  Table, Shared, Entry, alloc_fd, duplicate, acquire, put_locked, close_begin, close_end,
  free_shared, find_locked, set_shared, uint_mod, publish, new_shared, insert_locked, unlink_locked,
  shared_at,
}
use wepoll_ex.Api.Lookup.{IsTable}
use wepoll_ex.Api.Count.{aliases_of, aliases_of-buckets}
use wepoll_ex.Api.System.{System}

-- Who owns a shared record with `a` aliases, `h` references held, `c` closers and `d` teardowns. A
-- record that is gone has none of these. One that is open has an alias, and nobody tears it down. One
-- that is closing has no alias and exactly one owner of its teardown: the closer that waits, the
-- references that are left (`detached`), or the call that runs `epfd_destroy`.
abbrev pub Owned : (a h c d : ℕ) → Option Shared → Type 0
Owned a h c d none = (a ≡ 0) × (h ≡ 0) × (c ≡ 0) × (d ≡ 0)
Owned a h c d (some v) =
    (v.aliases ≡ a)
    × (v.refs ≡ h)
    × (((v.closing ≡ false) × (0 < a) × (v.detached ≡ false) × (c ≡ 0) × (d ≡ 0))
        ⊎ ((v.closing ≡ true)
            × (a ≡ 0)
            × (((v.detached ≡ false) × (c ≡ 1) × (d ≡ 0))
                ⊎ ((v.detached ≡ true) × (c ≡ 0) × (d ≡ 0) × (0 < h))
                ⊎ ((c ≡ 0) × (d ≡ 1) × (h ≡ 0)))))

pub record Inv (y : System) : Type 0 where
  pub table_ok : IsTable y.table
  pub owned :
      (s : ℕ)
      → Owned
          (aliases_of s y.table)
          (count s y.held)
          (count s y.closers)
          (count s y.teardowns)
          (y.table.shareds.cell s)
  pub unused : (s : ℕ) → y.table.shareds.fresh ≤ s → y.table.shareds.cell s ≡ none

-- A record with a reference, a closer, a teardown or an alias is there.
pub Owned-there :
    (a h c d : ℕ) (o : Option Shared)
    → Owned a h c d o
    → 0 < a + h + c + d
    → (v : Shared) × (o ≡ some v)
Owned-there a h c d none k p = absurd (omega arith)
Owned-there a h c d (some v) k p = (v, refl)

-- A step that writes one shared record keeps the invariant if it does so there, and if it leaves what
-- belongs to the other records alone.
pub record Touches (s : ℕ) (o : Option Shared) (y z : System) : Type 0 where
  pub table_after : IsTable z.table
  pub same_fresh : z.table.shareds.fresh ≡ y.table.shareds.fresh
  pub cells : (x : ℕ) → z.table.shareds.cell x ≡ (if s == x then o else y.table.shareds.cell x)
  pub owned_after :
      Owned (aliases_of s z.table) (count s z.held) (count s z.closers) (count s z.teardowns) o
  pub aliases_same : (x : ℕ) → (s == x) ≡ false → aliases_of x z.table ≡ aliases_of x y.table
  pub held_same : (x : ℕ) → (s == x) ≡ false → count x z.held ≡ count x y.held
  pub closers_same : (x : ℕ) → (s == x) ≡ false → count x z.closers ≡ count x y.closers
  pub teardowns_same : (x : ℕ) → (s == x) ≡ false → count x z.teardowns ≡ count x y.teardowns

pub Touches-Inv :
    (s : ℕ) (v : Shared) (o : Option Shared) (y z : System)
    → Inv y
    → y.table.shareds.cell s ≡ some v
    → Touches s o y z
    → Inv z
Touches-Inv s v o y z i there c = record {
  table_ok = c.table_after;
  owned = each;
  unused = λ x k. ground (arith, i.unused x, c.cells x, c.same_fresh, i.unused s);
}
  where
    each :
        (x : ℕ)
        → Owned
            (aliases_of x z.table)
            (count x z.held)
            (count x z.closers)
            (count x z.teardowns)
            (z.table.shareds.cell x)
    each x = elim (ℕ_discrete s x) [
      | yes here ↦
          subst
            (λ k.
              Owned (aliases_of k z.table) (count k z.held) (count k z.closers)
                (count k z.teardowns) (z.table.shareds.cell k))
            here (rw (c.cells s) (ground (arith, c.owned_after)))
      | no away ↦
          rw
            (
              c.aliases_same x (ground arith),
              c.held_same x (ground arith),
              c.closers_same x (ground arith),
              c.teardowns_same x (ground arith),
              c.cells x,
            )
            (ground (arith, i.owned x))
    ]

-- Writing or freeing the record at an address leaves the buckets alone.
pub set-IsTable : (s : ℕ) (o : Shared) (t : Table) → IsTable t → IsTable (set_shared s o t)
set-IsTable s o t k = record {
  next_positive = k.next_positive;
  next_small = k.next_small;
  chains = k.chains;
}

pub free-IsTable : (s : ℕ) (t : Table) → IsTable t → IsTable (free_shared s t)
free-IsTable s t k = record {
  next_positive = k.next_positive;
  next_small = k.next_small;
  chains = k.chains;
}

pub set-aliases :
    (s : ℕ) (o : Shared) (t : Table) (x : ℕ) → aliases_of x (set_shared s o t) ≡ aliases_of x t
set-aliases s o t x = aliases_of-buckets x (set_shared s o t) t refl

pub free-aliases : (s : ℕ) (t : Table) (x : ℕ) → aliases_of x (free_shared s t) ≡ aliases_of x t
free-aliases s t x = aliases_of-buckets x (free_shared s t) t refl
