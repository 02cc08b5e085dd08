-- ===== src/Pool/Inv.antt =====
-- The representation invariant of the pool: which buffers are free, in which order, and which were ever
-- allocated.
use wepoll_ex.Prelude.{
  ℕ, ◌+◌, ◌≤◌, ◌<◌, ◌≡◌, Bool, true, false, Option, some, List, arith, has, Distinct, length, ◌==◌,
  update, ℕ_discrete,
}
use wepoll_ex.Heap.{Heap, size_mod}
use wepoll_ex.Pool.{Entry, Pool, entry_magic}
use wepoll_ex.Pool.Chain.{Chain}

-- An entry of the pool at `self`; it says itself whether it is free.
pub record IsEntry (self : ℕ) (free : Bool) (v : Option Entry) : Type 0 where
  pub entry : Entry
  pub there : v ≡ some entry
  pub owner_eq : entry.owner ≡ some self
  pub magic_eq : entry.magic ≡ entry_magic
  pub in_pool_eq : entry.in_pool ≡ free

-- `free` are the buffers on the stack, top first; `all` those ever allocated, latest first.
pub record Inv (self : ℕ) (free all : List ℕ) (p : Pool) (h : Heap Entry) : Type 0 where
  pub live : p.initialized ≡ true
  pub stack_chain : Chain (λ e. e.next) h.cell p.stack free
  pub all_chain : Chain (λ e. e.all_next) h.cell p.all_entries all
  pub entries : (a : ℕ) → has a all ≡ true → IsEntry self (has a free) (h.cell a)
  pub inside : (a : ℕ) → has a free ≡ true → has a all ≡ true
  pub below : (a : ℕ) → has a all ≡ true → a < h.fresh
  pub free_distinct : Distinct free
  pub all_distinct : Distinct all
  pub counted : p.allocated ≡ length all
  pub used : p.in_use + length free ≡ length all
  pub peaked : p.in_use ≤ p.peak
  pub peak_fits : p.peak ≤ p.allocated
  pub fits : length all ≤ h.fresh
  pub space : h.fresh < size_mod

-- Writing one entry, and moving it on or off the stack, leaves the others as they were.
pub IsEntry-update :
    (self a b : ℕ) (m : ℕ → Option Entry) (e : Entry) (was becomes : List ℕ)
    → e.owner ≡ some self
    → e.magic ≡ entry_magic
    → e.in_pool ≡ has a becomes
    → ((b == a) ≡ false → has b becomes ≡ has b was)
    → ((b == a) ≡ false → IsEntry self (has b was) (m b))
    → IsEntry self (has b becomes) (update m a (some e) b)
IsEntry-update self a b m e was becomes owner magic pooled others old = elim (ℕ_discrete b a) [
  | yes here ↦ record {
    entry = e;
    there = ground arith;
    owner_eq = owner;
    magic_eq = magic;
    in_pool_eq = ground arith;
  }
  | no away ↦
      let k = old (ground arith) in
      record {
        entry = k.entry;
        there = ground arith;
        owner_eq = k.owner_eq;
        magic_eq = k.magic_eq;
        in_pool_eq = ground (arith, others (ground arith));
      }
]
