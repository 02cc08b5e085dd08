-- ===== src/Pool/Free.antt =====
-- `ep_pool_entries_free` and `ep_afd_pool_destroy`.
use wepoll_ex.Prelude.{
  ℕ, zero, suc, ◌≤◌, ◌≡◌, ◌≢◌, refl, true, false, Option, none, some, List, [], ◌∷◌, arith, has,
  Distinct, length, if◌then◌else◌,
}
use wepoll_ex.Errno.Codes.{ebusy}
use wepoll_ex.Heap.{Heap, free}
use wepoll_ex.Pool.{Entry, Pool, Env, entries_free, destroy, fail_with}
use wepoll_ex.Pool.Chain.{Chain, Chain-update_out}
use wepoll_ex.Pool.Inv.{Inv}

-- `h'` is `h` without the cells `xs`.
pub record Freed (xs : List ℕ) (h h' : Heap Entry) : Type 0 where
  pub cells : (b : ℕ) → h'.cell b ≡ (if has b xs then none else h.cell b)
  pub same_fresh : h'.fresh ≡ h.fresh

-- With one round of fuel for each entry, `ep_pool_entries_free` frees the whole chain and nothing else.
pub entries_free-Freed :
    (fuel : ℕ) (xs : List ℕ) (p : Option ℕ) (h : Heap Entry)
    → Chain (λ e. e.all_next) h.cell p xs
    → Distinct xs
    → length xs ≤ fuel
    → (h' : Heap Entry) × (entries_free fuel p h ≡ some h') × Freed xs h h'
unfolding entries_free
entries_free-Freed zero [] p h c d le =
    (h, ground arith, record { cells = λ b. refl; same_fresh = refl })
entries_free-Freed (suc fuel) [] p h c d le =
    (h, ground arith, record { cells = λ b. refl; same_fresh = refl })
entries_free-Freed zero (a ∷ xs) p h c d le = absurd (omega arith)
entries_free-Freed (suc fuel) (a ∷ xs) p h (e, start, holds, rest) d le =
    let (h', runs, gone) =
      entries_free-Freed fuel xs e.all_next (free a h)
        (Chain-update_out (λ e. e.all_next) h.cell e.all_next xs a none d.0 rest) d.1
        (omega arith) in
    (
      h',
      ground arith,
      record { cells = λ b. ground (arith, gone.cells b); same_fresh = gone.same_fresh },
    )

-- While a buffer is out, `ep_afd_pool_destroy` refuses with EBUSY and leaves the pool alone.
pub destroy-busy :
    (p : Pool) (w : Env)
    → p.initialized ≡ true
    → p.in_use ≢ 0
    → destroy 0 p w ≡ some (p, fail_with ebusy w)
unfolding destroy
destroy-busy p w live busy = ground arith

-- With every buffer back, it frees every entry of the pool and no other cell, and the pool is closed.
pub destroy-Freed :
    (self : ℕ) (xs all : List ℕ) (p : Pool) (w : Env)
    → Inv self xs all p w.heap
    → p.in_use ≡ 0
    → (q : Pool) × (v : Env) × (destroy 0 p w ≡ some (q, v))
      × Freed all w.heap v.heap
      × (q.initialized ≡ false)
      × (q.all_entries ≡ none)
      × (q.stack ≡ none)
unfolding destroy
destroy-Freed self xs all p w i idle =
    let (h', runs, gone) =
      entries_free-Freed p.allocated all p.all_entries w.heap i.all_chain i.all_distinct
        (omega (arith, i.counted)) in
    (
      record p { stack = none; all_entries = none; allocated = 0; initialized = false },
      record w { heap = h' },
      ground (arith, i.live),
      gone,
      refl,
      refl,
      refl,
    )
