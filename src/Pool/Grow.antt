-- ===== src/Pool/Grow.antt =====
-- One more entry: `ep_pool_entry_alloc`, and linking the entry into the pool's two lists.
use wepoll_ex.Prelude.{
  ℕ, ◌+◌, ◌%◌, ◌≡◌, ◌⊎◌, inl, inr, refl, Bool, true, false, Option, none, some, List, ◌∷◌, arith,
  has, update, Bool-cases, fun_ext, subst, sym,
}
use wepoll_ex.Heap.{Heap, size_mod}
use wepoll_ex.Heap.Grant.{Grown, Untouched, grant-cases}
use wepoll_ex.Pool.{Entry, Pool, Env, new_entry, checked_alloc, entry_alloc}
use wepoll_ex.Pool.Chain.{Chain, Chain-update_out}
use wepoll_ex.Pool.Inv.{Inv, IsEntry, IsEntry-update}

-- `ep_pool_entry_alloc` gives a new entry at a fresh address, or changes no cell.
pub entry_alloc-cases :
    (self : ℕ) (p : Pool) (pooled : Bool) (w : Env)
    → let (r, w') = entry_alloc self p pooled w in
      ((a : ℕ) × (r ≡ some a) × Grown (new_entry self pooled) a w.heap w'.heap)
      ⊎ ((r ≡ none) × Untouched w.heap w'.heap)
unfolding entry_alloc checked_alloc
entry_alloc-cases self p pooled w =
    ground (arith, grant-cases w.heap.grants (new_entry self pooled) w.heap)

pub update-update :
    (m : ℕ → Option Entry) (a : ℕ) (v u : Option Entry) → update (update m a v) a u ≡ update m a u
update-update m a v u = fun_ext λ b. ground arith

-- An allocation that fails leaves the pool's heap as it was.
pub Untouched-Inv :
    (self : ℕ) (free all : List ℕ) (p : Pool) (h h' : Heap Entry)
    → Inv self free all p h
    → Untouched h h'
    → Inv self free all p h'
Untouched-Inv self free all p h h' i u = record {
  live = i.live;
  stack_chain = subst (λ c. Chain (λ e. e.next) c p.stack free) (sym u.cells) i.stack_chain;
  all_chain = subst (λ c. Chain (λ e. e.all_next) c p.all_entries all) (sym u.cells) i.all_chain;
  entries = λ a k. subst (λ c. IsEntry self (has a free) (c a)) (sym u.cells) (i.entries a k);
  inside = i.inside;
  below = λ a k. ground (arith, i.below a k, u.same_fresh);
  free_distinct = i.free_distinct;
  all_distinct = i.all_distinct;
  counted = i.counted;
  used = i.used;
  peaked = i.peaked;
  peak_fits = i.peak_fits;
  fits = ground (arith, i.fits, u.same_fresh);
  space = ground (arith, i.space, u.same_fresh);
}

-- The pool with entry `a` on both lists.
abbrev pub linked : ℕ → Pool → Pool
linked a p = record p {
  stack = some a;
  all_entries = some a;
  allocated = (p.allocated + 1) % size_mod;
}

abbrev pub link_entry : (self : ℕ) → Pool → Entry
link_entry self p = record (new_entry self true) { next = p.stack; all_next = p.all_entries }

module _ (self : ℕ) (free all : List ℕ) (p : Pool) (h : Heap Entry)
    (i : Inv self free all p h) where
  not_yet : (a : ℕ) → a ≡ h.fresh → has a all ≡ false
  not_yet a e = elim (Bool-cases (has a all)) [
    | inl old ↦ absurd (omega (arith, i.below a old))
    | inr new ↦ new
  ]

  not_free : (a : ℕ) → a ≡ h.fresh → has a free ≡ false
  not_free a e = elim (Bool-cases (has a free)) [
    | inl old ↦ absurd (omega (arith, i.below a (i.inside a old)))
    | inr new ↦ new
  ]

  -- A new entry at a fresh address, on top of both lists.
  pub linked-Inv :
      (h' : Heap Entry)
      → Grown (link_entry self p) h.fresh h h'
      → Inv self (h.fresh ∷ free) (h.fresh ∷ all) (linked h.fresh p) h'
  linked-Inv h' g = record {
    live = i.live;
    stack_chain = (
      link_entry self p,
      refl,
      holds,
      subst (λ c. Chain (λ e. e.next) c p.stack free) (sym g.cells)
          (Chain-update_out (λ e. e.next) h.cell p.stack free a _ (not_free a refl) i.stack_chain),
    );
    all_chain = (
      link_entry self p,
      refl,
      holds,
      subst (λ c. Chain (λ e. e.all_next) c p.all_entries all) (sym g.cells)
          (Chain-update_out (λ e. e.all_next) h.cell p.all_entries all a _ (not_yet a refl)
            i.all_chain),
    );
    entries = λ b k. rw g.cells (
        IsEntry-update self a b h.cell (link_entry self p) free (a ∷ free) refl refl (ground arith)
          (λ n. ground arith) (λ n. i.entries b (ground arith)));
    inside = λ b k. ground (arith, i.inside b);
    below = λ b k. ground (arith, i.below b, g.next_fresh);
    free_distinct = (not_free a refl, i.free_distinct);
    all_distinct = (not_yet a refl, i.all_distinct);
    counted = ground (arith, i.counted, i.fits, g.room);
    used = ground (arith, i.used);
    peaked = i.peaked;
    peak_fits = ground (arith, i.peak_fits, i.counted, i.fits, g.room);
    fits = ground (arith, i.fits, g.next_fresh);
    space = ground (arith, g.room, g.next_fresh);
  }
    where
      a : ℕ
      a = h.fresh

      holds : h'.cell a ≡ some (link_entry self p)
      holds = rw g.cells (ground arith)
