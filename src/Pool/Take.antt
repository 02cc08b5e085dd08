-- ===== src/Pool/Take.antt =====
-- `ep_afd_pool_take`: a buffer that nobody holds, from the top of the stack or fresh.
use wepoll_ex.Prelude.{
  ℕ, ◌+◌, ◌%◌, ◌≡◌, ◌⊎◌, inl, inr, refl, ◌∙◌, true, false, none, some, List, [], ◌∷◌, arith, update,
  subst, ap,
}
use wepoll_ex.Heap.{Heap, size_mod, store}
use wepoll_ex.Pool.{Entry, Pool, Env, take, hand_out, entry_alloc, new_entry}
use wepoll_ex.Pool.Chain.{Chain, Chain-update_out, Chain-update_same}
use wepoll_ex.Pool.Inv.{Inv, IsEntry-update}
use wepoll_ex.Heap.Grant.{Grown}
use wepoll_ex.Pool.Grow.{
  Untouched-Inv, entry_alloc-cases, linked, link_entry, linked-Inv, update-update,
}

-- The buffer on top of the stack leaves the pool: the other entries and the order stay.
hand_out-Inv :
    (self a : ℕ) (free all : List ℕ) (p : Pool) (w : Env) (e : Entry)
    → Inv self (a ∷ free) all p w.heap
    → w.heap.cell a ≡ some e
    → let r = hand_out a e (record p { stack = e.next }) w in
      Inv self free all r.1 r.2.heap × (r.1.in_use ≡ p.in_use + 1)
hand_out-Inv self a free all p w e i holds =
    let (e', start, found, rest') = i.stack_chain in
    let same : e' ≡ e = ground arith in
    let rest = subst (λ d. Chain (λ e. e.next) w.heap.cell d.next free) same rest' in
    (
      record {
        live = i.live;
        stack_chain =
            Chain-update_out (λ e. e.next) w.heap.cell e.next free a _ i.free_distinct.0 rest;
        all_chain =
            Chain-update_same (λ e. e.all_next) w.heap.cell p.all_entries all a e _ holds refl
              i.all_chain;
        entries = λ b h.
            let k = i.entries a (i.inside a (ground arith)) in
            IsEntry-update self a b w.heap.cell _ (a ∷ free) free (ground (arith, k.owner_eq))
              (ground (arith, k.magic_eq)) (ground (arith, i.free_distinct)) (λ n. ground arith)
              (λ n. i.entries b h);
        inside = λ b h. i.inside b (ground arith);
        below = i.below;
        free_distinct = i.free_distinct.1;
        all_distinct = i.all_distinct;
        counted = i.counted;
        used = ground (arith, i.used, i.fits, i.space);
        peaked = ground (arith, i.peaked);
        peak_fits = ground (arith, i.peak_fits, i.used, i.fits, i.space, i.counted);
        fits = i.fits;
        space = i.space;
      },
      ground (arith, i.used, i.fits, i.space),
    )

-- With a buffer on the stack, `ep_afd_pool_take` hands out the top one; the rest of the stack, the
-- entries and the invariant stay, and `in_use` goes up by one.
pub take-pop :
    (self a : ℕ) (free all : List ℕ) (p : Pool) (w : Env)
    → Inv self (a ∷ free) all p w.heap
    → (q : Pool) × (v : Env) × (take self 0 p w ≡ some (some a, q, v))
      × Inv self free all q v.heap
      × (q.in_use ≡ p.in_use + 1)
unfolding take
take-pop self a free all p w i =
    let e = i.stack_chain.0 in
    let r = hand_out a e (record p { stack = e.next }) w in
    let (kept, counted) = hand_out-Inv self a free all p w e i i.stack_chain.2 in
    (r.1, r.2, ground (arith, i.live, i.stack_chain.1, i.stack_chain.2), kept, counted)

-- What `ep_afd_pool_take` does on an empty stack, by the outcome of the allocation.
take_fresh :
    (self a : ℕ) (p : Pool) (w w' : Env)
    → p.initialized ≡ true
    → p.stack ≡ none
    → entry_alloc self p false w ≡ (some a, w')
    → w'.heap.cell a ≡ some (new_entry self false)
    → take self 0 p w
      ≡ some (
          hand_out a
            (record (new_entry self false) { all_next = p.all_entries })
            (record p { all_entries = some a; allocated = (p.allocated + 1) % size_mod })
            w')
unfolding take
take_fresh self a p w w' live empty e holds = ground arith

take_refused :
    (self : ℕ) (p : Pool) (w w' : Env)
    → p.initialized ≡ true
    → p.stack ≡ none
    → entry_alloc self p false w ≡ (none, w')
    → take self 0 p w ≡ some (none, p, w')
unfolding take
take_refused self p w w' live empty e = ground arith

Grown-Inv :
    (self : ℕ) (all : List ℕ) (p : Pool) (h : Heap Entry) (w : Env)
    → Inv self [] all p h
    → Grown (new_entry self false) h.fresh h w.heap
    → let r =
        hand_out h.fresh
          (record (new_entry self false) { all_next = p.all_entries })
          (record p { all_entries = some h.fresh; allocated = (p.allocated + 1) % size_mod })
          w in
      Inv self [] (h.fresh ∷ all) r.1 r.2.heap × (r.1.in_use ≡ p.in_use + 1)
Grown-Inv self all p h w i g =
    let e = link_entry self p in
    let linked_env = record w { heap = store h.fresh e w.heap } in
    let on_top = linked-Inv self [] all p h i linked_env.heap (record {
      at_fresh = refl;
      cells =
          ap (λ c. update c h.fresh (some e)) g.cells
          ∙ update-update h.cell h.fresh (some (new_entry self false)) (some e);
      next_fresh = g.next_fresh;
      room = g.room;
    }) in
    let out =
      hand_out-Inv self h.fresh [] (h.fresh ∷ all) (linked h.fresh p) linked_env e on_top
        (ground arith) in
    let r =
      hand_out h.fresh e
        (record p { all_entries = some h.fresh; allocated = (p.allocated + 1) % size_mod }) w in
    (
      subst
          (λ c.
            Inv self [] (h.fresh ∷ all) r.1
              (record { cell = c; fresh = w.heap.fresh; grants = w.heap.grants }))
          (update-update w.heap.cell h.fresh (some e)
            (some (record e { next = none; in_pool = false })))
          out.0,
      out.1,
    )

-- On an empty stack `ep_afd_pool_take` makes a new buffer, at an address that no buffer of the pool
-- has, and hands it out; if it cannot, it returns NULL and the pool is as before.
pub take-grow :
    (self : ℕ) (all : List ℕ) (p : Pool) (w : Env)
    → Inv self [] all p w.heap
    → ((q : Pool) × (v : Env) × (take self 0 p w ≡ some (some w.heap.fresh, q, v))
        × Inv self [] (w.heap.fresh ∷ all) q v.heap
        × (q.in_use ≡ p.in_use + 1))
      ⊎ ((v : Env) × (take self 0 p w ≡ some (none, p, v)) × Inv self [] all p v.heap)
take-grow self all p w i = elim (entry_alloc-cases self p false w) [
  | inr (refused, u) ↦
      let w' = (entry_alloc self p false w).1 in
      inr (
        w',
        take_refused self p w w' i.live i.stack_chain (ground (arith, refused)),
        Untouched-Inv self [] all p w.heap w'.heap i u,
      )
  | inl (a, given, g) ↦
      let w' = (entry_alloc self p false w).1 in
      let f = w.heap.fresh in
      let g' = subst (λ b. Grown (new_entry self false) b w.heap w'.heap) g.at_fresh g in
      let r =
        hand_out f (record (new_entry self false) { all_next = p.all_entries })
          (record p { all_entries = some f; allocated = (p.allocated + 1) % size_mod }) w' in
      let (kept, counted) = Grown-Inv self all p w.heap w' i g' in
      inl (
        r.1,
        r.2,
        take_fresh self f p w w' i.live i.stack_chain (ground (arith, given, g.at_fresh))
            (rw (g'.cells) (ground arith)),
        kept,
        counted,
      )
]
