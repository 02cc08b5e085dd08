-- ===== src/Pool/Init.antt =====
-- `ep_afd_pool_init`: a full pool, or no trace of one.
use wepoll_ex.Prelude.{
  ℕ, zero, suc, ◌+◌, ◌≤◌, ◌<◌, ◌≡◌, ◌⊎◌, inl, inr, refl, sym, ◌∙◌, ap, subst, true, false, Option,
  none, some, List, [], ◌∷◌, arith, has, length, update, Bool-cases,
}
use wepoll_ex.Status.{Status, ok, failed}
use wepoll_ex.Heap.{Heap, size_mod, store}
use wepoll_ex.Pool.{
  Entry, Pool, Env, entries_free, entry_alloc, new_entry, with_entry, fill, init, zero_pool,
}
use wepoll_ex.Pool.Inv.{Inv}
use wepoll_ex.Pool.Free.{entries_free-Freed}
use wepoll_ex.Heap.Grant.{Grown}
use wepoll_ex.Pool.Grow.{
  entry_alloc-cases, linked, link_entry, linked-Inv, Untouched-Inv, update-update,
}

-- Only the entries `xs` are new since `h₀`.
pub record Since (h0 : Heap Entry) (xs : List ℕ) (h : Heap Entry) : Type 0 where
  pub others : (b : ℕ) → has b xs ≡ false → h.cell b ≡ h0.cell b
  pub news : (b : ℕ) → has b xs ≡ true → h0.fresh ≤ b
  pub grows : h0.fresh ≤ h.fresh

-- Every cell is as in `h0`, but for those of new addresses that are gone again.
abbrev pub NoTrace : Heap Entry → Heap Entry → Type 0
NoTrace h0 h = (b : ℕ) → (h.cell b ≡ h0.cell b) ⊎ ((h.cell b ≡ none) × (h0.fresh ≤ b))

-- How the fill loop ends.
abbrev pub Filled : ℕ → ℕ → Heap Entry → Option (Status × Pool × Env) → Type 0
Filled self n h0 r =
    ((xs : List ℕ) × (q : Pool) × (v : Env) × (r ≡ some (ok, q, v))
      × Inv self xs xs q v.heap
      × (length xs ≡ n)
      × Since h0 xs v.heap)
    ⊎ ((q : Pool) × (v : Env) × (r ≡ some (failed, q, v))
        × (q.initialized ≡ false)
        × NoTrace h0 v.heap)

with_entry_at :
    (self a : ℕ) (p : Pool) (w : Env)
    → w.heap.cell a ≡ some (new_entry self true)
    → with_entry a p w ≡ (linked a p, record w { heap = store a (link_entry self p) w.heap })
with_entry_at self a p w e = ground arith

with_entry-Inv :
    (self : ℕ) (xs : List ℕ) (p : Pool) (h h0 : Heap Entry) (w : Env)
    → Inv self xs xs p h
    → Since h0 xs h
    → Grown (new_entry self true) h.fresh h w.heap
    → let (q, v) = with_entry h.fresh p w in
      Inv self (h.fresh ∷ xs) (h.fresh ∷ xs) q v.heap × Since h0 (h.fresh ∷ xs) v.heap
with_entry-Inv self xs p h h0 w i s g =
    rw (with_entry_at self h.fresh p w (rw g.cells (ground arith))) (
      linked-Inv self xs xs p h i linked_heap
          (record { at_fresh = refl; cells = cells; next_fresh = g.next_fresh; room = g.room }),
      record {
        others = λ b n. ap (λ c. c b) cells ∙ ground (arith, s.others b);
        news = λ b n. ground (arith, s.news b, s.grows);
        grows = ground (arith, s.grows, g.next_fresh);
      },
    )
  where
    linked_heap : Heap Entry
    linked_heap = store h.fresh (link_entry self p) w.heap

    cells : linked_heap.cell ≡ update h.cell h.fresh (some (link_entry self p))
    cells =
        ap (λ c. update c h.fresh (some (link_entry self p))) g.cells
        ∙ update-update h.cell h.fresh (some (new_entry self true)) (some (link_entry self p))

-- One round of the loop, by the outcome of its allocation.
fill_given :
    (rounds self a : ℕ) (p : Pool) (w w' : Env)
    → entry_alloc self p true w ≡ (some a, w')
    → fill (suc rounds) self p w ≡ (let (q, v) = with_entry a p w' in fill rounds self q v)
unfolding fill
fill_given rounds self a p w w' e = ground arith

fill_refused :
    (rounds self : ℕ) (p : Pool) (w w' : Env) (h : Heap Entry)
    → entry_alloc self p true w ≡ (none, w')
    → entries_free p.allocated p.all_entries w'.heap ≡ some h
    → fill (suc rounds) self p w
      ≡ some (
        failed,
        record p { stack = none; all_entries = none; allocated = 0; initialized = false },
        record w' { heap = h },
      )
unfolding fill
fill_refused rounds self p w w' h e f = ground arith

fill-zero : (self : ℕ) (p : Pool) (w : Env) → fill zero self p w ≡ some (ok, p, w)
unfolding fill
fill-zero self p w = refl

fill-Filled :
    (rounds self n : ℕ) (xs : List ℕ) (p : Pool) (h0 : Heap Entry) (w : Env)
    → Inv self xs xs p w.heap
    → Since h0 xs w.heap
    → rounds + length xs ≡ n
    → Filled self n h0 (fill rounds self p w)
fill-Filled zero self n xs p h0 w i s e = inl (xs, p, w, fill-zero self p w, i, omega arith, s)
fill-Filled (suc rounds) self n xs p h0 w i s e = elim (entry_alloc-cases self p true w) [
  | inl (a, given, g) ↦
      let f = w.heap.fresh in
      let w' = (entry_alloc self p true w).1 in
      let r = with_entry f p w' in
      let step =
        with_entry-Inv self xs p w.heap h0 w' i s
          (subst (λ b. Grown (new_entry self true) b w.heap w'.heap) g.at_fresh g) in
      subst (λ r. Filled self n h0 r)
        (sym (fill_given rounds self f p w w' (ground (arith, given, g.at_fresh))))
        (fill-Filled rounds self n (f ∷ xs) r.0 h0 r.1 step.0 step.1 (omega arith))
  | inr (refused, u) ↦
      let w' = (entry_alloc self p true w).1 in
      let i' = Untouched-Inv self xs xs p w.heap w'.heap i u in
      let (h, runs, gone) =
        entries_free-Freed p.allocated xs p.all_entries w'.heap i'.all_chain i'.all_distinct
          (omega (arith, i.counted)) in
      inr (
        record p { stack = none; all_entries = none; allocated = 0; initialized = false },
        record w' { heap = h },
        fill_refused rounds self p w w' h (ground (arith, refused)) runs,
        refl,
        λ b. elim (Bool-cases (has b xs)) [
          | inl new ↦ inr (ground (arith, gone.cells b), s.news b new)
          | inr old ↦
              inl (
                ground
                  (arith, gone.cells b, ap (λ (c : ℕ → Option Entry). c b) u.cells, s.others b))
        ],
      )
]

-- `ep_afd_pool_init` with legal sizes gives a pool of exactly `capacity` free buffers, all new; or it
-- fails and the pool is not initialized, and every cell that it allocated is free again.
pub init-Filled :
    (self buf_size capacity : ℕ) (p : Pool) (w : Env)
    → 0 < buf_size
    → 0 < capacity
    → w.heap.fresh < size_mod
    → Filled self capacity w.heap (init 0 (some self) buf_size capacity p w)
unfolding init
init-Filled self buf_size capacity p w b c space =
    let fresh = record zero_pool { buf_size = buf_size; capacity = capacity; initialized = true } in
    let filled =
      fill-Filled capacity self capacity [] fresh w.heap w
        (record {
          live = refl;
          stack_chain = refl;
          all_chain = refl;
          entries = λ a h. absurd (cc);
          inside = λ a h. absurd (cc);
          below = λ a h. absurd (cc);
          free_distinct = tt;
          all_distinct = tt;
          counted = refl;
          used = refl;
          peaked = omega arith;
          peak_fits = omega arith;
          fits = omega arith;
          space = space;
        })
        (record { others = λ a h. refl; news = λ a h. absurd (cc); grows = omega arith })
        (omega arith) in
    subst (λ r. Filled self capacity w.heap r) (ground arith) filled
