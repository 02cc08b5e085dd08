-- ===== src/Pool/Give.antt =====
-- `ep_afd_pool_give`: a buffer comes back once; a second return of it changes nothing.
use wepoll_ex.Prelude.{
  ℕ, ◌+◌, ◌-◌, ◌<◌, ◌≡◌, refl, true, false, some, List, ◌∷◌, arith, has, length-le_of_has,
}
use wepoll_ex.Errno.Codes.{einval}
use wepoll_ex.Heap.{Heap, store}
use wepoll_ex.Pool.{Entry, Pool, Env, give, fail_with}
use wepoll_ex.Pool.Chain.{Chain-update_out, Chain-update_same}
use wepoll_ex.Pool.Inv.{Inv, IsEntry-update}

-- A buffer of the pool that is out can be counted among those in use.
in_use-pos :
    (self a : ℕ) (free all : List ℕ) (p : Pool) (h : Heap Entry)
    → Inv self free all p h
    → has a all ≡ true
    → has a free ≡ false
    → 0 < p.in_use
in_use-pos self a free all p h i old out = omega (
  arith,
  i.used,
  length-le_of_has (a ∷ free) all (out, i.free_distinct) (λ b k. ground (arith, i.inside b)),
)

-- A buffer that is out goes on top of the stack; the entries and the invariant stay, and `in_use` goes
-- down by one.
pub give-push :
    (self a : ℕ) (free all : List ℕ) (p : Pool) (w : Env)
    → Inv self free all p w.heap
    → has a all ≡ true
    → has a free ≡ false
    → (q : Pool) × (v : Env) × (give self 0 (some a) p w ≡ some (q, v))
      × Inv self (a ∷ free) all q v.heap
      × (q.in_use + 1 ≡ p.in_use)
      × (v.err ≡ w.err)
unfolding give
give-push self a free all p w i old out =
    let k = i.entries a old in
    let e = k.entry in
    let e' = record e { in_pool = true; next = p.stack } in
    let q = record p { stack = some a; in_use = p.in_use - 1 } in
    let v = record w { heap = store a e' w.heap } in
    let pos = in_use-pos self a free all p w.heap i old out in
    (
      q,
      v,
      ground (arith, k.there, k.owner_eq, k.magic_eq, k.in_pool_eq, i.live, pos),
      record {
        live = i.live;
        stack_chain = (
          e',
          refl,
          ground arith,
          Chain-update_out (λ e. e.next) w.heap.cell p.stack free a _ out i.stack_chain,
        );
        all_chain =
            Chain-update_same (λ e. e.all_next) w.heap.cell p.all_entries all a e e' k.there refl
              i.all_chain;
        entries = λ b h.
            IsEntry-update self a b w.heap.cell e' free (a ∷ free) k.owner_eq k.magic_eq
              (ground arith) (λ n. ground arith) (λ n. i.entries b h);
        inside = λ b h. ground (arith, i.inside b);
        below = i.below;
        free_distinct = (out, i.free_distinct);
        all_distinct = i.all_distinct;
        counted = i.counted;
        used = ground (arith, i.used, pos);
        peaked = ground (arith, i.peaked);
        peak_fits = i.peak_fits;
        fits = i.fits;
        space = i.space;
      },
      ground (arith, pos),
      refl,
    )

-- A buffer that is on the stack already is refused with EINVAL: the pool and the heap stay.
pub give-twice :
    (self a : ℕ) (free all : List ℕ) (p : Pool) (w : Env)
    → Inv self free all p w.heap
    → has a free ≡ true
    → give self 0 (some a) p w ≡ some (p, fail_with einval w)
unfolding give
give-twice self a free all p w i h =
    let k = i.entries a (i.inside a h) in
    ground (arith, k.there, k.owner_eq, k.magic_eq, k.in_pool_eq, i.live)
