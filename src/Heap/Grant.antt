-- ===== src/Heap/Grant.antt =====
-- What one call of the allocator can do.
use wepoll_ex.Prelude.{
  ℕ, ◌+◌, ◌<◌, ◌≡◌, ◌⊎◌, inl, inr, refl, Bool, true, false, none, some, List, [], ◌∷◌, arith, ltb,
  update, Bool-cases,
}
use wepoll_ex.Heap.{Heap, size_mod, grant}

-- The heap is as it was, but for one new cell at the first unused address.
pub record Grown {A : Type 0} (e : A) (a : ℕ) (h h' : Heap A) : Type 0 where
  pub at_fresh : a ≡ h.fresh
  pub cells : h'.cell ≡ update h.cell a (some e)
  pub next_fresh : h'.fresh ≡ h.fresh + 1
  pub room : h.fresh + 1 < size_mod

-- No cell and no address was used up.
pub record Untouched {A : Type 0} (h h' : Heap A) : Type 0 where
  pub cells : h'.cell ≡ h.cell
  pub same_fresh : h'.fresh ≡ h.fresh

pub grant-cases :
    {A : Type 0} (gs : List Bool) (e : A) (h : Heap A)
    → let (r, h') = grant gs e h in
      ((a : ℕ) × (r ≡ some a) × Grown e a h h') ⊎ ((r ≡ none) × Untouched h h')
grant-cases [] e h = inr (refl, record { cells = refl; same_fresh = refl })
grant-cases (false ∷ gs) e h = inr (refl, record { cells = refl; same_fresh = refl })
grant-cases (true ∷ gs) e h = elim (Bool-cases (ltb (h.fresh + 1) size_mod)) [
  | inl fits ↦ inl (h.fresh, ground arith, ground arith)
  | inr full ↦ inr (ground arith, ground arith)
]
