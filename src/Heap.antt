-- ===== src/Heap.antt =====
-- The C allocator as the modules below use it: cells at addresses, each `malloc` at an address never
-- used before. `grants` holds the outcomes of the coming calls, so that a proof covers every pattern of
-- failures; the address space has `2 ^ 64` places.
pub mod Grant
use wepoll_ex.Prelude.{
  ℕ, ◌+◌, ◌^◌, ◌<◌, Option, none, some, Bool, true, false, List, [], ◌∷◌, ltb, if◌then◌else◌,
  update,
}

pub record Heap (A : Type 0) : Type 0 where
  pub cell : ℕ → Option A
  pub fresh : ℕ
  pub grants : List Bool

abbrev pub size_mod : ℕ
size_mod = 2 ^ 64

module _ {A : Type 0} where
  -- `malloc` or `calloc` of a cell with the given first contents; `none` is NULL.
  abbrev pub grant : List Bool → A → Heap A → Option ℕ × Heap A
  grant [] a h = (none, h)
  grant (false ∷ gs) a h = (none, record h { grants = gs })
  grant (true ∷ gs) a h =
      if ltb (h.fresh + 1) size_mod
      then (
        some h.fresh,
        record { cell = update h.cell h.fresh (some a); fresh = h.fresh + 1; grants = gs },
      )
      else (none, record h { grants = gs })

  abbrev pub alloc : A → Heap A → Option ℕ × Heap A
  alloc a h = grant h.grants a h

  abbrev pub free : ℕ → Heap A → Heap A
  free p h = record h { cell = update h.cell p none }

  abbrev pub store : ℕ → A → Heap A → Heap A
  store p a h = record h { cell = update h.cell p (some a) }
