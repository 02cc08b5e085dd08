-- ===== src/Port/FdTable/Walk.antt =====
-- The walk around the table of sockets of src/wepoll_ex_port.c.
use native.Mathlib.Nat.{mod-eq_of_lt, mod_self, mod-lt}
use wepoll_ex.Prelude.{
  ℕ, zero, suc, ◌+◌, ◌-◌, ◌%◌, ◌<◌, ◌≡◌, inl, inr, ◌∙◌, sym, subst, arith, if◌then◌else◌, ltb,
  ℕ_discrete, Bool-cases,
}

step-inside : (slot size : ℕ) → slot + 1 < size → (slot + 1) % size ≡ slot + 1
step-inside slot size h = mod-eq_of_lt h

step-end : (slot size : ℕ) → slot + 1 ≡ size → (slot + 1) % size ≡ 0
step-end slot size h = subst (λ n. n % size ≡ 0) (sym h) (mod_self size)

-- The slot `i` steps behind `home`.
abbrev pub walk : (size i home : ℕ) → ℕ
walk size zero home = home
walk size (suc i) home = (walk size i home + 1) % size

pub walk-lt : (size i home : ℕ) → home < size → walk size i home < size
walk-lt size zero home h = h
walk-lt size (suc i) home h = mod-lt (walk size i home + 1) (omega arith)

pub walk_closed :
    (size i home : ℕ)
    → home < size
    → i < size
    → walk size i home ≡ (if ltb (home + i) size then home + i else home + i - size)
walk_closed size zero home h k = ground arith
walk_closed size (suc i) home h k =
    let before = walk_closed size i home h (omega arith) in
    let w = walk size i home in
    elim (ℕ_discrete (w + 1) size) [
      | yes at_end ↦ step-end w size at_end ∙ ground (arith, before, at_end)
      | no more ↦
          step-inside w size (ground (arith, walk-lt size i home h, more))
          ∙ ground (arith, before, more)
    ]

-- Every slot is on the walk.
pub walk-reaches :
    (size j home : ℕ) → home < size → j < size → (i : ℕ) × (i < size) × (walk size i home ≡ j)
walk-reaches size j home h k = elim (Bool-cases (ltb j home)) [
  | inl behind ↦ (
    j + size - home,
    ground arith,
    walk_closed size (j + size - home) home h (ground arith) ∙ ground arith,
  )
  | inr ahead ↦
      (j - home, ground arith, walk_closed size (j - home) home h (ground arith) ∙ ground arith)
]

-- No slot is on the walk twice.
pub walk-injective :
    (size i k home : ℕ)
    → home < size
    → i < size
    → k < size
    → walk size i home ≡ walk size k home
    → i ≡ k
walk-injective size i k home h li lk e =
    ground (arith, walk_closed size i home h li, walk_closed size k home h lk)
