-- ===== src/Port/FdTable/Find.antt =====
-- `ep_fd_table_lookup` of src/wepoll_ex_port.c, and the search for a free slot.
use native.Mathlib.Nat.{mod-lt}
use wepoll_ex.Prelude.{
  ℕ, zero, suc, ◌+◌, ◌%◌, ◌≤◌, ◌<◌, ◌≡◌, ◌≢◌, inl, inr, ◌∙◌, sym, ap, subst, arith, ℕ_discrete,
  none, some, Option-cases,
}
use wepoll_ex.Port.FdTable.{Sock, Slots, FdTable, lookup, lookup_from, free_slot}
use wepoll_ex.Port.FdTable.Walk.{walk, walk-injective}

abbrev pub home : (size : ℕ) → Sock → ℕ
home size s = s.fd % size

-- The slots that a search for `s` passes before `j` are taken.
pub record Placed (size : ℕ) (t : Slots) (j : ℕ) (s : Sock) : Type 0 where
  pub steps : ℕ
  pub few : steps < size
  pub arrives : walk size steps (home size s) ≡ j
  pub taken : (k : ℕ) → k < steps → t (walk size k (home size s)) ≢ none

pub record IsFdTable (size : ℕ) (t : Slots) : Type 0 where
  pub some_slot : 0 < size
  pub inside : (j : ℕ) (s : Sock) → t j ≡ some s → j < size
  pub placed : (j : ℕ) (s : Sock) → t j ≡ some s → Placed size t j s
  pub one_each : (j k : ℕ) (s s' : Sock) → t j ≡ some s → t k ≡ some s' → s.fd ≡ s'.fd → j ≡ k

-- From step `i` on, with a free slot ahead, the search meets the first one.
pub free_slot-first :
    (rounds i last size h : ℕ) (t : Slots)
    → i ≤ last
    → last < i + rounds
    → t (walk size last h) ≡ none
    → (k : ℕ) × ((i ≤ k)
        × (k ≤ last)
        × (free_slot rounds (walk size i h) size t ≡ some (walk size k h))
        × (t (walk size k h) ≡ none)
        × ((x : ℕ) → i ≤ x → x < k → t (walk size x h) ≢ none))
unfolding free_slot
free_slot-first zero i last size h t le lt free = absurd (omega arith)
free_slot-first (suc rounds) i last size h t le lt free = elim (Option-cases (t (walk size i h))) [
  | inl here ↦ (i, (omega arith, le, ground (arith, here), here, λ x a b. absurd (omega arith)))
  | inr (s, taken) ↦
      let later : i ≢ last =
        λ e. absurd (ground (arith, taken, free, ap (λ n. t (walk size n h)) e)) in
      let (k, (a, b, runs, empty, before)) =
        free_slot-first rounds (suc i) last size h t (omega (arith, later)) (omega arith) free in
      (
        k,
        (
          omega arith,
          b,
          ground (arith, taken, runs),
          empty,
          λ x p q e. elim (ℕ_discrete i x) [
            | yes same ↦ absurd (ground (arith, taken, ap (λ n. t (walk size n h)) same, e))
            | no more ↦ before x (omega arith) q e
          ],
        ),
      )
]

-- What a search finds has the number that was looked for.
lookup_from-found :
    (probes slot fd size : ℕ) (t : Slots) (s : Sock)
    → lookup_from probes slot fd size t ≡ some s
    → (s.fd ≡ fd) × (j : ℕ) × (t j ≡ some s)
unfolding lookup_from
lookup_from-found zero slot fd size t s e = absurd (cc)
lookup_from-found (suc probes) slot fd size t s e = elim (Option-cases (t slot)) [
  | inl free ↦ absurd (ground (arith, free, e))
  | inr (x, here) ↦ elim (ℕ_discrete x.fd fd) [
    | yes same ↦
        let it : x ≡ s = ground (arith, here, e, same) in
        (ap (λ (y : Sock). y.fd) (sym it) ∙ same, slot, here ∙ ap some it)
    | no other ↦
        lookup_from-found probes ((slot + 1) % size) fd size t s (ground (arith, here, e, other))
  ]
]

-- A socket that is there is found.
lookup_from-there :
    (probes i size j : ℕ) (t : Slots) (s : Sock)
    → IsFdTable size t
    → t j ≡ some s
    → (p : Placed size t j s) → i ≤ p.steps
    → p.steps < i + probes
    → lookup_from probes (walk size i (home size s)) s.fd size t ≡ some s
unfolding lookup_from
lookup_from-there zero i size j t s v here p le lt = absurd (omega arith)
lookup_from-there (suc probes) i size j t s v here p le lt = elim (ℕ_discrete i p.steps) [
  | yes last ↦
      let at = ap (λ n. t (walk size n (home size s))) last ∙ ap t p.arrives ∙ here in
      ground (arith, at)
  | no more ↦ elim (Option-cases (t (walk size i (home size s)))) [
    | inl free ↦ absurd (p.taken i (omega arith) free)
    | inr (x, there) ↦ elim (ℕ_discrete x.fd s.fd) [
      | yes same ↦
          let one = v.one_each (walk size i (home size s)) j x s there here same in
          let steps =
            walk-injective size i p.steps (home size s) (mod-lt s.fd v.some_slot)
              (omega (arith, p.few)) p.few (one ∙ sym p.arrives) in
          absurd (more steps)
      | no other ↦
          let rest =
            lookup_from-there probes (suc i) size j t s v here p (omega arith) (omega arith) in
          ground (arith, there, other, rest)
    ]
  ]
]

module _ (fd : ℕ) (p : FdTable) (v : IsFdTable p.size p.slots) where
  -- `ep_fd_table_lookup` finds every socket of the table by its number.
  pub lookup-there : (j : ℕ) (s : Sock) → p.slots j ≡ some s → s.fd ≡ fd → lookup fd p ≡ some s
  unfolding lookup
  lookup-there j s here same =
      let k = v.placed j s here in
      let found =
        lookup_from-there p.size 0 p.size j p.slots s v here k (omega arith)
          (omega (arith, k.few)) in
      subst (λ n. lookup n p ≡ some s) same (ground (arith, v.some_slot, found))

  pub lookup-found :
      (s : Sock) → lookup fd p ≡ some s → (s.fd ≡ fd) × (j : ℕ) × (p.slots j ≡ some s)
  unfolding lookup
  lookup-found s e =
      lookup_from-found p.size (fd % p.size) fd p.size p.slots s (ground (arith, v.some_slot, e))
