-- ===== src/Api/Allocate.antt =====
-- `epfd_allocate_id_locked`: a number that is not in use, if there is one.
use wepoll_ex.Prelude.{
  ℕ, zero, suc, ◌+◌, ◌-◌, ◌≤◌, ◌<◌, ◌≡◌, ◌≢◌, ◌⊎◌, inl, inr, refl, ◌∙◌, sym, subst, Option, none,
  some, arith, ltb, if◌then◌else◌, Bool-cases, Option-cases,
}
use wepoll_ex.Prelude.Int.{pos}
use wepoll_ex.Api.Table.{
  Entry, Table, find_locked, int_max, next_after, allocate_from, allocate_id_locked,
}
use wepoll_ex.Api.Lookup.{IsTable}

abbrev pub InUse : ℕ → Table → Type 0
InUse fd t = find_locked (pos fd) t ≢ none

-- The table as before, but for the number to try next.
abbrev pub with_next : ℕ → Table → Table
with_next k t = record t { next_fd = k }

find-with_next :
    (fd k : ℕ) (t : Table) → find_locked (pos fd) (with_next k t) ≡ find_locked (pos fd) t
unfolding find_locked
find-with_next fd k t = refl

with_next-IsTable : (k : ℕ) (t : Table) → IsTable t → 0 < k → k ≤ int_max → IsTable (with_next k t)
with_next-IsTable k t v positive small = record {
  next_positive = positive;
  next_small = small;
  chains = v.chains;
}

-- The number that is tried `j` rounds after `c`.
abbrev pub tried : ℕ → ℕ → ℕ
tried zero c = c
tried (suc j) c = tried j (next_after c)

-- How the search ends: with a number that is not in use, or after finding all that it tried in use.
abbrev pub Searched : ℕ → Table → Option ℕ × Table → Type 0
Searched n t (some fd, t') =
    (0 < fd)
    × (fd ≤ int_max)
    × (find_locked (pos fd) t ≡ none)
    × ((k : ℕ) × (t' ≡ with_next k t) × (0 < k) × (k ≤ int_max))
Searched n t (none, t') =
    ((j : ℕ) → j < n → InUse (tried j t.next_fd) t)
    × ((k : ℕ) × (t' ≡ with_next k t) × (0 < k) × (k ≤ int_max))

next_after-bounds : (c : ℕ) → c ≤ int_max → (0 < next_after c) × (next_after c ≤ int_max)
next_after-bounds c h = ground arith

Searched-later :
    (n : ℕ) (t : Table) (r : Option ℕ × Table)
    → InUse t.next_fd t
    → Searched n (with_next (next_after t.next_fd) t) r
    → Searched (suc n) t r
Searched-later n t (some fd, t') used s =
    (s.0, s.1, sym (find-with_next fd (next_after t.next_fd) t) ∙ s.2, s.3)
Searched-later n t (none, t') used (all, frame) = (each, frame)
  where
    each : (j : ℕ) → j < suc n → InUse (tried j t.next_fd) t
    each zero h = used
    each (suc j) h =
        subst (λ o. o ≢ none) (find-with_next (tried (suc j) t.next_fd) (next_after t.next_fd) t)
          (all j (omega arith))

allocate_hit :
    (n : ℕ) (t : Table)
    → 0 < t.next_fd
    → find_locked (pos t.next_fd) t ≡ none
    → allocate_from (suc n) t ≡ (some t.next_fd, with_next (next_after t.next_fd) t)
unfolding allocate_from
allocate_hit n t h e = ground (arith, find-with_next t.next_fd (next_after t.next_fd) t)

allocate_miss :
    (n : ℕ) (t : Table) (e : Entry)
    → find_locked (pos t.next_fd) t ≡ some e
    → allocate_from (suc n) t ≡ allocate_from n (with_next (next_after t.next_fd) t)
unfolding allocate_from
allocate_miss n t e h = ground (arith, find-with_next t.next_fd (next_after t.next_fd) t)

allocate_none : (t : Table) → allocate_from zero t ≡ (none, t)
unfolding allocate_from
allocate_none t = refl

allocate_from-Searched : (n : ℕ) (t : Table) → IsTable t → Searched n t (allocate_from n t)
allocate_from-Searched zero t v =
    rw (allocate_none t)
      (λ j h. absurd (omega arith), (t.next_fd, refl, v.next_positive, v.next_small))
allocate_from-Searched (suc n) t v =
    let next = next_after-bounds t.next_fd v.next_small in
    elim (Option-cases (find_locked (pos t.next_fd) t)) [
      | inl e ↦
          rw (allocate_hit n t v.next_positive e)
            (v.next_positive, v.next_small, e, (next_after t.next_fd, refl, next.0, next.1))
      | inr (x, e) ↦ rw (allocate_miss n t x e) (
          Searched-later n t _ (λ none_there. cc)
            (allocate_from-Searched n (with_next (next_after t.next_fd) t)
              (with_next-IsTable (next_after t.next_fd) t v next.0 next.1)))
    ]

tried_closed :
    (j c : ℕ)
    → 0 < c
    → c ≤ int_max
    → j ≤ int_max
    → tried j c ≡ (if ltb int_max (c + j) then c + j - int_max else c + j)
tried_closed zero c h k l = ground arith
tried_closed (suc j) c h k l = ground (arith, tried_closed j (next_after c))

-- The search comes to every positive `int`.
tried-reaches :
    (c fd : ℕ)
    → 0 < c
    → c ≤ int_max
    → 0 < fd
    → fd ≤ int_max
    → (j : ℕ) × (j < int_max) × (tried j c ≡ fd)
tried-reaches c fd h k p q = elim (Bool-cases (ltb fd c)) [
  | inl before ↦ (fd + int_max - c, ground arith, ground (arith, tried_closed (fd + int_max - c) c))
  | inr after ↦ (fd - c, ground arith, ground (arith, tried_closed (fd - c) c))
]

-- `epfd_allocate_id_locked` finds a positive `int` that names nothing and moves on `g_next_fd` alone;
-- it fails only if every positive `int` is in use.
pub allocate_id-fresh :
    (t : Table)
    → IsTable t
    → let (r, t') = allocate_id_locked t in
      ((fd : ℕ) × (r ≡ some fd)
        × (0 < fd)
        × (fd ≤ int_max)
        × (find_locked (pos fd) t ≡ none)
        × (t' ≡ with_next t'.next_fd t)
        × IsTable t')
      ⊎ ((r ≡ none)
          × ((fd : ℕ) → 0 < fd → fd ≤ int_max → InUse fd t)
          × (t' ≡ with_next t'.next_fd t)
          × IsTable t')
unfolding allocate_id_locked
allocate_id-fresh t v = settle (allocate_from int_max t) (allocate_from-Searched int_max t v)
  where
    settle :
        (r : Option ℕ × Table)
        → Searched int_max t r
        → ((fd : ℕ) × (r.0 ≡ some fd)
            × (0 < fd)
            × (fd ≤ int_max)
            × (find_locked (pos fd) t ≡ none)
            × (r.1 ≡ with_next r.1.next_fd t)
            × IsTable r.1)
          ⊎ ((r.0 ≡ none)
              × ((fd : ℕ) → 0 < fd → fd ≤ int_max → InUse fd t)
              × (r.1 ≡ with_next r.1.next_fd t)
              × IsTable r.1)
    settle (some fd, t') (positive, small, new, (k, e, p, q)) =
        inl (fd, refl, positive, small, new, ground arith, rw e (with_next-IsTable k t v p q))
    settle (none, t') (all, (k, e, p, q)) =
        inr (refl, covered, ground arith, rw e (with_next-IsTable k t v p q))
      where
        covered : (fd : ℕ) → 0 < fd → fd ≤ int_max → InUse fd t
        covered fd h l =
            let (j, small, here) = tried-reaches t.next_fd fd v.next_positive v.next_small h l in
            subst (λ x. InUse x t) here (all j small)
