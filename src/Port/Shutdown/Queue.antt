-- ===== src/Port/Shutdown/Queue.antt =====
-- What the publication of a local shutdown of src/wepoll_ex_port.c reports.
use wepoll_ex.Prelude.{
  Bool-cases, inl, inr, ℕ, ◌^◌, ◌<◌, ◌≡◌, refl, ap, ◌∙◌, Bool, true, false, ◌&&◌, ◌||◌, not, arith,
  ltb, if◌then◌else◌, bit_and,
}
use wepoll_ex.Bits.{test_bit, test_bit-bit_and, test_bit-bit_or, bit_and-le}
use wepoll_ex.Bits.Masks.{meets, without, test_bit-without}
use wepoll_ex.Port.State.{Registration, epollet}
use wepoll_ex.Port.Levels.{reported}
use wepoll_ex.Port.Shutdown.{edge}

-- The bits of the first word are among those of the second.
abbrev pub Within : (x y : ℕ) → Type 0
Within x y = (k : ℕ) → test_bit k x ≡ true → test_bit k y ≡ true

-- What a node that is queued already reports.
abbrev pub waiting : Registration → ℕ
waiting r = if r.ready_queued then r.pending_events else 0

bits_edge :
    (o l i : Bool)
    → (l ≡ true → i ≡ true)
    → ((o && (l && i)) ≡ (o && l)) × ((l && not (o && (l && i))) ≡ (l && not o))
bits_edge true true i h = (h refl, ap (λ b. not b) (h refl))
bits_edge true false i h = (refl, refl)
bits_edge false l i h = (refl, refl)

back_together : (o l : Bool) → ((o && l) || (l && not o)) ≡ l
back_together true true = refl
back_together true false = refl
back_together false true = refl
back_together false false = refl

whole : (b : Bool) → b ≡ (b && true)
whole true = refl
whole false = refl

-- A registration is told what waits already and the level, but for what an edge-triggered one has observed; an
-- edge-triggered one has observed exactly the level afterwards.
pub edge-exact :
    (r : Registration) (level k : ℕ)
    → Within level (reported r)
    → r.interest.observed_events < 2 ^ 32
    → k < 32
    → (test_bit k (edge r level).delivered ≡ (
        test_bit k (waiting r)
        || test_bit k level
          && not (meets r.interest.user_flags epollet && test_bit k r.interest.observed_events)))
      × (test_bit k (edge r level).observed ≡ (
          if meets r.interest.user_flags epollet
          then test_bit k level
          else test_bit k r.interest.observed_events))
unfolding edge
edge-exact r level k within small low = elim (Bool-cases (meets r.interest.user_flags epollet)) [
  | inl et ↦ rw et (
    test_bit-bit_or k (waiting r) (without level old) ∙ rw fresh_bit refl,
    test_bit-bit_or k old (without level old)
        ∙ rw (old_bit, fresh_bit)
            (back_together (test_bit k r.interest.observed_events) (test_bit k level)),
  )
  | inr lt ↦ rw lt (
    test_bit-bit_or k (waiting r) level
        ∙ ap (λ b. test_bit k (waiting r) || b) (whole (test_bit k level)),
    refl,
  )
]
  where
    old : ℕ
    old = bit_and r.interest.observed_events (bit_and level (reported r))

    simple :
        ((test_bit k r.interest.observed_events && (test_bit k level && test_bit k (reported r)))
          ≡ (test_bit k r.interest.observed_events && test_bit k level))
        × ((test_bit k level
              && not (
                  test_bit k r.interest.observed_events
                  && (test_bit k level && test_bit k (reported r))))
            ≡ (test_bit k level && not (test_bit k r.interest.observed_events)))
    simple =
        bits_edge (test_bit k r.interest.observed_events) (test_bit k level)
          (test_bit k (reported r)) (within k)

    spread :
        test_bit k old
        ≡ (test_bit k r.interest.observed_events && (test_bit k level && test_bit k (reported r)))
    spread =
        test_bit-bit_and k r.interest.observed_events (bit_and level (reported r))
        ∙ ap (λ b. test_bit k r.interest.observed_events && b)
            (test_bit-bit_and k level (reported r))

    old_bit : test_bit k old ≡ (test_bit k r.interest.observed_events && test_bit k level)
    old_bit = spread ∙ simple.0

    old_small : old < 2 ^ 32
    old_small =
        omega (arith, bit_and-le r.interest.observed_events (bit_and level (reported r)), small)

    below : ltb k 32 ≡ true
    below = ground (arith, low)

    fresh_bit :
        test_bit k (without level old)
        ≡ (test_bit k level && not (test_bit k r.interest.observed_events))
    fresh_bit = test_bit-without k level old old_small ∙ rw (below, spread) simple.1
