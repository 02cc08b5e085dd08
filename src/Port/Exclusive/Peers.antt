-- ===== src/Port/Exclusive/Peers.antt =====
-- What the first loop of `ep_exclusive_try_claim` of src/wepoll_ex_port.c finds in a chain.
use wepoll_ex.Prelude.{
  ℕ, ◌≡◌, ◌≢◌, inl, inr, refl, ap, ◌∙◌, true, false, ◌||◌, arith, ◌==◌, if◌then◌else◌, Bool-cases,
  ℕ_discrete, List, [], ◌∷◌, has,
}
use wepoll_ex.Port.Classes.{Classes, no_class, join, meet, minus, any_class}
use wepoll_ex.Port.Exclusive.{Claims, exclusive_bucket, Gathered, scan_claim, scan}
use wepoll_ex.Port.Exclusive.Held.{held, IsClaims}

module _ (s base : ℕ) (c : Claims) where
  -- What the others in a chain hold on the base.
  abbrev pub peers : List ℕ → Classes
  peers [] = no_class
  peers (x ∷ xs) = join (if x == s then no_class else held c x base) (peers xs)

  abbrev pub own : List ℕ → Classes
  own xs = if has s xs then held c s base else no_class

  module _ (requested : Classes) where
    -- The answer of the loop for a chain of which it has seen `k` before.
    pub record Finds (xs : List ℕ) (k r : Gathered) : Type 0 where
      pub peer_terminal : r.peer_terminal ≡ (k.peer_terminal || (peers xs).terminal)
      pub owner_terminal : r.owner_terminal ≡ (k.owner_terminal || (own xs).terminal)
      pub owned : r.owned ≡ join k.owned (own xs)
      pub denied :
          (peers xs).terminal ≡ false
          → r.denied
            ≡ join k.denied (if requested.terminal then no_class else meet (peers xs) requested)

    scan_claim-Finds : (x : ℕ) (k : Gathered) → Finds (x ∷ []) k (scan_claim s base requested c x k)
    unfolding scan_claim
    scan_claim-Finds x k = record {
      peer_terminal = ground (arith, ℕ_discrete x s);
      owner_terminal = ground (arith, ℕ_discrete x s);
      owned = ground (arith, ℕ_discrete x s);
      denied = λ h. ground (arith, h, ℕ_discrete x s);
    }

    pub scan-Finds : (xs : List ℕ) (k : Gathered) → Finds xs k (scan xs s base requested c k)
    unfolding scan
    scan-Finds [] k = record {
      peer_terminal = ground arith;
      owner_terminal = ground arith;
      owned = ground arith;
      denied = λ h. ground arith;
    }
    scan-Finds (x ∷ xs) k =
        let first = scan_claim-Finds x k in
        let rest = scan-Finds xs (scan_claim s base requested c x k) in
        record {
          peer_terminal = ground (arith, first.peer_terminal, rest.peer_terminal);
          owner_terminal =
              ground (arith, first.owner_terminal, rest.owner_terminal, ℕ_discrete x s);
          owned = ground (arith, first.owned, rest.owned, ℕ_discrete x s);
          denied = λ h.
              let head_free : (peers (x ∷ [])).terminal ≡ false = ground (arith, h) in
              let rest_free : (peers xs).terminal ≡ false = ground (arith, h) in
              rest.denied rest_free
              ∙ ap
                  (λ (a : Classes).
                    join a (if requested.terminal then no_class else meet (peers xs) requested))
                  (first.denied head_free)
              ∙ gather k.denied (if x == s then no_class else held c x base) (peers xs) requested;
        }
      where
        gather :
            (a h p r : Classes)
            → join
                (join a (if r.terminal then no_class else meet (join h no_class) r))
                (if r.terminal then no_class else meet p r)
              ≡ join a (if r.terminal then no_class else meet (join h p) r)
        gather a h p r = ground arith

  peers-has :
      (t : ℕ) (xs : List ℕ)
      → t ≢ s
      → has t xs ≡ true
      → any_class (minus (held c t base) (peers xs)) ≡ false
  peers-has t [] n h = absurd (cc)
  peers-has t (x ∷ xs) n h = elim (ℕ_discrete t x) [
    | yes here ↦
        let same : held c t base ≡ held c x base = ap (λ y. held c y base) here in
        ground (arith, same, n, here)
    | no away ↦ ground (arith, peers-has t xs n (ground (arith, h, away)))
  ]

  -- Every claim of another on the base is in the chain, so it is seen.
  pub peers-all :
      (t : ℕ)
      → IsClaims c
      → t ≢ s
      → any_class (minus (held c t base) (peers (c.chains (exclusive_bucket base)))) ≡ false
  peers-all t v n = elim (Bool-cases (has t (c.chains (exclusive_bucket base)))) [
    | inl here ↦ peers-has t (c.chains (exclusive_bucket base)) n here
    | inr away ↦
        ground (arith, away, v.member (exclusive_bucket base) t, ℕ_discrete (c.claim_base t) base)
  ]

  pub own-all : IsClaims c → own (c.chains (exclusive_bucket base)) ≡ held c s base
  own-all v = elim (Bool-cases (has s (c.chains (exclusive_bucket base)))) [
    | inl here ↦ rw here refl
    | inr away ↦
        ground (arith, away, v.member (exclusive_bucket base) s, ℕ_discrete (c.claim_base s) base)
  ]

  pub peers-none :
      (xs : List ℕ) → ((t : ℕ) → t ≢ s → held c t base ≡ no_class) → peers xs ≡ no_class
  peers-none [] free = refl
  peers-none (x ∷ xs) free = elim (ℕ_discrete x s) [
    | yes same ↦ ground (arith, same, peers-none xs free)
    | no other ↦ ground (arith, other, free x other, peers-none xs free)
  ]
