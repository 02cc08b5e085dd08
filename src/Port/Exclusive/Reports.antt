-- ===== src/Port/Exclusive/Reports.antt =====
-- What a call of `ep_exclusive_try_claim` of src/wepoll_ex_port.c lets through, and the runs of the
-- operations on claims.
use wepoll_ex.Prelude.{
  ℕ, ◌≡◌, ◌≢◌, refl, sym, ap, subst, ◌∙◌, Bool, true, false, ◌&&◌, ◌||◌, not, arith, if◌then◌else◌,
  Option, none, some, List, [], ◌∷◌,
}
use wepoll_ex.Port.Classes.{
  Classes, no_class, join, meet, minus, any_class, readiness_classes, filter_classes,
}
use wepoll_ex.Port.Classes.Filter.{readiness_classes-filter_classes}
use wepoll_ex.Port.Exclusive.{
  Claims, invalid_socket, try_claim, release_owner, release_inactive, release_quiescent,
  leave_other_base, add_classes,
}
use wepoll_ex.Port.Exclusive.Held.{held, held-leave}
use wepoll_ex.Port.Exclusive.Peers.{peers-none}
use wepoll_ex.Port.Exclusive.Safety.{
  Apart, IsExclusive, denied_of, missing_of, clears_of, refused_of, cleared, peer, mine, requested,
  cleared_claims, chain, answer, answer-lets, try_claim-eq, held-result_own, try_claim-IsExclusive,
  release_inactive-IsExclusive, unlink-IsExclusive,
}

-- A call on the claims, by a registration with its base of the moment.
pub data ClaimOp : Type 0 where
  claims : (s base delivered : ℕ) → ClaimOp
  releases_owner : (s : ℕ) → ClaimOp
  releases_quiescent : (s base submitted_afd_events : ℕ) → ClaimOp
  releases_inactive : (s base : ℕ) (inactive : Classes) → ClaimOp

unfoldable pub apply : ClaimOp → Claims → Claims
apply (claims s base delivered) c = (try_claim s base delivered c).1
apply (releases_owner s) c = release_owner s c
apply (releases_quiescent s base submitted) c = release_quiescent s base submitted c
apply (releases_inactive s base inactive) c = release_inactive s base inactive c

unfoldable pub after : List ClaimOp → Claims → Claims
unfolding apply
after [] c = c
after (o ∷ os) c = after os (apply o c)

-- No registration claims a class.
abbrev pub no_claims : Claims
no_claims = record {
  chains = λ b. [];
  claim_base = λ s. invalid_socket;
  claim_classes = λ s. no_class;
}

pub no_claims-IsExclusive : IsExclusive no_claims
no_claims-IsExclusive = record {
  claims = record { member = λ b s. refl; once = λ b. tt };
  apart = λ s t base n. ground arith;
}

apply-IsExclusive : (o : ClaimOp) (c : Claims) → IsExclusive c → IsExclusive (apply o c)
unfolding apply release_owner release_quiescent
apply-IsExclusive (claims s base delivered) c v = try_claim-IsExclusive s base delivered c v
apply-IsExclusive (releases_owner s) c v = unlink-IsExclusive s c v
apply-IsExclusive (releases_quiescent s base submitted) c v =
    release_inactive-IsExclusive s base _ c v
apply-IsExclusive (releases_inactive s base inactive) c v =
    release_inactive-IsExclusive s base inactive c v

after-IsExclusive : (os : List ClaimOp) (c : Claims) → IsExclusive c → IsExclusive (after os c)
unfolding after
after-IsExclusive [] c v = v
after-IsExclusive (o ∷ os) c v = after-IsExclusive os (apply o c) (apply-IsExclusive o c v)

-- After any calls on the claims, by any registrations with any bases, two registrations hold no class of a
-- base in common, and where one holds the terminal class the other holds nothing.
pub after-apart :
    (os : List ClaimOp) (s t base : ℕ)
    → s ≢ t
    → let c = after os no_claims in
      (any_class (meet (held c s base) (held c t base)) ≡ false)
      × (((held c s base).terminal && any_class (held c t base)) ≡ false)
after-apart os s t base n = (after-IsExclusive os no_claims no_claims-IsExclusive).apart s t base n

grants :
    (p own r : Classes)
    → refused_of p r ≡ false
    → let h = join (cleared (clears_of p r) own) (missing_of p own r) in
      (h.terminal || not (any_class (minus (minus r (denied_of p r)) h))) ≡ true
grants p own r g = ground arith

elsewhere :
    (h other reported : Classes)
    → (h.terminal || not (any_class (minus reported h))) ≡ true
    → Apart h other
    → any_class (meet reported other) ≡ false
elsewhere h other reported g a = ground arith

abbrev chosen : (refused : Bool) (old : Claims) (lets : ℕ) (granted : Claims) → Option ℕ × Claims
chosen refused old lets granted = if refused then (none, old) else (some lets, granted)

abbrev Covers : (s base : ℕ) → Classes → Claims → Type 0
Covers s base classes c =
    ((held c s base).terminal || not (any_class (minus classes (held c s base)))) ≡ true

covers :
    (s base delivered reported : ℕ) (c : Claims)
    → IsExclusive c
    → (try_claim s base delivered c).0 ≡ some reported
    → Covers s base (readiness_classes reported) (try_claim s base delivered c).1
covers s base delivered reported c v e =
    let k = try_claim-eq s base delivered c v.claims in
    subst (λ (o : Option ℕ × Claims). Covers s base (readiness_classes reported) o.1) (sym k)
      (split (refused_of p r) refl (ap (λ (o : Option ℕ × Claims). o.0) (sym k) ∙ e))
  where
    p : Classes
    p = peer s base delivered c

    r : Classes
    r = requested s base delivered c

    own : Classes
    own = mine s base delivered c

    granted : Claims
    granted = add_classes s base (missing_of p own r) (cleared_claims s base delivered c)

    lets : ℕ
    lets = filter_classes delivered (denied_of p r)

    split :
        (b : Bool)
        → refused_of p r ≡ b
        → (chosen b (cleared_claims s base delivered c) lets granted).0 ≡ some reported
        → Covers s base
            (readiness_classes reported)
            (chosen b (cleared_claims s base delivered c) lets granted).1
    split true f e = absurd (cc)
    split false f e =
        let same : lets ≡ reported = ground (arith, e) in
        let classes =
          sym (readiness_classes-filter_classes delivered (denied_of p r))
          ∙ ap readiness_classes same in
        subst (λ (a : Classes). Covers s base a granted) classes
          (subst
            (λ (h : Classes).
              (h.terminal || not (any_class (minus (minus r (denied_of p r)) h))) ≡ true)
            (sym (held-result_own s base delivered c v f)) (grants p own r f))

-- Of the events that a call lets through, the registration holds every class, or the terminal class that
-- stands for all, and no other registration holds one of these classes.
pub try_claim-reports :
    (s base delivered reported t : ℕ) (c : Claims)
    → IsExclusive c
    → (try_claim s base delivered c).0 ≡ some reported
    → s ≢ t
    → let h = held (try_claim s base delivered c).1 s base in
      let other = held (try_claim s base delivered c).1 t base in
      ((h.terminal || not (any_class (minus (readiness_classes reported) h))) ≡ true)
      × (any_class (meet (readiness_classes reported) other) ≡ false)
try_claim-reports s base delivered reported t c v e n =
    let after_it = try_claim-IsExclusive s base delivered c v in
    let covered = covers s base delivered reported c v e in
    let other = held (try_claim s base delivered c).1 t base in
    (
      covered,
      elsewhere (held (try_claim s base delivered c).1 s base) other (readiness_classes reported)
          covered (after_it.apart s t base n),
    )

-- Where no other registration holds a class of the base, a call lets all events through.
pub try_claim-alone :
    (s base delivered : ℕ) (c : Claims)
    → IsExclusive c
    → ((t : ℕ) → t ≢ s → held c t base ≡ no_class)
    → (try_claim s base delivered c).0 ≡ some delivered
unfolding filter_classes
try_claim-alone s base delivered c v free =
    ap (λ (o : Option ℕ × Claims). o.0) (try_claim-eq s base delivered c v.claims)
    ∙ lets_all (peer s base delivered c)
        (peers-none s base (leave_other_base s base c) (chain s base delivered c) others)
  where
    others : (t : ℕ) → t ≢ s → held (leave_other_base s base c) t base ≡ no_class
    others t n = ground (arith, held-leave s base c t base, free t n)

    own : Classes
    own = mine s base delivered c

    r : Classes
    r = requested s base delivered c

    lets_all :
        (p : Classes)
        → p ≡ no_class
        → (answer s base delivered c (denied_of p r) own own.terminal p.terminal).0 ≡ some delivered
    lets_all p e =
        let none_denied : denied_of p r ≡ no_class = ground (arith, e) in
        let all_granted : refused_of p r ≡ false = ground (arith, none_denied) in
        answer-lets s base delivered c (denied_of p r) own own.terminal p.terminal all_granted
        ∙ ap (λ (d : Classes). some (filter_classes delivered d)) none_denied
