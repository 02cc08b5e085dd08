-- ===== src/Port/Exclusive/Safety.antt =====
-- No two registrations of src/wepoll_ex_port.c report the same readiness class of a socket.
use wepoll_ex.Prelude.{
  ℕ, ◌≡◌, ◌≢◌, inl, inr, refl, sym, ap, subst, ◌∙◌, Bool, false, ◌&&◌, not, arith, ◌==◌,
  if◌then◌else◌, Bool-cases, ℕ_discrete, Option, none, some, List,
}
use wepoll_ex.Port.Classes.{
  Classes, no_class, terminal_class, directions, join, meet, minus, any_class, readiness_classes,
  filter_classes,
}
use wepoll_ex.Port.Exclusive.{
  Claims, exclusive_bucket, scan, no_scan, leave_other_base, add_classes, release_chain, try_claim,
  release_inactive, unlink,
}
use wepoll_ex.Port.Exclusive.Held.{
  held, IsClaims, held-unlink, unlink-IsClaims, held-leave, leave-IsClaims, held-release,
  release_chain-IsClaims, held-add_classes, add_classes-IsClaims,
}
use wepoll_ex.Port.Exclusive.Peers.{peers, peers-all, own-all, scan-Finds}

-- No class in common, and nothing beside a terminal claim.
abbrev pub Apart : Classes → Classes → Type 0
Apart a b = (any_class (meet a b) ≡ false) × ((a.terminal && any_class b) ≡ false)

pub record IsExclusive (c : Claims) : Type 0 where
  pub claims : IsClaims c
  pub apart : (s t base : ℕ) → s ≢ t → Apart (held c s base) (held c t base)

abbrev pub denied_of : (peer requested : Classes) → Classes
denied_of peer requested =
    if peer.terminal
    then requested
    else if requested.terminal
    then no_class
    else meet peer requested

abbrev pub missing_of : (peer own requested : Classes) → Classes
missing_of peer own requested =
    let granted = minus requested (denied_of peer requested) in
    if own.terminal
    then no_class
    else if granted.terminal
    then terminal_class
    else minus granted own

abbrev pub clears_of : (peer requested : Classes) → Bool
clears_of peer requested = requested.terminal && not peer.terminal

abbrev pub refused_of : (peer requested : Classes) → Bool
refused_of peer requested =
    not (any_class (minus requested (denied_of peer requested))) && any_class requested

abbrev pub cleared : Bool → Classes → Classes
cleared test a = if test then minus a directions else a

-- Of a peer whose claims the scan has seen, what is granted is apart.
grant-Apart :
    (peer own theirs requested : Classes)
    → any_class (minus theirs peer) ≡ false
    → Apart own theirs
    → Apart theirs own
    → refused_of peer requested ≡ false
    → let mine = join (cleared (clears_of peer requested) own) (missing_of peer own requested) in
      let left = cleared (clears_of peer requested) theirs in Apart mine left × Apart left mine
grant-Apart peer own theirs requested seen a b granted = ground arith

module _ (s base delivered : ℕ) (c : Claims) where
  abbrev pub left_base : Claims
  left_base = leave_other_base s base c

  abbrev pub chain : List ℕ
  chain = left_base.chains (exclusive_bucket base)

  abbrev pub peer : Classes
  peer = peers s base left_base chain

  abbrev pub mine : Classes
  mine = held left_base s base

  abbrev pub requested : Classes
  requested = readiness_classes delivered

  abbrev pub cleared_claims : Claims
  cleared_claims =
      if clears_of peer requested then release_chain chain base directions left_base else left_base

  abbrev granted_claims : Claims
  granted_claims = add_classes s base (missing_of peer mine requested) cleared_claims

  -- The call, once its first loop has ended.
  abbrev pub answer :
      (denied owned : Classes) (owner_terminal peer_terminal : Bool) → Option ℕ × Claims
  answer denied owned owner_terminal peer_terminal =
      let c2 =
        if requested.terminal && not peer_terminal
        then release_chain chain base directions left_base
        else left_base in
      let granted = minus requested denied in
      let missing =
        if owner_terminal
        then no_class
        else if granted.terminal
        then terminal_class
        else minus granted owned in
      if not (any_class granted) && any_class requested
      then (none, c2)
      else (some (filter_classes delivered denied), add_classes s base missing c2)

  pub answer-lets :
      (denied owned : Classes) (owner_terminal peer_terminal : Bool)
      → (not (any_class (minus requested denied)) && any_class requested) ≡ false
      → (answer denied owned owner_terminal peer_terminal).0
        ≡ some (filter_classes delivered denied)
  answer-lets denied owned owner_terminal peer_terminal h = rw h refl

  pub try_claim-eq :
      IsClaims c
      → try_claim s base delivered c
        ≡ answer (denied_of peer requested) mine mine.terminal peer.terminal
  unfolding try_claim
  try_claim-eq v =
      let w = leave-IsClaims s base c v in
      let k = scan chain s base requested left_base no_scan in
      let f = scan-Finds s base left_base requested chain no_scan in
      let o = own-all s base left_base w in
      let owned : k.owned ≡ mine = ground (arith, f.owned, o) in
      let owner : k.owner_terminal ≡ mine.terminal = ground (arith, f.owner_terminal, o) in
      let theirs : k.peer_terminal ≡ peer.terminal = ground (arith, f.peer_terminal) in
      let denied : (if k.peer_terminal then requested else k.denied) ≡ denied_of peer requested =
        denied_eq k.peer_terminal k.denied peer requested theirs f.denied in
      λ i. answer (denied i) (owned i) (owner i) (theirs i)
    where
      denied_eq :
          (t : Bool) (d p r : Classes)
          → t ≡ p.terminal
          → (p.terminal ≡ false → d ≡ join no_class (if r.terminal then no_class else meet p r))
          → (if t then r else d) ≡ denied_of p r
      denied_eq t d p r e h = elim (Bool-cases p.terminal) [
        | inl on ↦ ground (arith, e, on)
        | inr off ↦ ground (arith, e, off, h off)
      ]

  cleared-IsClaims : IsClaims c → IsClaims cleared_claims
  cleared-IsClaims v = elim (Bool-cases (clears_of peer requested)) [
    | inl clears ↦
        rw clears
          (release_chain-IsClaims base directions chain left_base (leave-IsClaims s base c v))
    | inr keeps ↦ rw keeps (leave-IsClaims s base c v)
  ]

  held-cleared :
      (t b : ℕ)
      → IsClaims c
      → held cleared_claims t b ≡ (
          if b == base
          then cleared (clears_of peer requested) (held left_base t b)
          else held left_base t b)
  held-cleared t b v = elim (Bool-cases (clears_of peer requested)) [
    | inl clears ↦
        rw clears (held-release base directions left_base t b (leave-IsClaims s base c v))
    | inr keeps ↦ rw keeps (ground arith)
  ]

Apart-less :
    (a b a' b' : Classes)
    → any_class (minus a' a) ≡ false
    → any_class (minus b' b) ≡ false
    → Apart a b
    → Apart a' b'
Apart-less a b a' b' h k p = ground arith

leave-IsExclusive :
    (s base : ℕ) (c : Claims) → IsExclusive c → IsExclusive (leave_other_base s base c)
leave-IsExclusive s base c v = record {
  claims = leave-IsClaims s base c v.claims;
  apart = λ x y b n.
      Apart-less (held c x b) (held c y b) (held (leave_other_base s base c) x b)
        (held (leave_other_base s base c) y b) (ground (arith, held-leave s base c x b))
        (ground (arith, held-leave s base c y b)) (v.apart x y b n);
}

release-IsExclusive :
    (base : ℕ) (classes : Classes) (c : Claims)
    → IsExclusive c
    → IsExclusive (release_chain (c.chains (exclusive_bucket base)) base classes c)
release-IsExclusive base classes c v =
    let r = release_chain (c.chains (exclusive_bucket base)) base classes c in
    record {
      claims = release_chain-IsClaims base classes (c.chains (exclusive_bucket base)) c v.claims;
      apart = λ x y b n.
          Apart-less (held c x b) (held c y b) (held r x b) (held r y b)
            (ground (arith, held-release base classes c x b v.claims))
            (ground (arith, held-release base classes c y b v.claims)) (v.apart x y b n);
    }

pub unlink-IsExclusive : (s : ℕ) (c : Claims) → IsExclusive c → IsExclusive (unlink s c)
unlink-IsExclusive s c v = record {
  claims = unlink-IsClaims s c v.claims;
  apart = λ x y b n.
      Apart-less (held c x b) (held c y b) (held (unlink s c) x b) (held (unlink s c) y b)
        (ground (arith, held-unlink s c x b)) (ground (arith, held-unlink s c y b))
        (v.apart x y b n);
}

pub release_inactive-IsExclusive :
    (s base : ℕ) (inactive : Classes) (c : Claims)
    → IsExclusive c
    → IsExclusive (release_inactive s base inactive c)
unfolding release_inactive
release_inactive-IsExclusive s base inactive c v =
    release-IsExclusive base inactive (leave_other_base s base c) (leave-IsExclusive s base c v)

cleared-IsExclusive :
    (s base delivered : ℕ) (c : Claims)
    → IsExclusive c
    → IsExclusive (cleared_claims s base delivered c)
cleared-IsExclusive s base delivered c v =
    elim (Bool-cases (clears_of (peer s base delivered c) (requested s base delivered c))) [
      | inl clears ↦ rw clears (
          release-IsExclusive base directions (left_base s base delivered c)
            (leave-IsExclusive s base c v))
      | inr keeps ↦ rw keeps (leave-IsExclusive s base c v)
    ]

join-none : (a m : Classes) → any_class m ≡ false → join a m ≡ a
join-none a m h = ground arith

module _ (s base delivered : ℕ) (c : Claims) (v : IsExclusive c)
    (granted : refused_of (peer s base delivered c) (requested s base delivered c) ≡ false) where
  abbrev pub theirs : Classes
  theirs = peer s base delivered c

  abbrev pub own_held : Classes
  own_held = held (leave_other_base s base c) s base

  abbrev pub wants : Classes
  wants = requested s base delivered c

  abbrev pub before : Claims
  before = cleared_claims s base delivered c

  abbrev pub result : Claims
  result = add_classes s base (missing_of theirs own_held wants) before

  pub held-result_own :
      held result s base
      ≡ join (cleared (clears_of theirs wants) own_held) (missing_of theirs own_held wants)
  held-result_own =
      held-add_classes s base (missing_of theirs own_held wants) before s base
      ∙ ap
          (λ (a : Classes).
            if (s == s) && any_class (missing_of theirs own_held wants)
            then if base == base then join a (missing_of theirs own_held wants) else no_class
            else a)
          (held-cleared s base delivered c s base v.claims
            ∙ at_base (cleared (clears_of theirs wants) own_held) own_held)
      ∙ joins (cleared (clears_of theirs wants) own_held) (missing_of theirs own_held wants)
    where
      at_base : (a b : Classes) → (if base == base then a else b) ≡ a
      at_base a b = ground arith

      joins :
          (a m : Classes)
          → (if (s == s) && any_class m then if base == base then join a m else no_class else a)
            ≡ join a m
      joins a m = ground (arith, join-none a m)

  held-result_other : (t b : ℕ) → s ≢ t → held result t b ≡ held before t b
  held-result_other t b n =
      held-add_classes s base (missing_of theirs own_held wants) before t b
      ∙ others (any_class (missing_of theirs own_held wants))
          (join (held before t b) (missing_of theirs own_held wants)) (held before t b)
    where
      others :
          (m : Bool) (x y : Classes)
          → (if (s == t) && m then if b == base then x else no_class else y) ≡ y
      others m x y = ground (arith, n)

  held-result_less :
      (t b : ℕ) → b ≢ base → any_class (minus (held result t b) (held before t b)) ≡ false
  held-result_less t b n =
      ap (λ (a : Classes). any_class (minus a (held before t b)))
        (held-add_classes s base (missing_of theirs own_held wants) before t b)
      ∙ less (any_class (missing_of theirs own_held wants))
          (join (held before t b) (missing_of theirs own_held wants)) (held before t b)
    where
      less :
          (m : Bool) (x y : Classes)
          → any_class (minus (if (s == t) && m then if b == base then x else no_class else y) y)
            ≡ false
      less m x y = ground (arith, n)

  own-Apart :
      (t : ℕ)
      → s ≢ t
      → Apart (held result s base) (held result t base)
        × Apart (held result t base) (held result s base)
  own-Apart t n =
      let left = leave-IsExclusive s base c v in
      let other = held (leave_other_base s base c) t base in
      let mine_eq = sym held-result_own in
      let other_eq : cleared (clears_of theirs wants) other ≡ held result t base = sym (
        held-result_other t base n
        ∙ held-cleared s base delivered c t base v.claims
        ∙ at_base (cleared (clears_of theirs wants) other) other) in
      let mine =
        join (cleared (clears_of theirs wants) own_held) (missing_of theirs own_held wants) in
      subst (λ (a : Classes). Apart a (held result t base) × Apart (held result t base) a) mine_eq
        (subst (λ (b : Classes). Apart mine b × Apart b mine) other_eq
          (grant-Apart theirs own_held other wants
            (peers-all s base (leave_other_base s base c) t left.claims (λ e. n (sym e)))
            (left.apart s t base n) (left.apart t s base (λ e. n (sym e))) granted))
    where
      at_base : (a b : Classes) → (if base == base then a else b) ≡ a
      at_base a b = ground arith

  result-Apart : (x y b : ℕ) → x ≢ y → Apart (held result x b) (held result y b)
  result-Apart x y b n =
      let old = cleared-IsExclusive s base delivered c v in
      elim (ℕ_discrete base b) [
        | no away ↦
            Apart-less (held before x b) (held before y b) (held result x b) (held result y b)
              (held-result_less x b (λ e. away (sym e))) (held-result_less y b (λ e. away (sym e)))
              (old.apart x y b n)
        | yes here ↦
            subst (λ k. Apart (held result x k) (held result y k)) here
              (elim (ℕ_discrete s x) [
                | yes first ↦
                    subst (λ k. Apart (held result k base) (held result y base)) first
                      (own-Apart y (λ e. n (sym first ∙ e))).0
                | no not_first ↦ elim (ℕ_discrete s y) [
                  | yes second ↦
                      subst (λ k. Apart (held result x base) (held result k base)) second
                        (own-Apart x not_first).1
                  | no neither ↦
                      subst (λ (a : Classes). Apart a (held result y base))
                        (sym (held-result_other x base not_first))
                        (subst (λ (a : Classes). Apart (held before x base) a)
                          (sym (held-result_other y base neither)) (old.apart x y base n))
                ]
              ])
      ]

  result-IsExclusive : IsExclusive result
  result-IsExclusive = record {
    claims =
        add_classes-IsClaims s base (missing_of theirs own_held wants) before
          (cleared-IsClaims s base delivered c v.claims);
    apart = result-Apart;
  }

pub try_claim-IsExclusive :
    (s base delivered : ℕ) (c : Claims)
    → IsExclusive c
    → IsExclusive (try_claim s base delivered c).1
try_claim-IsExclusive s base delivered c v =
    subst (λ (o : Option ℕ × Claims). IsExclusive o.1)
      (sym (try_claim-eq s base delivered c v.claims))
      (elim (Bool-cases (refused_of (peer s base delivered c) (requested s base delivered c))) [
        | inl refused ↦ rw refused (cleared-IsExclusive s base delivered c v)
        | inr granted ↦ rw granted (result-IsExclusive s base delivered c v granted)
      ])
