-- ===== src/Port/Exclusive/Held.antt =====
-- Which classes of a base a registration holds in the claims of src/wepoll_ex_port.c, and what
-- each change of the claims does to that.
use wepoll_ex.Prelude.{
  ℕ, ◌≡◌, inl, inr, refl, ap, ◌∙◌, Bool, true, false, ◌&&◌, ◌||◌, not, arith, ◌==◌, if◌then◌else◌,
  Bool-cases, ℕ_discrete, List, [], ◌∷◌, update, has, erase, Distinct, has-erase_distinct,
  erase-Distinct,
}
use wepoll_ex.Port.Classes.{Classes, no_class, join, meet, minus, any_class}
use wepoll_ex.Port.Exclusive.{
  Claims, claims_any, invalid_socket, exclusive_bucket, unlink, remove_classes, leave_other_base,
  link, add_classes, release_chain,
}

abbrev pub held : Claims → (s base : ℕ) → Classes
held c s base = if c.claim_base s == base then c.claim_classes s else no_class

-- A socket is in the chain of its base exactly if it claims a class.
pub record IsClaims (c : Claims) : Type 0 where
  pub member :
      (b s : ℕ) → has s (c.chains b) ≡ (claims_any c s && (exclusive_bucket (c.claim_base s) == b))
  pub once : (b : ℕ) → Distinct (c.chains b)

no_class-eq : (a : Classes) → any_class a ≡ false → a ≡ no_class
no_class-eq a h = ground arith

minus-apart : (a b : Classes) → any_class (meet a b) ≡ false → minus a b ≡ a
minus-apart a b h = ground arith

abbrev unlinked : (s : ℕ) → Claims → Claims
unlinked s c = record {
  chains =
      update c.chains (exclusive_bucket (c.claim_base s))
        (erase s (c.chains (exclusive_bucket (c.claim_base s))));
  claim_base = update c.claim_base s invalid_socket;
  claim_classes = update c.claim_classes s no_class;
}

unlink-busy : (s : ℕ) (c : Claims) → claims_any c s ≡ true → unlink s c ≡ unlinked s c
unfolding unlink
unlink-busy s c h = rw h refl

unlink-idle : (s : ℕ) (c : Claims) → claims_any c s ≡ false → unlink s c ≡ c
unfolding unlink
unlink-idle s c h = rw h refl

erased-Distinct :
    (xs : ℕ → List ℕ) (k s b : ℕ)
    → ((n : ℕ) → Distinct (xs n))
    → Distinct (update xs k (erase s (xs k)) b)
erased-Distinct xs k s b d = elim (Bool-cases (k == b)) [
  | inl e ↦ rw e (erase-Distinct s (xs k) (d k))
  | inr e ↦ rw e (d b)
]

pub unlink-IsClaims : (s : ℕ) (c : Claims) → IsClaims c → IsClaims (unlink s c)
unlink-IsClaims s c v = elim (Bool-cases (claims_any c s)) [
  | inr idle ↦ rw (unlink-idle s c idle) v
  | inl busy ↦ rw (unlink-busy s c busy) (record {
    member = λ b t.
        let k = exclusive_bucket (c.claim_base s) in
        ground (
          arith,
          busy,
          v.member b t,
          v.member k t,
          has-erase_distinct s t (c.chains k) (v.once k),
          ℕ_discrete k b,
          ℕ_discrete s t,
        );
    once = λ b. erased-Distinct c.chains (exclusive_bucket (c.claim_base s)) s b v.once;
  })
]

pub held-unlink :
    (s : ℕ) (c : Claims) (t base : ℕ)
    → held (unlink s c) t base ≡ (if s == t then no_class else held c t base)
held-unlink s c t base = elim (Bool-cases (claims_any c s)) [
  | inr idle ↦
      rw (unlink-idle s c idle)
        (ground (arith, no_class-eq (c.claim_classes s) idle, ℕ_discrete s t))
  | inl busy ↦ rw (unlink-busy s c busy) (ground (arith, ℕ_discrete s t))
]

module _ (s : ℕ) (classes : Classes) (c : Claims) where
  pub remove_classes-IsClaims : IsClaims c → IsClaims (remove_classes s classes c)
  unfolding remove_classes
  remove_classes-IsClaims v = elim (Bool-cases (any_class (meet (c.claim_classes s) classes))) [
    | inr apart ↦ rw apart v
    | inl some_class ↦ elim (Bool-cases (any_class (minus (c.claim_classes s) classes))) [
      | inr none_left ↦ rw (some_class, none_left) (unlink-IsClaims s c v)
      | inl some_left ↦
          rw (some_class, some_left)
            (record {
              member = λ b t. ground (arith, v.member b t, some_left, some_class, ℕ_discrete s t);
              once = v.once;
            })
    ]
  ]

  pub held-remove_classes :
      (t base : ℕ)
      → held (remove_classes s classes c) t base
        ≡ (if s == t then minus (held c t base) classes else held c t base)
  unfolding remove_classes
  held-remove_classes t base = elim (Bool-cases (any_class (meet (c.claim_classes s) classes))) [
    | inr apart ↦
        rw apart (ground (arith, minus-apart (c.claim_classes s) classes apart, ℕ_discrete s t))
    | inl some_class ↦ elim (Bool-cases (any_class (minus (c.claim_classes s) classes))) [
      | inr none_left ↦
          rw (some_class, none_left)
            (held-unlink s c t base
              ∙ ground (
                arith,
                no_class-eq (minus (c.claim_classes s) classes) none_left,
                ℕ_discrete s t,
              ))
      | inl some_left ↦ rw (some_class, some_left) (ground (arith, ℕ_discrete s t))
    ]
  ]

pub leave-IsClaims : (s base : ℕ) (c : Claims) → IsClaims c → IsClaims (leave_other_base s base c)
unfolding leave_other_base
leave-IsClaims s base c v = elim (Bool-cases (claims_any c s && not (c.claim_base s == base))) [
  | inl leaves ↦ rw leaves (unlink-IsClaims s c v)
  | inr stays ↦ rw stays v
]

pub held-leave :
    (s base : ℕ) (c : Claims) (t b : ℕ)
    → held (leave_other_base s base c) t b
      ≡ (if (s == t) && not (b == base) then no_class else held c t b)
unfolding leave_other_base
held-leave s base c t b = elim (Bool-cases (claims_any c s && not (c.claim_base s == base))) [
  | inl leaves ↦
      rw leaves (held-unlink s c t b ∙ ground (arith, leaves, ℕ_discrete s t, ℕ_discrete b base))
  | inr stays ↦
      rw stays
        (ground (arith, stays, no_class-eq (c.claim_classes s), ℕ_discrete s t, ℕ_discrete b base))
]

pub leave-claim_base :
    (s base : ℕ) (c : Claims)
    → claims_any (leave_other_base s base c) s ≡ true
    → (leave_other_base s base c).claim_base s ≡ base
unfolding leave_other_base unlink
leave-claim_base s base c h = ground (arith, h, ℕ_discrete (c.claim_base s) base)

module _ (base : ℕ) (classes : Classes) where
  pub release_chain-IsClaims :
      (xs : List ℕ) (c : Claims) → IsClaims c → IsClaims (release_chain xs base classes c)
  unfolding release_chain
  release_chain-IsClaims [] c v = v
  release_chain-IsClaims (x ∷ xs) c v =
      release_chain-IsClaims xs _ (elim (Bool-cases (c.claim_base x == base)) [
        | inl here ↦ rw here (remove_classes-IsClaims x classes c v)
        | inr other ↦ rw other v
      ])

  held-release_one :
      (x : ℕ) (c : Claims) (t b : ℕ)
      → held (if c.claim_base x == base then remove_classes x classes c else c) t b
        ≡ (if (b == base) && (t == x) then minus (held c t b) classes else held c t b)
  held-release_one x c t b = elim (Bool-cases (c.claim_base x == base)) [
    | inl here ↦ rw here (
        held-remove_classes x classes c t b
        ∙ ground (arith, here, ℕ_discrete t x, ℕ_discrete b base))
    | inr other ↦ rw other (ground (arith, other, ℕ_discrete t x, ℕ_discrete b base))
  ]

  held-release_chain :
      (xs : List ℕ) (c : Claims) (t b : ℕ)
      → held (release_chain xs base classes c) t b
        ≡ (if (b == base) && has t xs then minus (held c t b) classes else held c t b)
  unfolding release_chain
  held-release_chain [] c t b = ground arith
  held-release_chain (x ∷ xs) c t b =
      held-release_chain xs (if c.claim_base x == base then remove_classes x classes c else c) t b
      ∙ ap (λ (h : Classes). if (b == base) && has t xs then minus h classes else h)
          (held-release_one x c t b)
      ∙ once_more (b == base) (t == x) (has t xs) (held c t b)
    where
      once_more :
          (p q r : Bool) (h : Classes)
          → (if p && r
              then minus (if p && q then minus h classes else h) classes
              else if p && q
              then minus h classes
              else h)
            ≡ (if p && (q || r) then minus h classes else h)
      once_more p q r h = ground arith

  -- The loop over the chain of the base takes the classes from every claim on it.
  pub held-release :
      (c : Claims) (t b : ℕ)
      → IsClaims c
      → held (release_chain (c.chains (exclusive_bucket base)) base classes c) t b
        ≡ (if b == base then minus (held c t b) classes else held c t b)
  held-release c t b v =
      held-release_chain (c.chains (exclusive_bucket base)) c t b
      ∙ elim (Bool-cases (has t (c.chains (exclusive_bucket base)))) [
        | inl here ↦ ground (arith, here)
        | inr away ↦ ground (
          arith,
          away,
          v.member (exclusive_bucket base) t,
          no_class-eq (c.claim_classes t),
          ℕ_discrete b base,
          ℕ_discrete (c.claim_base t) b,
        )
      ]

-- The claims once `s` is linked and its classes are joined.
abbrev joined : (s base : ℕ) → Classes → Claims → Claims
joined s base classes d = record (link s base d) {
  claim_classes =
      update (link s base d).claim_classes s (join ((link s base d).claim_classes s) classes);
}

consed-Distinct :
    (xs : ℕ → List ℕ) (k s b : ℕ)
    → has s (xs k) ≡ false
    → ((n : ℕ) → Distinct (xs n))
    → Distinct (update xs k (s ∷ xs k) b)
consed-Distinct xs k s b h d = elim (Bool-cases (k == b)) [
  | inl e ↦ rw e (h, d k)
  | inr e ↦ rw e (d b)
]

module _ (s base : ℕ) (classes : Classes) (d : Claims)
    (at_base : claims_any d s ≡ true → d.claim_base s ≡ base) where
  joined-IsClaims : IsClaims d → any_class classes ≡ true → IsClaims (joined s base classes d)
  unfolding link
  joined-IsClaims v some_new = elim (Bool-cases (claims_any d s)) [
    | inl busy ↦ rw busy (record {
      member = λ b t. ground (arith, v.member b t, busy, ℕ_discrete s t);
      once = v.once;
    })
    | inr idle ↦ rw idle (record {
      member = λ b t. ground (
        arith,
        v.member b t,
        v.member (exclusive_bucket base) t,
        idle,
        some_new,
        ℕ_discrete s t,
        ℕ_discrete (exclusive_bucket base) b,
      );
      once = λ b.
          consed-Distinct d.chains (exclusive_bucket base) s b
            (ground (arith, v.member (exclusive_bucket base) s, idle)) v.once;
    })
  ]

  held-joined :
      (t b : ℕ)
      → held (joined s base classes d) t b
        ≡ (if s == t then if b == base then join (held d t b) classes else no_class else held d t b)
  unfolding link
  held-joined t b = elim (Bool-cases (claims_any d s)) [
    | inl busy ↦ rw busy (ground (arith, at_base busy, ℕ_discrete s t, ℕ_discrete b base))
    | inr idle ↦
        rw idle
          (ground (arith, no_class-eq (d.claim_classes s) idle, ℕ_discrete s t, ℕ_discrete b base))
  ]

module _ (s base : ℕ) (classes : Classes) (c : Claims) where
  pub add_classes-IsClaims : IsClaims c → IsClaims (add_classes s base classes c)
  unfolding add_classes
  add_classes-IsClaims v = elim (Bool-cases (any_class classes)) [
    | inr none_new ↦ rw none_new v
    | inl some_new ↦ rw some_new (
        joined-IsClaims s base classes (leave_other_base s base c) (leave-claim_base s base c)
          (leave-IsClaims s base c v) some_new)
  ]

  pub held-add_classes :
      (t b : ℕ)
      → held (add_classes s base classes c) t b ≡ (
          if (s == t) && any_class classes
          then if b == base then join (held c t b) classes else no_class
          else held c t b)
  unfolding add_classes
  held-add_classes t b = elim (Bool-cases (any_class classes)) [
    | inr none_new ↦ rw none_new (ground (arith, none_new))
    | inl some_new ↦ rw some_new (
        held-joined s base classes (leave_other_base s base c) (leave-claim_base s base c) t b
        ∙ ground (arith, held-leave s base c t b, some_new, ℕ_discrete s t, ℕ_discrete b base))
  ]
