-- ===== src/Ready/Order.antt =====
-- The nodes of the ready queue of src/wepoll_ex_pool.c in the order of their exchanges, while producers
-- may still have to write their links.
use wepoll_ex.Prelude.{
  ℕ, ◌+◌, ◌≡◌, ◌≢◌, ◌⊎◌, inl, inr, refl, ◌∙◌, subst, true, false, ◌||◌, List, [], ◌∷◌, arith, ◌==◌,
  if◌then◌else◌, update, has, Distinct, length, ℕ_discrete,
}
use wepoll_ex.Ready.{Queue, exchange, publish}

-- `flight a` is the node that a producer still has to link behind `a`, 0 if there is none. Each node of
-- the list is linked to the one behind it, or a producer will do that.
abbrev pub Linked : (next flight : ℕ → ℕ) → List ℕ → Type 0
Linked next flight [] = Unit {0}
Linked next flight (a ∷ []) = (next a ≡ 0) × (flight a ≡ 0)
Linked next flight (a ∷ b ∷ xs) =
    (((next a ≡ b) × (flight a ≡ 0)) ⊎ ((next a ≡ 0) × (flight a ≡ b)))
    × Linked next flight (b ∷ xs)

abbrev pub last_of : ℕ → List ℕ → ℕ
last_of a [] = a
last_of a (b ∷ xs) = last_of b xs

-- The list without the stub.
abbrev pub items : (stub : ℕ) → List ℕ → List ℕ
items stub [] = []
items stub (a ∷ xs) = let rest = items stub xs in if a == stub then rest else a ∷ rest

-- `rest` are the nodes behind `tail`, up to `head`.
pub record Ordered (flight : ℕ → ℕ) (rest : List ℕ) (q : Queue) : Type 0 where
  pub live : q.initialized ≡ true
  pub linked : Linked q.next flight (q.tail ∷ rest)
  pub ends : last_of q.tail rest ≡ q.head
  pub distinct : Distinct (q.tail ∷ rest)
  pub not_null : has 0 (q.tail ∷ rest) ≡ false
  pub stub_there : q.stub ≢ 0
  pub outside : (a : ℕ) → has a (q.tail ∷ rest) ≡ false → flight a ≡ 0

abbrev pub snoc : List ℕ → ℕ → List ℕ
snoc [] n = n ∷ []
snoc (a ∷ xs) n = a ∷ snoc xs n

pub has-snoc : (a n : ℕ) (xs : List ℕ) → has a (snoc xs n) ≡ (a == n || has a xs)
has-snoc a n [] = ground arith
has-snoc a n (x ∷ xs) = ground (arith, has-snoc a n xs)

Distinct-snoc : (n : ℕ) (xs : List ℕ) → Distinct xs → has n xs ≡ false → Distinct (snoc xs n)
Distinct-snoc n [] d h = (refl, tt)
Distinct-snoc n (x ∷ xs) d h =
    (ground (arith, d.0, has-snoc x n xs, h), Distinct-snoc n xs d.1 (ground (arith, h)))

last_of-snoc : (a n : ℕ) (xs : List ℕ) → last_of a (snoc xs n) ≡ n
last_of-snoc a n [] = refl
last_of-snoc a n (x ∷ xs) = last_of-snoc x n xs

pub items-snoc :
    (stub n : ℕ) (xs : List ℕ)
    → items stub (snoc xs n) ≡ (if n == stub then items stub xs else snoc (items stub xs) n)
items-snoc stub n [] = ground arith
items-snoc stub n (x ∷ xs) = ground (arith, items-snoc stub n xs)

pub has-last_of : (a : ℕ) (xs : List ℕ) → has (last_of a xs) (a ∷ xs) ≡ true
has-last_of a [] = ground arith
has-last_of a (b ∷ xs) = ground (arith, has-last_of b xs)

-- The exchange of `head`, where the last node is known.
Linked-snoc :
    (next flight : ℕ → ℕ) (n a : ℕ) (xs : List ℕ)
    → has n (a ∷ xs) ≡ false
    → next n ≡ 0
    → flight n ≡ 0
    → Distinct (a ∷ xs)
    → Linked next flight (a ∷ xs)
    → Linked next (update flight (last_of a xs) n) (a ∷ snoc xs n)
Linked-snoc next flight n a [] new blank idle d l =
    (inr (ground (arith, l), ground arith), (blank, ground (arith, new, idle)))
Linked-snoc next flight n a (b ∷ xs) new blank idle d l =
    let away : (last_of b xs == a) ≡ false =
      ground (arith, has-last_of b xs, d.0, ℕ_discrete (last_of b xs) a) in
    (
      elim l.0 [
        | inl (linked, quiet) ↦ inl (linked, ground (arith, quiet, away))
        | inr (open_end, pending) ↦ inr (open_end, ground (arith, pending, away))
      ],
      Linked-snoc next flight n b xs (ground (arith, new)) blank idle d.1 l.1,
    )

pub length-snoc : (n : ℕ) (xs : List ℕ) → length (snoc xs n) ≡ length xs + 1
length-snoc n [] = refl
length-snoc n (x ∷ xs) = ground (arith, length-snoc n xs)

-- Nobody owes a link behind the last node.
pub last-quiet :
    (next flight : ℕ → ℕ) (a : ℕ) (xs : List ℕ)
    → Linked next flight (a ∷ xs)
    → flight (last_of a xs) ≡ 0
last-quiet next flight a [] l = l.1
last-quiet next flight a (b ∷ xs) l = last-quiet next flight b xs l.1

-- A node takes its place: it is the last one, and has no link to it yet.
pub exchange-Ordered :
    (flight : ℕ → ℕ) (rest : List ℕ) (node : ℕ) (q : Queue)
    → Ordered flight rest q
    → has node (q.tail ∷ rest) ≡ false
    → q.next node ≡ 0
    → node ≢ 0
    → Ordered (update flight q.head node) (snoc rest node) (exchange node q).1
unfolding exchange
exchange-Ordered flight rest node q o new blank some_node = record {
  live = o.live;
  linked =
      subst (λ h. Linked q.next (update flight h node) (q.tail ∷ snoc rest node)) o.ends
        (Linked-snoc q.next flight node q.tail rest new blank (o.outside node new) o.distinct
          o.linked);
  ends = last_of-snoc q.tail node rest;
  distinct = Distinct-snoc node (q.tail ∷ rest) o.distinct new;
  not_null = ground (arith, has-snoc 0 node (q.tail ∷ rest), o.not_null, some_node);
  stub_there = o.stub_there;
  outside = λ a h. elim (ℕ_discrete q.head a) [
    | yes here ↦
        let inside =
          subst (λ x. has x (q.tail ∷ rest) ≡ true) (o.ends ∙ here) (has-last_of q.tail rest) in
        absurd (ground (arith, inside, has-snoc a node (q.tail ∷ rest), h))
    | no away ↦ ground (arith, o.outside a, has-snoc a node (q.tail ∷ rest), h)
  ];
}

pub Linked-frame :
    (next flight : ℕ → ℕ) (a b : ℕ) (xs : List ℕ)
    → has a xs ≡ false
    → Linked next flight xs
    → Linked (update next a b) flight xs
Linked-frame next flight a b [] h l = tt
Linked-frame next flight a b (x ∷ []) h l = (ground (arith, l, h), l.1)
Linked-frame next flight a b (x ∷ y ∷ xs) h l =
    (ground (arith, l.0, h), Linked-frame next flight a b (y ∷ xs) (ground (arith, h)) l.1)

-- The `next` of a node outside the list, and the counter, are free.
pub write-Ordered :
    (flight : ℕ → ℕ) (rest : List ℕ) (a b n : ℕ) (q : Queue)
    → Ordered flight rest q
    → has a (q.tail ∷ rest) ≡ false
    → Ordered flight rest (record q { next = update q.next a b; queued = n })
write-Ordered flight rest a b n q o h = record {
  live = o.live;
  linked = Linked-frame q.next flight a b (q.tail ∷ rest) h o.linked;
  ends = o.ends;
  distinct = o.distinct;
  not_null = o.not_null;
  stub_there = o.stub_there;
  outside = o.outside;
}

Linked-publish :
    (next flight : ℕ → ℕ) (a : ℕ) (xs : List ℕ)
    → flight a ≢ 0
    → Linked next flight xs
    → Linked (update next a (flight a)) (update flight a 0) xs
Linked-publish next flight a [] some_node l = tt
Linked-publish next flight a (x ∷ []) some_node l = (ground (arith, l), ground (arith, l))
Linked-publish next flight a (x ∷ b ∷ xs) some_node l =
    (ground (arith, l.0), Linked-publish next flight a (b ∷ xs) some_node l.1)

-- The producer writes the link that it owes.
pub publish-Ordered :
    (flight : ℕ → ℕ) (rest : List ℕ) (a : ℕ) (q : Queue)
    → Ordered flight rest q
    → flight a ≢ 0
    → Ordered (update flight a 0) rest (publish a (flight a) q)
unfolding publish
publish-Ordered flight rest a q o some_node = record {
  live = o.live;
  linked = Linked-publish q.next flight a (q.tail ∷ rest) some_node o.linked;
  ends = o.ends;
  distinct = o.distinct;
  not_null = o.not_null;
  stub_there = o.stub_there;
  outside = λ x h. ground (arith, o.outside x h);
}
