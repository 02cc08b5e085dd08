-- ===== src/Ready/Moves.antt =====
-- The invariant of the ready queue of src/wepoll_ex_pool.c at every step, and the steps of the producers.
use wepoll_ex.Prelude.{
  ℕ, ◌+◌, ◌≡◌, ◌≢◌, refl, ◌∙◌, sym, ap, subst, true, false, List, [], ◌∷◌, arith, ◌==◌,
  if◌then◌else◌, update, has, count, count-pos, length, length-erase, Distinct, erase-Distinct,
  has-erase_distinct, ℕ_discrete,
}
use wepoll_ex.Ready.{Queue, prepare, exchange, publish}
use wepoll_ex.Ready.Order.{
  Ordered, items, has-last_of, has-snoc, items-snoc, snoc, last-quiet, write-Ordered,
  exchange-Ordered, publish-Ordered, length-snoc,
}
use wepoll_ex.Ready.Steps.{
  Consumer, returns, loads_next, loads_head, exchanges, links_stub, loads_again, unlinks, accounts,
  System, writes, counts, claims, links, advance, Enabled,
}

abbrev pub joined : List ℕ → List ℕ → List ℕ
joined [] ys = ys
joined (x ∷ xs) ys = x ∷ joined xs ys

-- The node that has left the list and is not returned yet comes first.
abbrev pub with_hand : Consumer → List ℕ → List ℕ
with_hand (accounts tail) xs = tail ∷ xs
with_hand c xs = xs

abbrev pub waiting : System → List ℕ → List ℕ
waiting y rest = with_hand y.consumer (items y.queue.stub (y.queue.tail ∷ rest))

abbrev pub At : Consumer → (flight : ℕ → ℕ) → Queue → List ℕ → Type 0
At (returns node) flight q rest = Unit {0}
At (loads_next t) flight q rest = (t ≡ q.tail) × (t ≢ q.stub)
At (loads_head t) flight q rest = (t ≡ q.tail) × (t ≢ q.stub)
At (exchanges t) flight q rest = (t ≡ q.tail) × (t ≢ q.stub) × (has q.stub (q.tail ∷ rest) ≡ false)
At (links_stub t prev) flight q rest = (t ≡ q.tail) × (t ≢ q.stub) × (flight prev ≡ q.stub)
At (loads_again t) flight q rest = (t ≡ q.tail) × (t ≢ q.stub)
At (unlinks t n) flight q rest = (t ≡ q.tail) × (t ≢ q.stub) × (q.next t ≡ n) × (n ≢ 0)
At (accounts t) flight q rest =
    (flight t ≡ 0) × (has t (q.tail ∷ rest) ≡ false) × (t ≢ 0) × (t ≢ q.stub)

-- A node whose producer is before the exchange.
pub record Prepared (a : ℕ) (y : System) : Type 0 where
  pub some_node : a ≢ 0
  pub real : a ≢ y.queue.stub
  pub blank : y.queue.next a ≡ 0
  pub owned : count a y.pushed ≡ count a y.popped

-- `rest` are the nodes behind `tail`. What was pushed is what was returned and what waits, in order.
pub record Inv (y : System) (rest : List ℕ) : Type 0 where
  pub ordered : Ordered y.flight rest y.queue
  pub in_order : y.pushed ≡ joined y.popped (waiting y rest)
  pub number : y.queue.queued ≡ length (waiting y rest) + length y.counted
  pub prepared : (a : ℕ) → has a y.counted ≡ true → Prepared a y
  pub once : Distinct y.counted
  pub at_step : At y.consumer y.flight y.queue rest

abbrev pub Holds : System → Type 0
Holds y = (rest : List ℕ) × Inv y rest

joined-snoc : (xs ys : List ℕ) (n : ℕ) → snoc (joined xs ys) n ≡ joined xs (snoc ys n)
joined-snoc [] ys n = refl
joined-snoc (x ∷ xs) ys n = ap (λ zs. x ∷ zs) (joined-snoc xs ys n)

count-joined : (a : ℕ) (xs ys : List ℕ) → count a (joined xs ys) ≡ count a xs + count a ys
count-joined a [] ys = omega arith
count-joined a (x ∷ xs) ys = ground (arith, count-joined a xs ys)

-- A real node of the list is an item.
count-items : (stub a : ℕ) (xs : List ℕ) → a ≢ stub → count a (items stub xs) ≡ count a xs
count-items stub a [] h = refl
count-items stub a (x ∷ xs) h = ground (arith, count-items stub a xs h)

-- A node that the caller owns does not wait.
pub owned-apart :
    (a : ℕ) (y : System) (rest : List ℕ)
    → Inv y rest
    → count a y.pushed ≡ count a y.popped
    → count a (waiting y rest) ≡ 0
owned-apart a y rest i h =
    ground (arith, h, ap (λ xs. count a xs) i.in_order, count-joined a y.popped (waiting y rest))

count-with_hand :
    (a : ℕ) (c : Consumer) (xs : List ℕ) → count a (with_hand c xs) ≡ 0 → count a xs ≡ 0
count-with_hand a (returns n) xs h = h
count-with_hand a (loads_next t) xs h = h
count-with_hand a (loads_head t) xs h = h
count-with_hand a (exchanges t) xs h = h
count-with_hand a (links_stub t p) xs h = h
count-with_hand a (loads_again t) xs h = h
count-with_hand a (unlinks t n) xs h = h
count-with_hand a (accounts t) xs h = ground (arith, h)

pub owned-unlisted :
    (a : ℕ) (y : System) (rest : List ℕ)
    → Inv y rest
    → a ≢ y.queue.stub
    → count a y.pushed ≡ count a y.popped
    → has a (y.queue.tail ∷ rest) ≡ false
owned-unlisted a y rest i real h =
    let list = y.queue.tail ∷ rest in
    ground (
      arith,
      count-with_hand a y.consumer (items y.queue.stub list) (owned-apart a y rest i h),
      count-items y.queue.stub a list real,
      count-pos a list,
    )

-- The consumer's place, after a write to a node outside the list.
At-write :
    (c : Consumer) (flight : ℕ → ℕ) (q : Queue) (rest : List ℕ) (a v n : ℕ)
    → has a (q.tail ∷ rest) ≡ false
    → At c flight q rest
    → At c flight (record q { next = update q.next a v; queued = n }) rest
At-write (returns m) flight q rest a v n h k = tt
At-write (loads_next t) flight q rest a v n h k = k
At-write (loads_head t) flight q rest a v n h k = k
At-write (exchanges t) flight q rest a v n h k = k
At-write (links_stub t p) flight q rest a v n h k = k
At-write (loads_again t) flight q rest a v n h k = k
At-write (unlinks t m) flight q rest a v n h k = (k.0, k.1, ground (arith, k, h), k.3)
At-write (accounts t) flight q rest a v n h k = k

pub writes-Inv :
    (node value : ℕ) (y : System)
    → Holds y
    → Enabled (writes node value) y
    → Holds (advance (writes node value) y)
unfolding advance
writes-Inv node value y (rest, i) (some_node, real, owned, idle) =
    let out = owned-unlisted node y rest i real owned in
    (
      rest,
      record {
        ordered = write-Ordered y.flight rest node value y.queue.queued y.queue i.ordered out;
        in_order = i.in_order;
        number = i.number;
        prepared = λ a h.
            let k = i.prepared a h in
            record {
              some_node = k.some_node;
              real = k.real;
              blank = ground (arith, k.blank, h, idle);
              owned = k.owned;
            };
        once = i.once;
        at_step = At-write y.consumer y.flight y.queue rest node value y.queue.queued out i.at_step;
      },
    )

pub counts-Inv :
    (node : ℕ) (y : System) → Holds y → Enabled (counts node) y → Holds (advance (counts node) y)
unfolding advance prepare
counts-Inv node y (rest, i) ((some_node, real, owned, idle), few) =
    let out = owned-unlisted node y rest i real owned in
    (
      rest,
      record {
        ordered = write-Ordered y.flight rest node 0 _ y.queue i.ordered out;
        in_order = i.in_order;
        number = ground (arith, i.number, few);
        prepared = λ a h. elim (ℕ_discrete a node) [
          | yes same ↦ record {
            some_node = subst (λ x. x ≢ 0) (sym same) some_node;
            real = subst (λ x. x ≢ y.queue.stub) (sym same) real;
            blank = ground (arith, same);
            owned = subst (λ x. count x y.pushed ≡ count x y.popped) (sym same) owned;
          }
          | no other ↦
              let k = i.prepared a (ground (arith, h, other)) in
              record {
                some_node = k.some_node;
                real = k.real;
                blank = ground (arith, k.blank);
                owned = k.owned;
              }
        ];
        once = (idle, i.once);
        at_step = At-write y.consumer y.flight y.queue rest node 0 _ out i.at_step;
      },
    )

pub count-snoc :
    (a n : ℕ) (xs : List ℕ) → count a (snoc xs n) ≡ count a xs + (if a == n then 1 else 0)
count-snoc a n [] = ground arith
count-snoc a n (x ∷ xs) = ground (arith, count-snoc a n xs)

with_hand-snoc :
    (c : Consumer) (xs : List ℕ) (n : ℕ) → with_hand c (snoc xs n) ≡ snoc (with_hand c xs) n
with_hand-snoc (returns m) xs n = refl
with_hand-snoc (loads_next t) xs n = refl
with_hand-snoc (loads_head t) xs n = refl
with_hand-snoc (exchanges t) xs n = refl
with_hand-snoc (links_stub t p) xs n = refl
with_hand-snoc (loads_again t) xs n = refl
with_hand-snoc (unlinks t m) xs n = refl
with_hand-snoc (accounts t) xs n = refl

-- The consumer's place, after the exchange of a producer.
At-exchange :
    (c : Consumer) (flight : ℕ → ℕ) (q : Queue) (rest : List ℕ) (node : ℕ)
    → Ordered flight rest q
    → node ≢ q.stub
    → count node (with_hand c []) ≡ 0
    → At c flight q rest
    → At c (update flight q.head node) (record q { head = node }) (snoc rest node)
At-exchange (returns m) flight q rest node o real out k = tt
At-exchange (loads_next t) flight q rest node o real out k = k
At-exchange (loads_head t) flight q rest node o real out k = k
At-exchange (exchanges t) flight q rest node o real out k =
    (k.0, k.1, ground (arith, k, has-snoc q.stub node (q.tail ∷ rest), real))
At-exchange (links_stub t p) flight q rest node o real out k =
    let quiet : flight q.head ≡ 0 =
      subst (λ h. flight h ≡ 0) o.ends (last-quiet q.next flight q.tail rest o.linked) in
    (k.0, k.1, ground (arith, k, quiet, o.stub_there, ℕ_discrete q.head p))
At-exchange (loads_again t) flight q rest node o real out k = k
At-exchange (unlinks t m) flight q rest node o real out k = k
At-exchange (accounts t) flight q rest node o real out k =
    let inside : has q.head (q.tail ∷ rest) ≡ true =
      subst (λ h. has h (q.tail ∷ rest) ≡ true) o.ends (has-last_of q.tail rest) in
    (
      ground (arith, k, inside, ℕ_discrete q.head t),
      ground (arith, k, has-snoc t node (q.tail ∷ rest), out),
      k.2,
      k.3,
    )

count-hand :
    (a : ℕ) (c : Consumer) (xs : List ℕ)
    → count a (with_hand c xs) ≡ 0
    → count a (with_hand c []) ≡ 0
count-hand a (returns n) xs h = refl
count-hand a (loads_next t) xs h = refl
count-hand a (loads_head t) xs h = refl
count-hand a (exchanges t) xs h = refl
count-hand a (links_stub t p) xs h = refl
count-hand a (loads_again t) xs h = refl
count-hand a (unlinks t n) xs h = refl
count-hand a (accounts t) xs h = ground (arith, h)

pub claims-Inv :
    (node : ℕ) (y : System) → Holds y → Enabled (claims node) y → Holds (advance (claims node) y)
unfolding advance exchange
claims-Inv node y (rest, i) h =
    let k = i.prepared node h in
    let list = y.queue.tail ∷ rest in
    let xs = items y.queue.stub list in
    let out = owned-unlisted node y rest i k.real k.owned in
    let more : with_hand y.consumer (items y.queue.stub (y.queue.tail ∷ snoc rest node))
        ≡ snoc (waiting y rest) node =
      ap (with_hand y.consumer) (ground (arith, items-snoc y.queue.stub node list, k.real))
      ∙ with_hand-snoc y.consumer xs node in
    (
      snoc rest node,
      record {
        ordered = exchange-Ordered y.flight rest node y.queue i.ordered out k.blank k.some_node;
        in_order =
            ap (λ zs. snoc zs node) i.in_order
            ∙ joined-snoc y.popped (waiting y rest) node
            ∙ ap (joined y.popped) (sym more);
        number = ground (
          arith,
          i.number,
          ap (λ zs. length zs) more,
          length-snoc node (waiting y rest),
          length-erase node y.counted h,
        );
        prepared = λ a l.
            let both = has-erase_distinct node a y.counted i.once in
            let before = i.prepared a (ground (arith, l, both)) in
            record {
              some_node = before.some_node;
              real = before.real;
              blank = before.blank;
              owned = ground (arith, before.owned, count-snoc a node y.pushed, l, both);
            };
        once = erase-Distinct node y.counted i.once;
        at_step =
            At-exchange y.consumer y.flight y.queue rest node i.ordered k.real
              (count-hand node y.consumer xs (owned-apart node y rest i k.owned)) i.at_step;
      },
    )

-- The consumer's place, after a producer has written its link.
At-publish :
    (c : Consumer) (flight : ℕ → ℕ) (q : Queue) (rest : List ℕ) (prev : ℕ)
    → Ordered flight rest q
    → flight prev ≢ 0
    → flight prev ≢ q.stub
    → At c flight q rest
    → At c (update flight prev 0) (publish prev (flight prev) q) rest
unfolding publish
At-publish (returns m) flight q rest prev o owed real k = tt
At-publish (loads_next t) flight q rest prev o owed real k = k
At-publish (loads_head t) flight q rest prev o owed real k = k
At-publish (exchanges t) flight q rest prev o owed real k = k
At-publish (links_stub t p) flight q rest prev o owed real k =
    (k.0, k.1, ground (arith, k, real, ℕ_discrete prev p))
At-publish (loads_again t) flight q rest prev o owed real k = k
At-publish (unlinks t m) flight q [] prev o owed real k =
    absurd (k.3 (sym k.2 ∙ ap q.next k.0 ∙ o.linked.0))
At-publish (unlinks t m) flight q (b ∷ rest) prev o owed real k =
    (k.0, k.1, ground (arith, k, o.linked.0, owed, ℕ_discrete prev t), k.3)
At-publish (accounts t) flight q rest prev o owed real k = (ground (arith, k), k.1, k.2, k.3)

pub links-Inv :
    (prev : ℕ) (y : System) → Holds y → Enabled (links prev) y → Holds (advance (links prev) y)
unfolding advance publish
links-Inv prev y (rest, i) (owed, real) = (
  rest,
  record {
    ordered = publish-Ordered y.flight rest prev y.queue i.ordered owed;
    in_order = i.in_order;
    number = i.number;
    prepared = λ a h.
        let k = i.prepared a h in
        let out = owned-unlisted a y rest i k.real k.owned in
        record {
          some_node = k.some_node;
          real = k.real;
          blank = ground (arith, k.blank, owed, i.ordered.outside a out, ℕ_discrete prev a);
          owned = k.owned;
        };
    once = i.once;
    at_step = At-publish y.consumer y.flight y.queue rest prev i.ordered owed real i.at_step;
  },
)
