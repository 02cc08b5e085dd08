-- ===== src/Ready/System.antt =====
-- What the ready queue of src/wepoll_ex_pool.c promises in every interleaving of Ready/Steps.
use wepoll_ex.Prelude.{
  ℕ, ◌+◌, ◌≡◌, ◌≢◌, ◌⊎◌, inl, inr, refl, ◌∙◌, sym, ap, subst, true, false, List, [], ◌∷◌, arith,
  update, has, count, length,
}
use wepoll_ex.Errno.State.{fresh_thread}
use wepoll_ex.Ready.{Queue, init, pop_one}
use wepoll_ex.Ready.Order.{items, has-last_of}
use wepoll_ex.Ready.Pop.{pop_one-Popped}
use wepoll_ex.Ready.Steps.{
  returns, accounts, System, writes, counts, claims, links, consumes, start, Reach, begin, next,
}
use wepoll_ex.Ready.Alone.{call, call-pop_one}
use wepoll_ex.Ready.Moves.{
  Holds, At, joined, waiting, with_hand, owned-unlisted, writes-Inv, counts-Inv, claims-Inv,
  links-Inv,
}
use wepoll_ex.Ready.Consume.{consumes-Inv}

start-Holds : (stub : ℕ) (q : Queue) → stub ≢ 0 → Holds (start stub q)
unfolding init
start-Holds stub q h =
    let z : Queue = record {
      next = update q.next stub 0;
      head = stub;
      tail = stub;
      stub = stub;
      queued = 0;
      initialized = true;
    } in
    let same : (init stub q fresh_thread).0 ≡ z = ground (arith, h) in
    subst
      (λ w. Holds (record {
        queue = w;
        consumer = returns 0;
        flight = λ a. 0;
        counted = [];
        pushed = [];
        popped = [];
      }))
      (sym same)
      (
        [],
        record {
          ordered = record {
            live = refl;
            linked = (ground arith, refl);
            ends = refl;
            distinct = (refl, tt);
            not_null = ground (arith, h);
            stub_there = h;
            outside = λ a k. refl;
          };
          in_order = ground arith;
          number = ground arith;
          prepared = λ a k. absurd (ground (arith, k));
          once = tt;
          at_step = tt;
        },
      )

Reach-Holds : (stub : ℕ) (q : Queue) (y : System) → stub ≢ 0 → Reach stub q y → Holds y
Reach-Holds stub q y h begin = start-Holds stub q h
Reach-Holds stub q y h (next {y = x} (writes node v) r k) =
    writes-Inv node v x (Reach-Holds stub q x h r) k
Reach-Holds stub q y h (next {y = x} (counts node) r k) =
    counts-Inv node x (Reach-Holds stub q x h r) k
Reach-Holds stub q y h (next {y = x} (claims node) r k) =
    claims-Inv node x (Reach-Holds stub q x h r) k
Reach-Holds stub q y h (next {y = x} (links prev) r k) =
    links-Inv prev x (Reach-Holds stub q x h r) k
Reach-Holds stub q y h (next {y = x} consumes r k) = consumes-Inv x (Reach-Holds stub q x h r)

-- In every interleaving of the steps of `ep_ready_push`, one access to shared memory each, with those of
-- `ep_ready_pop_one`, the nodes returned are the first of those whose producers have exchanged `head`,
-- each once and in the order of the exchanges; `queued` counts the others, and the nodes whose producers
-- are before their exchange. Producers push nodes that they own, and the counter does not overflow.
pub Reach-fifo :
    (stub : ℕ) (q : Queue) (y : System)
    → stub ≢ 0
    → Reach stub q y
    → (left : List ℕ) × (y.pushed ≡ joined y.popped left)
      × (y.queue.queued ≡ length left + length y.counted)
Reach-fifo stub q y h r =
    let (rest, i) = Reach-Holds stub q y h r in (waiting y rest, i.in_order, i.number)

joined-nil : (xs : List ℕ) → joined xs [] ≡ xs
joined-nil [] = refl
joined-nil (x ∷ xs) = ap (λ ys. x ∷ ys) (joined-nil xs)

-- From every reachable state in which the consumer is at rest and no producer is between its exchange and
-- its link, a call whose steps are not interrupted ends within nine of them, and returns a node, or all
-- that was pushed has been returned.
pub Reach-drains :
    (stub : ℕ) (q : Queue) (y : System) (m : ℕ)
    → stub ≢ 0
    → Reach stub q y
    → y.consumer ≡ returns m
    → ((a : ℕ) → y.flight a ≡ 0)
    → (node : ℕ) × (((call y.queue).0 ≡ returns node) × ((node ≢ 0) ⊎ (y.pushed ≡ y.popped)))
Reach-drains stub q y m h r rests quiet =
    let (rest, i) = Reach-Holds stub q y h r in
    let in_order =
      i.in_order
      ∙ ap (λ c. joined y.popped (with_hand c (items y.queue.stub (y.queue.tail ∷ rest)))) rests in
    (
      (pop_one y.queue).0,
      (
        ap (λ x. x.0) (call-pop_one y.queue),
        elim (pop_one-Popped y.flight rest y.queue i.ordered) [
          | inl handed ↦ inl handed.some_node
          | inr waits ↦ elim waits.reason [
            | inl empty ↦ inr (in_order ∙ ap (λ xs. joined y.popped xs) empty ∙ joined-nil y.popped)
            | inr (a, owed) ↦ absurd (owed (quiet a))
          ]
        ],
      ),
    )

-- In every interleaving, once the consumer has moved `tail` past a node, and from then on until a producer
-- exchanges it into the queue again, no producer still has to write a link into the node, and neither end
-- of the queue is that node.
pub Reach-reclaim :
    (stub : ℕ) (q : Queue) (y : System) (node : ℕ)
    → stub ≢ 0
    → Reach stub q y
    → node ≢ y.queue.stub
    → (y.consumer ≡ accounts node) ⊎ (count node y.pushed ≡ count node y.popped)
    → (y.flight node ≡ 0) × (node ≢ y.queue.tail) × (node ≢ y.queue.head)
Reach-reclaim stub q y node h r real gone =
    let (rest, i) = Reach-Holds stub q y h r in
    let list = y.queue.tail ∷ rest in
    let out : (y.flight node ≡ 0) × (has node list ≡ false) = elim gone [
      | inl taken ↦
          let place : At (accounts node) y.flight y.queue rest =
            subst (λ c. At c y.flight y.queue rest) taken i.at_step in
          (place.0, place.1)
      | inr owned ↦
          let away = owned-unlisted node y rest i real owned in (i.ordered.outside node away, away)
    ] in
    let at_head : has y.queue.head list ≡ true =
      subst (λ x. has x list ≡ true) i.ordered.ends (has-last_of y.queue.tail rest) in
    (
      out.0,
      (λ e. absurd (ground (arith, out.1, e))),
      (λ e. absurd (ground (arith, out.1, at_head, ap (λ x. has x list) e))),
    )
