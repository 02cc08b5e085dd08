-- ===== src/Ready/Steps.antt =====
-- `ep_ready_push` of any number of producers and `ep_ready_pop_one` of the consumer of
-- src/wepoll_ex_pool.c, one access to shared memory a step, in any order. The steps of different threads
-- are interleaved, as under sequential consistency; the retries of the compare-and-exchange in
-- `ep_ready_account_pop` are one step.
use wepoll_ex.Prelude.{
  ℕ, ◌+◌, ◌<◌, ◌≡◌, ◌≢◌, true, false, List, [], ◌∷◌, ◌==◌, if◌then◌else◌, update, has, count, erase,
}
use wepoll_ex.Errno.State.{fresh_thread}
use wepoll_ex.Ready.{Queue, init, prepare, exchange, publish, account_pop, size_mod}
use wepoll_ex.Ready.Order.{snoc}

-- Where the consumer is in `ep_ready_pop_one`, by what it does next; `tail` is its local variable. At rest
-- it has returned its last node, 0 for NULL and at the start.
pub data Consumer : Type 0 where
  returns : (node : ℕ) → Consumer
  -- the second load of `tail->next`, behind the stub
  loads_next : (tail : ℕ) → Consumer
  loads_head : (tail : ℕ) → Consumer
  -- `ep_ready_link` of the stub, which the list does not have
  exchanges : (tail : ℕ) → Consumer
  links_stub : (tail prev : ℕ) → Consumer
  loads_again : (tail : ℕ) → Consumer
  -- `q->tail = next` and the store to `tail->next`
  unlinks : (tail next : ℕ) → Consumer
  accounts : (tail : ℕ) → Consumer

abbrev pub after_load : (tail next : ℕ) → Consumer
after_load tail next = if next == 0 then loads_head tail else unlinks tail next

-- One step of the consumer; at rest it begins a call.
unfoldable pub consume : Consumer → Queue → Consumer × Queue
consume (returns node) q =
    let next = q.next q.tail in
    if q.tail == q.stub
    then if next == 0 then (returns 0, q) else (loads_next next, record q { tail = next })
    else (after_load q.tail next, q)
consume (loads_next tail) q = (after_load tail (q.next tail), q)
consume (loads_head tail) q = (if tail == q.head then exchanges tail else returns 0, q)
consume (exchanges tail) q =
    let (prev, q1) = exchange q.stub (prepare q.stub false q) in (links_stub tail prev, q1)
consume (links_stub tail prev) q = (loads_again tail, publish prev q.stub q)
consume (loads_again tail) q =
    let next = q.next tail in (if next == 0 then returns 0 else unlinks tail next, q)
consume (unlinks tail next) q =
    (accounts tail, record q { tail = next; next = update q.next tail 0 })
consume (accounts tail) q = (returns tail, record q { queued = account_pop q.queued })

-- `flight a` is the node that the thread that found `a` at the head has still to link, 0 if there is none.
-- `counted` are the nodes whose producers are before the exchange, `pushed` those exchanged, in that
-- order, `popped` those returned.
pub record System : Type 0 where
  pub queue : Queue
  pub consumer : Consumer
  pub flight : ℕ → ℕ
  pub counted : List ℕ
  pub pushed : List ℕ
  pub popped : List ℕ

pub data Event : Type 0 where
  -- the owner of a node writes its `next`, as `ep_ready_drain` does
  writes : (node value : ℕ) → Event
  -- `ep_ready_push`: before the exchange of `head`, the exchange, and the write of the link
  counts : (node : ℕ) → Event
  claims : (node : ℕ) → Event
  links : (prev : ℕ) → Event
  -- the consumer's next step
  consumes : Event

-- What the consumer's step means for the links that are owed, and for the nodes returned.
abbrev pub flight_after : Consumer → Queue → (ℕ → ℕ) → ℕ → ℕ
flight_after (exchanges tail) q flight = update flight q.head q.stub
flight_after (links_stub tail prev) q flight = update flight prev 0
flight_after c q flight = flight

abbrev pub popped_after : Consumer → List ℕ → List ℕ
popped_after (accounts tail) popped = snoc popped tail
popped_after c popped = popped

unfoldable pub advance : Event → System → System
advance (writes node value) y = record y {
  queue = record (y.queue) { next = update y.queue.next node value };
}
advance (counts node) y = record y { queue = prepare node true y.queue; counted = node ∷ y.counted }
advance (claims node) y =
    let (prev, q) = exchange node y.queue in
    record y {
      queue = q;
      flight = update y.flight prev node;
      counted = erase node y.counted;
      pushed = snoc y.pushed node;
    }
advance (links prev) y = record y {
  queue = publish prev (y.flight prev) y.queue;
  flight = update y.flight prev 0;
}
advance consumes y =
    let (c, q) = consume y.consumer y.queue in
    record y {
      queue = q;
      consumer = c;
      flight = flight_after y.consumer y.queue y.flight;
      popped = popped_after y.consumer y.popped;
    }

-- The caller owns a node that was returned as often as it was pushed, and that it is not pushing.
abbrev pub Owned : ℕ → System → Type 0
Owned node y =
    (node ≢ 0)
    × (node ≢ y.queue.stub)
    × (count node y.pushed ≡ count node y.popped)
    × (has node y.counted ≡ false)

-- The counter has 64 bits.
abbrev pub Enabled : Event → System → Type 0
Enabled (writes node value) y = Owned node y
Enabled (counts node) y = Owned node y × (y.queue.queued + 1 < size_mod)
Enabled (claims node) y = has node y.counted ≡ true
Enabled (links prev) y = (y.flight prev ≢ 0) × (y.flight prev ≢ y.queue.stub)
Enabled consumes y = Unit {0}

abbrev pub start : ℕ → Queue → System
start stub q = record {
  queue = (init stub q fresh_thread).0;
  consumer = returns 0;
  flight = λ a. 0;
  counted = [];
  pushed = [];
  popped = [];
}

pub data Reach (stub : ℕ) (q : Queue) : System → Type 0 where
  begin : Reach stub q (start stub q)
  next : {y : System} (ev : Event) → Reach stub q y → Enabled ev y → Reach stub q (advance ev y)
