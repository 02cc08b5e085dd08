-- ===== src/Ready.antt =====
-- The ready queue of src/wepoll_ex_pool.c, an intrusive queue with many producers and one consumer. A node
-- is named by its address, and 0 is NULL. A producer's `ep_ready_link` is three steps, the stores before
-- the exchange of `head`, the exchange, and the write of the predecessor's link. The functions here run
-- without interruption; Ready/Steps has `ep_ready_pop_one` in steps.
pub mod Order
pub mod Pop
pub mod Steps
pub mod Moves
pub mod Consume
pub mod Alone
pub mod System
mod Examples
use wepoll_ex.Prelude.{
  ℕ, zero, suc, ◌+◌, ◌-◌, ◌%◌, ◌^◌, Bool, true, false, not, ◌&&◌, ◌||◌, Option, none, some, ltb,
  ◌==◌, if◌then◌else◌, update,
}
use wepoll_ex.Prelude.Int.{ℤ, pos, negsuc}
use wepoll_ex.Errno.Codes.{enomem, ebusy}
use wepoll_ex.Errno.State.{ErrorState, set_errno}

-- `ep_ready_queue_t`, with the `next` fields of all nodes.
pub record Queue : Type 0 where
  pub next : ℕ → ℕ
  pub head : ℕ
  pub tail : ℕ
  pub stub : ℕ
  pub queued : ℕ
  pub initialized : Bool

abbrev pub size_mod : ℕ
size_mod = 2 ^ 64

-- `ep_ready_link` before its exchange: the node has no link, and is counted.
unfoldable pub prepare : (node : ℕ) (account : Bool) → Queue → Queue
prepare node account q = record q {
  next = update q.next node 0;
  queued = if account then (q.queued + 1) % size_mod else q.queued;
}

-- The exchange answers the predecessor, which the producer still has to link.
unfoldable pub exchange : (node : ℕ) → Queue → ℕ × Queue
exchange node q = (q.head, record q { head = node })

-- `prev->next = node`
unfoldable pub publish : (prev node : ℕ) → Queue → Queue
publish prev node q = record q { next = update q.next prev node }

unfoldable pub link : (node : ℕ) (account : Bool) → Queue → Queue
unfolding prepare exchange publish
link node account q =
    let (prev, q1) = exchange node (prepare node account q) in publish prev node q1

abbrev pub account_pop : ℕ → ℕ
account_pop queued = if ltb 0 queued then queued - 1 else queued

-- The consumer moves past `tail`, and hands it out.
abbrev pub pass : (tail next : ℕ) → Queue → ℕ × Queue
pass tail next q =
    (tail, record q { tail = next; next = update q.next tail 0; queued = account_pop q.queued })

-- `ep_ready_pop_one` from the point where `tail` is no longer the stub.
unfoldable pub pop_from : (tail : ℕ) → Queue → ℕ × Queue
unfolding link
pop_from tail q =
    let next = q.next tail in
    if not (next == 0)
    then pass tail next q
    else if not (tail == q.head)
    then (0, q)
    else (let q1 = link q.stub false q in
        let next1 = q1.next tail in if next1 == 0 then (0, q1) else pass tail next1 q1)

unfoldable pub pop_one : Queue → ℕ × Queue
pop_one q =
    let next = q.next q.tail in
    if q.tail == q.stub
    then if next == 0 then (0, q) else pop_from next (record q { tail = next })
    else pop_from q.tail q

-- `ep_ready_init`; `stub` is the address that `calloc` gave, 0 if it failed.
unfoldable pub init : (stub : ℕ) → Queue → ErrorState → Queue × ErrorState
init stub q err =
    let zeroed : Queue = record {
      next = q.next;
      head = 0;
      tail = 0;
      stub = 0;
      queued = 0;
      initialized = false;
    } in
    if stub == 0 then (zeroed, set_errno enomem err) else (
      record zeroed {
        next = update q.next stub 0;
        head = stub;
        tail = stub;
        stub = stub;
        initialized = true;
      },
      err,
    )

-- `ep_ready_destroy`, where `free` of the stub is left out.
unfoldable pub destroy : Queue → ErrorState → Queue × ErrorState
destroy q err =
    if not q.initialized
    then (q, err)
    else if not (q.queued == 0)
    then (q, set_errno ebusy err)
    else (record q { head = 0; tail = 0; stub = 0; queued = 0; initialized = false }, err)

unfoldable pub push : (node : ℕ) → Queue → Queue
push node q = if node == 0 || not q.initialized then q else link node true q

-- The loop of `ep_ready_drain`, with the rounds left: the nodes handed out are linked through `next`.
unfoldable pub drain_loop : (rounds out_head out_tail : ℕ) → Queue → ℕ × Queue
drain_loop zero out_head out_tail q = (out_head, q)
drain_loop (suc rounds) out_head out_tail q =
    let (node, q1) = pop_one q in
    let q2 = if out_tail == 0 then q1 else record q1 { next = update q1.next out_tail node } in
    let rest = drain_loop rounds (if out_tail == 0 then node else out_head) node q2 in
    if node == 0 then (out_head, q1) else rest

unfoldable pub drain : (maxevents : ℤ) → Queue → ℕ × Queue
drain (negsuc n) q = (0, q)
drain (pos n) q = if n == 0 || not q.initialized then (0, q) else drain_loop n 0 0 q
