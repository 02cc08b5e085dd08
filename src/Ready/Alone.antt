-- ===== src/Ready/Alone.antt =====
-- The steps of `ep_ready_pop_one` of src/wepoll_ex_pool.c without interruption.
use wepoll_ex.Prelude.{
  ℕ, zero, suc, ◌≡◌, refl, ◌∙◌, sym, ap, subst, arith, Bool, true, false, not, ◌==◌, if◌then◌else◌,
}
use wepoll_ex.Ready.{Queue, link, pass, pop_from, pop_one, prepare, exchange, publish}
use wepoll_ex.Ready.Steps.{Consumer, returns, loads_next, loads_head, exchanges, unlinks, consume}

-- The consumer's steps until it is at rest.
unfoldable pub alone : (fuel : ℕ) → Consumer → Queue → Consumer × Queue
alone zero c q = (c, q)
alone (suc fuel) (returns node) q = (returns node, q)
alone (suc fuel) c q = let (c1, q1) = consume c q in alone fuel c1 q1

-- A whole call, of a consumer at rest.
unfoldable pub call : Queue → Consumer × Queue
call q = let (c, q1) = consume (returns 0) q in alone 8 c q1

abbrev pub answer : ℕ × Queue → Consumer × Queue
answer (node, q) = (returns node, q)

from_again :
    (fuel t : ℕ) (q : Queue) (b : Bool)
    → alone (suc (suc (suc fuel))) (if b then returns 0 else unlinks t (q.next t)) q
      ≡ answer (if b then (0, q) else pass t (q.next t) q)
unfolding alone consume
from_again fuel t q true = refl
from_again fuel t q false = refl

from_head :
    (fuel t : ℕ) (q : Queue) (b : Bool)
    → alone (suc (suc (suc (suc (suc (suc fuel)))))) (if b then exchanges t else returns 0) q
      ≡ answer (
          if not b
          then (0, q)
          else (let q1 = link q.stub false q in
              let next1 = q1.next t in if next1 == 0 then (0, q1) else pass t next1 q1))
unfolding alone consume link prepare exchange publish
from_head fuel t q false = refl
from_head fuel t q true = let q1 = link q.stub false q in from_again fuel t q1 (q1.next t == 0)

from_load :
    (fuel t : ℕ) (q : Queue) (b : Bool)
    → alone
        (suc (suc (suc (suc (suc (suc (suc fuel)))))))
        (if b then loads_head t else unlinks t (q.next t))
        q
      ≡ answer (
          if not b
          then pass t (q.next t) q
          else if not (t == q.head)
          then (0, q)
          else (let q1 = link q.stub false q in
              let next1 = q1.next t in if next1 == 0 then (0, q1) else pass t next1 q1))
unfolding alone consume
from_load fuel t q false = refl
from_load fuel t q true = from_head fuel t q (t == q.head)

-- The first step of a call.
abbrev first_load : (stub empty : Bool) → Queue → Consumer × Queue
first_load true true q = (returns 0, q)
first_load true false q = (loads_next (q.next q.tail), record q { tail = q.next q.tail })
first_load false empty q = (if empty then loads_head q.tail else unlinks q.tail (q.next q.tail), q)

abbrev popped : (stub empty : Bool) → Queue → ℕ × Queue
popped true true q = (0, q)
popped true false q = pop_from (q.next q.tail) (record q { tail = q.next q.tail })
popped false empty q = pop_from q.tail q

abbrev alone_after : Consumer × Queue → Consumer × Queue
alone_after (c, q) = alone 8 c q

from_tail :
    (q : Queue) (stub empty : Bool)
    → (q.next q.tail == 0) ≡ empty
    → alone_after (first_load stub empty q) ≡ answer (popped stub empty q)
unfolding alone consume pop_from
from_tail q true true e = refl
from_tail q true false e =
    let next = q.next q.tail in
    let q1 : Queue = record q { tail = next } in from_load 0 next q1 (q.next next == 0)
from_tail q false empty e =
    subst
      (λ b.
        alone 8 (if b then loads_head q.tail else unlinks q.tail (q.next q.tail)) q
        ≡ answer (pop_from q.tail q))
      e (from_load 1 q.tail q (q.next q.tail == 0))

call-first_load :
    (q : Queue) (stub empty : Bool)
    → (q.tail == q.stub) ≡ stub
    → (q.next q.tail == 0) ≡ empty
    → (call q ≡ alone_after (first_load stub empty q)) × (pop_one q ≡ popped stub empty q)
unfolding call consume pop_one
call-first_load q true true e f = (ground (arith, e, f), ground (arith, e, f))
call-first_load q true false e f = (ground (arith, e, f), ground (arith, e, f))
call-first_load q false empty e f = (ground (arith, e, f), ground (arith, e, f))

-- Without interruption, a call ends within nine steps, and as `pop_one` describes it.
pub call-pop_one : (q : Queue) → call q ≡ answer (pop_one q)
call-pop_one q =
    let (calls, pops) = call-first_load q (q.tail == q.stub) (q.next q.tail == 0) refl refl in
    calls ∙ from_tail q (q.tail == q.stub) (q.next q.tail == 0) refl ∙ ap answer (sym pops)
