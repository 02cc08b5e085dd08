-- ===== src/Ready/Examples.antt =====
-- A run of the ready queue of src/wepoll_ex_pool.c: two producers push nodes 2 and 3 behind the stub 1,
-- the second exchanges `head` before the first has written its link.
use wepoll_ex.Prelude.{ℕ, ◌+◌, ◌≡◌, ◌≢◌, ◌⊎◌, inl, refl, false, List, arith, length}
use wepoll_ex.Ready.{Queue, init, prepare, exchange, publish}
use wepoll_ex.Ready.Steps.{
  returns, consume, System, counts, claims, links, consumes, advance, Reach, begin, next, start,
}
use wepoll_ex.Ready.Alone.{call}
use wepoll_ex.Ready.Moves.{joined}
use wepoll_ex.Ready.System.{Reach-fifo, Reach-drains, Reach-reclaim}

abbrev junk : Queue
junk = record { next = λ a. 9; head = 8; tail = 8; stub = 8; queued = 8; initialized = false }

abbrev stub_at : ℕ
stub_at = 1

some_stub : stub_at ≢ 0
some_stub e = absurd (omega (arith, e))

-- Both producers have counted their nodes.
abbrev both_counted : System
both_counted = advance (counts 3) (advance (counts 2) (start 1 junk))

abbrev crossed : System
crossed = advance (claims 3) (advance (claims 2) both_counted)

abbrev settled : System
settled = advance (links 2) (advance (links 1) crossed)

-- The consumer has moved past node 2.
abbrev taken : System
taken = advance consumes (advance consumes (advance consumes settled))

both_counted-Reach : Reach 1 junk both_counted
unfolding advance init prepare
both_counted-Reach =
    next (counts 3)
      (next (counts 2) begin (
        (
          (λ (e : 2 ≡ 0). absurd (omega (arith, e))),
          (λ (e : 2 ≡ 1). absurd (omega (arith, e))),
          refl,
          refl,
        ),
        omega arith,
      ))
      (
        (
          (λ (e : 3 ≡ 0). absurd (omega (arith, e))),
          (λ (e : 3 ≡ 1). absurd (omega (arith, e))),
          refl,
          refl,
        ),
        omega arith,
      )

settled-Reach : Reach 1 junk settled
unfolding advance init prepare exchange publish
settled-Reach =
    next (links 2)
      (next (links 1) (next (claims 3) (next (claims 2) both_counted-Reach refl) refl)
        ((λ (e : 2 ≡ 0). absurd (omega (arith, e))), (λ (e : 2 ≡ 1). absurd (omega (arith, e)))))
      ((λ (e : 3 ≡ 0). absurd (omega (arith, e))), (λ (e : 3 ≡ 1). absurd (omega (arith, e))))

taken-Reach : Reach 1 junk taken
taken-Reach = next consumes (next consumes (next consumes settled-Reach tt) tt) tt

Reach-fifo_example :
    (left : List ℕ) × (taken.pushed ≡ joined taken.popped left)
    × (taken.queue.queued ≡ length left + length taken.counted)
Reach-fifo_example = Reach-fifo 1 junk taken some_stub taken-Reach

Reach-drains_example :
    (node : ℕ) × (((call settled.queue).0 ≡ returns node)
      × ((node ≢ 0) ⊎ (settled.pushed ≡ settled.popped)))
unfolding advance init prepare exchange publish
Reach-drains_example =
    Reach-drains 1 junk settled 0 some_stub settled-Reach refl (λ a. ground arith)

Reach-reclaim_example : (taken.flight 2 ≡ 0) × (2 ≢ taken.queue.tail) × (2 ≢ taken.queue.head)
unfolding advance init prepare exchange publish consume
Reach-reclaim_example =
    Reach-reclaim 1 junk taken 2 some_stub taken-Reach (λ (e : 2 ≡ 1). absurd (omega (arith, e)))
      (inl refl)
