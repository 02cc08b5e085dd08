-- ===== src/Api/Lifetime/Reachable.antt =====
-- What holds in every state of the descriptor table of src/wepoll_ex_api.c that calls can reach.
use wepoll_ex.Prelude.{
  ℕ, ◌<◌, ◌≡◌, ◌⊎◌, refl, Bool, true, false, some, List, arith, has, count, count-pos, has-count,
  subst,
}
use wepoll_ex.Prelude.Int.{ℤ}
use wepoll_ex.Api.Table.{Shared, Entry, find_locked}
use wepoll_ex.Api.Count.{aliases_of, aliases_of-empty}
use wepoll_ex.Api.System.{System, Event, Enabled, advance, Reach, begin, next, start, empty_table}
use wepoll_ex.Api.Lifetime.{Inv}
use wepoll_ex.Api.Lifetime.Steps.{advance-Inv, found_open, owner_there}

start-Inv : (gs : List Bool) → Inv (start gs)
start-Inv gs = record {
  table_ok = record { next_positive = omega arith; next_small = omega arith; chains = λ b. tt };
  owned = λ s. (aliases_of-empty s (empty_table gs) (λ b. refl), refl, refl, refl);
  unused = λ s h. refl;
}

-- The invariant holds in every state that calls can reach, in any interleaving.
pub Reach-Inv : (gs : List Bool) (y : System) → Reach gs y → Inv y
Reach-Inv gs y begin = start-Inv gs
Reach-Inv gs y (next {y = x} ev r enabled e) =
    let (z, runs, i) = advance-Inv ev x (Reach-Inv gs x r) enabled in subst (λ w. Inv w) (cc) i

-- In a state that calls can reach, a thread's step never reads a freed record or fails an assertion.
pub Reach-progress :
    (gs : List Bool) (y : System) (ev : Event)
    → Reach gs y
    → Enabled ev y
    → (z : System) × (advance ev y ≡ some z) × Reach gs z
Reach-progress gs y ev r enabled =
    let (z, runs, i) = advance-Inv ev y (Reach-Inv gs y r) enabled in
    (z, runs, next ev r enabled runs)

-- In a state that calls can reach, the record of an open descriptor is there and not closing, and its
-- two counters are exact: `refs` counts the references that calls hold, `aliases` the descriptors.
pub Reach-counters :
    (gs : List Bool) (y : System) (fd : ℤ) (e : Entry)
    → Reach gs y
    → find_locked fd y.table ≡ some e
    → (v : Shared) × (y.table.shareds.cell e.shared ≡ some v)
      × (v.closing ≡ false)
      × (v.refs ≡ count e.shared y.held)
      × (v.aliases ≡ aliases_of e.shared y.table)
Reach-counters gs y fd e r found =
    let i = Reach-Inv gs y r in
    let (v, there, open_still) = found_open fd y e i found in
    let k = i.owned e.shared in
    (v, there, open_still, ground (arith, k, there), ground (arith, k, there))

-- In a state that calls can reach, a port that is to be destroyed has no descriptor left, no reference
-- held, no closer waiting, and one call alone that destroys it.
pub Reach-teardown :
    (gs : List Bool) (y : System) (s : ℕ)
    → Reach gs y
    → has s y.teardowns ≡ true
    → (aliases_of s y.table ≡ 0)
      × (count s y.held ≡ 0)
      × (count s y.closers ≡ 0)
      × (count s y.teardowns ≡ 1)
Reach-teardown gs y s r h =
    let i = Reach-Inv gs y r in
    let some_teardown = count-pos s y.teardowns h in
    let (v, there) = owner_there s y i (omega (arith, some_teardown)) in
    let k = i.owned s in
    (
      ground (arith, k, there, some_teardown),
      ground (arith, k, there, some_teardown),
      ground (arith, k, there, some_teardown),
      ground (arith, k, there, some_teardown),
    )

-- In a state that calls can reach, no record is lost: one that is there has an open descriptor, or a
-- call in flight that will destroy it or pass that duty on.
pub Reach-kept :
    (gs : List Bool) (y : System) (s : ℕ) (v : Shared)
    → Reach gs y
    → y.table.shareds.cell s ≡ some v
    → (0 < aliases_of s y.table)
      ⊎ (has s y.closers ≡ true)
      ⊎ ((v.detached ≡ true) × (has s y.held ≡ true))
      ⊎ (has s y.teardowns ≡ true)
Reach-kept gs y s v r there =
    let k = (Reach-Inv gs y r).owned s in
    ground (arith, k, there, has-count s y.closers, has-count s y.held, has-count s y.teardowns)
