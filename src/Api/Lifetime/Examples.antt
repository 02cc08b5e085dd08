-- ===== src/Api/Lifetime/Examples.antt =====
-- A run of the descriptor table of src/wepoll_ex_api.c: one port is opened, held by a call, closed, and
-- torn down.
use wepoll_ex.Prelude.{◌<◌, ◌≡◌, ◌⊎◌, refl, true, false, none, some, [], ◌∷◌, has, count, arith}
use wepoll_ex.Prelude.Int.{pos}
use wepoll_ex.Api.Table.{
  Shared, find_locked, alloc_fd, acquire, put_locked, close_begin, close_end, publish,
  allocate_id_locked, allocate_from, insert_locked, unlink_locked,
}
use wepoll_ex.Api.Count.{aliases_of}
use wepoll_ex.Api.System.{
  System, Event, advance, opens, acquires, puts, closes, ends, Reach, begin, next, start,
}
use wepoll_ex.Api.Lifetime.Reachable.{Reach-progress, Reach-counters, Reach-teardown, Reach-kept}

abbrev begun : System
begun = start (true ∷ [])

-- The state after a step that runs.
abbrev state_after : Event → System → System
state_after ev y = elim (advance ev y) [ none ↦ y | some z ↦ z ]

abbrev opened : System
opened = state_after (opens true none 7) begun

opened-Reach : Reach (true ∷ []) opened
unfolding advance alloc_fd publish allocate_id_locked allocate_from find_locked
opened-Reach = next (opens true none 7) begin tt refl

abbrev held_open : System
held_open = state_after (acquires (pos 1)) opened

abbrev closing : System
closing = state_after (closes (pos 1)) held_open

abbrev abandoned : System
abandoned = state_after (ends 1) closing

abbrev torn : System
torn = state_after (puts 1) abandoned

held_open-Reach : Reach (true ∷ []) held_open
unfolding advance alloc_fd publish allocate_id_locked allocate_from find_locked insert_locked
    acquire
held_open-Reach = next (acquires (pos 1)) opened-Reach (omega arith) refl

closing-Reach : Reach (true ∷ []) closing
unfolding advance alloc_fd publish allocate_id_locked allocate_from find_locked insert_locked
    acquire close_begin unlink_locked
closing-Reach = next (closes (pos 1)) held_open-Reach tt refl

abandoned-Reach : Reach (true ∷ []) abandoned
unfolding advance alloc_fd publish allocate_id_locked allocate_from find_locked insert_locked
    acquire close_begin unlink_locked close_end
abandoned-Reach = next (ends 1) closing-Reach refl refl

torn-Reach : Reach (true ∷ []) torn
unfolding advance alloc_fd publish allocate_id_locked allocate_from find_locked insert_locked
    acquire close_begin unlink_locked close_end put_locked
torn-Reach = next (puts 1) abandoned-Reach refl refl

-- The call that holds the port runs its `epfd_put` after `wepoll_close` has given up.
Reach-progress_example : (z : System) × (advance (puts 1) abandoned ≡ some z) × Reach (true ∷ []) z
unfolding advance alloc_fd publish allocate_id_locked allocate_from find_locked insert_locked
    acquire close_begin unlink_locked close_end
Reach-progress_example = Reach-progress (true ∷ []) abandoned (puts 1) abandoned-Reach refl

Reach-teardown_example :
    (aliases_of 1 torn.table ≡ 0)
    × (count 1 torn.held ≡ 0)
    × (count 1 torn.closers ≡ 0)
    × (count 1 torn.teardowns ≡ 1)
unfolding advance alloc_fd publish allocate_id_locked allocate_from find_locked insert_locked
    acquire close_begin unlink_locked close_end put_locked
Reach-teardown_example = Reach-teardown (true ∷ []) torn 1 torn-Reach refl

Reach-counters_example :
    (v : Shared) × (held_open.table.shareds.cell 1 ≡ some v)
    × (v.closing ≡ false)
    × (v.refs ≡ count 1 held_open.held)
    × (v.aliases ≡ aliases_of 1 held_open.table)
unfolding advance alloc_fd publish allocate_id_locked allocate_from find_locked insert_locked
    acquire
Reach-counters_example =
    Reach-counters (true ∷ []) held_open (pos 1) (record { fd = 1; shared = 1 }) held_open-Reach
      refl

Reach-kept_example :
    (0 < aliases_of 1 abandoned.table)
    ⊎ (has 1 abandoned.closers ≡ true)
    ⊎ ((true ≡ true) × (has 1 abandoned.held ≡ true))
    ⊎ (has 1 abandoned.teardowns ≡ true)
unfolding advance alloc_fd publish allocate_id_locked allocate_from find_locked insert_locked
    acquire close_begin unlink_locked close_end
Reach-kept_example =
    Reach-kept (true ∷ []) abandoned 1
      (record { port = 7; refs = 1; aliases = 0; closing = true; detached = true; drained = false })
      abandoned-Reach refl
