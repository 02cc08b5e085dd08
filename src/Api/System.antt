-- ===== src/Api/System.antt =====
-- The life of shared records under concurrent calls: each step is one locked section of a public
-- function of src/wepoll_ex_api.c, and the steps of all threads interleave in any order.
use wepoll_ex.Prelude.{
  ℕ, ◌+◌, ◌<◌, ◌≡◌, Bool, true, false, Option, none, some, List, [], ◌∷◌, has, erase, length,
}
use wepoll_ex.Prelude.Int.{ℤ}
use wepoll_ex.Errno.State.{fresh_thread}
use wepoll_ex.Api.Table.{
  Table, alloc_fd, duplicate, acquire, put_locked, close_begin, close_end, free_shared, uint_mod,
}
use wepoll_ex.Api.Count.{aliases_of}

-- `held`: the references of calls in flight. `closers`: calls of `wepoll_close` that took the last
-- alias and wait. `teardowns`: calls that must run `epfd_destroy`. `destroyed`: the ports whose
-- `ep_port_destroy` has run, latest first.
pub record System : Type 0 where
  pub table : Table
  pub held : List ℕ
  pub closers : List ℕ
  pub teardowns : List ℕ
  pub destroyed : List ℕ

pub data Event : Type 0 where
  -- `epfd_alloc`, with the outcomes of its allocations
  opens : (entry_ok : Bool) → (event_error : Option ℕ) → (port : ℕ) → Event
  -- `epfd_duplicate`
  dups : (entry_ok : Bool) → (fd : ℤ) → Event
  -- `epfd_acquire` and the locked part of `epfd_put`
  acquires : (fd : ℤ) → Event
  puts : (s : ℕ) → Event
  -- the two locked parts of `wepoll_close`
  closes : (fd : ℤ) → Event
  ends : (s : ℕ) → Event
  -- `epfd_destroy`
  tears : (s : ℕ) → Event

-- `epfd_destroy`: the port goes, then the record.
unfoldable pub tear_down : ℕ → System → Option System
tear_down s y = elim (y.table.shareds.cell s) [
  | none ↦ none
  | some v ↦ some (record y {
    table = free_shared s y.table;
    teardowns = erase s y.teardowns;
    destroyed = v.port ∷ y.destroyed;
  })
]

abbrev pub note_acquired : Option ℕ → System → System
note_acquired none y = y
note_acquired (some s) y = record y { held = s ∷ y.held }

abbrev pub note_closing : Option ℕ → System → System
note_closing none y = y
note_closing (some s) y = record y { closers = s ∷ y.closers }

-- `none` is a read of a shared record that has been freed, or a failed assertion.
unfoldable pub advance : Event → System → Option System
unfolding tear_down
advance (opens entry_ok event_error port) y =
    some (record y { table = (alloc_fd entry_ok event_error port y.table fresh_thread).1 })
advance (dups entry_ok fd) y = elim (duplicate entry_ok fd y.table fresh_thread) [
  | none ↦ none
  | some (r, t, err) ↦ some (record y { table = t })
]
advance (acquires fd) y = elim (acquire fd y.table) [
  | none ↦ none
  | some (r, t) ↦ some (note_acquired r (record y { table = t }))
]
advance (puts s) y = elim (put_locked s y.table) [
  | none ↦ none
  | some (true, t) ↦
      some (record y { table = t; held = erase s y.held; teardowns = s ∷ y.teardowns })
  | some (false, t) ↦ some (record y { table = t; held = erase s y.held })
]
advance (closes fd) y = elim (close_begin fd y.table fresh_thread) [
  | none ↦ none
  | some (result, last, t, err) ↦ some (note_closing last (record y { table = t }))
]
advance (ends s) y = elim (close_end s y.table) [
  | none ↦ none
  | some (true, t) ↦ some (record y { table = t; closers = erase s y.closers })
  | some (false, t) ↦
      some (record y { table = t; closers = erase s y.closers; teardowns = s ∷ y.teardowns })
]
advance (tears s) y = tear_down s y

-- When a thread can make the step. The two counters of a shared record are 32 bits wide: fewer calls
-- than that are in flight, and fewer aliases exist.
abbrev pub Enabled : Event → System → Type 0
Enabled (opens entry_ok event_error port) y = Unit {0}
Enabled (dups entry_ok fd) y = (s : ℕ) → aliases_of s y.table + 1 < uint_mod
Enabled (acquires fd) y = length y.held + 1 < uint_mod
Enabled (puts s) y = has s y.held ≡ true
Enabled (closes fd) y = Unit {0}
Enabled (ends s) y = has s y.closers ≡ true
Enabled (tears s) y = has s y.teardowns ≡ true

-- The table at start-up.
abbrev pub empty_table : List Bool → Table
empty_table grants = record {
  buckets = λ b. [];
  next_fd = 1;
  shareds = record { cell = λ s. none; fresh = 1; grants = grants };
  close_timeout_ms = 5000;
  close_timeout_count = 0;
  deferred_destroy_count = 0;
}

abbrev pub start : List Bool → System
start grants = record {
  table = empty_table grants;
  held = [];
  closers = [];
  teardowns = [];
  destroyed = [];
}

pub data Reach (grants : List Bool) : System → Type 0 where
  begin : Reach grants (start grants)
  next :
      {y z : System} (ev : Event)
      → Reach grants y
      → Enabled ev y
      → advance ev y ≡ some z
      → Reach grants z
