-- ===== src/Pool.antt =====
-- The buffer pool of src/wepoll_ex_pool.c: a LIFO stack of buffers under a mutex. A buffer is named
-- by the address of its entry (`ep_pool_entry_buf` and `ep_pool_buf_entry` move by a constant). An
-- operation runs under the pool's lock, so it is one step; `rc` is what the mutex call returns.
pub mod Chain
pub mod Inv
pub mod Grow
pub mod Take
pub mod Give
pub mod Free
pub mod Init
mod Examples
use wepoll_ex.Prelude.{
  ℕ, zero, suc, ◌+◌, ◌-◌, ◌%◌, ◌^◌, Bool, true, false, not, ◌||◌, ◌&&◌, Option, none, some, ltb,
  ◌==◌, if◌then◌else◌, is_some,
}
use wepoll_ex.Status.{Status, ok, failed}
use wepoll_ex.Heap.{Heap, size_mod, alloc, free, store}
use wepoll_ex.Errno.Codes.{enomem, einval, efault, ebusy}
use wepoll_ex.Errno.State.{ErrorState, set_errno}
use wepoll_ex.Fault.{FaultState, hit, pool_init_alloc, pool_grow}

-- `ep_pool_entry_t` without its payload.
pub record Entry : Type 0 where
  pub next : Option ℕ
  pub all_next : Option ℕ
  pub owner : Option ℕ
  pub magic : ℕ
  pub in_pool : Bool

-- `ep_afd_pool_t` without its mutex.
pub record Pool : Type 0 where
  pub stack : Option ℕ
  pub all_entries : Option ℕ
  pub buf_size : ℕ
  pub capacity : ℕ
  pub allocated : ℕ
  pub in_use : ℕ
  pub peak : ℕ
  pub initialized : Bool

-- What an operation changes besides the pool.
pub record Env : Type 0 where
  pub heap : Heap Entry
  pub faults : FaultState
  pub err : ErrorState

abbrev pub entry_magic : ℕ
entry_magic = 0x4550504f4f4c4558

-- `offsetof(ep_pool_entry_t, data)` on x86-64.
abbrev pub header_size : ℕ
header_size = 80

abbrev pub fail_with : ℕ → Env → Env
fail_with error w = record w { err = set_errno error w.err }

-- `memset(p, 0, sizeof(*p))`
abbrev pub zero_pool : Pool
zero_pool = record {
  stack = none;
  all_entries = none;
  buf_size = 0;
  capacity = 0;
  allocated = 0;
  in_use = 0;
  peak = 0;
  initialized = false;
}

abbrev pub new_entry : (self : ℕ) → Bool → Entry
new_entry self in_pool = record {
  next = none;
  all_next = none;
  owner = some self;
  magic = entry_magic;
  in_pool = in_pool;
}

-- The result of `malloc`, with errno set if it is NULL.
unfoldable pub checked_alloc : Entry → Env → Option ℕ × Env
checked_alloc e w =
    let (r, h) = alloc e w.heap in
    let w' = record w { heap = h } in if is_some r then (r, w') else (none, fail_with enomem w')

-- `self` is the address of the pool.
unfoldable pub entry_alloc : (self : ℕ) → Pool → Bool → Env → Option ℕ × Env
unfolding checked_alloc hit
entry_alloc self p in_pool w =
    if ltb (size_mod - 1 - header_size) p.buf_size
    then (none, fail_with enomem w)
    else let (s, faults, err) =
        hit (if in_pool then pool_init_alloc else pool_grow) w.faults w.err in
      let w' = record w { faults = faults; err = err } in
      elim s [ failed ↦ (none, w') | ok ↦ checked_alloc (new_entry self in_pool) w' ]

-- The chain of `all_next` links; `none` for a fault, or for fuel that ran out.
unfoldable pub entries_free : (fuel : ℕ) → Option ℕ → Heap Entry → Option (Heap Entry)
entries_free fuel none h = some h
entries_free zero (some a) h = none
entries_free (suc fuel) (some a) h = elim (h.cell a) [
  | none ↦ none
  | some e ↦ entries_free fuel e.all_next (free a h)
]

-- Link entry `a`, that `entry_alloc` gave, into both lists, as the loop of `ep_afd_pool_init` does.
abbrev pub with_entry : ℕ → Pool → Env → Pool × Env
with_entry a p w = elim (w.heap.cell a) [
  | none ↦ (p, w)
  | some e ↦ (
    record p { stack = some a; all_entries = some a; allocated = (p.allocated + 1) % size_mod },
    record w { heap = store a (record e { next = p.stack; all_next = p.all_entries }) w.heap },
  )
]

-- The loop of `ep_afd_pool_init`, with the rounds left. On failure the entries made so far are freed:
-- there are `allocated` of them, which is the fuel.
unfoldable pub fill : (rounds self : ℕ) → Pool → Env → Option (Status × Pool × Env)
fill zero self p w = some (ok, p, w)
fill (suc rounds) self p w =
    let (r, w') = entry_alloc self p true w in
    elim r [
      | some a ↦ let (p', w'') = with_entry a p w' in fill rounds self p' w''
      | none ↦ elim (entries_free p.allocated p.all_entries w'.heap) [
        | none ↦ none
        | some h ↦ some (
          failed,
          record p { stack = none; all_entries = none; allocated = 0; initialized = false },
          record w' { heap = h },
        )
      ]
    ]

-- `ep_afd_pool_init` of the pool at `self`, or of NULL.
unfoldable pub init :
    (rc : ℕ) → Option ℕ → (buf_size capacity : ℕ) → Pool → Env → Option (Status × Pool × Env)
init rc none buf_size capacity p w = some (failed, p, fail_with einval w)
init rc (some self) buf_size capacity p w =
    if buf_size == 0 || capacity == 0
    then some (failed, p, fail_with einval w)
    else if not (rc == 0)
    then some (failed, zero_pool, fail_with rc w)
    else let fresh = record zero_pool {
      buf_size = buf_size;
      capacity = capacity;
      initialized = true;
    } in
      fill capacity self fresh w

unfoldable pub destroy : (rc : ℕ) → Pool → Env → Option (Pool × Env)
destroy rc p w =
    if not p.initialized
    then some (p, w)
    else if not (rc == 0)
    then some (p, fail_with rc w)
    else if not (p.in_use == 0)
    then some (p, fail_with ebusy w)
    else elim (entries_free p.allocated p.all_entries w.heap) [
      | none ↦ none
      | some h ↦ some (
        record p { stack = none; all_entries = none; allocated = 0; initialized = false },
        record w { heap = h },
      )
    ]

-- The end of `ep_afd_pool_take`: the entry leaves the pool, and the counters go up.
abbrev pub hand_out : ℕ → Entry → Pool → Env → Option ℕ × Pool × Env
hand_out a e p w =
    let now = (p.in_use + 1) % size_mod in
    (
      some a,
      record p { in_use = now; peak = if ltb p.peak now then now else p.peak },
      record w { heap = store a (record e { next = none; in_pool = false }) w.heap },
    )

-- `none` outside for a read of a cell that is not there.
unfoldable pub take : (self rc : ℕ) → Pool → Env → Option (Option ℕ × Pool × Env)
take self rc p w =
    if not p.initialized
    then some (none, p, fail_with efault w)
    else if not (rc == 0)
    then some (none, p, fail_with rc w)
    else elim p.stack [
      | some a ↦ elim (w.heap.cell a) [
        | none ↦ none
        | some e ↦ some (hand_out a e (record p { stack = e.next }) w)
      ]
      | none ↦
          let (r, w') = entry_alloc self p false w in
          elim r [
            | none ↦ some (none, p, w')
            | some a ↦ elim (w'.heap.cell a) [
              | none ↦ none
              | some e ↦ some (
                  hand_out a (record e { all_next = p.all_entries })
                    (record p { all_entries = some a; allocated = (p.allocated + 1) % size_mod })
                    w')
            ]
          ]
    ]

-- `entry->owner != p`
abbrev pub owned_by : ℕ → Option ℕ → Bool
owned_by self none = false
owned_by self (some o) = o == self

unfoldable pub give : (self rc : ℕ) → Option ℕ → Pool → Env → Option (Pool × Env)
give self rc none p w = some (p, w)
give self rc (some a) p w = elim (w.heap.cell a) [
  | none ↦ none
  | some e ↦
      if not (e.magic == entry_magic) || not (owned_by self e.owner) || not p.initialized
      then some (p, fail_with einval w)
      else if not (rc == 0)
      then some (p, fail_with rc w)
      else if e.in_pool
      then some (p, fail_with einval w)
      else let w' = record w {
        heap = store a (record e { in_pool = true; next = p.stack }) w.heap;
      } in
        let p' = record p { stack = some a } in
        if ltb 0 p.in_use
        then some (record p' { in_use = p.in_use - 1 }, w')
        else some (p', fail_with einval w')
]
