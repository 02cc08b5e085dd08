-- ===== src/Api/Table.antt =====
-- The table of descriptors of src/wepoll_ex_api.c. Each function whose name ends in `_locked`, and each
-- locked part of another, is one step on the table; `g_epfd_lock` makes it so.
use wepoll_ex.Prelude.{
  ℕ, zero, suc, ◌+◌, ◌-◌, ◌%◌, ◌^◌, Bool, true, false, not, ◌&&◌, Option, none, some, List, [], ◌∷◌,
  ltb, ◌==◌, if◌then◌else◌, is_some, update,
}
use wepoll_ex.Prelude.Int.{ℤ, pos, negsuc}
use wepoll_ex.Heap.{Heap, alloc, free, store}
use wepoll_ex.Status.{Status, ok, failed}
use wepoll_ex.Errno.Codes.{enomem, emfile, ebadf}
use wepoll_ex.Errno.State.{ErrorState, set_errno, set_win32_error}

-- `epfd_shared_t`; `drained` is the state of `refs_drained_event`, and the port is its number.
pub record Shared : Type 0 where
  pub port : ℕ
  pub refs : ℕ
  pub aliases : ℕ
  pub closing : Bool
  pub detached : Bool
  pub drained : Bool

-- `epfd_entry_t`: the chain of a bucket is a list, and `shared` an address.
pub record Entry : Type 0 where
  pub fd : ℕ
  pub shared : ℕ

-- The globals: `g_epfd_buckets`, `g_next_fd`, the close timeout and the two counters, with the heap of
-- shared records.
pub record Table : Type 0 where
  pub buckets : ℕ → List Entry
  pub next_fd : ℕ
  pub shareds : Heap Shared
  pub close_timeout_ms : ℕ
  pub close_timeout_count : ℕ
  pub deferred_destroy_count : ℕ

abbrev pub int_max : ℕ
int_max = 2147483647

abbrev pub bucket_count : ℕ
bucket_count = 64

abbrev pub uint_mod : ℕ
uint_mod = 2 ^ 32

abbrev pub bucket : ℕ → ℕ
bucket fd = fd % bucket_count

-- The walk along a chain.
abbrev pub find_in : ℕ → List Entry → Option Entry
find_in fd [] = none
find_in fd (e ∷ es) = if e.fd == fd then some e else find_in fd es

-- A descriptor that is not positive names nothing.
unfoldable pub find_locked : ℤ → Table → Option Entry
find_locked (negsuc n) t = none
find_locked (pos fd) t = if fd == 0 then none else find_in fd (t.buckets (bucket fd))

abbrev pub next_after : ℕ → ℕ
next_after fd = if fd == int_max then 1 else fd + 1

-- The loop of `epfd_allocate_id_locked`, with the attempts left.
unfoldable pub allocate_from : ℕ → Table → Option ℕ × Table
allocate_from zero t = (none, t)
allocate_from (suc attempts) t =
    let t' = record t { next_fd = next_after t.next_fd } in
    elim (ltb 0 t.next_fd && not (is_some (find_locked (pos t.next_fd) t'))) [
      | true ↦ (some t.next_fd, t')
      | false ↦ allocate_from attempts t'
    ]

unfoldable pub allocate_id_locked : Table → Option ℕ × Table
allocate_id_locked t = allocate_from int_max t

unfoldable pub insert_locked : (shared fd : ℕ) → Table → Table
insert_locked shared fd t = record t {
  buckets =
      update t.buckets (bucket fd) (record { fd = fd; shared = shared } ∷ t.buckets (bucket fd));
}

-- The entry is the one that `find_locked` found, so it is told by its descriptor.
abbrev pub remove_from : ℕ → List Entry → List Entry
remove_from fd [] = []
remove_from fd (e ∷ es) = if e.fd == fd then es else e ∷ remove_from fd es

unfoldable pub unlink_locked : ℕ → Table → Table
unlink_locked fd t = record t {
  buckets = update t.buckets (bucket fd) (remove_from fd (t.buckets (bucket fd)));
}

abbrev pub set_shared : ℕ → Shared → Table → Table
set_shared s v t = record t { shareds = store s v t.shareds }

abbrev pub free_shared : ℕ → Table → Table
free_shared s t = record t { shareds = free s t.shareds }

-- `calloc` of a shared record, with the fields that `epfd_alloc` sets before it takes the lock.
abbrev pub new_shared : ℕ → Shared
new_shared port = record {
  port = port;
  refs = 0;
  aliases = 1;
  closing = false;
  detached = false;
  drained = false;
}

-- `epfd_alloc` after its allocations: find a number, and insert; free the shared record if there is none.
unfoldable pub publish : ℕ → Table → ErrorState → Option ℕ × Table × ErrorState
publish s t err =
    let (r, t') = allocate_id_locked t in
    elim r [
      | none ↦ (none, free_shared s t', set_errno emfile err)
      | some fd ↦ (some fd, insert_locked s fd t', err)
    ]

-- `entry_ok` tells whether the second `calloc` succeeds, and `event_error` what `CreateEventW` left
-- in `GetLastError`, if it failed.
unfoldable pub alloc_fd :
    (entry_ok : Bool) (event_error : Option ℕ) (port : ℕ)
    → Table
    → ErrorState
    → Option ℕ × Table × ErrorState
alloc_fd entry_ok event_error port t err =
    let (r, h) = alloc (new_shared port) t.shareds in
    let t' = record t { shareds = h } in
    elim r [
      | none ↦ (none, t', set_errno enomem err)
      | some s ↦
          if not entry_ok
          then (none, free_shared s t', set_errno enomem err)
          else elim event_error [
            | some e ↦ (none, free_shared s t', set_win32_error e err)
            | none ↦ publish s t' err
          ]
    ]

-- What stands at an entry's shared address, if the entry is there; `none` inside for a dangling one.
abbrev pub shared_at : Option Entry → Table → Option (Entry × Option Shared)
shared_at none t = none
shared_at (some e) t = some (e, t.shareds.cell e.shared)

-- The outer `none` of the next four is a read of a shared record that is not there.
unfoldable pub duplicate :
    (entry_ok : Bool) → ℤ → Table → ErrorState → Option (Option ℕ × Table × ErrorState)
duplicate entry_ok fd t err =
    if not entry_ok
    then some (none, t, set_errno enomem err)
    else elim (shared_at (find_locked fd t) t) [
      | none ↦ some (none, t, set_errno ebadf err)
      | some (e, none) ↦ none
      | some (e, some v) ↦
          if v.closing
          then some (none, t, set_errno ebadf err)
          else let (r, t') = allocate_id_locked t in
            elim r [
              | none ↦ some (none, t', set_errno emfile err)
              | some d ↦ some (
                some d,
                insert_locked e.shared d
                    (set_shared e.shared (record v { aliases = (v.aliases + 1) % uint_mod }) t'),
                err,
              )
            ]
    ]

unfoldable pub acquire : ℤ → Table → Option (Option ℕ × Table)
acquire fd t = elim (shared_at (find_locked fd t) t) [
  | none ↦ some (none, t)
  | some (e, none) ↦ none
  | some (e, some v) ↦
      if v.closing
      then some (none, t)
      else some (some e.shared, set_shared e.shared (record v { refs = (v.refs + 1) % uint_mod }) t)
]

-- The locked part of `epfd_put`, with the flag `destroy`.
unfoldable pub put_locked : ℕ → Table → Option (Bool × Table)
put_locked s t = elim (t.shareds.cell s) [
  | none ↦ none
  | some v ↦
      let v' = record v { refs = if ltb 0 v.refs then v.refs - 1 else v.refs } in
      if v'.closing && v'.refs == 0
      then if v'.detached
        then some (true, set_shared s v' t)
        else some (false, set_shared s (record v' { drained = true }) t)
      else some (false, set_shared s v' t)
]

-- The first locked part of `wepoll_close`: `some s` inside if the last alias went. With no alias to
-- take away the `assert` stops the program.
unfoldable pub close_begin :
    ℤ → Table → ErrorState → Option (Status × Option ℕ × Table × ErrorState)
close_begin fd t err = elim (shared_at (find_locked fd t) t) [
  | none ↦ some (failed, none, t, set_errno ebadf err)
  | some (e, none) ↦ none
  | some (e, some v) ↦
      if v.closing
      then some (failed, none, t, set_errno ebadf err)
      else if v.aliases == 0
      then none
      else let left = v.aliases - 1 in
        let t' = unlink_locked e.fd t in
        if left == 0
        then some (
          ok,
          some e.shared,
          set_shared e.shared (record v { aliases = 0; closing = true }) t',
          err,
        )
        else some (ok, none, set_shared e.shared (record v { aliases = left }) t', err)
]

-- The last locked part of `wepoll_close`: `true` inside if references are left, which then own the
-- teardown.
unfoldable pub close_end : ℕ → Table → Option (Bool × Table)
close_end s t = elim (t.shareds.cell s) [
  | none ↦ none
  | some v ↦
      if v.refs == 0
      then some (false, t)
      else some (true, set_shared s (record v { detached = true }) t)
]
