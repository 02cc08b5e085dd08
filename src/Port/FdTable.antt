-- ===== src/Port/FdTable.antt =====
-- The table of registered sockets of src/wepoll_ex_port.c: open addressing with linear probing.
pub mod Walk
pub mod Find
pub mod Place
pub mod Grow
pub mod Insert
pub mod Gap
pub mod Close
pub mod Remove
pub mod Examples
use wepoll_ex.Prelude.{
  ℕ, zero, suc, ◌+◌, ◌-◌, ◌*◌, ◌/◌, ◌%◌, ◌^◌, Bool, true, false, not, ◌&&◌, ◌||◌, Option, none,
  some, ltb, leb, ◌==◌, if◌then◌else◌, update,
}
use wepoll_ex.Status.{Status, ok, failed}
use wepoll_ex.Errno.Codes.{enomem}
use wepoll_ex.Errno.State.{ErrorState, set_errno}

-- An `ep_sock_t`: its address and its socket number.
pub record Sock : Type 0 where
  pub addr : ℕ
  pub fd : ℕ

abbrev pub Slots : Type 0
Slots = ℕ → Option Sock

-- `fd_table`, `fd_table_size` and `fd_table_count` of `ep_port_t`.
pub record FdTable : Type 0 where
  pub slots : Slots
  pub size : ℕ
  pub count : ℕ

abbrev pub size_max : ℕ
size_max = 2 ^ 64 - 1

-- WEPOLL_INITIAL_FDS
abbrev pub initial_fds : ℕ
initial_fds = 256

-- The loop of `ep_fd_table_lookup`, with the probes left.
unfoldable pub lookup_from : (probes slot fd size : ℕ) → Slots → Option Sock
lookup_from zero slot fd size t = none
lookup_from (suc probes) slot fd size t = elim (t slot) [
  | none ↦ none
  | some s ↦ if s.fd == fd then some s else lookup_from probes ((slot + 1) % size) fd size t
]

unfoldable pub lookup : (fd : ℕ) → FdTable → Option Sock
lookup fd p = if p.size == 0 then none else lookup_from p.size (fd % p.size) fd p.size p.slots

-- The first free slot from `slot`, as the loops of insertion, growth and removal look for it; `none` if
-- the rounds run out.
unfoldable pub free_slot : (rounds slot size : ℕ) → Slots → Option ℕ
free_slot zero slot size t = none
free_slot (suc rounds) slot size t = elim (t slot) [
  | none ↦ some slot
  | some s ↦ free_slot rounds ((slot + 1) % size) size t
]

-- Put a socket at the first free slot from its home.
unfoldable pub place : Sock → (size : ℕ) → Slots → Option Slots
place s size t = elim (free_slot size (s.fd % size) size t) [
  | none ↦ none
  | some slot ↦ some (update t slot (some s))
]

-- The loop of `ep_fd_table_grow` over the slots `i` of the old table, with the slots left.
unfoldable pub rehash : (left i new_size : ℕ) (old : Slots) → Slots → Option Slots
rehash zero i new_size old t = some t
rehash (suc left) i new_size old t = elim (old i) [
  | none ↦ rehash left (suc i) new_size old t
  | some s ↦ elim (place s new_size t) [
    | none ↦ none
    | some t' ↦ rehash left (suc i) new_size old t'
  ]
]

-- `granted` is the outcome of `calloc`. The outer `none` is a loop that does not end.
unfoldable pub grow :
    (granted : Bool) (new_size : ℕ) → FdTable → ErrorState → Option (Status × FdTable × ErrorState)
grow granted new_size p err =
    if new_size == 0 || ltb (size_max / 8) new_size || not granted
    then some (failed, p, set_errno enomem err)
    else elim (rehash p.size 0 new_size p.slots (λ j. none)) [
      | none ↦ none
      | some t ↦ some (ok, record p { slots = t; size = new_size }, err)
    ]

-- The last part of `ep_fd_table_insert`.
unfoldable pub insert_here : Sock → FdTable → ErrorState → Option (Status × FdTable × ErrorState)
insert_here s p err = elim (place s p.size p.slots) [
  | none ↦ none
  | some t ↦ some (ok, record p { slots = t; count = (p.count + 1) % 2 ^ 64 }, err)
]

unfoldable pub insert :
    (granted : Bool) → Sock → FdTable → ErrorState → Option (Status × FdTable × ErrorState)
insert granted s p err =
    if p.size == 0 || leb (p.size * 3 % 2 ^ 64) (p.count * 4 % 2 ^ 64)
    then if not (p.size == 0) && ltb (size_max / 2) p.size
      then some (failed, p, set_errno enomem err)
      else elim (grow granted (if p.size == 0 then initial_fds else p.size * 2) p err) [
        | none ↦ none
        | some (failed, p1, err1) ↦ some (failed, p1, err1)
        | some (ok, p1, err1) ↦ insert_here s p1 err1
      ]
    else insert_here s p err

-- Where `ep_fd_table_remove` finds the socket; `none` inside if it is not there.
unfoldable pub find_slot : (rounds slot addr size : ℕ) → Slots → Option (Option ℕ)
find_slot zero slot addr size t = none
find_slot (suc rounds) slot addr size t = elim (t slot) [
  | none ↦ some none
  | some s ↦
      if s.addr == addr then some (some slot) else find_slot rounds ((slot + 1) % size) addr size t
]

-- The loop that moves the sockets behind the hole; `none` if the rounds run out.
unfoldable pub close_gap : (rounds slot size : ℕ) → Slots → Option Slots
close_gap zero slot size t = none
close_gap (suc rounds) slot size t =
    let scan = (slot + 1) % size in
    elim (t scan) [
      | none ↦ some t
      | some moved ↦ elim (place moved size (update t scan none)) [
        | none ↦ none
        | some t' ↦ close_gap rounds scan size t'
      ]
    ]

unfoldable pub remove : Sock → FdTable → Option FdTable
remove s p =
    if p.size == 0 then some p else elim (find_slot p.size (s.fd % p.size) s.addr p.size p.slots) [
      | none ↦ none
      | some none ↦ some p
      | some (some slot) ↦ elim (close_gap p.size slot p.size (update p.slots slot none)) [
        | none ↦ none
        | some t ↦ some (record p { slots = t; count = (p.count + (2 ^ 64 - 1)) % 2 ^ 64 })
      ]
    ]
