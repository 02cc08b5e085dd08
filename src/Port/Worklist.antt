-- ===== src/Port/Worklist.antt =====
-- The deferred-work lists of src/wepoll_ex_port.c: doubly linked through the sockets, with a flag in each
-- socket for its membership and a count in the port. 0 is NULL.
pub mod Segment
pub mod Order
pub mod Removal
pub mod Flags
mod Examples
use wepoll_ex.Prelude.{
  ℕ, zero, suc, ◌+◌, ◌-◌, ◌%◌, ◌^◌, Bool, true, false, ◌&&◌, ◌||◌, not, ◌==◌, if◌then◌else◌, Option,
  none, some, update, ltb,
}

-- `rearm_next`, `rearm_prev`, `rearm_head` and `rearm_tail`, or those of the oneshot list.
pub record Links : Type 0 where
  pub next : ℕ → ℕ
  pub prev : ℕ → ℕ
  pub head : ℕ
  pub tail : ℕ

-- `none` is a failed assertion.
unfoldable pub append : (sock : ℕ) → Links → Option Links
append sock l =
    if not (l.next sock == 0) || not (l.prev sock == 0)
    then none
    else some (record {
      next = if l.tail == 0 then l.next else update l.next l.tail sock;
      prev = update l.prev sock l.tail;
      head = if l.tail == 0 then sock else l.head;
      tail = sock;
    })

unfoldable pub remove : (sock : ℕ) → Links → Option Links
remove sock l =
    let before = l.prev sock in
    let behind = l.next sock in
    if (before == 0 && not (l.head == sock)) || (behind == 0 && not (l.tail == sock))
    then none
    else some (record {
      next = update (if before == 0 then l.next else update l.next before behind) sock 0;
      prev = update (if behind == 0 then l.prev else update l.prev behind before) sock 0;
      head = if before == 0 then behind else l.head;
      tail = if behind == 0 then before else l.tail;
    })

unfoldable pub rotate : (sock : ℕ) → Links → Option Links
rotate sock l =
    let behind = l.next sock in
    if not (l.head == sock)
    then none
    else if l.tail == sock
    then some l
    else some (record {
      next = update (update l.next sock 0) l.tail sock;
      prev = update (update l.prev behind 0) sock l.tail;
      head = behind;
      tail = sock;
    })

-- One of the lists with its flags (`needs_rearm` or `oneshot_fired`) and its count.
pub record Worklist : Type 0 where
  pub flag : ℕ → Bool
  pub links : Links
  pub count : ℕ

abbrev pub same : Bool → Bool → Bool
same true b = b
same false b = not b

unfoldable pub set_flag : (sock : ℕ) (requested : Bool) → Worklist → Option Worklist
set_flag sock requested w =
    if same (w.flag sock) requested
    then some w
    else if requested
    then elim (append sock w.links) [
      | none ↦ none
      | some l ↦
          some
            (record { flag = update w.flag sock true; links = l; count = (w.count + 1) % 2 ^ 64 })
    ]
    else if w.count == 0
    then none
    else elim (remove sock w.links) [
      | none ↦ none
      | some l ↦ some (record { flag = update w.flag sock false; links = l; count = w.count - 1 })
    ]

-- Both lists of a port.
pub record Worklists : Type 0 where
  pub rearm : Worklist
  pub oneshot : Worklist

unfoldable pub set_needs_rearm : (sock : ℕ) (needs_rearm : Bool) → Worklists → Option Worklists
set_needs_rearm sock needs_rearm p = elim (set_flag sock needs_rearm p.rearm) [
  | none ↦ none
  | some w ↦ some (record p { rearm = w })
]

unfoldable pub set_oneshot_fired : (sock : ℕ) (fired : Bool) → Worklists → Option Worklists
set_oneshot_fired sock fired p = elim (set_flag sock fired p.oneshot) [
  | none ↦ none
  | some w ↦ some (record p { oneshot = w })
]

infixl 5 ◌then_do◌
abbrev ◌then_do◌ : Option Worklists → (Worklists → Option Worklists) → Option Worklists
none then_do f = none
some p then_do f = f p

unfoldable pub restore_worklist_state :
    (sock : ℕ) (needs_rearm oneshot_fired : Bool) → Worklists → Option Worklists
restore_worklist_state sock needs_rearm oneshot_fired p =
    if needs_rearm && oneshot_fired
    then none
    else set_needs_rearm sock false p
      then_do set_oneshot_fired sock false
      then_do set_needs_rearm sock needs_rearm
      then_do set_oneshot_fired sock oneshot_fired

-- `ep_port_has_deferred_rearm_locked` from the socket `sock` on; `none` if the rounds run out.
unfoldable pub has_deferred_from : (rounds sock : ℕ) (et_holdoff : ℕ → Bool) → Links → Option Bool
has_deferred_from zero sock et_holdoff l = none
has_deferred_from (suc rounds) sock et_holdoff l = elim (sock == 0 || et_holdoff sock) [
  | true ↦ some (not (sock == 0))
  | false ↦ has_deferred_from rounds (l.next sock) et_holdoff l
]

-- `ep_port_release_deferred_rearms_locked` from the socket `sock` on.
unfoldable pub release_deferred_from :
    (rounds sock : ℕ) (et_holdoff : ℕ → Bool) → Links → Option (ℕ → Bool)
release_deferred_from zero sock et_holdoff l = none
release_deferred_from (suc rounds) sock et_holdoff l = elim (sock == 0) [
  | true ↦ some et_holdoff
  | false ↦ release_deferred_from rounds (l.next sock) (update et_holdoff sock false) l
]
