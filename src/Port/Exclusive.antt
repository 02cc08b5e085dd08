-- ===== src/Port/Exclusive.antt =====
-- The claims of EPOLLEXCLUSIVE registrations of src/wepoll_ex_port.c: which registration reports which
-- readiness class of a provider socket.
pub mod Held
pub mod Peers
pub mod Safety
pub mod Reports
mod Examples
use wepoll_ex.Prelude.{
  ℕ, ◌-◌, ◌*◌, ◌/◌, ◌%◌, ◌^◌, Bool, true, false, ◌&&◌, ◌||◌, not, ◌==◌, if◌then◌else◌, bit_xor,
  Option, none, some, List, [], ◌∷◌, update, erase,
}
use wepoll_ex.Port.Classes.{
  Classes, no_class, terminal_class, directions, join, meet, minus, any_class, readiness_classes,
  filter_classes, quiescent_classes,
}

-- EP_EXCLUSIVE_CLAIM_BUCKETS
abbrev pub claim_buckets : ℕ
claim_buckets = 128

-- INVALID_SOCKET
abbrev pub invalid_socket : ℕ
invalid_socket = 2 ^ 64 - 1

unfoldable pub exclusive_bucket : (base : ℕ) → ℕ
exclusive_bucket base = bit_xor base (base / 2 ^ 17) * 0x9e3779b97f4a7c15 % 2 ^ 64 % claim_buckets

-- `g_exclusive_claim_buckets`, each chain the list of its sockets in the order of `exclusive_next`, and
-- the fields `exclusive_claim_base` and `exclusive_claim_classes` of each socket.
pub record Claims : Type 0 where
  pub chains : ℕ → List ℕ
  pub claim_base : ℕ → ℕ
  pub claim_classes : ℕ → Classes

abbrev pub claims_any : Claims → ℕ → Bool
claims_any c s = any_class (c.claim_classes s)

unfoldable pub unlink : (s : ℕ) → Claims → Claims
unlink s c =
    if not (claims_any c s)
    then c
    else (let b = exclusive_bucket (c.claim_base s) in
        record {
          chains = update c.chains b (erase s (c.chains b));
          claim_base = update c.claim_base s invalid_socket;
          claim_classes = update c.claim_classes s no_class;
        })

unfoldable pub remove_classes : (s : ℕ) → Classes → Claims → Claims
remove_classes s classes c =
    let remaining = minus (c.claim_classes s) classes in
    if not (any_class (meet (c.claim_classes s) classes))
    then c
    else if not (any_class remaining)
    then unlink s c
    else record c { claim_classes = update c.claim_classes s remaining }

-- A claim on another base than `base` is given up.
unfoldable pub leave_other_base : (s base : ℕ) → Claims → Claims
leave_other_base s base c = if claims_any c s && not (c.claim_base s == base) then unlink s c else c

unfoldable pub link : (s base : ℕ) → Claims → Claims
link s base c =
    let b = exclusive_bucket base in
    if not (claims_any c s)
    then record c {
      chains = update c.chains b (s ∷ c.chains b);
      claim_base = update c.claim_base s base;
    }
    else c

unfoldable pub add_classes : (s base : ℕ) → Classes → Claims → Claims
add_classes s base classes c =
    let linked = link s base (leave_other_base s base c) in
    if not (any_class classes) then c else record linked {
      claim_classes = update linked.claim_classes s (join (linked.claim_classes s) classes);
    }

-- What the first loop of `ep_exclusive_try_claim` gathers.
pub record Gathered : Type 0 where
  pub denied : Classes
  pub owned : Classes
  pub owner_terminal : Bool
  pub peer_terminal : Bool

unfoldable pub scan_claim :
    (s base : ℕ) (requested : Classes) → Claims → (claim : ℕ) → Gathered → Gathered
scan_claim s base requested c claim k =
    let classes = c.claim_classes claim in
    if not (c.claim_base claim == base)
    then k
    else if claim == s
    then record k {
      owned = join k.owned classes;
      owner_terminal = k.owner_terminal || classes.terminal;
    }
    else if classes.terminal
    then record k { peer_terminal = true }
    else if not requested.terminal
    then record k { denied = join k.denied (meet classes requested) }
    else k

unfoldable pub scan :
    (chain : List ℕ) (s base : ℕ) (requested : Classes) → Claims → Gathered → Gathered
scan [] s base requested c k = k
scan (claim ∷ chain) s base requested c k =
    scan chain s base requested c (scan_claim s base requested c claim k)

-- The loops that take classes from every claim on `base`; each reads the next link before it unlinks.
unfoldable pub release_chain : (chain : List ℕ) (base : ℕ) → Classes → Claims → Claims
release_chain [] base classes c = c
release_chain (claim ∷ chain) base classes c =
    release_chain chain base classes
      (if c.claim_base claim == base then remove_classes claim classes c else c)

abbrev pub no_scan : Gathered
no_scan = record {
  denied = no_class;
  owned = no_class;
  owner_terminal = false;
  peer_terminal = false;
}

-- `base` is the socket's `base_socket`. `none` is the answer 0, with `*delivered` as before.
unfoldable pub try_claim : (s base delivered : ℕ) → Claims → Option ℕ × Claims
try_claim s base delivered c =
    let requested = readiness_classes delivered in
    let c1 = leave_other_base s base c in
    let chain = c1.chains (exclusive_bucket base) in
    let k = scan chain s base requested c1 no_scan in
    let denied = if k.peer_terminal then requested else k.denied in
    let c2 =
      if requested.terminal && not k.peer_terminal
      then release_chain chain base directions c1
      else c1 in
    let granted = minus requested denied in
    let missing =
      if k.owner_terminal
      then no_class
      else if granted.terminal
      then terminal_class
      else minus granted k.owned in
    if not (any_class granted) && any_class requested
    then (none, c2)
    else (some (filter_classes delivered denied), add_classes s base missing c2)

unfoldable pub release_owner : (s : ℕ) → Claims → Claims
release_owner = unlink

unfoldable pub release_inactive : (s base : ℕ) (inactive : Classes) → Claims → Claims
release_inactive s base inactive c =
    let c1 = leave_other_base s base c in
    release_chain (c1.chains (exclusive_bucket base)) base inactive c1

unfoldable pub release_quiescent : (s base submitted_afd_events : ℕ) → Claims → Claims
release_quiescent s base submitted_afd_events =
    release_inactive s base (quiescent_classes submitted_afd_events)
