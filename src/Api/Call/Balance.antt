-- ===== src/Api/Call/Balance.antt =====
-- `epfd_require` and `epfd_put` balance: a call between them leaves the table of descriptors as it was.
use wepoll_ex.Prelude.{
  ℕ, ◌+◌, ◌%◌, ◌<◌, ◌≡◌, refl, ap, fun_ext, false, Option, none, some, arith, update,
}
use wepoll_ex.Prelude.Int.{ℤ}
use wepoll_ex.Errno.Codes.{ebadf}
use wepoll_ex.Errno.State.{ErrorState, set_errno}
use wepoll_ex.Api.Table.{
  Table, Shared, Entry, acquire, put_locked, find_locked, set_shared, uint_mod,
}
use wepoll_ex.Api.Port.{Effect, PortApi}
use wepoll_ex.Api.Call.{Machine, require, put, with_port, run}

-- The descriptor `fd` names the open record `v` at `s`, and fewer calls than the counter can hold are in
-- flight.
pub record Open (fd : ℤ) (s : ℕ) (v : Shared) (t : Table) : Type 0 where
  pub entry : Entry
  pub found : find_locked fd t ≡ some entry
  pub here : entry.shared ≡ s
  pub there : t.shareds.cell s ≡ some v
  pub open_still : v.closing ≡ false
  pub few : v.refs + 1 < uint_mod

update-twice :
    (f : ℕ → Option Shared) (s : ℕ) (v w : Shared)
    → f s ≡ some v
    → update (update f s (some w)) s (some v) ≡ f
update-twice f s v w h = fun_ext λ x. ground arith

abbrev pub referenced : Shared → Shared
referenced v = record v { refs = (v.refs + 1) % uint_mod }

set-twice :
    (s : ℕ) (v : Shared) (t : Table)
    → t.shareds.cell s ≡ some v
    → set_shared s v (set_shared s (referenced v) t) ≡ t
set-twice s v t h =
    ap (λ (c : ℕ → Option Shared). record t { shareds = record (t.shareds) { cell = c } })
      (update-twice t.shareds.cell s v (referenced v) h)

acquire-Open :
    (fd : ℤ) (s : ℕ) (v : Shared) (t : Table)
    → Open fd s v t
    → acquire fd t ≡ some (some s, set_shared s (referenced v) t)
unfolding acquire
acquire-Open fd s v t o = ground (arith, o.found, o.here, o.there, o.open_still)

put_locked-referenced :
    (s : ℕ) (v : Shared) (t : Table)
    → t.shareds.cell s ≡ some v
    → v.closing ≡ false
    → v.refs + 1 < uint_mod
    → put_locked s (set_shared s (referenced v) t) ≡ some (false, t)
unfolding put_locked
put_locked-referenced s v t there open_still few =
    let same : record (referenced v) { refs = v.refs } ≡ v = refl in
    ground (arith, there, open_still, set-twice s v t there)

module _ {W : Type 0} (api : PortApi W) where
  require-Open :
      (fd : ℤ) (s : ℕ) (v : Shared) (m : Machine W)
      → Open fd s v m.table
      → require api fd m ≡ some (some s, record m { table = set_shared s (referenced v) m.table })
  unfolding require
  require-Open fd s v m o = ground (arith, acquire-Open fd s v m.table o)

  put-referenced :
      (s : ℕ) (v : Shared) (t : Table) (w : W) (err : ErrorState)
      → t.shareds.cell s ≡ some v
      → v.closing ≡ false
      → v.refs + 1 < uint_mod
      → put api s (record { table = set_shared s (referenced v) t; world = w; err = err })
        ≡ some (record { table = t; world = w; err = err })
  unfolding put
  put-referenced s v t w err there open_still few =
      ground (arith, put_locked-referenced s v t there open_still few)

  -- On an open descriptor the call of the port decides the answer, the world and the errors, and the
  -- table is as before.
  pub with_port-Open :
      {A : Type 0} (fd : ℤ) (s : ℕ) (v : Shared) (unknown : A) (call : ℕ → Effect W A)
      (m : Machine W)
      → Open fd s v m.table
      → with_port api fd unknown call m ≡ some (run (call v.port) m)
  unfolding with_port
  with_port-Open fd s v unknown call m o =
      let (a, w, err) = call v.port (m.world, m.err) in
      ground (
        arith,
        require-Open fd s v m o,
        put-referenced s v m.table w err o.there o.open_still o.few,
      )

  -- A number that names nothing is EBADF, and nothing else changes.
  pub with_port-unknown :
      {A : Type 0} (fd : ℤ) (unknown : A) (call : ℕ → Effect W A) (m : Machine W)
      → find_locked fd m.table ≡ none
      → with_port api fd unknown call m ≡ some (unknown, record m { err = set_errno ebadf m.err })
  unfolding with_port require acquire
  with_port-unknown fd unknown call m h = ground (arith, h)
