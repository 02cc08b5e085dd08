-- ===== src/Api/Lifetime/Steps.antt =====
-- Every step of every thread on the descriptor table of src/wepoll_ex_api.c.
use wepoll_ex.Prelude.{
  ℕ, ◌+◌, ◌<◌, ◌≡◌, inl, inr, refl, true, false, none, some, arith, count, count-pos, Option-cases,
}
use wepoll_ex.Prelude.Int.{ℤ}
use wepoll_ex.Api.Table.{Shared, Entry, duplicate, acquire, close_begin, find_locked}
use wepoll_ex.Api.Lookup.{find-pos}
use wepoll_ex.Api.Count.{aliases_of-pos}
use wepoll_ex.Api.System.{
  System, Event, Enabled, advance, opens, dups, acquires, puts, closes, ends, tears,
}
use wepoll_ex.Api.Lifetime.{Inv, Owned-there}
use wepoll_ex.Api.Lifetime.Release.{tears_at, puts_at, ends_at}
use wepoll_ex.Api.Lifetime.Claim.{acquires_at, closes_at, dups_at}
use wepoll_ex.Api.Lifetime.Opens.{opens_at}

-- The record that a descriptor names is there and open.
pub found_open :
    (fd : ℤ) (y : System) (e : Entry)
    → Inv y
    → find_locked fd y.table ≡ some e
    → (v : Shared) × (y.table.shareds.cell e.shared ≡ some v) × (v.closing ≡ false)
found_open fd y e i found =
    let k = i.owned e.shared in
    let some_alias = aliases_of-pos e.fd y.table e (find-pos fd y.table e found).0 in
    let (v, there) =
      Owned-there _ _ _ _ (y.table.shareds.cell e.shared) k (omega (arith, some_alias)) in
    (v, there, ground (arith, k, there, some_alias))

-- A reference, a closer or a teardown is of a record that is there.
pub owner_there :
    (s : ℕ) (y : System)
    → Inv y
    → 0 < count s y.held + count s y.closers + count s y.teardowns
    → (v : Shared) × (y.table.shareds.cell s ≡ some v)
owner_there s y i h = Owned-there _ _ _ _ (y.table.shareds.cell s) (i.owned s) (omega (arith, h))

module _ (fd : ℤ) (y : System) (i : Inv y) (missing : find_locked fd y.table ≡ none) where
  acquires_missing : (z : System) × (advance (acquires fd) y ≡ some z) × Inv z
  unfolding advance acquire
  acquires_missing = (y, ground (arith, missing), i)

  closes_missing : (z : System) × (advance (closes fd) y ≡ some z) × Inv z
  unfolding advance close_begin
  closes_missing = (y, ground (arith, missing), i)

  dups_missing : (z : System) × (advance (dups true fd) y ≡ some z) × Inv z
  unfolding advance duplicate
  dups_missing = (y, ground (arith, missing), i)

dups_refused :
    (fd : ℤ) (y : System) → Inv y → (z : System) × (advance (dups false fd) y ≡ some z) × Inv z
unfolding advance duplicate
dups_refused fd y i = (y, refl, i)

-- From a state that satisfies the invariant every enabled step of every thread runs: it reads no shared
-- record that has been freed and meets no failed assertion. The invariant holds again after it.
pub advance-Inv :
    (ev : Event) (y : System)
    → Inv y
    → Enabled ev y
    → (z : System) × (advance ev y ≡ some z) × Inv z
advance-Inv (opens entry_ok event_error port) y i h = opens_at y entry_ok event_error port i
advance-Inv (dups false fd) y i h = dups_refused fd y i
advance-Inv (dups true fd) y i h = elim (Option-cases (find_locked fd y.table)) [
  | inl missing ↦ dups_missing fd y i missing
  | inr (e, found) ↦
      let (v, there, open_still) = found_open fd y e i found in
      dups_at e.shared y v i there fd e found refl open_still h
]
advance-Inv (acquires fd) y i h = elim (Option-cases (find_locked fd y.table)) [
  | inl missing ↦ acquires_missing fd y i missing
  | inr (e, found) ↦
      let (v, there, open_still) = found_open fd y e i found in
      acquires_at e.shared y v i there fd e found refl open_still h
]
advance-Inv (closes fd) y i h = elim (Option-cases (find_locked fd y.table)) [
  | inl missing ↦ closes_missing fd y i missing
  | inr (e, found) ↦
      let (v, there, open_still) = found_open fd y e i found in
      closes_at e.shared y v i there fd e found refl open_still
]
advance-Inv (puts s) y i h =
    let (v, there) = owner_there s y i (omega (arith, count-pos s y.held h)) in
    puts_at s y v i there h
advance-Inv (ends s) y i h =
    let (v, there) = owner_there s y i (omega (arith, count-pos s y.closers h)) in
    ends_at s y v i there h
advance-Inv (tears s) y i h =
    let (v, there) = owner_there s y i (omega (arith, count-pos s y.teardowns h)) in
    tears_at s y v i there h
