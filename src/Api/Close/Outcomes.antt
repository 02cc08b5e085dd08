-- ===== src/Api/Close/Outcomes.antt =====
-- How `wepoll_close` of src/wepoll_ex_api.c ends.
use wepoll_ex.Prelude.{
  ℕ, ◌+◌, ◌-◌, ◌%◌, ◌^◌, ◌<◌, ◌≡◌, ◌≢◌, refl, true, false, none, some, arith, inl, inr,
}
use wepoll_ex.Prelude.Int.{ℤ, pos}
use wepoll_ex.Status.{ok, Status-cases}
use wepoll_ex.Errno.Codes.{etimedout}
use wepoll_ex.Errno.State.{ErrorState, set_errno, get_last_error_info, restore_last_error_info}
use wepoll_ex.Api.Call.Errors.{SameErrors, put-SameErrors}
use wepoll_ex.Errno.Channel.{IsCoherent, restore-get_last_error_info}
use wepoll_ex.Api.Table.{
  Table, Shared, Entry, find_locked, close_begin, close_end, unlink_locked, set_shared, free_shared,
}
use wepoll_ex.Api.Port.{PortApi}
use wepoll_ex.Api.Call.{Machine, destroy, put, put_in, int_of, minus_one}
use wepoll_ex.Api.Call.Teardown.{put-last}
use wepoll_ex.Api.Close.{WaitResult, timed_out, wait_error, finish_close, wepoll_close}

-- The descriptor `fd` names the open record `v` at `s`.
pub record Names (fd : ℤ) (s : ℕ) (v : Shared) (t : Table) : Type 0 where
  pub entry : Entry
  pub found : find_locked fd t ≡ some entry
  pub here : entry.shared ≡ s
  pub there : t.shareds.cell s ≡ some v
  pub open_still : v.closing ≡ false

abbrev pub closed_record : Shared → Shared
closed_record v = record v { aliases = 0; closing = true }

module _ {W : Type 0} (api : PortApi W) (fd : ℤ) (s : ℕ) (v : Shared) (m : Machine W)
    (k : Names fd s v m.table) where
  -- Closing one of several aliases takes away that descriptor alone: the call answers 0, and neither the
  -- port nor the errors change.
  pub wepoll_close-alias :
      (waited : WaitResult) (before others : Machine W → Machine W)
      → 1 < v.aliases
      → wepoll_close api waited before others fd m
        ≡ some (
          pos 0,
          record m {
            table =
                set_shared s
                  (record v { aliases = v.aliases - 1 })
                  (unlink_locked k.entry.fd m.table);
          },
        )
  unfolding wepoll_close close_begin
  wepoll_close-alias waited before others h = ground (arith, k.found, k.here, k.there, k.open_still)

  -- What the first locked part leaves when the last alias goes, and the port's world after that.
  abbrev pub closing_table : Table
  closing_table = set_shared s (closed_record v) (unlink_locked k.entry.fd m.table)

  abbrev pub closing : Machine W
  closing = put_in (api.begin_close v.port (m.world, m.err)) (record m { table = closing_table })

  close_begin-last :
      v.aliases ≡ 1 → close_begin fd m.table m.err ≡ some (ok, some s, closing_table, m.err)
  unfolding close_begin
  close_begin-last h = ground (arith, k.found, k.here, k.there, k.open_still)

  close_end-idle : v.refs ≡ 0 → close_end s closing_table ≡ some (false, closing_table)
  unfolding close_end
  close_end-idle h = ground (arith, h)

  close_end-busy :
      v.refs ≢ 0
      → close_end s closing_table
        ≡ some (true, set_shared s (record (closed_record v) { detached = true }) closing_table)
  unfolding close_end
  close_end-busy h = ground (arith, h)

  -- Closing the last alias with no call in flight begins the close of the port, destroys it and frees its
  -- record; the answer and the errors are those of `ep_port_destroy`.
  pub wepoll_close-last :
      (waited : WaitResult) (others : Machine W → Machine W)
      → v.aliases ≡ 1
      → v.refs ≡ 0
      → IsCoherent (api.destroy v.port (closing.world, closing.err)).2
      → let (r, w, err) = api.destroy v.port (closing.world, closing.err) in
        (n : Machine W) × (wepoll_close api waited (λ x. x) others fd m ≡ some (int_of r, n))
        × (n.world ≡ w)
        × (n.table ≡ free_shared s closing_table)
        × SameErrors err n.err
  unfolding wepoll_close finish_close destroy
  wepoll_close-last waited others one idle coherent =
      let (r, w, err) = api.destroy v.port (closing.world, closing.err) in
      elim (Status-cases r) [
        | inl fine ↦ (
          record { table = free_shared s closing_table; world = w; err = err },
          ground (arith, close_begin-last one, close_end-idle idle, idle, fine),
          refl,
          refl,
          (refl, refl),
        )
        | inr bad ↦ (
          record {
            table = free_shared s closing_table;
            world = w;
            err = restore_last_error_info (get_last_error_info err) err;
          },
          ground (arith, close_begin-last one, close_end-idle idle, idle, bad),
          refl,
          refl,
          restore-get_last_error_info err err coherent,
        )
      ]

  -- The record that is handed to the call in flight.
  abbrev pub orphan : Shared
  orphan = record (closed_record v) { detached = true }

  -- The state in which `wepoll_close` gives up.
  abbrev pub given_up : Machine W
  given_up = record closing {
    table = record (set_shared s orphan closing_table) {
      close_timeout_count = ((unlink_locked k.entry.fd m.table).close_timeout_count + 1) % 2 ^ 64;
    };
    err = set_errno etimedout closing.err;
  }

  close-gives_up :
      v.aliases ≡ 1
      → v.refs ≢ 0
      → wepoll_close api timed_out (λ x. x) (λ x. x) fd m ≡ some (minus_one, given_up)
  unfolding wepoll_close finish_close wait_error
  close-gives_up one busy = ground (arith, close_begin-last one, close_end-busy busy, busy)

  -- The state in which the thread of the holding call, with its own errors, runs `epfd_put`.
  abbrev pub held_up : ErrorState → Machine W
  held_up other = record given_up { err = other }

  -- When the last alias is closed while a call of another thread holds the port and the wait times out,
  -- `wepoll_close` fails with ETIMEDOUT and leaves the port alone; `epfd_put` of that call, on the thread of
  -- the call, then destroys the port, frees the record, and keeps what that thread reads as its errors.
  pub wepoll_close-deferred :
      (other : ErrorState)
      → v.aliases ≡ 1
      → v.refs ≡ 1
      → (n : Machine W) × (wepoll_close api timed_out (λ x. x) (λ x. x) fd m
          ≡ some (minus_one, given_up))
        × (put api s (held_up other) ≡ some n)
        × (n.world ≡ (api.destroy v.port (given_up.world, other)).1)
        × (n.table.shareds.cell s ≡ none)
        × SameErrors other n.err
  wepoll_close-deferred other one busy =
      let (n, (runs, world, gone)) =
        put-last api s orphan (held_up other) (ground arith) busy refl refl in
      (
        n,
        close-gives_up one (ground (arith, busy)),
        runs,
        world,
        gone,
        put-SameErrors api s (held_up other) n runs,
      )
