-- ===== src/Api/Call.antt =====
-- How a public function of src/wepoll_ex_api.c holds a port: `epfd_require`, the call, `epfd_put`.
pub mod Balance
pub mod Errors
pub mod Teardown
use wepoll_ex.Prelude.{ℕ, ◌+◌, ◌%◌, ◌^◌, Bool, true, false, Option, none, some}
use wepoll_ex.Prelude.Int.{ℤ, pos, negsuc}
use wepoll_ex.Heap.{Heap}
use wepoll_ex.Status.{Status, ok, failed}
use wepoll_ex.Errno.Codes.{ebadf}
use wepoll_ex.Errno.State.{ErrorState, set_errno, get_last_error_info, restore_last_error_info}
use wepoll_ex.Api.Table.{Table, Shared, acquire, put_locked, free_shared}
use wepoll_ex.Api.Port.{Effect, PortApi}

-- The table, the port's world and the errors of the thread that calls.
pub record Machine (W : Type 0) : Type 0 where
  pub table : Table
  pub world : W
  pub err : ErrorState

abbrev pub minus_one : ℤ
minus_one = negsuc 0

abbrev pub int_of : Status → ℤ
int_of ok = pos 0
int_of failed = minus_one

module _ {W : Type 0} where
  abbrev pub fail_with : ℕ → Machine W → ℤ × Machine W
  fail_with error m = (minus_one, record m { err = set_errno error m.err })

  -- A call of the port from a public function.
  abbrev pub run : {A : Type 0} → Effect W A → Machine W → A × Machine W
  run f m = let (a, w, err) = f (m.world, m.err) in (a, record m { world = w; err = err })

  abbrev pub put_in : W × ErrorState → Machine W → Machine W
  put_in (w, err) m = record m { world = w; err = err }

module _ {W : Type 0} (api : PortApi W) where
  -- `none` is a read of a shared record that is not there.
  unfoldable pub destroy : ℕ → Machine W → Option (Status × Machine W)
  destroy s m = elim (m.table.shareds.cell s) [
    | none ↦ none
    | some v ↦
        let (result, m1) = run (api.destroy v.port) m in
        let saved_error = get_last_error_info m1.err in
        let m2 = record m1 { table = free_shared s m1.table } in
        elim result [
          | ok ↦ some (ok, m2)
          | failed ↦ some (failed, record m2 { err = restore_last_error_info saved_error m2.err })
        ]
  ]

  -- The part of `epfd_put` after the lock, if it owns the teardown.
  unfoldable pub put_destroy : ℕ → Machine W → Option (Machine W)
  put_destroy s m =
      let operation_error = get_last_error_info m.err in
      let operation_errno = m.err.errno in
      elim (destroy s m) [
        | none ↦ none
        | some (result, m1) ↦
            let t : Table = elim result [
              | ok ↦ record (m1.table) {
                deferred_destroy_count = (m1.table.deferred_destroy_count + 1) % 2 ^ 64;
              }
              | failed ↦ m1.table
            ] in
            let err = restore_last_error_info operation_error m1.err in
            some (record m1 { table = t; err = record err { errno = operation_errno } })
      ]

  unfoldable pub put : ℕ → Machine W → Option (Machine W)
  put s m = elim (put_locked s m.table) [
    | none ↦ none
    | some (true, t) ↦ put_destroy s (record m { table = t })
    | some (false, t) ↦ some (record m { table = t })
  ]

  -- `epfd_require`.
  unfoldable pub require : ℤ → Machine W → Option (Option ℕ × Machine W)
  require epfd m = elim (acquire epfd m.table) [
    | none ↦ none
    | some (none, t) ↦ some (none, record m { table = t; err = set_errno ebadf m.err })
    | some (some s, t) ↦ some (some s, record m { table = t })
  ]

  -- A call of the port between the two, as the public functions write it.
  unfoldable pub with_port :
      {A : Type 0} → ℤ → A → (ℕ → Effect W A) → Machine W → Option (A × Machine W)
  with_port epfd unknown call m = elim (require epfd m) [
    | none ↦ none
    | some (none, m1) ↦ some (unknown, m1)
    | some (some s, m1) ↦ elim (m1.table.shareds.cell s) [
      | none ↦ none
      | some v ↦
          let (a, m2) = run (call v.port) m1 in
          elim (put s m2) [ none ↦ none | some m3 ↦ some (a, m3) ]
    ]
  ]
