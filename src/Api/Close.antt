-- ===== src/Api/Close.antt =====
-- `wepoll_close` of src/wepoll_ex_api.c.
pub mod Outcomes
use wepoll_ex.Prelude.{ℕ, ◌+◌, ◌%◌, ◌^◌, Bool, true, false, Option, none, some, ◌==◌, if◌then◌else◌}
use wepoll_ex.Prelude.Int.{ℤ, pos}
use wepoll_ex.Status.{Status, ok, failed}
use wepoll_ex.Errno.Codes.{eio, etimedout}
use wepoll_ex.Errno.Mapping.{winerr_to_errno}
use wepoll_ex.Errno.State.{set_errno}
use wepoll_ex.Api.Table.{Table, Shared, close_begin, close_end}
use wepoll_ex.Api.Port.{PortApi}
use wepoll_ex.Api.Call.{Machine, destroy, put_in, int_of, minus_one}

-- What `WaitForSingleObject` answers; a failure carries `GetLastError`.
pub data WaitResult : Type 0 where
  signaled : WaitResult
  timed_out : WaitResult
  wait_failed : ℕ → WaitResult

unfoldable pub wait_error : WaitResult → ℕ
wait_error signaled = 0
wait_error timed_out = etimedout
wait_error (wait_failed error) = let e = winerr_to_errno error in if e == 0 then eio else e

module _ {W : Type 0} (api : PortApi W) where
  -- After the wait: `error` is `wait_error` as the wait left it.
  unfoldable pub finish_close : (s error : ℕ) → Machine W → Option (ℤ × Machine W)
  finish_close s error m = elim (close_end s m.table) [
    | none ↦ none
    | some (true, t) ↦
        let e = if error == 0 then etimedout else error in
        let t1 : Table =
          if e == etimedout
          then record t { close_timeout_count = (t.close_timeout_count + 1) % 2 ^ 64 }
          else t in
        some (minus_one, record m { table = t1; err = set_errno e m.err })
    | some (false, t) ↦ elim (destroy api s (record m { table = t })) [
      | none ↦ none
      | some (r, m1) ↦ some (int_of r, m1)
    ]
  ]

  -- `before` and `others` are what the other threads do while the lock is free, until the second locked
  -- part, and during the wait, which `waited` ends.
  unfoldable pub wepoll_close :
      (waited : WaitResult) (before others : Machine W → Machine W)
      → ℤ
      → Machine W
      → Option (ℤ × Machine W)
  wepoll_close waited before others epfd m = elim (close_begin epfd m.table m.err) [
    | none ↦ none
    | some (failed, last, t, err) ↦ some (minus_one, record m { table = t; err = err })
    | some (ok, none, t, err) ↦ some (pos 0, record m { table = t; err = err })
    | some (ok, some s, t, err) ↦ elim (t.shareds.cell s) [
      | none ↦ none
      | some v ↦
          let m1 =
            before (put_in (api.begin_close v.port (m.world, err)) (record m { table = t })) in
          elim (m1.table.shareds.cell s) [
            | none ↦ none
            | some v1 ↦
                if v1.refs == 0
                then finish_close s 0 m1
                else finish_close s (wait_error waited) (others m1)
          ]
    ]
  ]
