-- ===== src/Api/Call/Teardown.antt =====
-- The teardown of a port by `epfd_destroy`, and by the last `epfd_put` of a detached record, in
-- src/wepoll_ex_api.c.
use wepoll_ex.Prelude.{ℕ, ◌+◌, ◌%◌, ◌^◌, ◌≡◌, inl, inr, refl, ◌∙◌, ap, true, none, some, arith}
use wepoll_ex.Heap.{Heap}
use wepoll_ex.Status.{Status, ok, failed, Status-cases}
use wepoll_ex.Errno.State.{get_last_error_info, restore_last_error_info}
use wepoll_ex.Api.Table.{Table, Shared, put_locked, set_shared, free_shared}
use wepoll_ex.Api.Port.{PortApi}
use wepoll_ex.Api.Call.{Machine, put, put_destroy, destroy}

put_locked-last :
    (s : ℕ) (v : Shared) (t : Table)
    → t.shareds.cell s ≡ some v
    → v.refs ≡ 1
    → v.closing ≡ true
    → v.detached ≡ true
    → put_locked s t ≡ some (true, set_shared s (record v { refs = 0 }) t)
unfolding put_locked
put_locked-last s v t there one closing detached = ground (arith, there, one, closing, detached)

module _ {W : Type 0} (api : PortApi W) (s : ℕ) (v : Shared) where
  destroy-there :
      (m : Machine W)
      → m.table.shareds.cell s ≡ some v
      → (r : Status) × (n : Machine W) × ((destroy api s m ≡ some (r, n))
          × (n.world ≡ (api.destroy v.port (m.world, m.err)).1)
          × (n.table ≡ free_shared s m.table))
  unfolding destroy
  destroy-there m there =
      let (r, w, err) = api.destroy v.port (m.world, m.err) in
      let t = free_shared s m.table in
      let back = restore_last_error_info (get_last_error_info err) err in
      elim (Status-cases r) [
        | inl fine ↦ (
          ok,
          record { table = t; world = w; err = err },
          (ground (arith, there, fine), refl, refl),
        )
        | inr bad ↦ (
          failed,
          record { table = t; world = w; err = back },
          (ground (arith, there, bad), refl, refl),
        )
      ]

  put_destroy-there :
      (m : Machine W)
      → m.table.shareds.cell s ≡ some v
      → (n : Machine W) × ((put_destroy api s m ≡ some n)
          × (n.world ≡ (api.destroy v.port (m.world, m.err)).1)
          × (n.table.shareds ≡ (free_shared s m.table).shareds))
  unfolding put_destroy
  put_destroy-there m there =
      let (r, n, (runs, world, table)) = destroy-there m there in
      let err = record (restore_last_error_info (get_last_error_info m.err) n.err) {
        errno = m.err.errno;
      } in
      elim (Status-cases r) [
        | inl fine ↦
            let t = record (n.table) {
              deferred_destroy_count = (n.table.deferred_destroy_count + 1) % 2 ^ 64;
            } in
            (
              record n { table = t; err = err },
              (ground (arith, runs, fine), world, ap (λ (x : Table). x.shareds) table),
            )
        | inr bad ↦ (
          record n { err = err },
          (ground (arith, runs, bad), world, ap (λ (x : Table). x.shareds) table),
        )
      ]

module _ {W : Type 0} (api : PortApi W) (s : ℕ) (v : Shared) where
  -- `epfd_put` of the last reference to a detached record destroys its port and frees the record.
  pub put-last :
      (m : Machine W)
      → m.table.shareds.cell s ≡ some v
      → v.refs ≡ 1
      → v.closing ≡ true
      → v.detached ≡ true
      → (n : Machine W) × ((put api s m ≡ some n)
          × (n.world ≡ (api.destroy v.port (m.world, m.err)).1)
          × (n.table.shareds.cell s ≡ none))
  unfolding put
  put-last m there one closing detached =
      let left = record v { refs = 0 } in
      let t = set_shared s left m.table in
      let (n, (runs, world, heap)) =
        put_destroy-there api s left (record m { table = t }) (ground arith) in
      (
        n,
        (
          ground (arith, put_locked-last s v m.table there one closing detached, runs),
          world,
          ap (λ (h : Heap Shared). h.cell s) heap ∙ ground arith,
        ),
      )
