-- ===== src/Api/Lifetime/Release.antt =====
-- The steps that give a reference or a descriptor's record back: the locked part of `epfd_put`, the last
-- locked part of `wepoll_close`, and `epfd_destroy`.
use wepoll_ex.Prelude.{
  ℕ, ◌-◌, ◌≡◌, ◌≢◌, inl, inr, refl, true, false, ◌&&◌, none, some, ◌∷◌, arith, ltb, ◌==◌,
  if◌then◌else◌, has, erase, count-erase, count-pos, Bool-cases, ℕ_discrete,
}
use wepoll_ex.Api.Table.{Shared, put_locked, close_end, free_shared, set_shared}
use wepoll_ex.Api.System.{System, advance, puts, ends, tears}
use wepoll_ex.Api.Lifetime.{Inv, Touches-Inv, set-IsTable, free-IsTable, set-aliases, free-aliases}

module _ (s : ℕ) (y : System) (v : Shared) (i : Inv y)
    (there : y.table.shareds.cell s ≡ some v) where
  pub tears_at : has s y.teardowns ≡ true → (z : System) × (advance (tears s) y ≡ some z) × Inv z
  unfolding advance
  tears_at h =
      let z = record y {
        table = free_shared s y.table;
        teardowns = erase s y.teardowns;
        destroyed = v.port ∷ y.destroyed;
      } in
      (
        z,
        ground (arith, there),
        Touches-Inv s v none y z i there (record {
          table_after = free-IsTable s y.table i.table_ok;
          same_fresh = refl;
          cells = λ x. refl;
          owned_after = ground (
            arith,
            i.owned s,
            there,
            free-aliases s y.table s,
            count-pos s y.teardowns h,
            count-erase s s y.teardowns h,
          );
          aliases_same = λ x n. free-aliases s y.table x;
          held_same = λ x n. refl;
          closers_same = λ x n. refl;
          teardowns_same = λ x n. ground (arith, count-erase s x y.teardowns h);
        }),
      )

  -- The references after an `epfd_put`.
  abbrev released : Shared
  released = record v { refs = if ltb 0 v.refs then v.refs - 1 else v.refs }

  put_last :
      has s y.held ≡ true
      → (released.closing && (released.refs == 0)) ≡ true
      → v.detached ≡ true
      → (z : System) × (advance (puts s) y ≡ some z) × Inv z
  unfolding advance put_locked
  put_last h last owner =
      let z = record y {
        table = set_shared s released y.table;
        held = erase s y.held;
        teardowns = s ∷ y.teardowns;
      } in
      (
        z,
        ground (arith, there),
        Touches-Inv s v (some released) y z i there (record {
          table_after = set-IsTable s released y.table i.table_ok;
          same_fresh = refl;
          cells = λ x. refl;
          owned_after = ground (
            arith,
            i.owned s,
            there,
            set-aliases s released y.table s,
            count-pos s y.held h,
            count-erase s s y.held h,
          );
          aliases_same = λ x n. set-aliases s released y.table x;
          held_same = λ x n. ground (arith, count-erase s x y.held h);
          closers_same = λ x n. refl;
          teardowns_same = λ x n. ground arith;
        }),
      )

  put_signal :
      has s y.held ≡ true
      → (released.closing && (released.refs == 0)) ≡ true
      → v.detached ≡ false
      → (z : System) × (advance (puts s) y ≡ some z) × Inv z
  unfolding advance put_locked
  put_signal h last waits =
      let woken = record released { drained = true } in
      let z = record y { table = set_shared s woken y.table; held = erase s y.held } in
      (
        z,
        ground (arith, there),
        Touches-Inv s v (some woken) y z i there (record {
          table_after = set-IsTable s woken y.table i.table_ok;
          same_fresh = refl;
          cells = λ x. refl;
          owned_after = ground (
            arith,
            i.owned s,
            there,
            set-aliases s woken y.table s,
            count-pos s y.held h,
            count-erase s s y.held h,
          );
          aliases_same = λ x n. set-aliases s woken y.table x;
          held_same = λ x n. ground (arith, count-erase s x y.held h);
          closers_same = λ x n. refl;
          teardowns_same = λ x n. refl;
        }),
      )

  put_more :
      has s y.held ≡ true
      → (released.closing && (released.refs == 0)) ≡ false
      → (z : System) × (advance (puts s) y ≡ some z) × Inv z
  unfolding advance put_locked
  put_more h more =
      let z = record y { table = set_shared s released y.table; held = erase s y.held } in
      (
        z,
        ground (arith, there),
        Touches-Inv s v (some released) y z i there (record {
          table_after = set-IsTable s released y.table i.table_ok;
          same_fresh = refl;
          cells = λ x. refl;
          owned_after = ground (
            arith,
            i.owned s,
            there,
            set-aliases s released y.table s,
            count-pos s y.held h,
            count-erase s s y.held h,
          );
          aliases_same = λ x n. set-aliases s released y.table x;
          held_same = λ x n. ground (arith, count-erase s x y.held h);
          closers_same = λ x n. refl;
          teardowns_same = λ x n. refl;
        }),
      )

  pub puts_at : has s y.held ≡ true → (z : System) × (advance (puts s) y ≡ some z) × Inv z
  puts_at h = elim (Bool-cases (released.closing && (released.refs == 0))) [
    | inr more ↦ put_more h more
    | inl last ↦ elim (Bool-cases v.detached) [
      | inl owner ↦ put_last h last owner
      | inr waits ↦ put_signal h last waits
    ]
  ]

  end_idle :
      has s y.closers ≡ true → v.refs ≡ 0 → (z : System) × (advance (ends s) y ≡ some z) × Inv z
  unfolding advance close_end
  end_idle h idle =
      let z = record y { closers = erase s y.closers; teardowns = s ∷ y.teardowns } in
      (
        z,
        ground (arith, there),
        Touches-Inv s v (some v) y z i there (record {
          table_after = i.table_ok;
          same_fresh = refl;
          cells = λ x. ground (arith, there);
          owned_after =
              ground
                (arith, i.owned s, there, count-pos s y.closers h, count-erase s s y.closers h);
          aliases_same = λ x n. refl;
          held_same = λ x n. refl;
          closers_same = λ x n. ground (arith, count-erase s x y.closers h);
          teardowns_same = λ x n. ground arith;
        }),
      )

  end_busy :
      has s y.closers ≡ true → v.refs ≢ 0 → (z : System) × (advance (ends s) y ≡ some z) × Inv z
  unfolding advance close_end
  end_busy h busy =
      let left = record v { detached = true } in
      let z = record y { table = set_shared s left y.table; closers = erase s y.closers } in
      (
        z,
        ground (arith, there),
        Touches-Inv s v (some left) y z i there (record {
          table_after = set-IsTable s left y.table i.table_ok;
          same_fresh = refl;
          cells = λ x. refl;
          owned_after = ground (
            arith,
            i.owned s,
            there,
            set-aliases s left y.table s,
            count-pos s y.closers h,
            count-erase s s y.closers h,
          );
          aliases_same = λ x n. set-aliases s left y.table x;
          held_same = λ x n. refl;
          closers_same = λ x n. ground (arith, count-erase s x y.closers h);
          teardowns_same = λ x n. refl;
        }),
      )

  pub ends_at : has s y.closers ≡ true → (z : System) × (advance (ends s) y ≡ some z) × Inv z
  ends_at h = elim (ℕ_discrete v.refs 0) [ yes idle ↦ end_idle h idle | no busy ↦ end_busy h busy ]
