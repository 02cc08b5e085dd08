-- ===== src/Api/Lifetime/Claim.antt =====
-- The steps that find a descriptor: `epfd_acquire`, `epfd_duplicate`, the first locked part of
-- `wepoll_close`, and `epfd_alloc`.
use wepoll_ex.Prelude.{
  ℕ, ◌+◌, ◌-◌, ◌%◌, ◌≤◌, ◌<◌, ◌≡◌, ◌≢◌, inl, inr, refl, ◌∙◌, ap, subst, true, false, none, some,
  ◌∷◌, arith, ◌==◌, if◌then◌else◌, update, length, count-le-length, ℕ_discrete,
}
use wepoll_ex.Prelude.Int.{ℤ, pos}
use wepoll_ex.Heap.{Heap}
use wepoll_ex.Api.Table.{
  Table, Shared, Entry, duplicate, acquire, close_begin, find_locked, set_shared,
  allocate_id_locked, int_max, uint_mod, insert_locked, unlink_locked,
}
use wepoll_ex.Api.Lookup.{
  IsTable, find-buckets, find-pos, insert_locked-IsTable, insert_locked-shareds,
  unlink_locked-shareds, unlink_locked-IsTable,
}
use wepoll_ex.Api.Allocate.{with_next, allocate_id-fresh}
use wepoll_ex.Api.Count.{
  aliases_of, aliases_of-buckets, aliases_of-insert_locked, aliases_of-unlink_locked,
}
use wepoll_ex.Api.System.{System, advance, dups, acquires, closes}
use wepoll_ex.Api.Lifetime.{Inv, Touches-Inv, set-IsTable, set-aliases}

-- Only the number to try next changes.
next-Inv :
    (y : System) (t' : Table) (k : ℕ)
    → Inv y
    → t' ≡ with_next k y.table
    → IsTable t'
    → Inv (record y { table = t' })
next-Inv y t' k i frame table = record {
  table_ok = table;
  owned = λ x. ground (
    arith,
    i.owned x,
    aliases_of-buckets x t' y.table (ap (λ (t : Table). t.buckets) frame),
    ap (λ (t : Table). t.shareds.cell x) frame,
  );
  unused = λ x h. ground (
    arith,
    i.unused x,
    ap (λ (t : Table). t.shareds.cell x) frame,
    ap (λ (t : Table). t.shareds.fresh) frame,
  );
}

module _ (s : ℕ) (y : System) (v : Shared) (i : Inv y) (there : y.table.shareds.cell s ≡ some v)
    (fd : ℤ) (e : Entry) (found : find_locked fd y.table ≡ some e) (here : e.shared ≡ s)
    (open_still : v.closing ≡ false) where
  pub acquires_at :
      length y.held + 1 < uint_mod → (z : System) × (advance (acquires fd) y ≡ some z) × Inv z
  unfolding advance acquire
  acquires_at few =
      let more = record v { refs = (v.refs + 1) % uint_mod } in
      let z = record y { table = set_shared s more y.table; held = s ∷ y.held } in
      (
        z,
        ground (arith, there, found),
        Touches-Inv s v (some more) y z i there (record {
          table_after = set-IsTable s more y.table i.table_ok;
          same_fresh = refl;
          cells = λ x. refl;
          owned_after =
              ground
                (arith, i.owned s, there, set-aliases s more y.table s, count-le-length s y.held);
          aliases_same = λ x n. set-aliases s more y.table x;
          held_same = λ x n. ground arith;
          closers_same = λ x n. refl;
          teardowns_same = λ x n. refl;
        }),
      )

  -- A number is found, and the new entry shares the record.
  dup_given :
      (d k : ℕ) (t' : Table)
      → allocate_id_locked y.table ≡ (some d, t')
      → t' ≡ with_next k y.table
      → IsTable t'
      → 0 < d
      → d ≤ int_max
      → find_locked (pos d) y.table ≡ none
      → aliases_of s y.table + 1 < uint_mod
      → (z : System) × (advance (dups true fd) y ≡ some z) × Inv z
  unfolding advance duplicate
  dup_given d k t' given frame table positive small new few =
      let more = record v { aliases = (v.aliases + 1) % uint_mod } in
      let u = set_shared s more t' in
      let z = record y { table = insert_locked s d u } in
      let heap : t'.shareds ≡ y.table.shareds = ap (λ (t : Table). t.shareds) frame in
      let same : t'.buckets ≡ y.table.buckets = ap (λ (t : Table). t.buckets) frame in
      let count_after : (x : ℕ)
          → aliases_of x z.table ≡ (if x == s then 1 else 0) + aliases_of x y.table =
        λ x.
          aliases_of-insert_locked x s d u
          ∙ ap (λ n. (if x == s then 1 else 0) + n) (aliases_of-buckets x u y.table same) in
      (
        z,
        ground (arith, there, found, given),
        Touches-Inv s v (some more) y z i there (record {
          table_after =
              insert_locked-IsTable s d u (set-IsTable s more t' table) positive small
                (find-buckets (pos d) u y.table same ∙ new);
          same_fresh =
              ap (λ (h : Heap Shared). h.fresh) (insert_locked-shareds s d u)
              ∙ ap (λ (h : Heap Shared). h.fresh) heap;
          cells = λ x.
              ap (λ (h : Heap Shared). h.cell x) (insert_locked-shareds s d u)
              ∙ ap (λ (h : Heap Shared). update h.cell s (some more) x) heap;
          owned_after = ground (arith, i.owned s, there, count_after s);
          aliases_same = λ x n. ground (arith, count_after x);
          held_same = λ x n. refl;
          closers_same = λ x n. refl;
          teardowns_same = λ x n. refl;
        }),
      )

  -- No number is left, and nothing but `g_next_fd` changes.
  dup_full :
      (k : ℕ) (t' : Table)
      → allocate_id_locked y.table ≡ (none, t')
      → t' ≡ with_next k y.table
      → IsTable t'
      → (z : System) × (advance (dups true fd) y ≡ some z) × Inv z
  unfolding advance duplicate
  dup_full k t' full frame table =
      let z = record y { table = t' } in
      (z, ground (arith, there, found, full), next-Inv y t' k i frame table)

  -- An alias is left.
  close_alias : v.aliases ≢ 1 → (z : System) × (advance (closes fd) y ≡ some z) × Inv z
  unfolding advance close_begin
  close_alias many =
      let left = record v { aliases = v.aliases - 1 } in
      let u = unlink_locked e.fd y.table in
      let z = record y { table = set_shared s left u } in
      let one = find-pos fd y.table e found in
      let count_after : (x : ℕ)
          → aliases_of x z.table + (if x == s then 1 else 0) ≡ aliases_of x y.table =
        λ x.
          subst (λ n. aliases_of x z.table + (if x == n then 1 else 0) ≡ aliases_of x y.table) here
            (ap (λ n. n + (if x == e.shared then 1 else 0)) (set-aliases s left u x)
              ∙ aliases_of-unlink_locked x e.fd y.table e one.0) in
      let heap = unlink_locked-shareds e.fd y.table in
      (
        z,
        ground (arith, there, found, i.owned s),
        Touches-Inv s v (some left) y z i there (record {
          table_after = set-IsTable s left u (unlink_locked-IsTable e.fd y.table i.table_ok);
          same_fresh = ap (λ (h : Heap Shared). h.fresh) heap;
          cells = λ x. ap (λ (h : Heap Shared). update h.cell s (some left) x) heap;
          owned_after = ground (arith, i.owned s, there, count_after s);
          aliases_same = λ x n. ground (arith, count_after x);
          held_same = λ x n. refl;
          closers_same = λ x n. refl;
          teardowns_same = λ x n. refl;
        }),
      )

  -- The last alias goes, and the call becomes the owner of the teardown.
  close_last : v.aliases ≡ 1 → (z : System) × (advance (closes fd) y ≡ some z) × Inv z
  unfolding advance close_begin
  close_last one_left =
      let left = record v { aliases = 0; closing = true } in
      let u = unlink_locked e.fd y.table in
      let z = record y { table = set_shared s left u; closers = s ∷ y.closers } in
      let one = find-pos fd y.table e found in
      let count_after : (x : ℕ)
          → aliases_of x z.table + (if x == s then 1 else 0) ≡ aliases_of x y.table =
        λ x.
          subst (λ n. aliases_of x z.table + (if x == n then 1 else 0) ≡ aliases_of x y.table) here
            (ap (λ n. n + (if x == e.shared then 1 else 0)) (set-aliases s left u x)
              ∙ aliases_of-unlink_locked x e.fd y.table e one.0) in
      let heap = unlink_locked-shareds e.fd y.table in
      (
        z,
        ground (arith, there, found, i.owned s),
        Touches-Inv s v (some left) y z i there (record {
          table_after = set-IsTable s left u (unlink_locked-IsTable e.fd y.table i.table_ok);
          same_fresh = ap (λ (h : Heap Shared). h.fresh) heap;
          cells = λ x. ap (λ (h : Heap Shared). update h.cell s (some left) x) heap;
          owned_after = ground (arith, i.owned s, there, count_after s);
          aliases_same = λ x n. ground (arith, count_after x);
          held_same = λ x n. refl;
          closers_same = λ x n. ground arith;
          teardowns_same = λ x n. refl;
        }),
      )

  pub closes_at : (z : System) × (advance (closes fd) y ≡ some z) × Inv z
  closes_at = elim (ℕ_discrete v.aliases 1) [
    | yes one ↦ close_last one
    | no many ↦ close_alias many
  ]

  pub dups_at :
      ((x : ℕ) → aliases_of x y.table + 1 < uint_mod)
      → (z : System) × (advance (dups true fd) y ≡ some z) × Inv z
  dups_at few = elim (allocate_id-fresh y.table i.table_ok) [
    | inl (d, given, positive, small, new, frame, table) ↦
        let t' = (allocate_id_locked y.table).1 in
        dup_given d t'.next_fd t' (ground (arith, given)) frame table positive small new (few s)
    | inr (full, all, frame, table) ↦
        let t' = (allocate_id_locked y.table).1 in
        dup_full t'.next_fd t' (ground (arith, full)) frame table
  ]
