-- ===== src/Port/FdTable/Insert.antt =====
-- `ep_fd_table_insert` of src/wepoll_ex_port.c adds one socket to what lookups find.
use wepoll_ex.Prelude.{
  ℕ, ◌+◌, ◌*◌, ◌/◌, ◌%◌, ◌^◌, ◌≤◌, ◌<◌, ◌≡◌, ◌⊎◌, inl, inr, ◌∙◌, sym, ap, subst, Bool, arith, ◌==◌,
  if◌then◌else◌, leb, ℕ_discrete, Bool-cases, some, Option-cases, update,
}
use wepoll_ex.Status.{ok, failed}
use wepoll_ex.Errno.Codes.{enomem}
use wepoll_ex.Errno.State.{ErrorState, set_errno}
use wepoll_ex.Port.FdTable.{Sock, FdTable, lookup, insert, insert_here, size_max}
use wepoll_ex.Port.FdTable.Find.{IsFdTable, lookup-there, lookup-found}
use wepoll_ex.Port.FdTable.Place.{occupied, IsNew, IsPlacing, place-IsPlacing}
use wepoll_ex.Port.FdTable.Grow.{Holds, Grown, grow-Grown}

-- The table of a port: `fd_table_count` counts the sockets, and a slot is left.
pub record WellFormed (p : FdTable) : Type 0 where
  pub table : IsFdTable p.size p.slots
  pub counted : p.count ≡ occupied p.size p.slots
  pub room : p.count < p.size
  pub big : 4 ≤ p.size
  pub fits : p.size ≤ size_max / 8

-- Two tables with the same sockets of a number answer the same to it.
pub lookup-agree :
    (fd : ℕ) (p q : FdTable)
    → IsFdTable p.size p.slots
    → IsFdTable q.size q.slots
    → ((x : Sock) → x.fd ≡ fd → Holds p.slots x → Holds q.slots x)
    → ((x : Sock) → x.fd ≡ fd → Holds q.slots x → Holds p.slots x)
    → lookup fd q ≡ lookup fd p
lookup-agree fd p q v w there back = elim (Option-cases (lookup fd p)) [
  | inr (x, e) ↦
      let (same, j, at) = lookup-found fd p v x e in
      let (k, here) = there x same (j, at) in lookup-there fd q w k x here same ∙ sym e
  | inl e ↦ elim (Option-cases (lookup fd q)) [
    | inl f ↦ f ∙ sym e
    | inr (x, f) ↦
        let (same, k, at) = lookup-found fd q w x f in
        let (j, here) = back x same (k, at) in
        absurd (ground (arith, lookup-there fd p v j x here same, e))
  ]
]

-- The answer of an insertion: the table has one socket more.
pub record Inserted (s : Sock) (p p1 : FdTable) : Type 0 where
  pub well : WellFormed p1
  pub one_more : p1.count ≡ p.count + 1
  pub lookups : (fd : ℕ) → lookup fd p1 ≡ (if s.fd == fd then some s else lookup fd p)

placed-lookups :
    (s : Sock) (p : FdTable) (slot count : ℕ)
    → IsFdTable p.size p.slots
    → IsPlacing s p.size p.slots slot
    → (fd : ℕ)
    → lookup fd (record p { slots = update p.slots slot (some s); count = count })
      ≡ (if s.fd == fd then some s else lookup fd p)
placed-lookups s p slot count v c fd =
    let q = record p { slots = update p.slots slot (some s); count = count } in
    elim (ℕ_discrete s.fd fd) [
      | yes same ↦ lookup-there fd q c.table slot s (ground arith) same ∙ ground (arith, same)
      | no other ↦
          lookup-agree fd p q v c.table
            (λ x e h. (h.0, ground (arith, h.1, c.was_free, ℕ_discrete slot h.0)))
            (λ x e h. elim (ℕ_discrete slot h.0) [
              | yes here ↦
                  let it : s ≡ x = ground (arith, h.1, here) in
                  absurd (other (ap (λ (z : Sock). z.fd) it ∙ e))
              | no away ↦ (h.0, ground (arith, h.1, away))
            ])
          ∙ ground (arith, other)
    ]

insert_here-Inserted :
    (s : Sock) (p : FdTable) (err : ErrorState)
    → IsFdTable p.size p.slots
    → p.count ≡ occupied p.size p.slots
    → p.count + 1 < p.size
    → 4 ≤ p.size
    → p.size ≤ size_max / 8
    → IsNew s p.slots
    → (p1 : FdTable) × ((insert_here s p err ≡ some (ok, p1, err)) × Inserted s p p1)
unfolding insert_here
insert_here-Inserted s p err v counted room big fits new =
    let (slot, c) = place-IsPlacing s p.size p.slots v new (omega (arith, counted, room)) in
    let now : (p.count + 1) % 2 ^ 64 ≡ p.count + 1 = omega arith in
    (
      record p { slots = update p.slots slot (some s); count = (p.count + 1) % 2 ^ 64 },
      (
        ground (arith, c.runs),
        record {
          well = record {
            table = c.table;
            counted = now ∙ ground (arith, c.one_more, counted);
            room = omega (arith, now);
            big = big;
            fits = fits;
          };
          one_more = now;
          lookups = placed-lookups s p slot ((p.count + 1) % 2 ^ 64) v c;
        },
      ),
    )

lookup-Grown :
    (p p1 : FdTable) (n fd : ℕ)
    → IsFdTable p.size p.slots
    → Grown n p p1
    → lookup fd p1 ≡ lookup fd p
lookup-Grown p p1 n fd v g =
    lookup-agree fd p p1 v (subst (λ m. IsFdTable m p1.slots) (sym g.new_size_eq) g.moved.table)
      (λ x e h. g.moved.into h.0 x (v.inside h.0 x h.1) h.1)
      (λ x e h. let (j, l, at) = g.moved.from h.0 x h.1 in (j, at))

-- `ep_fd_table_insert` of a socket with a new number into a well-formed table either fails with ENOMEM and
-- changes nothing, or it ends, the table is well formed and counts one socket more, and lookups find
-- that socket and all those of before, also across a growth of the table.
pub insert-Inserted :
    (granted : Bool) (s : Sock) (p : FdTable) (err : ErrorState)
    → WellFormed p
    → IsNew s p.slots
    → (insert granted s p err ≡ some (failed, p, set_errno enomem err))
      ⊎ ((p1 : FdTable) × ((insert granted s p err ≡ some (ok, p1, err)) × Inserted s p p1))
unfolding insert
insert-Inserted granted s p err w new =
    elim (Bool-cases (leb (p.size * 3 % 2 ^ 64) (p.count * 4 % 2 ^ 64))) [
      | inr loose ↦
          let (p1, (runs, i)) =
            insert_here-Inserted s p err w.table w.counted
              (ground (arith, loose, w.fits, w.room, w.big)) w.big w.fits new in
          inr (p1, (ground (arith, loose, runs, w.big), i))
      | inl tight ↦ elim (grow-Grown granted (p.size * 2) p err w.table.one_each (omega arith)) [
        | inl refused ↦ inl (ground (arith, tight, refused, w.big, w.fits))
        | inr (p1, (runs, g)) ↦
            let table = subst (λ m. IsFdTable m p1.slots) (sym g.new_size_eq) g.moved.table in
            let counted : p1.count ≡ occupied p1.size p1.slots =
              ground (arith, g.same_count, w.counted, g.moved.as_many, g.new_size_eq) in
            let new1 : IsNew s p1.slots =
              λ k x h. let (j, l, at) = g.moved.from k x h in new j x at in
            let (p2, (ends, i)) =
              insert_here-Inserted s p1 err table counted
                (omega (arith, g.same_count, g.new_size_eq, w.room, w.big))
                (omega (arith, g.new_size_eq, w.big)) (omega (arith, g.new_size_eq, g.fits)) new1 in
            inr (
              p2,
              (
                ground (arith, tight, runs, ends, w.big, w.fits),
                record {
                  well = i.well;
                  one_more = i.one_more ∙ ap (λ n. n + 1) g.same_count;
                  lookups = λ fd.
                      i.lookups fd
                      ∙ ap (λ o. if s.fd == fd then some s else o)
                          (lookup-Grown p p1 (p.size * 2) fd w.table g);
                },
              ),
            )
      ]
    ]
