-- ===== src/Port/FdTable/Close.antt =====
-- The rounds of the loop of `ep_fd_table_remove` of src/wepoll_ex_port.c, and its end.
use native.Mathlib.Nat.{mod-lt}
use wepoll_ex.Prelude.{
  ℕ, zero, suc, ◌+◌, ◌-◌, ◌%◌, ◌≤◌, ◌<◌, ◌≡◌, ◌≢◌, ◌⊎◌, inl, inr, refl, ◌∙◌, sym, ap, subst, arith,
  ℕ_discrete, none, some, Option-cases, update,
}
use wepoll_ex.Port.FdTable.{Sock, Slots, place, close_gap}
use wepoll_ex.Port.FdTable.Walk.{walk, walk-lt}
use wepoll_ex.Port.FdTable.Find.{home, IsFdTable, free_slot-first}
use wepoll_ex.Port.FdTable.Place.{occupied, occupied-update}
use wepoll_ex.Port.FdTable.Grow.{Holds, OneEach}
use wepoll_ex.Port.FdTable.Gap.{Kept, Gap, shifted, Kept-shift, walk-walk}

-- The same sockets are in both tables.
pub record SameSocks (size : ℕ) (t u : Slots) : Type 0 where
  pub into : (x : Sock) → Holds t x → Holds u x
  pub from : (x : Sock) → Holds u x → Holds t x
  pub as_many : occupied size u ≡ occupied size t

-- What a cell of the shifted table holds.
shifted-cell :
    (t : Slots) (scan target j : ℕ) (moved x : Sock)
    → shifted t scan target moved j ≡ some x
    → ((target ≡ j) × (moved ≡ x)) ⊎ ((target ≢ j) × (scan ≢ j) × (t j ≡ some x))
shifted-cell t scan target j moved x e = elim (ℕ_discrete target j) [
  | yes here ↦ inl (here, ground (arith, e, here))
  | no away ↦ elim (ℕ_discrete scan j) [
    | yes gone ↦ absurd (ground (arith, e, away, gone))
    | no other ↦ inr (away, other, ground (arith, e, away, other))
  ]
]

shifted-OneEach :
    (t : Slots) (scan target : ℕ) (moved : Sock)
    → OneEach t
    → t scan ≡ some moved
    → OneEach (shifted t scan target moved)
shifted-OneEach t scan target moved one at i j x y a b same =
    go (shifted-cell t scan target i moved x a) (shifted-cell t scan target j moved y b)
  where
    go :
        ((target ≡ i) × (moved ≡ x)) ⊎ ((target ≢ i) × (scan ≢ i) × (t i ≡ some x))
        → ((target ≡ j) × (moved ≡ y)) ⊎ ((target ≢ j) × (scan ≢ j) × (t j ≡ some y))
        → i ≡ j
    go (inl (p, m)) (inl (q, n)) = sym p ∙ q
    go (inl (p, m)) (inr (q, other, there)) =
        absurd (other (one scan j moved y at there (ap (λ (z : Sock). z.fd) m ∙ same)))
    go (inr (p, other, there)) (inl (q, n)) =
        absurd (other (one scan i moved x at there (ap (λ (z : Sock). z.fd) n ∙ sym same)))
    go (inr (p, other, there)) (inr (q, other', there')) = one i j x y there there' same

shifted-SameSocks :
    (size : ℕ) (t : Slots) (scan target : ℕ) (moved : Sock)
    → scan < size
    → target < size
    → t scan ≡ some moved
    → update t scan none target ≡ none
    → SameSocks size t (shifted t scan target moved)
shifted-SameSocks size t scan target moved small inside at free = record {
  into = λ x h. elim (ℕ_discrete scan h.0) [
    | yes here ↦
        let it : moved ≡ x = ground (arith, h.1, at, ap t here) in (target, ground (arith, it))
    | no away ↦ (h.0, ground (arith, h.1, away, free, ℕ_discrete target h.0))
  ];
  from = λ x h. elim (shifted-cell t scan target h.0 moved x h.1) [
    | inl (here, it) ↦ (scan, at ∙ ap some it)
    | inr (away, other, there) ↦ (h.0, there)
  ];
  as_many = ground (
    arith,
    occupied-update size scan t none small,
    occupied-update size target (update t scan none) (some moved) inside,
    at,
    free,
  );
}

-- One round.
pub record Round (size : ℕ) (t : Slots) (e scan : ℕ) (moved : Sock) : Type 0 where
  pub target : ℕ
  pub runs : place moved size (update t scan none) ≡ some (shifted t scan target moved)
  pub gap : Gap size (shifted t scan target moved) e scan
  pub same : SameSocks size t (shifted t scan target moved)

round :
    (size : ℕ) (t : Slots) (e slot : ℕ) (moved : Sock)
    → Gap size t e slot
    → t ((slot + 1) % size) ≡ some moved
    → Round size t e ((slot + 1) % size) moved
unfolding place
round size t e slot moved g at =
    let scan = (slot + 1) % size in
    let scan_small = mod-lt (slot + 1) g.some_slot in
    let home_small = mod-lt moved.fd g.some_slot in
    let k = g.kept scan moved at in
    let (q, (ge, le, runs, empty, before)) =
      free_slot-first size 0 k.steps size (home size moved) (update t scan none) (omega arith)
        (omega (arith, k.few)) (ground (arith, k.arrives)) in
    let target = walk size q (home size moved) in
    let inside = walk-lt size q (home size moved) home_small in
    record {
      target = target;
      runs = ground (arith, runs);
      gap = record {
        some_slot = g.some_slot;
        here = scan_small;
        inside = λ j x h. elim (shifted-cell t scan target j moved x h) [
          | inl (here, it) ↦ ground (arith, inside, here)
          | inr (away, other, there) ↦ g.inside j x there
        ];
        one_each = shifted-OneEach t scan target moved g.one_each at;
        free = ground (arith, g.free, at, k.avoids q le, ℕ_discrete scan e, ℕ_discrete target e);
        kept = λ j x h. elim (shifted-cell t scan target j moved x h) [
          | inr (away, other, there) ↦
              Kept-shift size t e slot target j moved x g.some_slot (λ same. other (sym same))
                (λ z. absurd (ground (arith, there, z))) (g.kept j x there)
          | inl (here, it) ↦
              subst (λ y. Kept size (shifted t scan target moved) e scan j y) it
                (record {
                  steps = q;
                  few = omega (arith, le, k.few);
                  arrives = here;
                  avoids = λ i l. k.avoids i (omega (arith, l, le));
                  state = inl (λ i l z. before i (omega arith) l (ground (arith, z)));
                })
        ];
      };
      same = shifted-SameSocks size t scan target moved scan_small inside at empty;
    }

-- The loop ends before it comes to the free slot, and the table is one again, with the same sockets.
pub close_gap-ends :
    (rounds d size : ℕ) (t : Slots) (e slot : ℕ)
    → Gap size t e slot
    → walk size d slot ≡ e
    → 0 < d
    → d ≤ rounds
    → (u : Slots) × ((close_gap rounds slot size t ≡ some u)
        × IsFdTable size u
        × SameSocks size t u)
unfolding close_gap
close_gap-ends zero d size t e slot g to_e some_way enough = absurd (omega arith)
close_gap-ends (suc rounds) d size t e slot g to_e some_way enough =
    elim (Option-cases (t ((slot + 1) % size))) [
      | inl done ↦ (
        t,
        (
          ground (arith, done),
          record {
            some_slot = g.some_slot;
            inside = g.inside;
            placed = λ j s h.
                let k = g.kept j s h in
                record {
                  steps = k.steps;
                  few = k.few;
                  arrives = k.arrives;
                  taken = elim k.state [
                    | inl taken ↦ taken
                    | inr p ↦ absurd (p.run 1 (omega arith) p.forward done)
                  ];
                };
            one_each = g.one_each;
          },
          record { into = λ x h. h; from = λ x h. h; as_many = refl },
        ),
      )
      | inr (moved, at) ↦
          let r = round size t e slot moved g at in
          let more : d ≢ 1 = λ one.
            absurd (ground (arith, at, g.free, ap (λ n. t (walk size n slot)) one, ap t to_e)) in
          let ahead : (d - 1) + 1 ≡ d = omega (arith, some_way) in
          let (u, (runs, table, same)) =
            close_gap-ends rounds (d - 1) size (shifted t ((slot + 1) % size) r.target moved) e
              ((slot + 1) % size) r.gap
              (walk-walk size (d - 1) 1 slot ∙ ap (λ n. walk size n slot) ahead ∙ to_e)
              (omega (arith, some_way, more)) (omega (arith, enough)) in
          (
            u,
            (
              ground (arith, at, r.runs, runs),
              table,
              record {
                into = λ x h. same.into x (r.same.into x h);
                from = λ x h. r.same.from x (same.from x h);
                as_many = same.as_many ∙ r.same.as_many;
              },
            ),
          )
    ]
