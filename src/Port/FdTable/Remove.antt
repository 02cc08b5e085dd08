-- ===== src/Port/FdTable/Remove.antt =====
-- `ep_fd_table_remove` of src/wepoll_ex_port.c takes one socket from what lookups find.
use native.Mathlib.Nat.{mod-lt}
use wepoll_ex.Prelude.{
  ℕ, zero, suc, ◌+◌, ◌-◌, ◌%◌, ◌^◌, ◌≤◌, ◌<◌, ◌≡◌, ◌≢◌, inl, inr, ◌∙◌, sym, ap, arith, ◌==◌,
  if◌then◌else◌, ℕ_discrete, none, some, Option-cases, update, total-gap,
}
use wepoll_ex.Port.FdTable.{Sock, Slots, FdTable, lookup, find_slot, remove}
use wepoll_ex.Port.FdTable.Walk.{walk, walk-reaches, walk-injective}
use wepoll_ex.Port.FdTable.Find.{home, Placed, IsFdTable, lookup-found}
use wepoll_ex.Port.FdTable.Place.{taken_at, occupied, occupied-update}
use wepoll_ex.Port.FdTable.Insert.{WellFormed, lookup-agree}
use wepoll_ex.Port.FdTable.Gap.{Gap, taken_or_behind}
use wepoll_ex.Port.FdTable.Close.{SameSocks, close_gap-ends}

-- No other socket of the table has the address of `s`.
abbrev pub IsOnly : Sock → Slots → Type 0
IsOnly s t = (k : ℕ) (x : Sock) → t k ≡ some x → x.addr ≡ s.addr → x ≡ s

find_slot-there :
    (rounds i size j : ℕ) (t : Slots) (s : Sock)
    → IsFdTable size t
    → IsOnly s t
    → t j ≡ some s
    → (p : Placed size t j s) → i ≤ p.steps
    → p.steps < i + rounds
    → find_slot rounds (walk size i (home size s)) s.addr size t ≡ some (some j)
unfolding find_slot
find_slot-there zero i size j t s v only here p le lt = absurd (omega arith)
find_slot-there (suc rounds) i size j t s v only here p le lt = elim (ℕ_discrete i p.steps) [
  | yes last ↦
      let at_j = ap (λ n. walk size n (home size s)) last ∙ p.arrives in
      let at = ap t at_j ∙ here in ground (arith, at, at_j)
  | no more ↦ elim (Option-cases (t (walk size i (home size s)))) [
    | inl free ↦ absurd (p.taken i (omega arith) free)
    | inr (x, there) ↦ elim (ℕ_discrete x.addr s.addr) [
      | yes same ↦
          let it = ap (λ (y : Sock). y.fd) (only (walk size i (home size s)) x there same) in
          let one = v.one_each (walk size i (home size s)) j x s there here it in
          absurd (
            more (
              walk-injective size i p.steps (home size s) (mod-lt s.fd v.some_slot)
                (omega (arith, p.few)) p.few (one ∙ sym p.arrives)))
      | no other ↦
          let rest =
            find_slot-there rounds (suc i) size j t s v only here p (omega arith) (omega arith) in
          ground (arith, there, other, rest)
    ]
  ]
]

-- A cell beside the one that was emptied.
emptied-cell :
    (t : Slots) (slot j : ℕ) (x : Sock)
    → update t slot none j ≡ some x
    → (slot ≢ j) × (t j ≡ some x)
emptied-cell t slot j x e = elim (ℕ_discrete slot j) [
  | yes here ↦ absurd (ground (arith, e, here))
  | no away ↦ (away, ground (arith, e, away))
]

occupied-gap : (n : ℕ) (t : Slots) → occupied n t < n → (e : ℕ) × ((e < n) × (t e ≡ none))
occupied-gap n t h =
    let (e, (small, gap)) = total-gap n (taken_at t) h in
    (
      e,
      (
        small,
        elim (Option-cases (t e)) [
          | inl free ↦ free
          | inr (x, at) ↦ absurd (ground (arith, gap, at))
        ],
      ),
    )

-- The table at the start of the loop.
emptied-Gap :
    (size e slot : ℕ) (t : Slots)
    → IsFdTable size t
    → slot < size
    → t e ≡ none
    → Gap size (update t slot none) e slot
emptied-Gap size e slot t v small free = record {
  some_slot = v.some_slot;
  here = small;
  inside = λ j x h. v.inside j x (emptied-cell t slot j x h).1;
  one_each =
      λ i j x y a b. v.one_each i j x y (emptied-cell t slot i x a).1 (emptied-cell t slot j y b).1;
  free = ground (arith, free, ℕ_discrete slot e);
  kept = λ j x h.
      let at = (emptied-cell t slot j x h).1 in
      let k = v.placed j x at in
      record {
        steps = k.steps;
        few = k.few;
        arrives = k.arrives;
        avoids = λ i l same. elim (ℕ_discrete i k.steps) [
          | yes last ↦ absurd (
              ground (
                arith,
                at,
                free,
                ap t (sym k.arrives ∙ ap (λ n. walk size n (home size x)) (sym last) ∙ same),
              ))
          | no more ↦ k.taken i (omega (arith, l, more)) (ap t same ∙ free)
        ];
        state =
            taken_or_behind size t (update t slot none) slot j k.steps x
              (λ i apart some_sock z. some_sock (ground (arith, z, apart))) small k.few k.arrives
              (λ z. absurd (ground (arith, at, z))) k.taken;
      };
}

-- The answer of a removal: the table has one socket less.
pub record Removed (s : Sock) (p p1 : FdTable) : Type 0 where
  pub well : WellFormed p1
  pub one_less : p1.count + 1 ≡ p.count
  pub lookups : (fd : ℕ) → lookup fd p1 ≡ (if s.fd == fd then none else lookup fd p)

removed-lookups :
    (s : Sock) (p : FdTable) (slot : ℕ) (u : Slots) (count : ℕ)
    → IsFdTable p.size p.slots
    → p.slots slot ≡ some s
    → IsFdTable p.size u
    → SameSocks p.size (update p.slots slot none) u
    → (fd : ℕ)
    → lookup fd (record p { slots = u; count = count }) ≡ (if s.fd == fd then none else lookup fd p)
removed-lookups s p slot u count v here w same fd =
    let q = record p { slots = u; count = count } in
    elim (ℕ_discrete s.fd fd) [
      | yes own ↦ elim (Option-cases (lookup fd q)) [
        | inl gone ↦ gone ∙ ground (arith, own)
        | inr (x, found) ↦
            let (number, k, at) = lookup-found fd q w x found in
            let (j, before) = same.from x (k, at) in
            let (apart, there) = emptied-cell p.slots slot j x before in
            absurd (apart (v.one_each slot j s x here there (own ∙ sym number)))
      ]
      | no other ↦
          lookup-agree fd p q v w
            (λ x e h. same.into x (
              h.0,
              elim (ℕ_discrete slot h.0) [
                | yes at_slot ↦
                    let it : s ≡ x = ground (arith, h.1, here, ap p.slots at_slot) in
                    absurd (other (ap (λ (z : Sock). z.fd) it ∙ e))
                | no away ↦ ground (arith, h.1, away)
              ],
            ))
            (λ x e h.
              let (j, before) = same.from x h in (j, (emptied-cell p.slots slot j x before).1))
          ∙ ground (arith, other)
    ]

-- `ep_fd_table_remove` of a socket that a well-formed table holds, the only one at its address, ends; the
-- table is well formed and counts one socket less, and lookups find all the sockets of before but that
-- one.
pub remove-Removed :
    (s : Sock) (p : FdTable) (slot : ℕ)
    → WellFormed p
    → p.slots slot ≡ some s
    → IsOnly s p.slots
    → (p1 : FdTable) × ((remove s p ≡ some p1) × Removed s p p1)
unfolding remove
remove-Removed s p slot w here only =
    let v = w.table in
    let small = v.inside slot s here in
    let k = v.placed slot s here in
    let found =
      find_slot-there p.size 0 p.size slot p.slots s v only here k (omega arith)
        (omega (arith, k.few)) in
    let (e, (e_small, e_free)) = occupied-gap p.size p.slots (omega (arith, w.counted, w.room)) in
    let (d, d_few, to_e) = walk-reaches p.size e slot small e_small in
    let away : d ≢ 0 = λ z.
      absurd
        (ground (arith, here, e_free, ap p.slots (sym to_e ∙ ap (λ n. walk p.size n slot) z))) in
    let (u, (runs, table, same)) =
      close_gap-ends p.size d p.size (update p.slots slot none) e slot
        (emptied-Gap p.size e slot p.slots v small e_free) to_e (omega (arith, away))
        (omega (arith, d_few)) in
    let less : occupied p.size u + 1 ≡ p.count =
      ground
        (arith, same.as_many, occupied-update p.size slot p.slots none small, here, w.counted) in
    let now : (p.count + (2 ^ 64 - 1)) % 2 ^ 64 + 1 ≡ p.count =
      omega (arith, less, w.fits, w.room) in
    (
      record p { slots = u; count = (p.count + (2 ^ 64 - 1)) % 2 ^ 64 },
      (
        ground (arith, v.some_slot, found, runs),
        record {
          well = record {
            table = table;
            counted = omega (arith, less, now);
            room = omega (arith, w.room, now);
            big = w.big;
            fits = w.fits;
          };
          one_less = now;
          lookups =
              removed-lookups s p slot u ((p.count + (2 ^ 64 - 1)) % 2 ^ 64) v here table same;
        },
      ),
    )
