-- ===== src/Port/FdTable/Examples.antt =====
-- A table of src/wepoll_ex_port.c with two sockets whose numbers collide.
use wepoll_ex.Prelude.{
  ℕ, ◌+◌, ◌≡◌, ◌⊎◌, inl, inr, refl, ◌∙◌, sym, ap, subst, true, arith, ℕ_discrete, none, some,
  update, total-suc, total-none,
}
use wepoll_ex.Status.{ok, failed}
use wepoll_ex.Errno.Codes.{enomem}
use wepoll_ex.Errno.State.{ErrorState, set_errno, zero_info}
use wepoll_ex.Port.FdTable.{
  Sock, Slots, FdTable, insert, remove, find_slot, close_gap, free_slot, place,
}
use wepoll_ex.Port.FdTable.Walk.{walk}
use wepoll_ex.Port.FdTable.Find.{Placed, IsFdTable}
use wepoll_ex.Port.FdTable.Place.{taken_at, IsNew}
use wepoll_ex.Port.FdTable.Insert.{WellFormed, Inserted, insert-Inserted}
use wepoll_ex.Port.FdTable.Remove.{IsOnly, Removed, remove-Removed}

abbrev pub first : Sock
first = record { addr = 100; fd = 5 }

-- At home in slot 1 too.
abbrev pub second : Sock
second = record { addr = 200; fd = 9 }

abbrev pub third : Sock
third = record { addr = 300; fd = 6 }

abbrev pub cells : Slots
cells = update (update (λ j. none) 1 (some first)) 2 (some second)

abbrev pub two : FdTable
two = record { slots = cells; size = 4; count = 2 }

pub cell :
    (j : ℕ) (x : Sock) → cells j ≡ some x → ((1 ≡ j) × (first ≡ x)) ⊎ ((2 ≡ j) × (second ≡ x))
cell j x e = elim (ℕ_discrete 2 j) [
  | yes at_two ↦ inr (at_two, ground (arith, e, at_two))
  | no other ↦ elim (ℕ_discrete 1 j) [
    | yes at_one ↦ inl (at_one, ground (arith, e, other, at_one))
    | no none_there ↦ absurd (ground (arith, e, other, none_there))
  ]
]

first-Placed : Placed 4 cells 1 first
first-Placed = record {
  steps = 0;
  few = omega arith;
  arrives = refl;
  taken = λ k l. absurd (omega arith);
}

second-Placed : Placed 4 cells 2 second
second-Placed = record {
  steps = 1;
  few = omega arith;
  arrives = refl;
  taken = λ k l e.
      let start : k ≡ 0 = omega arith in
      absurd (ground (arith, ap (λ n. cells (walk 4 n 1)) (sym start) ∙ e));
}

cells-IsFdTable : IsFdTable 4 cells
cells-IsFdTable = record {
  some_slot = omega arith;
  inside =
      λ j x h. elim (cell j x h) [ inl (a, e) ↦ omega (arith, a) | inr (a, e) ↦ omega (arith, a) ];
  placed = λ j x h. elim (cell j x h) [
    | inl (a, e) ↦
        subst (λ y. Placed 4 cells j y) e (subst (λ n. Placed 4 cells n first) a first-Placed)
    | inr (a, e) ↦
        subst (λ y. Placed 4 cells j y) e (subst (λ n. Placed 4 cells n second) a second-Placed)
  ];
  one_each = λ j k x y a b same. elim (cell j x a) [
    | inl (at, e) ↦ elim (cell k y b) [
      | inl (at', e') ↦ sym at ∙ at'
      | inr (at', e') ↦
          absurd (omega (arith, same, ap (λ (z : Sock). z.fd) e, ap (λ (z : Sock). z.fd) e'))
    ]
    | inr (at, e) ↦ elim (cell k y b) [
      | inl (at', e') ↦
          absurd (omega (arith, same, ap (λ (z : Sock). z.fd) e, ap (λ (z : Sock). z.fd) e'))
      | inr (at', e') ↦ sym at ∙ at'
    ]
  ];
}

pub two-WellFormed : WellFormed two
two-WellFormed = record {
  table = cells-IsFdTable;
  counted =
      let f = taken_at cells in
      sym (
        total-suc 3 f
        ∙ ap (λ n. n + 0)
            (total-suc 2 f
              ∙ ap (λ n. n + 1)
                  (total-suc 1 f
                    ∙ ap (λ n. n + 1) (total-suc 0 f ∙ ap (λ n. n + 0) (total-none f)))));
  room = omega arith;
  big = omega arith;
  fits = omega arith;
}

pub third-IsNew : IsNew third cells
third-IsNew j x h same = elim (cell j x h) [
  | inl (a, e) ↦ absurd (omega (arith, same, ap (λ (z : Sock). z.fd) e))
  | inr (a, e) ↦ absurd (omega (arith, same, ap (λ (z : Sock). z.fd) e))
]

pub first-IsOnly : IsOnly first cells
first-IsOnly j x h same = elim (cell j x h) [
  | inl (a, e) ↦ sym e
  | inr (a, e) ↦ absurd (omega (arith, same, ap (λ (z : Sock). z.addr) e))
]

-- The second socket moves to its home.
moves_home : elim (remove first two) [ none ↦ none | some p ↦ p.slots 1 ] ≡ some second
unfolding remove find_slot close_gap free_slot place
moves_home = refl

abbrev calm : ErrorState
calm = record { errno = 0; last = zero_info }

insert-Inserted_example :
    (insert true third two calm ≡ some (failed, two, set_errno enomem calm))
    ⊎ ((p1 : FdTable) × ((insert true third two calm ≡ some (ok, p1, calm))
          × Inserted third two p1))
insert-Inserted_example = insert-Inserted true third two calm two-WellFormed third-IsNew

remove-Removed_example : (p1 : FdTable) × ((remove first two ≡ some p1) × Removed first two p1)
remove-Removed_example = remove-Removed first two 1 two-WellFormed refl first-IsOnly
