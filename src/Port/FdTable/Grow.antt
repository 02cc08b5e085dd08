-- ===== src/Port/FdTable/Grow.antt =====
-- `ep_fd_table_grow` of src/wepoll_ex_port.c keeps the sockets.
use wepoll_ex.Prelude.{
  ℕ, zero, suc, ◌+◌, ◌/◌, ◌≤◌, ◌<◌, ◌≡◌, ◌⊎◌, inl, inr, refl, ◌∙◌, sym, ap, subst, Bool, arith,
  ◌==◌, not, ◌||◌, ltb, ℕ_discrete, Bool-cases, none, some, Option-cases, update, total-suc,
  total-none, total-zero,
}
use wepoll_ex.Status.{ok, failed}
use wepoll_ex.Errno.Codes.{enomem}
use wepoll_ex.Errno.State.{ErrorState, set_errno}
use wepoll_ex.Port.FdTable.{Sock, Slots, FdTable, rehash, grow, size_max}
use wepoll_ex.Port.FdTable.Find.{IsFdTable}
use wepoll_ex.Port.FdTable.Place.{taken_at, occupied, IsNew, IsPlacing, place-IsPlacing}

abbrev pub OneEach : Slots → Type 0
OneEach t = (j k : ℕ) (s s' : Sock) → t j ≡ some s → t k ≡ some s' → s.fd ≡ s'.fd → j ≡ k

abbrev pub Holds : Slots → Sock → Type 0
Holds t x = (j : ℕ) × (t j ≡ some x)

-- The sockets of the first `i` slots of `old` are those of `t`.
pub record Moved (i new_size : ℕ) (old t : Slots) : Type 0 where
  pub table : IsFdTable new_size t
  pub from : (k : ℕ) (x : Sock) → t k ≡ some x → (j : ℕ) × (j < i) × (old j ≡ some x)
  pub into : (j : ℕ) (x : Sock) → j < i → old j ≡ some x → Holds t x
  pub as_many : occupied new_size t ≡ occupied i old

Moved-skip :
    (i new_size : ℕ) (old t : Slots)
    → old i ≡ none
    → Moved i new_size old t
    → Moved (suc i) new_size old t
Moved-skip i new_size old t e m = record {
  table = m.table;
  from = λ k x h. let (j, l, there) = m.from k x h in (j, omega (arith, l), there);
  into = λ j x l h. elim (ℕ_discrete i j) [
    | yes here ↦ absurd (ground (arith, h, e, ap old here))
    | no away ↦ m.into j x (omega (arith, l, away)) h
  ];
  as_many = ground (arith, m.as_many, total-suc i (taken_at old), e);
}

Moved-place :
    (i new_size slot : ℕ) (old t : Slots) (s : Sock)
    → old i ≡ some s
    → Moved i new_size old t
    → IsPlacing s new_size t slot
    → Moved (suc i) new_size old (update t slot (some s))
Moved-place i new_size slot old t s e m c = record {
  table = c.table;
  from = λ k x h. elim (ℕ_discrete slot k) [
    | yes here ↦ let it : s ≡ x = ground (arith, h, here) in (i, omega arith, e ∙ ap some it)
    | no away ↦
        let (j, l, there) = m.from k x (ground (arith, h, away)) in (j, omega (arith, l), there)
  ];
  into = λ j x l h. elim (ℕ_discrete i j) [
    | yes here ↦ let it : s ≡ x = ground (arith, h, e, ap old here) in (slot, ground (arith, it))
    | no away ↦
        let (k, there) = m.into j x (omega (arith, l, away)) h in
        (k, ground (arith, there, c.was_free, ℕ_discrete slot k))
  ];
  as_many = ground (arith, m.as_many, total-suc i (taken_at old), e, c.one_more);
}

occupied-le : (n : ℕ) (t : Slots) → occupied n t ≤ n
occupied-le zero t = omega (arith, total-none (taken_at t))
occupied-le (suc n) t = ground (arith, total-suc n (taken_at t), occupied-le n t)

occupied-none : (t : Slots) → occupied 0 t ≡ 0
occupied-none t = total-none (taken_at t)

rehash-Moved :
    (left i size new_size : ℕ) (old t : Slots)
    → OneEach old
    → i + left ≡ size
    → size ≤ new_size
    → Moved i new_size old t
    → (t' : Slots) × ((rehash left i new_size old t ≡ some t') × Moved size new_size old t')
unfolding rehash
rehash-Moved zero i size new_size old t v e fits m =
    (t, (refl, subst (λ n. Moved n new_size old t) (ground (arith, e)) m))
rehash-Moved (suc left) i size new_size old t v e fits m = elim (Option-cases (old i)) [
  | inl free ↦
      let (t', (runs, moved)) =
        rehash-Moved left (suc i) size new_size old t v (ground (arith, e)) fits
          (Moved-skip i new_size old t free m) in
      (t', (ground (arith, free, runs), moved))
  | inr (s, there) ↦
      let new : IsNew s t = λ k x h same.
        let (j, l, at) = m.from k x h in absurd (ground (arith, l, v j i x s at there same)) in
      let room : occupied new_size t < new_size =
        omega (arith, m.as_many, occupied-le i old, e, fits) in
      let (slot, c) = place-IsPlacing s new_size t m.table new room in
      let (t', (runs, moved)) =
        rehash-Moved left (suc i) size new_size old (update t slot (some s)) v (ground (arith, e))
          fits (Moved-place i new_size slot old t s there m c) in
      (t', (ground (arith, there, c.runs, runs), moved))
]

-- Nothing is in a fresh table.
empty-Moved : (new_size : ℕ) (old : Slots) → 0 < new_size → Moved 0 new_size old (λ j. none)
empty-Moved new_size old h = record {
  table = record {
    some_slot = h;
    inside = λ j x e. absurd (cc);
    placed = λ j x e. absurd (cc);
    one_each = λ j k x y a b same. absurd (cc);
  };
  from = λ k x e. absurd (cc);
  into = λ j x l e. absurd (omega (arith, l));
  as_many = total-zero new_size (taken_at (λ j. none)) (λ k. refl) ∙ sym (occupied-none old);
}

-- What `ep_fd_table_grow` can do to a table: nothing, with ENOMEM, or all its sockets are in a table of
-- the new size.
pub record Grown (new_size : ℕ) (p p1 : FdTable) : Type 0 where
  pub moved : Moved p.size new_size p.slots p1.slots
  pub new_size_eq : p1.size ≡ new_size
  pub same_count : p1.count ≡ p.count
  pub fits : new_size ≤ size_max / 8

pub grow-Grown :
    (granted : Bool) (new_size : ℕ) (p : FdTable) (err : ErrorState)
    → OneEach p.slots
    → p.size ≤ new_size
    → (grow granted new_size p err ≡ some (failed, p, set_errno enomem err))
      ⊎ ((p1 : FdTable) × ((grow granted new_size p err ≡ some (ok, p1, err))
            × Grown new_size p p1))
unfolding grow
grow-Grown granted new_size p err v h =
    elim (Bool-cases (new_size == 0 || ltb (size_max / 8) new_size || not granted)) [
      | inl refused ↦ inl (ground (arith, refused))
      | inr fine ↦
          let (t, (runs, moved)) =
            rehash-Moved p.size 0 p.size new_size p.slots (λ j. none) v (omega arith) h
              (empty-Moved new_size p.slots (ground (arith, fine))) in
          inr (
            record p { slots = t; size = new_size },
            (
              ground (arith, fine, runs),
              record {
                moved = moved;
                new_size_eq = refl;
                same_count = refl;
                fits = ground (arith, fine);
              },
            ),
          )
    ]
