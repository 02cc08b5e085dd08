-- ===== src/Port/FdTable/Place.antt =====
-- A socket is put at the first free slot of the table of src/wepoll_ex_port.c.
use native.Mathlib.Nat.{mod-lt}
use wepoll_ex.Prelude.{
  ℕ, ◌+◌, ◌<◌, ◌≡◌, ◌≢◌, ◌∙◌, sym, ap, subst, fun_ext, arith, if◌then◌else◌, ℕ_discrete, Option,
  none, some, Option-cases, update, is_some, total, total-update, total-gap,
}
use wepoll_ex.Port.FdTable.{Sock, Slots, place}
use wepoll_ex.Port.FdTable.Walk.{walk, walk-lt, walk-reaches}
use wepoll_ex.Port.FdTable.Find.{home, Placed, IsFdTable, free_slot-first}

abbrev pub taken_at : Slots → ℕ → ℕ
taken_at t j = if is_some (t j) then 1 else 0

-- How many of the first `n` slots are taken.
abbrev pub occupied : (n : ℕ) → Slots → ℕ
occupied n t = total n (taken_at t)

abbrev pub IsNew : Sock → Slots → Type 0
IsNew s t = (j : ℕ) (x : Sock) → t j ≡ some x → x.fd ≢ s.fd

pub occupied-update :
    (n j : ℕ) (t : Slots) (o : Option Sock)
    → j < n
    → occupied n (update t j o) + taken_at t j ≡ occupied n t + (if is_some o then 1 else 0)
occupied-update n j t o h =
    let same : taken_at (update t j o) ≡ update (taken_at t) j (if is_some o then 1 else 0) =
      fun_ext (λ x. ground arith) in
    ap (λ g. total n g + taken_at t j) same
    ∙ total-update n (taken_at t) j (if is_some o then 1 else 0) h

-- Where `place` puts a socket, and that the table stays one.
pub record IsPlacing (s : Sock) (size : ℕ) (t : Slots) (slot : ℕ) : Type 0 where
  pub inside : slot < size
  pub runs : place s size t ≡ some (update t slot (some s))
  pub was_free : t slot ≡ none
  pub table : IsFdTable size (update t slot (some s))
  pub one_more : occupied size (update t slot (some s)) ≡ occupied size t + 1

Placed-update :
    (size j slot : ℕ) (t : Slots) (x s : Sock)
    → Placed size t j x
    → Placed size (update t slot (some s)) j x
Placed-update size j slot t x s p = record {
  steps = p.steps;
  few = p.few;
  arrives = p.arrives;
  taken = λ k h e. p.taken k h (ground (arith, e));
}

one_each-update :
    (size slot : ℕ) (t : Slots) (s : Sock)
    → IsFdTable size t
    → IsNew s t
    → (i j : ℕ) (x y : Sock) → update t slot (some s) i ≡ some x
    → update t slot (some s) j ≡ some y
    → x.fd ≡ y.fd
    → i ≡ j
one_each-update size slot t s v new i j x y a b same = elim (ℕ_discrete slot i) [
  | yes p ↦ elim (ℕ_discrete slot j) [
    | yes q ↦ sym p ∙ q
    | no q ↦
        let it : s ≡ x = ground (arith, a, p) in
        absurd (new j y (ground (arith, b, q)) (sym same ∙ ap (λ (z : Sock). z.fd) (sym it)))
  ]
  | no p ↦ elim (ℕ_discrete slot j) [
    | yes q ↦
        let it : s ≡ y = ground (arith, b, q) in
        absurd (new i x (ground (arith, a, p)) (same ∙ ap (λ (z : Sock). z.fd) (sym it)))
    | no q ↦ v.one_each i j x y (ground (arith, a, p)) (ground (arith, b, q)) same
  ]
]

one_more-update :
    (size slot : ℕ) (t : Slots) (s : Sock)
    → slot < size
    → t slot ≡ none
    → occupied size (update t slot (some s)) ≡ occupied size t + 1
one_more-update size slot t s h e = ground (arith, occupied-update size slot t (some s) h, e)

-- In a table with room, a socket with a new number finds a slot.
pub place-IsPlacing :
    (s : Sock) (size : ℕ) (t : Slots)
    → IsFdTable size t
    → IsNew s t
    → occupied size t < size
    → (slot : ℕ) × IsPlacing s size t slot
unfolding place
place-IsPlacing s size t v new room =
    let (f, (small, gap)) = total-gap size (taken_at t) room in
    let free : t f ≡ none = ground (arith, Option-cases (t f), gap) in
    let h = mod-lt s.fd v.some_slot in
    let (last, few, there) = walk-reaches size f (home size s) h small in
    let (k, (ge, le, runs, empty, before)) =
      free_slot-first size 0 last size (home size s) t (omega arith) (omega arith)
        (ap t there ∙ free) in
    let slot = walk size k (home size s) in
    (
      slot,
      record {
        inside = walk-lt size k (home size s) h;
        runs = ground (arith, runs);
        was_free = empty;
        table = record {
          some_slot = v.some_slot;
          inside = λ j x e. ground (arith, walk-lt size k (home size s) h, v.inside j x, e);
          placed = λ j x e. elim (ℕ_discrete slot j) [
            | yes here ↦
                let it : s ≡ x = ground (arith, e, here) in
                subst (λ y. Placed size (update t slot (some s)) j y) it
                  (record {
                    steps = k;
                    few = omega arith;
                    arrives = here;
                    taken = λ i l z. before i (omega arith) l (ground (arith, z));
                  })
            | no away ↦ Placed-update size j slot t x s (v.placed j x (ground (arith, e, away)))
          ];
          one_each = one_each-update size slot t s v new;
        };
        one_more = one_more-update size slot t s (walk-lt size k (home size s) h) empty;
      },
    )
