-- ===== src/Port/FdTable/Gap.antt =====
-- The loop of `ep_fd_table_remove` of src/wepoll_ex_port.c that moves the sockets behind the hole.
use native.Mathlib.Nat.{mod-lt}
use wepoll_ex.Prelude.{
  ℕ, zero, suc, ◌+◌, ◌-◌, ◌%◌, ◌≤◌, ◌<◌, ◌≡◌, ◌≢◌, ◌⊎◌, inl, inr, refl, ◌∙◌, sym, ap, subst, false,
  arith, ◌==◌, ltb, ℕ_discrete, Bool-cases, none, some, update,
}
use wepoll_ex.Port.FdTable.{Sock, Slots}
use wepoll_ex.Port.FdTable.Walk.{walk, walk-reaches, walk-injective}
use wepoll_ex.Port.FdTable.Find.{home}
use wepoll_ex.Port.FdTable.Grow.{OneEach}

pub walk-walk : (size i k h : ℕ) → walk size i (walk size k h) ≡ walk size (i + k) h
walk-walk size zero k h = let same : k ≡ 0 + k = omega arith in ap (λ n. walk size n h) same
walk-walk size (suc i) k h =
    let same : suc (i + k) ≡ suc i + k = omega arith in
    ap (λ x. (x + 1) % size) (walk-walk size i k h) ∙ ap (λ n. walk size n h) same

-- `j` lies behind `slot` in a run of taken slots.
pub record Pending (size : ℕ) (t : Slots) (slot j : ℕ) : Type 0 where
  pub steps : ℕ
  pub forward : 0 < steps
  pub few : steps < size
  pub arrives : walk size steps slot ≡ j
  pub run : (k : ℕ) → 0 < k → k ≤ steps → t (walk size k slot) ≢ none

-- A socket on its walk, which does not meet the free slot `e`; the walk is closed, or the loop has still
-- to move the socket.
pub record Kept (size : ℕ) (t : Slots) (e slot j : ℕ) (s : Sock) : Type 0 where
  pub steps : ℕ
  pub few : steps < size
  pub arrives : walk size steps (home size s) ≡ j
  pub avoids : (k : ℕ) → k ≤ steps → walk size k (home size s) ≢ e
  pub state : ((k : ℕ) → k < steps → t (walk size k (home size s)) ≢ none) ⊎ Pending size t slot j

pub record Gap (size : ℕ) (t : Slots) (e slot : ℕ) : Type 0 where
  pub some_slot : 0 < size
  pub here : slot < size
  pub inside : (j : ℕ) (s : Sock) → t j ≡ some s → j < size
  pub one_each : OneEach t
  pub free : t e ≡ none
  pub kept : (j : ℕ) (s : Sock) → t j ≡ some s → Kept size t e slot j s

-- The table after one round: `moved` left `scan` for `target`.
abbrev pub shifted : Slots → (scan target : ℕ) → Sock → Slots
shifted t scan target moved = update (update t scan none) target (some moved)

pub shifted-taken :
    (t : Slots) (scan target j : ℕ) (moved : Sock)
    → (scan == j) ≡ false
    → t j ≢ none
    → shifted t scan target moved j ≢ none
shifted-taken t scan target j moved h k e = k (ground (arith, h, e))

-- `u` is taken wherever `t` is, but for `slot`.
abbrev pub Covers : (t u : Slots) (slot : ℕ) → Type 0
Covers t u slot = (j : ℕ) → slot ≢ j → t j ≢ none → u j ≢ none

-- A run behind `scan` is one after the change.
Pending-cover :
    (size : ℕ) (t u : Slots) (scan n : ℕ)
    → Covers t u scan
    → scan < size
    → 0 < n
    → n < size
    → ((k : ℕ) → 0 < k → k ≤ n → t (walk size k scan) ≢ none)
    → Pending size u scan (walk size n scan)
Pending-cover size t u scan n covers small some_steps few run = record {
  steps = n;
  forward = some_steps;
  few = few;
  arrives = refl;
  run = λ k p q.
      let away : scan ≢ walk size k scan = λ same.
        absurd
          (omega (arith, p, walk-injective size 0 k scan small (omega arith) (omega arith) same)) in
      covers (walk size k scan) away (run k p q);
}

-- A taken walk stays so, or the changed slot lies on it and the rest of it is a run behind that slot.
pub taken_or_behind :
    (size : ℕ) (t u : Slots) (scan j n : ℕ) (s : Sock)
    → Covers t u scan
    → scan < size
    → n < size
    → walk size n (home size s) ≡ j
    → t j ≢ none
    → ((i : ℕ) → i < n → t (walk size i (home size s)) ≢ none)
    → ((i : ℕ) → i < n → u (walk size i (home size s)) ≢ none) ⊎ Pending size u scan j
taken_or_behind size t u scan j n s covers small few arrives here taken =
    let some_slot : 0 < size = omega arith in
    let home_small = mod-lt s.fd some_slot in
    let (q, q_few, at_scan) = walk-reaches size scan (home size s) home_small small in
    elim (Bool-cases (ltb q n)) [
      | inl on_path ↦
          let up : n - q + q ≡ n = ground (arith, on_path) in
          let ahead : (i : ℕ) → walk size i scan ≡ walk size (i + q) (home size s) =
            λ i. ap (λ x. walk size i x) (sym at_scan) ∙ walk-walk size i q (home size s) in
          let at : walk size (n - q) scan ≡ j =
            ahead (n - q) ∙ ap (λ m. walk size m (home size s)) up ∙ arrives in
          inr (
            subst (λ x. Pending size u scan x) at
              (Pending-cover size t u scan (n - q) covers small (ground (arith, on_path))
                (omega (arith, few, up))
                (λ i a b z. elim (ℕ_discrete (i + q) n) [
                  | yes last ↦ here (
                      ap t (sym (ahead i ∙ ap (λ m. walk size m (home size s)) last ∙ arrives)) ∙ z)
                  | no more ↦ taken (i + q) (omega (arith, b, up, more)) (ap t (sym (ahead i)) ∙ z)
                ])))
      | inr off_path ↦ inl (λ i l.
          let apart : scan ≢ walk size i (home size s) = λ same. absurd (
            ground (
              arith,
              l,
              off_path,
              walk-injective size q i (home size s) home_small q_few (omega (arith, l, few))
                  (at_scan ∙ same),
            )) in
          covers (walk size i (home size s)) apart (taken i l))
    ]

-- A socket that was not moved in the round.
pub Kept-shift :
    (size : ℕ) (t : Slots) (e slot target j : ℕ) (moved s : Sock)
    → 0 < size
    → j ≢ (slot + 1) % size
    → t j ≢ none
    → Kept size t e slot j s
    → Kept size (shifted t ((slot + 1) % size) target moved) e ((slot + 1) % size) j s
Kept-shift size t e slot target j moved s some_slot away here k =
    let scan = (slot + 1) % size in
    let scan_small = mod-lt (slot + 1) some_slot in
    let covers : Covers t (shifted t scan target moved) scan =
      λ i apart. shifted-taken t scan target i moved (ground (arith, apart)) in
    record {
      steps = k.steps;
      few = k.few;
      arrives = k.arrives;
      avoids = k.avoids;
      state = elim k.state [
        | inl taken ↦
            taken_or_behind size t (shifted t scan target moved) scan j k.steps s covers scan_small
              k.few k.arrives here taken
        | inr p ↦
            let more : p.steps ≢ 1 =
              λ one. absurd (away (sym p.arrives ∙ ap (λ n. walk size n slot) one)) in
            let n = p.steps - 1 in
            let up : n + 1 ≡ p.steps = omega (arith, p.forward) in
            let at : walk size n scan ≡ j =
              walk-walk size n 1 slot ∙ ap (λ m. walk size m slot) up ∙ p.arrives in
            inr (
              subst (λ x. Pending size (shifted t scan target moved) scan x) at
                (Pending-cover size t (shifted t scan target moved) scan n covers scan_small
                  (omega (arith, p.forward, more)) (omega (arith, p.few))
                  (λ i a b z.
                    p.run (i + 1) (omega arith) (omega (arith, b, up))
                      (ap t (sym (walk-walk size i 1 slot)) ∙ z))))
      ];
    }
