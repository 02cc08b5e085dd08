-- ===== src/Pool/Chain.antt =====
-- Linked lists of pool entries, through either of their two links.
use wepoll_ex.Prelude.{
  ℕ, ◌≡◌, true, false, Option, none, some, List, [], ◌∷◌, arith, update, has, sym, ◌∙◌, ap, subst,
  ℕ_discrete,
}
use wepoll_ex.Pool.{Entry}

abbrev pub Cells : Type 0
Cells = ℕ → Option Entry

-- From `p` the links `sel` lead through the cells `xs` to NULL.
abbrev pub Chain : (Entry → Option ℕ) → Cells → Option ℕ → List ℕ → Type 0
Chain sel m p [] = p ≡ none
Chain sel m p (a ∷ xs) = (e : Entry) × (p ≡ some a) × (m a ≡ some e) × Chain sel m (sel e) xs

-- A chain survives a write outside it.
pub Chain-update_out :
    (sel : Entry → Option ℕ) (m : Cells) (p : Option ℕ) (xs : List ℕ) (b : ℕ) (v : Option Entry)
    → has b xs ≡ false
    → Chain sel m p xs
    → Chain sel (update m b v) p xs
Chain-update_out sel m p [] b v out c = c
Chain-update_out sel m p (a ∷ xs) b v out (e, start, holds, rest) =
    (e, start, ground arith, Chain-update_out sel m (sel e) xs b v (ground arith) rest)

-- A chain survives a write that keeps the link of the written cell.
pub Chain-update_same :
    (sel : Entry → Option ℕ) (m : Cells) (p : Option ℕ) (xs : List ℕ) (b : ℕ) (old new : Entry)
    → m b ≡ some old
    → sel new ≡ sel old
    → Chain sel m p xs
    → Chain sel (update m b (some new)) p xs
Chain-update_same sel m p [] b old new was same c = c
Chain-update_same sel m p (a ∷ xs) b old new was same (e, start, holds, rest) =
    let tail = Chain-update_same sel m (sel e) xs b old new was same rest in
    elim (ℕ_discrete a b) [
      | yes here ↦
          let link : sel e ≡ sel new = sym (same ∙ ap sel (ground arith)) in
          (new, start, ground arith, subst (λ q. Chain sel (update m b (some new)) q xs) link tail)
      | no away ↦ (e, start, ground arith, tail)
    ]

-- The cells of a chain are there.
pub Chain-cell :
    (sel : Entry → Option ℕ) (m : Cells) (p : Option ℕ) (xs : List ℕ) (a : ℕ)
    → Chain sel m p xs
    → has a xs ≡ true
    → (e : Entry) × (m a ≡ some e)
Chain-cell sel m p [] a c h = absurd (cc)
Chain-cell sel m p (b ∷ xs) a (e, start, holds, rest) h = elim (ℕ_discrete a b) [
  | yes here ↦ (e, rw here holds)
  | no away ↦ Chain-cell sel m (sel e) xs a rest (ground arith)
]
