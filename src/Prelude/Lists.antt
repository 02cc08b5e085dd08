-- ===== src/Prelude/Lists.antt =====
-- Lists measured by native numbers, and functions updated at a number.
use Prim.Native.Nat.{ℕ, zero, suc, ◌+◌, ◌≤◌, ◌<◌}
use mathlib.Core.Path.{◌≡◌, refl, sym, subst}
use mathlib.Core.Logic.{◌≢◌}
use mathlib.Core.Bool.{Bool, true, false, not, ◌&&◌, ◌||◌}
use mathlib.Core.List.{List, [], ◌∷◌, ◌++◌}
use native.Mathlib.Omega.{arith}
use native.Mathlib.Decide.{ℕ_discrete}
use wepoll_ex.Prelude.Tests.{◌==◌, if◌then◌else◌}

module _ {ℓ} {A : Type ℓ} where
  abbrev pub length : List A → ℕ
  length [] = 0
  length (x ∷ xs) = suc (length xs)

  pub length-append : (xs ys : List A) → length (xs ++ ys) ≡ length xs + length ys
  length-append [] ys = omega arith
  length-append (x ∷ xs) ys = omega (arith, length-append xs ys)

-- A table or a store as a function, written at one place.
abbrev pub update {ℓ} : {A : Type ℓ} → (ℕ → A) → ℕ → A → ℕ → A
update f i a j = if i == j then a else f j

-- Membership test of a list of numbers.
abbrev pub has : ℕ → List ℕ → Bool
has a [] = false
has a (x ∷ xs) = (a == x) || has a xs

-- No number twice.
abbrev pub Distinct : List ℕ → Type 0
Distinct [] = Unit {0}
Distinct (x ∷ xs) = (has x xs ≡ false) × Distinct xs

abbrev pub erase : ℕ → List ℕ → List ℕ
erase a [] = []
erase a (x ∷ xs) = if a == x then xs else x ∷ erase a xs

has-erase : (a b : ℕ) (xs : List ℕ) → has b xs ≡ true → (b == a) ≡ false → has b (erase a xs) ≡ true
has-erase a b [] h n = h
has-erase a b (x ∷ xs) h n = ground (arith, has-erase a b xs)

pub length-erase : (a : ℕ) (xs : List ℕ) → has a xs ≡ true → suc (length (erase a xs)) ≡ length xs
length-erase a [] h = absurd (cc)
length-erase a (x ∷ xs) h = ground (arith, length-erase a xs)

pub has-erase_distinct :
    (a b : ℕ) (xs : List ℕ) → Distinct xs → has b (erase a xs) ≡ (has b xs && not (b == a))
has-erase_distinct a b [] d = refl
has-erase_distinct a b (x ∷ xs) d = ground (arith, has-erase_distinct a b xs d.1, d.0)

pub erase-Distinct : (a : ℕ) (xs : List ℕ) → Distinct xs → Distinct (erase a xs)
erase-Distinct a [] d = d
erase-Distinct a (x ∷ xs) d = elim (ℕ_discrete a x) [
  | yes same ↦
      subst (λ n. Distinct (if n == x then xs else x ∷ erase n xs)) (sym same)
        (subst (λ (b : Bool). Distinct (if b then xs else x ∷ erase x xs)) (sym (same_true x)) d.1)
  | no other ↦
      subst (λ (b : Bool). Distinct (if b then xs else x ∷ erase a xs)) (sym (other_false other))
        (ground (arith, has-erase_distinct a x xs d.1, d.0), erase-Distinct a xs d.1)
]
  where
    same_true : (n : ℕ) → (n == n) ≡ true
    same_true n = ground arith

    other_false : a ≢ x → (a == x) ≡ false
    other_false n = ground (arith, n)

-- Distinct numbers that all stand in a list are no more than the list is long.
pub length-le_of_has :
    (xs ys : List ℕ)
    → Distinct xs
    → ((a : ℕ) → has a xs ≡ true → has a ys ≡ true)
    → length xs ≤ length ys
length-le_of_has [] ys d inside = omega arith
length-le_of_has (x ∷ xs) ys d inside =
    let here : has x ys ≡ true = inside x (ground arith) in
    let rest =
      length-le_of_has xs (erase x ys) d.1
        λ a h. has-erase x a ys (inside a (ground arith)) (ground (arith, d.0)) in
    omega (arith, rest, length-erase x ys here)

-- How often a number stands in a list.
abbrev pub count : ℕ → List ℕ → ℕ
count a [] = 0
count a (x ∷ xs) = if a == x then suc (count a xs) else count a xs

pub count-erase :
    (a b : ℕ) (xs : List ℕ)
    → has a xs ≡ true
    → count b (erase a xs) + (if b == a then 1 else 0) ≡ count b xs
count-erase a b [] h = absurd (cc)
count-erase a b (x ∷ xs) h = ground (arith, count-erase a b xs)

pub count-pos : (a : ℕ) (xs : List ℕ) → has a xs ≡ true → 0 < count a xs
count-pos a [] h = absurd (cc)
count-pos a (x ∷ xs) h = ground (arith, count-pos a xs)

pub has-count : (a : ℕ) (xs : List ℕ) → 0 < count a xs → has a xs ≡ true
has-count a [] h = absurd (omega arith)
has-count a (x ∷ xs) h = ground (arith, has-count a xs)

pub count-le-length : (a : ℕ) (xs : List ℕ) → count a xs ≤ length xs
count-le-length a [] = omega arith
count-le-length a (x ∷ xs) = ground (arith, count-le-length a xs)

-- The sum of the first `n` values of a function.
pub total : ℕ → (ℕ → ℕ) → ℕ
total zero f = 0
total (suc n) f = total n f + f n

total-update_above : (n : ℕ) (f : ℕ → ℕ) (i a : ℕ) → n ≤ i → total n (update f i a) ≡ total n f
unfolding total
total-update_above zero f i a h = refl
total-update_above (suc n) f i a h = ground (arith, total-update_above n f i a)

pub total-update :
    (n : ℕ) (f : ℕ → ℕ) (i a : ℕ) → i < n → total n (update f i a) + f i ≡ total n f + a
unfolding total
total-update zero f i a h = absurd (omega arith)
total-update (suc n) f i a h = ground (arith, total-update n f i a, total-update_above n f i a)

pub total-pos : (n : ℕ) (f : ℕ → ℕ) (i : ℕ) → i < n → 0 < f i → 0 < total n f
unfolding total
total-pos zero f i h p = absurd (omega arith)
total-pos (suc n) f i h p = ground (arith, total-pos n f i)

pub total-zero : (n : ℕ) (f : ℕ → ℕ) → ((k : ℕ) → f k ≡ 0) → total n f ≡ 0
unfolding total
total-zero zero f h = refl
total-zero (suc n) f h = ground (arith, total-zero n f h, h n)

-- A sum that is less than its number of terms has a term 0.
pub total-gap : (n : ℕ) (f : ℕ → ℕ) → total n f < n → (k : ℕ) × ((k < n) × (f k ≡ 0))
unfolding total
total-gap zero f h = absurd (omega arith)
total-gap (suc n) f h = elim (ℕ_discrete (f n) 0) [
  | yes z ↦ (n, (omega arith, z))
  | no some_more ↦
      let (k, (a, b)) = total-gap n f (omega (arith, some_more)) in (k, (omega arith, b))
]

pub total-suc : (n : ℕ) (f : ℕ → ℕ) → total (suc n) f ≡ total n f + f n
unfolding total
total-suc n f = refl

pub total-none : (f : ℕ → ℕ) → total 0 f ≡ 0
unfolding total
total-none f = refl
