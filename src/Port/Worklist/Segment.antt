-- ===== src/Port/Worklist/Segment.antt =====
-- Runs of linked sockets in the deferred-work lists of src/wepoll_ex_port.c.
use wepoll_ex.Prelude.{
  ℕ, ◌≡◌, ◌≢◌, refl, sym, ◌∙◌, true, arith, ◌==◌, if◌then◌else◌, ℕ_discrete, List, [], ◌∷◌, ◌++◌,
  has, Distinct,
}

-- What follows a run that ends before `e`, and what a run behind `p` ends with.
abbrev pub first_of : List ℕ → ℕ → ℕ
first_of [] e = e
first_of (x ∷ xs) e = x

abbrev pub last_of : ℕ → List ℕ → ℕ
last_of p [] = p
last_of p (x ∷ xs) = last_of x xs

-- The links of the run `xs`, with `p` before it and `e` behind it.
abbrev pub Segment : (next prev : ℕ → ℕ) (p : ℕ) (xs : List ℕ) (e : ℕ) → Type 0
Segment next prev p [] e = Unit {0}
Segment next prev p (x ∷ xs) e =
    (x ≢ 0) × (prev x ≡ p) × (next x ≡ first_of xs e) × Segment next prev x xs e

first_of-append : (xs ys : List ℕ) (e : ℕ) → first_of (xs ++ ys) e ≡ first_of xs (first_of ys e)
first_of-append [] ys e = refl
first_of-append (x ∷ xs) ys e = refl

pub last_of-append : (p : ℕ) (xs ys : List ℕ) → last_of p (xs ++ ys) ≡ last_of (last_of p xs) ys
last_of-append p [] ys = refl
last_of-append p (x ∷ xs) ys = last_of-append x xs ys

has-head : (x : ℕ) (xs : List ℕ) → has x (x ∷ xs) ≡ true
has-head x xs = ground arith

if_other : (a b m n : ℕ) → a ≢ b → (if a == b then m else n) ≡ n
if_other a b m n h = ground (arith, h)

pub last_of-has : (x : ℕ) (xs : List ℕ) → has (last_of x xs) (x ∷ xs) ≡ true
last_of-has x [] = ground arith
last_of-has x (y ∷ ys) = ground (arith, last_of-has y ys)

module _ (next prev : ℕ → ℕ) where
  pub Segment-append :
      (p : ℕ) (xs ys : List ℕ) (e : ℕ)
      → Segment next prev p xs (first_of ys e)
      → Segment next prev (last_of p xs) ys e
      → Segment next prev p (xs ++ ys) e
  Segment-append p [] ys e s t = t
  Segment-append p (x ∷ xs) ys e (a, b, c, s) t =
      (a, b, c ∙ sym (first_of-append xs ys e), Segment-append x xs ys e s t)

  pub Segment-split :
      (p : ℕ) (xs ys : List ℕ) (e : ℕ)
      → Segment next prev p (xs ++ ys) e
      → Segment next prev p xs (first_of ys e) × Segment next prev (last_of p xs) ys e
  Segment-split p [] ys e s = (tt, s)
  Segment-split p (x ∷ xs) ys e (a, b, c, s) =
      let (t, u) = Segment-split x xs ys e s in ((a, b, c ∙ first_of-append xs ys e, t), u)

  -- A run is as before if its own links are.
  pub Segment-frame :
      (next' prev' : ℕ → ℕ) (p : ℕ) (xs : List ℕ) (e : ℕ)
      → ((x : ℕ) → has x xs ≡ true → (next' x ≡ next x) × (prev' x ≡ prev x))
      → Segment next prev p xs e
      → Segment next' prev' p xs e
  Segment-frame next' prev' p [] e same s = tt
  Segment-frame next' prev' p (x ∷ xs) e same (a, b, c, s) =
      let (n, q) = same x (ground arith) in
      (a, q ∙ b, n ∙ c, Segment-frame next' prev' x xs e (λ y h. same y (ground (arith, h))) s)

  -- The end of a run, set to another.
  pub Segment-end :
      (next' : ℕ → ℕ) (p : ℕ) (xs : List ℕ) (e e' : ℕ)
      → Distinct xs
      → ((x : ℕ) → has x xs ≡ true → next' x ≡ (if x == last_of p xs then e' else next x))
      → Segment next prev p xs e
      → Segment next' prev p xs e'
  Segment-end next' p [] e e' d same s = tt
  Segment-end next' p (x ∷ []) e e' d same (a, b, c, s) = (a, b, ground (arith, same x), tt)
  Segment-end next' p (x ∷ y ∷ xs) e e' d same (a, b, c, s) =
      let inner = last_of-has y xs in
      let apart : x ≢ last_of y xs = λ h. absurd (ground (arith, d.0, inner, h)) in
      (
        a,
        b,
        same x (has-head x (y ∷ xs)) ∙ if_other x (last_of y xs) e' (next x) apart ∙ c,
        Segment-end next' x (y ∷ xs) e e' d.1 (λ z h. same z (ground (arith, h))) s,
      )

  -- The start of a run, set behind another.
  pub Segment-start :
      (prev' : ℕ → ℕ) (p p' : ℕ) (xs : List ℕ) (e : ℕ)
      → Distinct xs
      → ((x : ℕ) → has x xs ≡ true → prev' x ≡ (if x == first_of xs 0 then p' else prev x))
      → Segment next prev p xs e
      → Segment next prev' p' xs e
  Segment-start prev' p p' [] e d same s = tt
  Segment-start prev' p p' (x ∷ xs) e d same (a, b, c, s) = (
    a,
    ground (arith, same x),
    c,
    Segment-frame next prev' x xs e (λ y h. (refl, ground (arith, same y, h, d.0, ℕ_discrete y x)))
        s,
  )
