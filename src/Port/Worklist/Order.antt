-- ===== src/Port/Worklist/Order.antt =====
-- The links of the deferred-work lists of src/wepoll_ex_port.c keep a list in its order.
use wepoll_ex.Prelude.{
  ℕ, ◌≡◌, ◌≢◌, refl, sym, ap, ◌∙◌, true, false, ◌||◌, arith, ◌==◌, if◌then◌else◌, ℕ_discrete, some,
  List, [], ◌∷◌, ◌++◌, update, has, Distinct,
}
use wepoll_ex.Port.Worklist.{Links, append}
use wepoll_ex.Port.Worklist.Segment.{
  Segment, first_of, last_of, last_of-append, last_of-has, Segment-append, Segment-frame,
  Segment-end,
}

-- The sockets `xs` in their order; all others have no links.
pub record IsList (l : Links) (xs : List ℕ) : Type 0 where
  pub head_eq : l.head ≡ first_of xs 0
  pub tail_eq : l.tail ≡ last_of 0 xs
  pub run : Segment l.next l.prev 0 xs 0
  pub once : Distinct xs
  pub outside : (s : ℕ) → has s xs ≡ false → (l.next s ≡ 0) × (l.prev s ≡ 0)

pub has-append : (a : ℕ) (xs ys : List ℕ) → has a (xs ++ ys) ≡ (has a xs || has a ys)
has-append a [] ys = refl
has-append a (x ∷ xs) ys = ground (arith, has-append a xs ys)

pub Segment-ne_zero :
    (next prev : ℕ → ℕ) (p : ℕ) (xs : List ℕ) (e x : ℕ)
    → Segment next prev p xs e
    → has x xs ≡ true
    → x ≢ 0
Segment-ne_zero next prev p [] e x s h = absurd (cc)
Segment-ne_zero next prev p (y ∷ xs) e x (a, b, c, s) h = elim (ℕ_discrete x y) [
  | yes same ↦ λ z. a (sym same ∙ z)
  | no other ↦ Segment-ne_zero next prev y xs e x s (ground (arith, h, other))
]

snoc-Distinct : (xs : List ℕ) (s : ℕ) → Distinct xs → has s xs ≡ false → Distinct (xs ++ s ∷ [])
snoc-Distinct [] s d h = (refl, tt)
snoc-Distinct (x ∷ xs) s d h =
    (ground (arith, has-append x xs (s ∷ []), d.0, h), snoc-Distinct xs s d.1 (ground (arith, h)))

pub last_of-eq_zero :
    (next prev : ℕ → ℕ) (p : ℕ) (xs : List ℕ) (e : ℕ)
    → Segment next prev p xs e
    → p ≢ 0
    → last_of p xs ≢ 0
last_of-eq_zero next prev p [] e s n = n
last_of-eq_zero next prev p (x ∷ xs) e (a, b, c, s) n = last_of-eq_zero next prev x xs e s a

pub outside_append :
    (y s : ℕ) (xs : List ℕ) → has y (xs ++ s ∷ []) ≡ false → (has y xs ≡ false) × (y ≢ s)
outside_append y s xs e = (
  ground (arith, has-append y xs (s ∷ []), e),
  λ k. absurd (ground (arith, has-append y xs (s ∷ []), e, k)),
)

pub ne_of_has : (a b : ℕ) (xs : List ℕ) → has a xs ≡ true → has b xs ≡ false → a ≢ b
ne_of_has a b xs h k e = absurd (cc (ap (λ n. has n xs) e))

pub set_end :
    (f : ℕ → ℕ) (tail t s y : ℕ) → tail ≡ t → update f tail s y ≡ (if y == t then s else f y)
set_end f tail t s y e = ground (arith, e)

pub set_other : (f : ℕ → ℕ) (i a j : ℕ) → i ≢ j → update f i a j ≡ f j
set_other f i a j h = ground (arith, h)

-- `ep_rearm_list_append_locked` of a socket that is not in the list.
pub append-IsList :
    (s : ℕ) (l : Links) (xs : List ℕ)
    → IsList l xs
    → s ≢ 0
    → has s xs ≡ false
    → (l' : Links) × ((append s l ≡ some l') × IsList l' (xs ++ s ∷ []))
unfolding append
append-IsList s l [] v n h = (
  record { next = l.next; prev = update l.prev s l.tail; head = s; tail = s },
  (
    ground (arith, v.outside s h, v.tail_eq),
    record {
      head_eq = refl;
      tail_eq = refl;
      run = (n, ground (arith, v.tail_eq), ground (arith, v.outside s h), tt);
      once = (refl, tt);
      outside = λ x e. ground (arith, v.outside x refl, e);
    },
  ),
)
append-IsList s l (x ∷ xs) v n h =
    let t = last_of x xs in
    let t_ne : t ≢ 0 = last_of-eq_zero l.next l.prev x xs 0 v.run.3 v.run.0 in
    let t_in = last_of-has x xs in
    let tail_ne : l.tail ≢ s = λ e. ne_of_has t s (x ∷ xs) t_in h (sym v.tail_eq ∙ e) in
    (
      record {
        next = update l.next l.tail s;
        prev = update l.prev s l.tail;
        head = l.head;
        tail = s;
      },
      (
        ground (arith, v.outside s h, v.tail_eq, t_ne),
        record {
          head_eq = v.head_eq;
          tail_eq = sym (last_of-append x xs (s ∷ []));
          run =
              Segment-append _ _ 0 (x ∷ xs) (s ∷ []) 0
                (Segment-end l.next _ _ 0 (x ∷ xs) 0 s v.once
                  (λ y k. set_end l.next l.tail t s y v.tail_eq)
                  (Segment-frame l.next l.prev l.next _ 0 (x ∷ xs) 0
                    (λ y k.
                      (refl, set_other l.prev s l.tail y (λ e. ne_of_has y s (x ∷ xs) k h (sym e))))
                    v.run))
                (
                  n,
                  ground (arith, v.tail_eq),
                  set_other l.next l.tail s s tail_ne ∙ (v.outside s h).0,
                  tt,
                );
          once = snoc-Distinct (x ∷ xs) s v.once h;
          outside = λ y e.
              let (off, apart) = outside_append y s (x ∷ xs) e in
              let (a, b) = v.outside y off in
              (
                set_other l.next l.tail s y
                      (λ k. ne_of_has t y (x ∷ xs) t_in off (sym v.tail_eq ∙ k))
                    ∙ a,
                set_other l.prev s l.tail y (λ k. apart (sym k)) ∙ b,
              );
        },
      ),
    )
