-- ===== src/Port/Worklist/Removal.antt =====
-- Taking a socket out of a deferred-work list of src/wepoll_ex_port.c, and the rotation of a list.
use wepoll_ex.Prelude.{
  ℕ, ◌≡◌, ◌≢◌, refl, sym, ap, ◌∙◌, subst, fun_ext, true, false, ◌&&◌, ◌||◌, not, arith, ◌==◌,
  if◌then◌else◌, ℕ_discrete, some, List, [], ◌∷◌, ◌++◌, update, has, Distinct, erase,
}
use wepoll_ex.Port.Worklist.{Links, append, remove, rotate}
use wepoll_ex.Port.Worklist.Segment.{
  Segment, first_of, last_of, last_of-append, last_of-has, Segment-append, Segment-split,
  Segment-frame, Segment-end, Segment-start,
}
use wepoll_ex.Port.Worklist.Order.{
  IsList, has-append, Segment-ne_zero, last_of-eq_zero, ne_of_has, append-IsList,
}

record Parts (s : ℕ) (as_ bs : List ℕ) : Type 0 where
  front : Distinct as_
  back : Distinct bs
  whole : Distinct (as_ ++ bs)
  not_front : has s as_ ≡ false
  not_back : has s bs ≡ false
  disjoint : (x : ℕ) → has x as_ ≡ true → has x bs ≡ false

parts : (s : ℕ) (as_ bs : List ℕ) → Distinct (as_ ++ s ∷ bs) → Parts s as_ bs
parts s [] bs d = record {
  front = tt;
  back = d.1;
  whole = d.1;
  not_front = refl;
  not_back = d.0;
  disjoint = λ x h. absurd (cc);
}
parts s (a ∷ as_) bs d =
    let k = parts s as_ bs d.1 in
    let off = has-append a as_ (s ∷ bs) in
    record {
      front = (ground (arith, off, d.0), k.front);
      back = k.back;
      whole = (ground (arith, off, d.0, has-append a as_ bs), k.whole);
      not_front = ground (arith, off, d.0, k.not_front);
      not_back = k.not_back;
      disjoint = λ x h. elim (ℕ_discrete x a) [
        | yes same ↦ ap (λ n. has n bs) same ∙ ground (arith, off, d.0)
        | no other ↦ k.disjoint x (ground (arith, h, other))
      ];
    }

-- The links once `s` is taken out from between `p` and `b`.
abbrev bypass : (f : ℕ → ℕ) (p b s : ℕ) → ℕ → ℕ
bypass f p b s = update (if p == 0 then f else update f p b) s 0

bypass_in :
    (f : ℕ → ℕ) (p b s x : ℕ) → x ≢ s → x ≢ 0 → bypass f p b s x ≡ (if x == p then b else f x)
bypass_in f p b s x n z = ground (arith, n, z, ℕ_discrete p 0)

bypass_out : (f : ℕ → ℕ) (p b s x : ℕ) → x ≢ s → (p ≢ 0 → x ≢ p) → bypass f p b s x ≡ f x
bypass_out f p b s x n h = elim (ℕ_discrete p 0) [
  | yes z ↦ ground (arith, n, z)
  | no m ↦ ground (arith, n, m, h m)
]

last_of-cases : (as_ : List ℕ) → last_of 0 as_ ≢ 0 → has (last_of 0 as_) as_ ≡ true
last_of-cases [] n = absurd (n refl)
last_of-cases (a ∷ as_) n = last_of-has a as_

first_of-cases : (bs : List ℕ) → first_of bs 0 ≢ 0 → has (first_of bs 0) bs ≡ true
first_of-cases [] n = absurd (n refl)
first_of-cases (b ∷ bs) n = ground arith

last_ne :
    (next prev : ℕ → ℕ) (as_ : List ℕ) (e : ℕ)
    → Segment next prev 0 as_ e
    → as_ ≢ []
    → last_of 0 as_ ≢ 0
last_ne next prev [] e s n = absurd (n refl)
last_ne next prev (a ∷ as_) e s n = last_of-eq_zero next prev a as_ e s.3 s.0

first_ne :
    (next prev : ℕ → ℕ) (p : ℕ) (bs : List ℕ)
    → Segment next prev p bs 0
    → bs ≢ []
    → first_of bs 0 ≢ 0
first_ne next prev p [] s n = absurd (n refl)
first_ne next prev p (b ∷ bs) s n = s.0

head_of :
    (as_ bs : List ℕ) (s head : ℕ)
    → head ≡ first_of (as_ ++ s ∷ bs) 0
    → (as_ ≢ [] → last_of 0 as_ ≢ 0)
    → (if last_of 0 as_ == 0 then first_of bs 0 else head) ≡ first_of (as_ ++ bs) 0
head_of [] bs s head e n = refl
head_of (a ∷ as_) bs s head e n = ground (arith, e, n (λ z. absurd (cc z)))

tail_of :
    (as_ bs : List ℕ) (s tail : ℕ)
    → tail ≡ last_of 0 (as_ ++ s ∷ bs)
    → (bs ≢ [] → first_of bs 0 ≢ 0)
    → (if first_of bs 0 == 0 then last_of 0 as_ else tail) ≡ last_of 0 (as_ ++ bs)
tail_of as_ [] s tail e n = sym (last_of-append 0 as_ [])
tail_of as_ (b ∷ bs) s tail e n = ground (
  arith,
  e,
  n (λ z. absurd (cc z)),
  last_of-append 0 as_ (s ∷ b ∷ bs),
  last_of-append 0 as_ (b ∷ bs),
)

head_assert :
    (as_ bs : List ℕ) (s head : ℕ)
    → head ≡ first_of (as_ ++ s ∷ bs) 0
    → (as_ ≢ [] → last_of 0 as_ ≢ 0)
    → (last_of 0 as_ == 0 && not (head == s)) ≡ false
head_assert [] bs s head e n = ground (arith, e)
head_assert (a ∷ as_) bs s head e n = ground (arith, n (λ z. absurd (cc z)))

tail_assert :
    (as_ bs : List ℕ) (s tail : ℕ)
    → tail ≡ last_of 0 (as_ ++ s ∷ bs)
    → (bs ≢ [] → first_of bs 0 ≢ 0)
    → (first_of bs 0 == 0 && not (tail == s)) ≡ false
tail_assert as_ [] s tail e n = ground (arith, e, last_of-append 0 as_ (s ∷ []))
tail_assert as_ (b ∷ bs) s tail e n = ground (arith, n (λ z. absurd (cc z)))

module _ (s : ℕ) (l : Links) (as_ bs : List ℕ) where
  abbrev p : ℕ
  p = last_of 0 as_

  abbrev b : ℕ
  b = first_of bs 0

  abbrev next' : ℕ → ℕ
  next' = bypass l.next p b s

  abbrev prev' : ℕ → ℕ
  prev' = bypass l.prev b p s

  abbrev removed : Links
  removed = record {
    next = next';
    prev = prev';
    head = if p == 0 then b else l.head;
    tail = if b == 0 then p else l.tail;
  }

  module _ (v : IsList l (as_ ++ s ∷ bs)) where
    k : Parts s as_ bs
    k = parts s as_ bs v.once

    front_run : Segment l.next l.prev 0 as_ s
    front_run = (Segment-split l.next l.prev 0 as_ (s ∷ bs) 0 v.run).0

    back_run : (s ≢ 0) × (l.prev s ≡ p) × (l.next s ≡ b) × Segment l.next l.prev s bs 0
    back_run = (Segment-split l.next l.prev 0 as_ (s ∷ bs) 0 v.run).1

    removed_run : Segment next' prev' 0 (as_ ++ bs) 0
    removed_run =
        Segment-append next' prev' 0 as_ bs 0
          (Segment-end l.next prev' next' 0 as_ s b k.front
            (λ x h.
              bypass_in l.next p b s x (ne_of_has x s as_ h k.not_front)
                (Segment-ne_zero l.next l.prev 0 as_ s x front_run h))
            (Segment-frame l.next l.prev l.next prev' 0 as_ s
              (λ x h. (
                refl,
                bypass_out l.prev b p s x (ne_of_has x s as_ h k.not_front)
                    (λ m e. ne_of_has b x bs (first_of-cases bs m) (k.disjoint x h) (sym e)),
              ))
              front_run))
          (Segment-start next' l.prev prev' s p bs 0 k.back
            (λ x h.
              bypass_in l.prev b p s x (ne_of_has x s bs h k.not_back)
                (Segment-ne_zero l.next l.prev s bs 0 x back_run.3 h))
            (Segment-frame l.next l.prev next' l.prev s bs 0
              (λ x h. (
                bypass_out l.next p b s x (ne_of_has x s bs h k.not_back)
                    (λ m e. ne_of_has x p bs h (k.disjoint p (last_of-cases as_ m)) e),
                refl,
              ))
              back_run.3))

    removed_outside : (y : ℕ) → has y (as_ ++ bs) ≡ false → (next' y ≡ 0) × (prev' y ≡ 0)
    removed_outside y h = elim (ℕ_discrete s y) [
      | yes here ↦ (ground (arith, here), ground (arith, here))
      | no away ↦
          let off = has-append y as_ bs in
          let away' : y ≢ s = λ e. away (sym e) in
          let (n, q) = v.outside y (ground (arith, off, h, away, has-append y as_ (s ∷ bs))) in
          (
            bypass_out l.next p b s y away'
                  (λ m e. ne_of_has p y as_ (last_of-cases as_ m) (ground (arith, off, h)) (sym e))
                ∙ n,
            bypass_out l.prev b p s y away'
                  (λ m e. ne_of_has b y bs (first_of-cases bs m) (ground (arith, off, h)) (sym e))
                ∙ q,
          )
    ]

    head_removed : (if p == 0 then b else l.head) ≡ first_of (as_ ++ bs) 0
    head_removed = head_of as_ bs s l.head v.head_eq (last_ne l.next l.prev as_ s front_run)

    removed-IsList : IsList removed (as_ ++ bs)
    removed-IsList = record {
      head_eq = head_removed;
      tail_eq = tail_of as_ bs s l.tail v.tail_eq (first_ne l.next l.prev s bs back_run.3);
      run = removed_run;
      once = k.whole;
      outside = removed_outside;
    }

    remove-removed : remove s l ≡ some removed
    unfolding remove
    remove-removed = rw (back_run.1, back_run.2) (rw (no_assert) refl)
      where
        no_assert : ((p == 0 && not (l.head == s)) || (b == 0 && not (l.tail == s))) ≡ false
        no_assert = ground (
          arith,
          head_assert as_ bs s l.head v.head_eq (last_ne l.next l.prev as_ s front_run),
          tail_assert as_ bs s l.tail v.tail_eq (first_ne l.next l.prev s bs back_run.3),
        )

split_at :
    (s : ℕ) (xs : List ℕ)
    → has s xs ≡ true
    → (as_ : List ℕ) × (bs : List ℕ) × ((xs ≡ as_ ++ s ∷ bs) × (erase s xs ≡ as_ ++ bs))
split_at s [] h = absurd (cc)
split_at s (x ∷ xs) h = elim (ℕ_discrete s x) [
  | yes same ↦ ([], xs, (ap (λ n. n ∷ xs) (sym same), ground (arith, same)))
  | no other ↦
      let (as_, bs, (e, f)) = split_at s xs (ground (arith, h, other)) in
      (x ∷ as_, bs, (ap (λ ys. x ∷ ys) e, ground (arith, other, f)))
]

-- `ep_rearm_list_remove_locked` of a socket of the list.
pub remove-IsList :
    (s : ℕ) (l : Links) (xs : List ℕ)
    → IsList l xs
    → has s xs ≡ true
    → (l' : Links) × ((remove s l ≡ some l') × IsList l' (erase s xs))
remove-IsList s l xs v h =
    let (as_, bs, (e, f)) = split_at s xs h in
    let w = subst (λ ys. IsList l ys) e v in
    (
      removed s l as_ bs,
      (
        remove-removed s l as_ bs w,
        subst (λ ys. IsList (removed s l as_ bs) ys) (sym f) (removed-IsList s l as_ bs w),
      ),
    )

update-update : (f : ℕ → ℕ) (i a b : ℕ) → update (update f i a) i b ≡ update f i b
update-update f i a b = fun_ext λ j. ground arith

-- A rotation is a removal and an append.
rotate-append :
    (s x : ℕ) (xs : List ℕ) (l : Links)
    → l.head ≡ s
    → l.next s ≡ x
    → x ≢ 0
    → l.tail ≢ s
    → l.tail ≢ 0
    → rotate s l ≡ append s (removed s l [] (x ∷ xs))
unfolding rotate append
rotate-append s x xs l head_eq next_eq some_next more some_tail = ground (
  arith,
  head_eq,
  next_eq,
  some_next,
  more,
  some_tail,
  update-update (update l.prev x 0) s 0 l.tail,
)

-- `ep_rearm_list_rotate_locked` of the first socket of the list.
pub rotate-IsList :
    (s : ℕ) (l : Links) (xs : List ℕ)
    → IsList l (s ∷ xs)
    → (l' : Links) × ((rotate s l ≡ some l') × IsList l' (xs ++ s ∷ []))
unfolding rotate
rotate-IsList s l [] v = (l, (ground (arith, v.head_eq, v.tail_eq), v))
rotate-IsList s l (x ∷ xs) v =
    let (l', (runs, w)) =
      append-IsList s (removed s l [] (x ∷ xs)) (x ∷ xs) (removed-IsList s l [] (x ∷ xs) v) v.run.0
        v.once.0 in
    let t_in = last_of-has x xs in
    let more : l.tail ≢ s =
      λ e. ne_of_has (last_of x xs) s (x ∷ xs) t_in v.once.0 (sym v.tail_eq ∙ e) in
    let some_tail : l.tail ≢ 0 =
      λ e. last_of-eq_zero l.next l.prev x xs 0 v.run.3.3 v.run.3.0 (sym v.tail_eq ∙ e) in
    (l', (rotate-append s x xs l v.head_eq v.run.2 v.run.3.0 more some_tail ∙ runs, w))
