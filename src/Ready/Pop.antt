-- ===== src/Ready/Pop.antt =====
-- The consumer of the ready queue of src/wepoll_ex_pool.c, while producers may owe links.
use wepoll_ex.Prelude.{
  ℕ, ◌≡◌, ◌≢◌, ◌⊎◌, inl, inr, refl, ◌∙◌, sym, ap, subst, false, List, [], ◌∷◌, arith, update, has,
  ℕ_discrete,
}
use wepoll_ex.Ready.{Queue, link, pop_one, pop_from, pass}
use wepoll_ex.Ready.Order.{Linked-frame, Ordered, items, has-last_of}

-- A node of the list was handed out, the first but for the stub: nobody will write to it any more.
pub record Handed (flight : ℕ → ℕ) (rest : List ℕ) (q : Queue) (n : ℕ) (q1 : Queue) : Type 0 where
  pub after : List ℕ
  pub ordered : Ordered flight after q1
  pub order : items q.stub (q.tail ∷ rest) ≡ n ∷ items q1.stub (q1.tail ∷ after)
  pub some_node : n ≢ 0
  pub gone : has n (q1.tail ∷ after) ≡ false
  pub quiet : flight n ≡ 0

-- The first node leaves the list.
pub pass-Ordered :
    (flight : ℕ → ℕ) (b : ℕ) (rest : List ℕ) (q : Queue)
    → Ordered flight (b ∷ rest) q
    → flight q.tail ≡ 0
    → Ordered flight rest (record q { tail = b; next = update q.next q.tail 0 })
pass-Ordered flight b rest q o quiet = record {
  live = o.live;
  linked = Linked-frame q.next flight q.tail 0 (b ∷ rest) o.distinct.0 o.linked.1;
  ends = o.ends;
  distinct = o.distinct.1;
  not_null = ground (arith, o.not_null);
  stub_there = o.stub_there;
  outside = λ a h. ground (arith, o.outside a, quiet, h);
}

pass-Handed :
    (flight : ℕ → ℕ) (b : ℕ) (rest : List ℕ) (q : Queue)
    → Ordered flight (b ∷ rest) q
    → q.tail ≢ q.stub
    → flight q.tail ≡ 0
    → let (n, q1) = pass q.tail b q in Handed flight (b ∷ rest) q n q1
pass-Handed flight b rest q o real quiet = record {
  after = rest;
  ordered = record {
    live = o.live;
    linked = Linked-frame q.next flight q.tail 0 (b ∷ rest) o.distinct.0 o.linked.1;
    ends = o.ends;
    distinct = o.distinct.1;
    not_null = ground (arith, o.not_null);
    stub_there = o.stub_there;
    outside = λ a h. ground (arith, o.outside a, quiet, h);
  };
  order = ground (arith, real);
  some_node = ground (arith, o.not_null);
  gone = o.distinct.0;
  quiet = quiet;
}

-- The stub leaves the list.
pub skip-Ordered :
    (flight : ℕ → ℕ) (b : ℕ) (rest : List ℕ) (q : Queue)
    → Ordered flight (b ∷ rest) q
    → q.tail ≡ q.stub
    → flight q.tail ≡ 0
    → Ordered flight rest (record q { tail = b })
      × (items q.stub (q.tail ∷ b ∷ rest) ≡ items q.stub (b ∷ rest))
skip-Ordered flight b rest q o at_stub quiet = (
  record {
    live = o.live;
    linked = o.linked.1;
    ends = o.ends;
    distinct = o.distinct.1;
    not_null = ground (arith, o.not_null);
    stub_there = o.stub_there;
    outside = λ a h. ground (arith, o.outside a, quiet, h);
  },
  ground (arith, at_stub),
)

-- NULL is answered, and no item moves; a producer owes a link, or there is no item.
pub record Waits (flight : ℕ → ℕ) (rest : List ℕ) (q : Queue) (n : ℕ) (q1 : Queue) : Type 0 where
  pub after : List ℕ
  pub ordered : Ordered flight after q1
  pub null : n ≡ 0
  pub order : items q.stub (q.tail ∷ rest) ≡ items q1.stub (q1.tail ∷ after)
  pub reason : (items q.stub (q.tail ∷ rest) ≡ []) ⊎ ((a : ℕ) × (flight a ≢ 0))

abbrev pub Popped : (ℕ → ℕ) → List ℕ → Queue → ℕ × Queue → Type 0
Popped flight rest q (n, q1) = Handed flight rest q n q1 ⊎ Waits flight rest q n q1

-- The only node is handed out, and the stub takes its place.
alone-Handed :
    (flight : ℕ → ℕ) (q : Queue)
    → Ordered flight [] q
    → q.tail ≢ q.stub
    → let (n, q1) = pass q.tail q.stub (link q.stub false q) in Handed flight [] q n q1
unfolding link
alone-Handed flight q o real = record {
  after = [];
  ordered = record {
    live = o.live;
    linked = (ground (arith, real), o.outside q.stub (ground (arith, real)));
    ends = refl;
    distinct = (refl, tt);
    not_null = ground (arith, o.stub_there);
    stub_there = o.stub_there;
    outside = λ a h. ground (arith, o.outside a, o.linked.1, h);
  };
  order = ground (arith, real);
  some_node = ground (arith, o.not_null);
  gone = ground (arith, real);
  quiet = o.linked.1;
}

pop_from-Popped :
    (flight : ℕ → ℕ) (rest : List ℕ) (q : Queue)
    → Ordered flight rest q
    → q.tail ≢ q.stub
    → Popped flight rest q (pop_from q.tail q)
unfolding pop_from
pop_from-Popped flight [] q o real =
    let same : pop_from q.tail q ≡ pass q.tail q.stub (link q.stub false q) =
      ground (arith, o.linked, o.ends, o.stub_there) in
    rw same (inl (alone-Handed flight q o real))
pop_from-Popped flight (b ∷ rest) q o real = elim o.linked.0 [
  | inl (linked, quiet) ↦
      let same : pop_from q.tail q ≡ pass q.tail b q = ground (arith, linked, o.not_null) in
      rw same (inl (pass-Handed flight b rest q o real quiet))
  | inr (open_end, pending) ↦
      let same : pop_from q.tail q ≡ (0, q) = ground (
        arith,
        open_end,
        ap (λ h. has h (b ∷ rest)) o.ends,
        has-last_of b rest,
        o.distinct.0,
        ℕ_discrete q.tail q.head,
      ) in
      rw same (
        inr (record {
          after = b ∷ rest;
          ordered = o;
          null = refl;
          order = refl;
          reason = inr (q.tail, ground (arith, pending, o.not_null));
        }))
]

-- What is popped behind a skipped stub.
widen :
    (flight : ℕ → ℕ) (rest : List ℕ) (b : ℕ) (q : Queue) (r : ℕ × Queue)
    → items q.stub (q.tail ∷ b ∷ rest) ≡ items q.stub (b ∷ rest)
    → Popped flight rest (record q { tail = b }) r
    → Popped flight (b ∷ rest) q r
widen flight rest b q r e (inl h) = inl (record {
  after = h.after;
  ordered = h.ordered;
  order = e ∙ h.order;
  some_node = h.some_node;
  gone = h.gone;
  quiet = h.quiet;
})
widen flight rest b q r e (inr h) = inr (record {
  after = h.after;
  ordered = h.ordered;
  null = h.null;
  order = e ∙ h.order;
  reason = elim h.reason [ inl none_left ↦ inl (e ∙ none_left) | inr owed ↦ inr owed ];
})

pop_one-stub :
    (flight : ℕ → ℕ) (rest : List ℕ) (q : Queue)
    → Ordered flight rest q
    → q.tail ≡ q.stub
    → Popped flight rest q (pop_one q)
unfolding pop_one
pop_one-stub flight [] q o at_stub =
    subst (λ r. Popped flight [] q r) (sym (ground (arith, at_stub, o.linked)))
      (inr (record {
        after = [];
        ordered = o;
        null = refl;
        order = refl;
        reason = inl (ground (arith, at_stub));
      }))
pop_one-stub flight (b ∷ rest) q o at_stub = elim o.linked.0 [
  | inl (linked, quiet) ↦
      let (behind, same) = skip-Ordered flight b rest q o at_stub quiet in
      subst (λ r. Popped flight (b ∷ rest) q r) (sym (ground (arith, at_stub, linked, o.not_null)))
        (widen flight rest b q (pop_from b (record q { tail = b })) same (
          pop_from-Popped flight rest (record q { tail = b }) behind
            (ground (arith, at_stub, o.distinct.0))))
  | inr (open_end, pending) ↦
      subst (λ r. Popped flight (b ∷ rest) q r) (sym (ground (arith, at_stub, open_end)))
        (inr (record {
          after = b ∷ rest;
          ordered = o;
          null = refl;
          order = refl;
          reason = inr (q.tail, ground (arith, pending, o.not_null));
        }))
]

-- `ep_ready_pop_one` hands out the first item; or it answers NULL, and then there is no item, or a
-- producer has not written its link yet. In both cases the other items stay, in order, and the node
-- that is handed out is one that no producer will write to.
pub pop_one-Popped :
    (flight : ℕ → ℕ) (rest : List ℕ) (q : Queue)
    → Ordered flight rest q
    → Popped flight rest q (pop_one q)
unfolding pop_one
pop_one-Popped flight rest q o = elim (ℕ_discrete q.tail q.stub) [
  | yes at_stub ↦ pop_one-stub flight rest q o at_stub
  | no real ↦
      subst (λ r. Popped flight rest q r) (sym (ground (arith, real)))
        (pop_from-Popped flight rest q o real)
]
