-- ===== src/Ready/Consume.antt =====
-- The steps of the consumer of the ready queue of src/wepoll_ex_pool.c keep the invariant.
use wepoll_ex.Prelude.{
  ℕ, ◌+◌, ◌≡◌, ◌≢◌, inl, inr, refl, ◌∙◌, sym, ap, subst, false, List, [], ◌∷◌, arith, update, has,
  length, Distinct, ℕ_discrete,
}
use wepoll_ex.Ready.{Queue, prepare, exchange, publish}
use wepoll_ex.Ready.Order.{
  Ordered, items, has-last_of, items-snoc, snoc, last_of, write-Ordered, exchange-Ordered,
  publish-Ordered,
}
use wepoll_ex.Ready.Pop.{skip-Ordered, pass-Ordered}
use wepoll_ex.Ready.Steps.{
  Consumer, returns, loads_next, loads_head, exchanges, links_stub, loads_again, unlinks, accounts,
  after_load, consume, System, consumes, advance,
}
use wepoll_ex.Ready.Moves.{
  At, Inv, Holds, joined, with_hand, count-snoc, owned-apart, owned-unlisted,
}

snoc-joined : (xs ys : List ℕ) (n : ℕ) → joined xs (n ∷ ys) ≡ joined (snoc xs n) ys
snoc-joined [] ys n = refl
snoc-joined (x ∷ xs) ys n = ap (λ zs. x ∷ zs) (snoc-joined xs ys n)

-- Another place of the consumer, with nothing in its hand.
moved :
    (c d : Consumer) (y : System) (rest : List ℕ)
    → ((xs : List ℕ) → with_hand c xs ≡ xs)
    → ((xs : List ℕ) → with_hand d xs ≡ xs)
    → Inv (record y { consumer = c }) rest
    → At d y.flight y.queue rest
    → Inv (record y { consumer = d }) rest
moved c d y rest e f i k = record {
  ordered = i.ordered;
  in_order = i.in_order ∙ ap (joined y.popped) (e _ ∙ sym (f _));
  number = i.number ∙ ap (λ xs. length xs + length y.counted) (e _ ∙ sym (f _));
  prepared = λ a h.
      let p = i.prepared a h in
      record { some_node = p.some_node; real = p.real; blank = p.blank; owned = p.owned };
  once = i.once;
  at_step = k;
}

-- Behind a load of `tail->next`.
after_load-Holds :
    (c : Consumer) (t : ℕ) (y : System) (rest : List ℕ) (n : ℕ)
    → ((xs : List ℕ) → with_hand c xs ≡ xs)
    → t ≡ y.queue.tail
    → t ≢ y.queue.stub
    → y.queue.next t ≡ n
    → Inv (record y { consumer = c }) rest
    → Holds (record y { consumer = after_load t n })
after_load-Holds c t y rest n e here real loaded i = elim (ℕ_discrete n 0) [
  | yes none_there ↦
      subst (λ d. Holds (record y { consumer = d })) (sym (ground (arith, none_there)))
        (rest, moved c (loads_head t) y rest e (λ xs. refl) i (here, real))
  | no there ↦
      subst (λ d. Holds (record y { consumer = d })) (sym (ground (arith, there)))
        (rest, moved c (unlinks t n) y rest e (λ xs. refl) i (here, real, loaded, there))
]

-- The stub leaves the list.
skips :
    (n b : ℕ) (y : System) (rest : List ℕ)
    → Inv (record y { consumer = returns n }) (b ∷ rest)
    → y.queue.tail ≡ y.queue.stub
    → y.flight y.queue.tail ≡ 0
    → Inv (record y { queue = record (y.queue) { tail = b }; consumer = loads_next b }) rest
skips n b y rest i at_stub quiet =
    let (o, same) = skip-Ordered y.flight b rest y.queue i.ordered at_stub quiet in
    record {
      ordered = o;
      in_order = i.in_order ∙ ap (joined y.popped) same;
      number = i.number ∙ ap (λ xs. length xs + length y.counted) same;
      prepared = λ a h.
          let p = i.prepared a h in
          record { some_node = p.some_node; real = p.real; blank = p.blank; owned = p.owned };
      once = i.once;
      at_step = (refl, ground (arith, at_stub, i.ordered.distinct));
    }

begins :
    (n : ℕ) (y : System) (rest : List ℕ)
    → Inv (record y { consumer = returns n }) rest
    → Holds (advance consumes (record y { consumer = returns n }))
unfolding advance consume
begins n y rest i = elim (ℕ_discrete y.queue.tail y.queue.stub) [
  | no real ↦
      subst (λ (x : Consumer × Queue). Holds (record y { queue = x.1; consumer = x.0 }))
        (sym (ground (arith, real)))
        (after_load-Holds (returns n) y.queue.tail y rest _ (λ xs. refl) refl real refl i)
  | yes at_stub ↦ at_the_stub at_stub rest i
]
  where
    idle :
        (rest : List ℕ)
        → Inv (record y { consumer = returns n }) rest
        → y.queue.tail ≡ y.queue.stub
        → y.queue.next y.queue.tail ≡ 0
        → Holds (advance consumes (record y { consumer = returns n }))
    idle rest i at_stub none_there =
        subst (λ (x : Consumer × Queue). Holds (record y { queue = x.1; consumer = x.0 }))
          (sym (ground (arith, at_stub, none_there)))
          (rest, moved (returns n) (returns 0) y rest (λ xs. refl) (λ xs. refl) i tt)

    at_the_stub :
        y.queue.tail ≡ y.queue.stub
        → (rest : List ℕ) → Inv (record y { consumer = returns n }) rest
        → Holds (advance consumes (record y { consumer = returns n }))
    at_the_stub at_stub [] i = idle [] i at_stub i.ordered.linked.0
    at_the_stub at_stub (b ∷ rest) i = elim i.ordered.linked.0 [
      | inr (open_end, pending) ↦ idle (b ∷ rest) i at_stub open_end
      | inl (linked, quiet) ↦
          subst (λ (x : Consumer × Queue). Holds (record y { queue = x.1; consumer = x.0 }))
            (sym (ground (arith, at_stub, linked, i.ordered.not_null)))
            (rest, skips n b y rest i at_stub quiet)
    ]

-- If the tail is the last node, the list has no other.
last-only : (a : ℕ) (xs : List ℕ) → Distinct (a ∷ xs) → last_of a xs ≡ a → xs ≡ []
last-only a [] d e = refl
last-only a (b ∷ xs) d e =
    absurd (ground (arith, d.0, has-last_of b xs, ap (λ x. has x (b ∷ xs)) e))

compares :
    (t : ℕ) (y : System) (rest : List ℕ)
    → Inv (record y { consumer = loads_head t }) rest
    → Holds (advance consumes (record y { consumer = loads_head t }))
unfolding advance consume
compares t y rest i = elim (ℕ_discrete t y.queue.head) [
  | no other ↦
      subst (λ c. Holds (record y { consumer = c })) (sym (ground (arith, other)))
        (rest, moved (loads_head t) (returns 0) y rest (λ xs. refl) (λ xs. refl) i tt)
  | yes last ↦
      let alone =
        last-only y.queue.tail rest i.ordered.distinct (i.ordered.ends ∙ sym last ∙ i.at_step.0) in
      let out : has y.queue.stub (y.queue.tail ∷ rest) ≡ false =
        subst (λ xs. has y.queue.stub (y.queue.tail ∷ xs) ≡ false) (sym alone)
          (ground (arith, i.at_step)) in
      subst (λ c. Holds (record y { consumer = c })) (sym (ground (arith, last)))
        (
          rest,
          moved (loads_head t) (exchanges t) y rest (λ xs. refl) (λ xs. refl) i
              (i.at_step.0, i.at_step.1, out),
        )
]

-- The stub takes the place behind the last node.
appends :
    (t : ℕ) (y : System) (rest : List ℕ)
    → Inv (record y { consumer = exchanges t }) rest
    → Holds (advance consumes (record y { consumer = exchanges t }))
unfolding advance consume prepare exchange
appends t y rest i =
    let s = y.queue.stub in
    let q : Queue = record (y.queue) { next = update y.queue.next s 0 } in
    let o = write-Ordered y.flight rest s 0 y.queue.queued y.queue i.ordered i.at_step.2 in
    let same : items s (y.queue.tail ∷ snoc rest s) ≡ items s (y.queue.tail ∷ rest) =
      items-snoc s s (y.queue.tail ∷ rest) ∙ ground arith in
    (
      snoc rest s,
      record {
        ordered =
            exchange-Ordered y.flight rest s q o i.at_step.2 (ground arith) i.ordered.stub_there;
        in_order = i.in_order ∙ ap (joined y.popped) (sym same);
        number = i.number ∙ ap (λ xs. length xs + length y.counted) (sym same);
        prepared = λ a h.
            let p = i.prepared a h in
            record {
              some_node = p.some_node;
              real = p.real;
              blank = ground (arith, p.blank);
              owned = p.owned;
            };
        once = i.once;
        at_step = (i.at_step.0, i.at_step.1, ground arith);
      },
    )

stub_links :
    (t prev : ℕ) (y : System) (rest : List ℕ)
    → Inv (record y { consumer = links_stub t prev }) rest
    → Holds (advance consumes (record y { consumer = links_stub t prev }))
unfolding advance consume publish
stub_links t prev y rest i =
    let owed : y.flight prev ≢ 0 = λ e. i.ordered.stub_there (sym i.at_step.2 ∙ e) in
    (
      rest,
      record {
        ordered =
            subst (λ n. Ordered (update y.flight prev 0) rest (publish prev n y.queue)) i.at_step.2
              (publish-Ordered y.flight rest prev y.queue i.ordered owed);
        in_order = i.in_order;
        number = i.number;
        prepared = λ a h.
            let p = i.prepared a h in
            let out =
              owned-unlisted a (record y { consumer = links_stub t prev }) rest i p.real p.owned in
            record {
              some_node = p.some_node;
              real = p.real;
              blank = ground (arith, p.blank, owed, i.ordered.outside a out, ℕ_discrete prev a);
              owned = p.owned;
            };
        once = i.once;
        at_step = (i.at_step.0, i.at_step.1);
      },
    )

reloads :
    (t : ℕ) (y : System) (rest : List ℕ)
    → Inv (record y { consumer = loads_again t }) rest
    → Holds (advance consumes (record y { consumer = loads_again t }))
unfolding advance consume
reloads t y rest i = elim (ℕ_discrete (y.queue.next t) 0) [
  | yes none_there ↦
      subst (λ c. Holds (record y { consumer = c })) (sym (ground (arith, none_there)))
        (rest, moved (loads_again t) (returns 0) y rest (λ xs. refl) (λ xs. refl) i tt)
  | no there ↦
      subst (λ c. Holds (record y { consumer = c })) (sym (ground (arith, there)))
        (
          rest,
          moved (loads_again t) (unlinks t (y.queue.next t)) y rest (λ xs. refl) (λ xs. refl) i
              (i.at_step.0, i.at_step.1, refl, there),
        )
]

-- The first node leaves the list, at the link that was loaded.
takes :
    (t n : ℕ) (y : System) (rest : List ℕ)
    → Inv (record y { consumer = unlinks t n }) rest
    → Holds (advance consumes (record y { consumer = unlinks t n }))
unfolding advance consume
takes t n y [] i =
    absurd (i.at_step.3 (sym i.at_step.2 ∙ ap y.queue.next i.at_step.0 ∙ i.ordered.linked.0))
takes t n y (b ∷ rest) i =
    let k = i.at_step in
    let next_tail : b ≡ n = ground (arith, k, i.ordered.linked.0) in
    let quiet : y.flight y.queue.tail ≡ 0 = ground (arith, k, i.ordered.linked.0) in
    let y1 : ℕ → ℕ → System = λ a m. record y {
      queue = record (y.queue) { tail = m; next = update y.queue.next a 0 };
      consumer = accounts a;
    } in
    let same : items y.queue.stub (y.queue.tail ∷ b ∷ rest)
        ≡ y.queue.tail ∷ items y.queue.stub (b ∷ rest) =
      ground (arith, k) in
    let done : Inv (y1 y.queue.tail b) rest = record {
      ordered = pass-Ordered y.flight b rest y.queue i.ordered quiet;
      in_order = i.in_order ∙ ap (joined y.popped) same;
      number = i.number ∙ ap (λ xs. length xs + length y.counted) same;
      prepared = λ a h.
          let p = i.prepared a h in
          record {
            some_node = p.some_node;
            real = p.real;
            blank = ground (arith, p.blank);
            owned = p.owned;
          };
      once = i.once;
      at_step = (
        quiet,
        i.ordered.distinct.0,
        ground (arith, i.ordered.not_null),
        subst (λ x. x ≢ y.queue.stub) k.0 k.1,
      );
    } in
    (rest, subst (λ m. Inv (y1 t m) rest) next_tail (subst (λ a. Inv (y1 a b) rest) (sym k.0) done))

-- The node is handed out, and no longer counted.
hands_out :
    (t : ℕ) (y : System) (rest : List ℕ)
    → Inv (record y { consumer = accounts t }) rest
    → Holds (advance consumes (record y { consumer = accounts t }))
unfolding advance consume
hands_out t y rest i = (
  rest,
  record {
    ordered = record {
      live = i.ordered.live;
      linked = i.ordered.linked;
      ends = i.ordered.ends;
      distinct = i.ordered.distinct;
      not_null = i.ordered.not_null;
      stub_there = i.ordered.stub_there;
      outside = i.ordered.outside;
    };
    in_order = i.in_order ∙ snoc-joined y.popped (items y.queue.stub (y.queue.tail ∷ rest)) t;
    number = ground (arith, i.number);
    prepared = λ a h.
        let p = i.prepared a h in
        let out = owned-apart a (record y { consumer = accounts t }) rest i p.owned in
        record {
          some_node = p.some_node;
          real = p.real;
          blank = p.blank;
          owned = ground (arith, p.owned, out, count-snoc a t y.popped);
        };
    once = i.once;
    at_step = tt;
  },
)

reads :
    (t : ℕ) (y : System) (rest : List ℕ)
    → Inv (record y { consumer = loads_next t }) rest
    → Holds (advance consumes (record y { consumer = loads_next t }))
unfolding advance consume
reads t y rest i =
    after_load-Holds (loads_next t) t y rest _ (λ xs. refl) i.at_step.0 i.at_step.1 refl i

at_place :
    (c : Consumer) (y : System)
    → Holds (record y { consumer = c })
    → Holds (advance consumes (record y { consumer = c }))
at_place (returns n) y (rest, i) = begins n y rest i
at_place (loads_next t) y (rest, i) = reads t y rest i
at_place (loads_head t) y (rest, i) = compares t y rest i
at_place (exchanges t) y (rest, i) = appends t y rest i
at_place (links_stub t p) y (rest, i) = stub_links t p y rest i
at_place (loads_again t) y (rest, i) = reloads t y rest i
at_place (unlinks t n) y (rest, i) = takes t n y rest i
at_place (accounts t) y (rest, i) = hands_out t y rest i

pub consumes-Inv : (y : System) → Holds y → Holds (advance consumes y)
consumes-Inv y h = at_place y.consumer y h
