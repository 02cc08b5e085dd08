-- ===== src/Port/Worklist/Flags.antt =====
-- Flags, counts and links of the deferred-work lists of src/wepoll_ex_port.c stay in step.
use wepoll_ex.Prelude.{
  ℕ, zero, suc, ◌+◌, ◌-◌, ◌%◌, ◌^◌, ◌≤◌, ◌<◌, ◌≡◌, ◌≢◌, inl, inr, refl, sym, ap, ◌∙◌, subst, Bool,
  true, false, ◌&&◌, ◌||◌, not, arith, ◌==◌, if◌then◌else◌, Bool-cases, ℕ_discrete, some, List, [],
  ◌∷◌, ◌++◌, update, has, Distinct, erase, length, length-append, length-erase, has-erase_distinct,
}
use wepoll_ex.Port.Worklist.{
  Links, Worklist, Worklists, set_flag, set_needs_rearm, set_oneshot_fired, restore_worklist_state,
  has_deferred_from, release_deferred_from,
}
use wepoll_ex.Port.Worklist.Segment.{Segment, first_of}
use wepoll_ex.Port.Worklist.Order.{IsList, has-append, append-IsList}
use wepoll_ex.Port.Worklist.Removal.{remove-IsList}

-- The list `xs`: a socket has the flag exactly if it is linked, and the count is the length.
pub record Keeps (w : Worklist) (xs : List ℕ) : Type 0 where
  pub list : IsList w.links xs
  pub flagged : (s : ℕ) → w.flag s ≡ has s xs
  pub counted : w.count ≡ length xs
  pub fits : length xs < 2 ^ 64 - 1

-- The list once a flag is set or cleared.
abbrev pub with_flag : (sock : ℕ) (requested : Bool) → List ℕ → List ℕ
with_flag s true xs = if has s xs then xs else xs ++ s ∷ []
with_flag s false xs = if has s xs then erase s xs else xs

not_empty : (count n m : ℕ) → count ≡ n → suc m ≡ n → (count == 0) ≡ false
not_empty count n m e f = ground (arith, e, f)

-- `ep_sock_set_needs_rearm_locked` and `ep_sock_set_oneshot_fired_locked` never fail an assertion on a
-- well-formed list: a socket whose flag is set anew goes to the end, one whose flag is cleared
-- leaves, and the others keep their order; flags, links and count agree afterwards.
pub set_flag-Keeps :
    (s : ℕ) (requested : Bool) (w : Worklist) (xs : List ℕ)
    → Keeps w xs
    → s ≢ 0
    → length xs + 1 < 2 ^ 64 - 1
    → (w' : Worklist) × ((set_flag s requested w ≡ some w')
        × Keeps w' (with_flag s requested xs)
        × (w'.flag s ≡ requested))
unfolding set_flag
set_flag-Keeps s true w xs v n room = elim (Bool-cases (has s xs)) [
  | inl there ↦ (w, (ground (arith, v.flagged s, there), rw there v, v.flagged s ∙ there))
  | inr away ↦
      let (l, (runs, list)) = append-IsList s w.links xs v.list n away in
      (
        record { flag = update w.flag s true; links = l; count = (w.count + 1) % 2 ^ 64 },
        (
          ground (arith, v.flagged s, away, runs),
          rw away (record {
            list = list;
            flagged = λ x. ground (arith, has-append x xs (s ∷ []), v.flagged x, ℕ_discrete s x);
            counted = ground (arith, v.counted, length-append xs (s ∷ []), room);
            fits = ground (arith, length-append xs (s ∷ []), room);
          }),
          ground arith,
        ),
      )
]
set_flag-Keeps s false w xs v n room = elim (Bool-cases (has s xs)) [
  | inr away ↦ (w, (ground (arith, v.flagged s, away), rw away v, v.flagged s ∙ away))
  | inl there ↦
      let (l, (runs, list)) = remove-IsList s w.links xs v.list there in
      let less = length-erase s xs there in
      let busy : (w.count == 0) ≡ false =
        not_empty w.count (length xs) (length (erase s xs)) v.counted less in
      (
        record { flag = update w.flag s false; links = l; count = w.count - 1 },
        (
          rw (v.flagged s ∙ there, busy, runs) refl,
          rw there (record {
            list = list;
            flagged = λ x.
                ground (arith, has-erase_distinct s x xs v.list.once, v.flagged x, ℕ_discrete s x);
            counted = ground (arith, v.counted, less);
            fits = ground (arith, less, room);
          }),
          ground arith,
        ),
      )
]

-- The two lists of a port have no socket in common.
pub record KeepsBoth (p : Worklists) (rearms fired : List ℕ) : Type 0 where
  pub rearm : Keeps p.rearm rearms
  pub oneshot : Keeps p.oneshot fired
  pub apart : (s : ℕ) → (has s rearms && has s fired) ≡ false

-- A list once the state of a socket is restored: it loses its place.
abbrev pub restored : (sock : ℕ) (requested : Bool) → List ℕ → List ℕ
restored s requested xs = with_flag s requested (with_flag s false xs)

with_flag-length : (s : ℕ) (xs : List ℕ) → length (with_flag s false xs) ≤ length xs
with_flag-length s xs = ground (arith, length-erase s xs)

pub has-with_flag :
    (s x : ℕ) (requested : Bool) (xs : List ℕ)
    → Distinct xs
    → has x (with_flag s requested xs) ≡ (if x == s then requested else has x xs)
has-with_flag s x true xs d = ground (arith, has-append x xs (s ∷ []), ℕ_discrete x s)
has-with_flag s x false xs d = ground (arith, has-erase_distinct s x xs d, ℕ_discrete x s)

flags_apart :
    (same a b c d : Bool)
    → (c && d) ≡ false
    → (a && b) ≡ false
    → ((if same then c else if same then false else a)
        && (if same then d else if same then false else b))
      ≡ false
flags_apart true a b c d h k = h
flags_apart false a b c d h k = k

-- If not both flags are requested, which the function itself asserts first, and the lists are well formed
-- with room, `ep_sock_restore_worklist_state_locked` fails no assertion: the socket ends with the
-- requested flags, on at most one list, and all other sockets keep their lists.
pub restore-KeepsBoth :
    (s : ℕ) (needs_rearm oneshot_fired : Bool) (p : Worklists) (rearms fired : List ℕ)
    → KeepsBoth p rearms fired
    → s ≢ 0
    → (needs_rearm && oneshot_fired) ≡ false
    → length rearms + 1 < 2 ^ 64 - 1
    → length fired + 1 < 2 ^ 64 - 1
    → (p' : Worklists) × ((restore_worklist_state s needs_rearm oneshot_fired p ≡ some p')
        × KeepsBoth p' (restored s needs_rearm rearms) (restored s oneshot_fired fired)
        × (p'.rearm.flag s ≡ needs_rearm)
        × (p'.oneshot.flag s ≡ oneshot_fired))
unfolding restore_worklist_state set_needs_rearm set_oneshot_fired
restore-KeepsBoth s needs_rearm oneshot_fired p rearms fired v n one room room' =
    let (r1, (a, ka, fa)) = set_flag-Keeps s false p.rearm rearms v.rearm n room in
    let (o1, (b, kb, fb)) = set_flag-Keeps s false p.oneshot fired v.oneshot n room' in
    let (r2, (c, kc, fc)) =
      set_flag-Keeps s needs_rearm r1 (with_flag s false rearms) ka n
        (omega (arith, with_flag-length s rearms, room)) in
    let (o2, (d, kd, fd)) =
      set_flag-Keeps s oneshot_fired o1 (with_flag s false fired) kb n
        (omega (arith, with_flag-length s fired, room')) in
    (
      record { rearm = r2; oneshot = o2 },
      (
        runs_all p r1 o1 r2 o2 one a b c d,
        record {
          rearm = kc;
          oneshot = kd;
          apart = λ x.
              both_apart x (has-with_flag s x needs_rearm (with_flag s false rearms) ka.list.once)
                (has-with_flag s x false rearms v.rearm.list.once)
                (has-with_flag s x oneshot_fired (with_flag s false fired) kb.list.once)
                (has-with_flag s x false fired v.oneshot.list.once);
        },
        fc,
        fd,
      ),
    )
  where
    runs_all :
        (p : Worklists) (r1 o1 r2 o2 : Worklist)
        → (needs_rearm && oneshot_fired) ≡ false
        → set_flag s false p.rearm ≡ some r1
        → set_flag s false p.oneshot ≡ some o1
        → set_flag s needs_rearm r1 ≡ some r2
        → set_flag s oneshot_fired o1 ≡ some o2
        → restore_worklist_state s needs_rearm oneshot_fired p
          ≡ some (record { rearm = r2; oneshot = o2 })
    runs_all p r1 o1 r2 o2 one a b c d = ground arith

    both_apart :
        (x : ℕ)
        → has x (restored s needs_rearm rearms)
          ≡ (if x == s then needs_rearm else has x (with_flag s false rearms))
        → has x (with_flag s false rearms) ≡ (if x == s then false else has x rearms)
        → has x (restored s oneshot_fired fired)
          ≡ (if x == s then oneshot_fired else has x (with_flag s false fired))
        → has x (with_flag s false fired) ≡ (if x == s then false else has x fired)
        → (has x (restored s needs_rearm rearms) && has x (restored s oneshot_fired fired)) ≡ false
    both_apart x e f g h =
        rw (e, f, g, h)
          (flags_apart (x == s) (has x rearms) (has x fired) needs_rearm oneshot_fired one
            (v.apart x))

abbrev pub any_held : (ℕ → Bool) → List ℕ → Bool
any_held et_holdoff [] = false
any_held et_holdoff (x ∷ xs) = et_holdoff x || any_held et_holdoff xs

has_deferred-run :
    (l : Links) (p : ℕ) (xs : List ℕ) (rounds : ℕ) (et_holdoff : ℕ → Bool)
    → Segment l.next l.prev p xs 0
    → length xs < rounds
    → has_deferred_from rounds (first_of xs 0) et_holdoff l ≡ some (any_held et_holdoff xs)
unfolding has_deferred_from
has_deferred-run l p xs zero et_holdoff s h = absurd (omega arith)
has_deferred-run l p [] (suc rounds) et_holdoff s h = refl
has_deferred-run l p (x ∷ xs) (suc rounds) et_holdoff (a, b, c, s) h =
    ground (arith, a, c, has_deferred-run l x xs rounds et_holdoff s (omega arith))

release_deferred-run :
    (l : Links) (p : ℕ) (xs : List ℕ) (rounds : ℕ) (et_holdoff : ℕ → Bool)
    → Segment l.next l.prev p xs 0
    → length xs < rounds
    → (h : ℕ → Bool) × ((release_deferred_from rounds (first_of xs 0) et_holdoff l ≡ some h)
        × ((x : ℕ) → h x ≡ (et_holdoff x && not (has x xs))))
unfolding release_deferred_from
release_deferred-run l p xs zero et_holdoff s h = absurd (omega arith)
release_deferred-run l p [] (suc rounds) et_holdoff s h = (et_holdoff, (refl, λ x. ground arith))
release_deferred-run l p (x ∷ xs) (suc rounds) et_holdoff (a, b, c, s) h =
    let (g, (runs, off)) =
      release_deferred-run l x xs rounds (update et_holdoff x false) s (omega arith) in
    (g, (ground (arith, a, c, runs), λ y. off y ∙ ground (arith, ℕ_discrete x y)))

-- The two loops over the rearm list end within as many rounds as it counts, and one more: one answers whether
-- a socket of the list is held off, the other leaves none of them held off and changes no other.
pub deferred-rounds :
    (w : Worklist) (xs : List ℕ) (et_holdoff : ℕ → Bool)
    → Keeps w xs
    → (has_deferred_from (suc w.count) w.links.head et_holdoff w.links
        ≡ some (any_held et_holdoff xs))
      × ((h : ℕ → Bool) × ((release_deferred_from (suc w.count) w.links.head et_holdoff w.links
              ≡ some h)
            × ((x : ℕ) → h x ≡ (et_holdoff x && not (has x xs)))))
deferred-rounds w xs et_holdoff v =
    let enough : length xs < suc w.count = omega (arith, v.counted) in
    let at = sym v.list.head_eq in
    (
      ap (λ n. has_deferred_from (suc w.count) n et_holdoff w.links) v.list.head_eq
          ∙ has_deferred-run w.links 0 xs (suc w.count) et_holdoff v.list.run enough,
      subst
          (λ n.
            (h : ℕ → Bool) × ((release_deferred_from (suc w.count) n et_holdoff w.links ≡ some h)
              × ((x : ℕ) → h x ≡ (et_holdoff x && not (has x xs)))))
          at (release_deferred-run w.links 0 xs (suc w.count) et_holdoff v.list.run enough),
    )
