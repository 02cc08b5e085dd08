-- ===== src/Port/Modify/Lists.antt =====
-- The deferred-work lists of src/wepoll_ex_port.c under the changes that control operations make.
use wepoll_ex.Prelude.{
  ℕ, zero, suc, ◌+◌, ◌-◌, ◌^◌, ◌≤◌, ◌<◌, ◌≡◌, ◌≢◌, refl, ◌∙◌, ap, sym, subst, Bool, true, false,
  ◌&&◌, arith, ◌==◌, ℕ_discrete, if◌then◌else◌, some, List, [], ◌∷◌, has, length, length-append,
  length-erase,
}
use wepoll_ex.Port.Worklist.{Worklists, set_needs_rearm, set_oneshot_fired, restore_worklist_state}
use wepoll_ex.Port.Worklist.Flags.{
  KeepsBoth, with_flag, restored, set_flag-Keeps, has-with_flag, restore-KeepsBoth,
}

-- Both lists are well formed, and `n` more sockets can be linked.
pub record Linked (n : ℕ) (p : Worklists) : Type 0 where
  pub rearms : List ℕ
  pub fired : List ℕ
  pub keeps : KeepsBoth p rearms fired
  pub room : length rearms + n < 2 ^ 64 - 1
  pub room' : length fired + n < 2 ^ 64 - 1

length-with_flag :
    (s : ℕ) (requested : Bool) (xs : List ℕ) → length (with_flag s requested xs) ≤ length xs + 1
length-with_flag s true xs = ground (arith, length-append xs (s ∷ []))
length-with_flag s false xs = ground (arith, length-erase s xs)

one_at :
    (x s : ℕ) (requested : Bool) (flag : ℕ → Bool) (xs : List ℕ)
    → (x == s) ≡ true
    → ((y : ℕ) → flag y ≡ has y xs)
    → (requested && flag s) ≡ false
    → (requested && has x xs) ≡ false
one_at x s requested flag xs e flagged one =
    subst (λ y. (requested && y) ≡ false) (ap flag (sym at) ∙ flagged x) one
  where
    at : x ≡ s
    at = elim (ℕ_discrete x s) [ yes same ↦ same | no other ↦ absurd (ground (arith, e, other)) ]

with_one :
    (same requested c d : Bool)
    → (c && d) ≡ false
    → (same ≡ true → (requested && d) ≡ false)
    → ((if same then requested else c) && d) ≡ false
with_one true requested c d h k = k refl
with_one false requested c d h k = h

pub set_needs_rearm-Linked :
    (n s : ℕ) (requested : Bool) (p : Worklists)
    → Linked (suc n) p
    → s ≢ 0
    → (requested && p.oneshot.flag s) ≡ false
    → (p' : Worklists) × ((set_needs_rearm s requested p ≡ some p')
        × Linked n p'
        × (p'.rearm.flag s ≡ requested)
        × (p'.oneshot.flag s ≡ p.oneshot.flag s))
unfolding set_needs_rearm
set_needs_rearm-Linked n s requested p v nz one =
    let (r, (runs, keeps, flag)) =
      set_flag-Keeps s requested p.rearm v.rearms v.keeps.rearm nz (omega (arith, v.room)) in
    (
      record p { rearm = r },
      (
        rw (set_needs_rearm, runs) refl,
        record {
          rearms = with_flag s requested v.rearms;
          fired = v.fired;
          keeps = record {
            rearm = keeps;
            oneshot = v.keeps.oneshot;
            apart = λ x. rw (has-with_flag s x requested v.rearms v.keeps.rearm.list.once) (
                with_one (x == s) requested (has x v.rearms) (has x v.fired) (v.keeps.apart x)
                  (λ e. one_at x s requested p.oneshot.flag v.fired e v.keeps.oneshot.flagged one));
          };
          room = omega (arith, v.room, length-with_flag s requested v.rearms);
          room' = omega (arith, v.room');
        },
        flag,
        refl,
      ),
    )

with_other :
    (same requested c d : Bool)
    → (c && d) ≡ false
    → (same ≡ true → (requested && c) ≡ false)
    → (c && (if same then requested else d)) ≡ false
with_other true requested c d h k = ground (arith, k refl)
with_other false requested c d h k = h

pub set_oneshot_fired-Linked :
    (n s : ℕ) (requested : Bool) (p : Worklists)
    → Linked (suc n) p
    → s ≢ 0
    → (requested && p.rearm.flag s) ≡ false
    → (p' : Worklists) × ((set_oneshot_fired s requested p ≡ some p')
        × Linked n p'
        × (p'.oneshot.flag s ≡ requested)
        × (p'.rearm.flag s ≡ p.rearm.flag s))
unfolding set_oneshot_fired
set_oneshot_fired-Linked n s requested p v nz one =
    let (r, (runs, keeps, flag)) =
      set_flag-Keeps s requested p.oneshot v.fired v.keeps.oneshot nz (omega (arith, v.room')) in
    (
      record p { oneshot = r },
      (
        rw (set_oneshot_fired, runs) refl,
        record {
          rearms = v.rearms;
          fired = with_flag s requested v.fired;
          keeps = record {
            rearm = v.keeps.rearm;
            oneshot = keeps;
            apart = λ x. rw (has-with_flag s x requested v.fired v.keeps.oneshot.list.once) (
                with_other (x == s) requested (has x v.rearms) (has x v.fired) (v.keeps.apart x)
                  (λ e. one_at x s requested p.rearm.flag v.rearms e v.keeps.rearm.flagged one));
          };
          room = omega (arith, v.room);
          room' = omega (arith, v.room', length-with_flag s requested v.fired);
        },
        flag,
        refl,
      ),
    )

pub restore-Linked :
    (n s : ℕ) (needs_rearm oneshot_fired : Bool) (p : Worklists)
    → Linked (suc n) p
    → s ≢ 0
    → (needs_rearm && oneshot_fired) ≡ false
    → (p' : Worklists) × ((restore_worklist_state s needs_rearm oneshot_fired p ≡ some p')
        × Linked zero p'
        × (p'.rearm.flag s ≡ needs_rearm)
        × (p'.oneshot.flag s ≡ oneshot_fired))
restore-Linked n s needs_rearm oneshot_fired p v nz one =
    let (q, (runs, keeps, a, b)) =
      restore-KeepsBoth s needs_rearm oneshot_fired p v.rearms v.fired v.keeps nz one
        (omega (arith, v.room)) (omega (arith, v.room')) in
    (
      q,
      (
        runs,
        record {
          rearms = restored s needs_rearm v.rearms;
          fired = restored s oneshot_fired v.fired;
          keeps = keeps;
          room = omega (arith, keeps.rearm.fits);
          room' = omega (arith, keeps.oneshot.fits);
        },
        a,
        b,
      ),
    )

pub weaken : (n : ℕ) (p : Worklists) → Linked (suc n) p → Linked n p
weaken n p v = record {
  rearms = v.rearms;
  fired = v.fired;
  keeps = v.keeps;
  room = omega (arith, v.room);
  room' = omega (arith, v.room');
}

pub loosen : (n : ℕ) (p : Worklists) → Linked n p → Linked zero p
loosen zero p v = v
loosen (suc n) p v = loosen n p (weaken n p v)
