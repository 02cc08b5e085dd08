-- ===== src/Port/Worklist/Examples.antt =====
-- Three sockets on the rearm list of src/wepoll_ex_port.c.
use wepoll_ex.Prelude.{
  ℕ, ◌≡◌, ◌≢◌, refl, Bool, true, false, ◌&&◌, not, arith, some, [], ◌∷◌, has, update, ◌==◌,
}
use wepoll_ex.Port.Worklist.{
  Links, Worklist, Worklists, rotate, set_flag, restore_worklist_state, has_deferred_from,
  release_deferred_from,
}
use wepoll_ex.Port.Worklist.Order.{IsList}
use wepoll_ex.Port.Worklist.Removal.{rotate-IsList}
use wepoll_ex.Port.Worklist.Flags.{
  Keeps, KeepsBoth, with_flag, restored, any_held, set_flag-Keeps, restore-KeepsBoth,
  deferred-rounds,
}

abbrev no_links : Links
no_links = record { next = λ s. 0; prev = λ s. 0; head = 0; tail = 0 }

abbrev empty : Worklist
empty = record { flag = λ s. false; links = no_links; count = 0 }

empty-Keeps : Keeps empty []
empty-Keeps = record {
  list = record {
    head_eq = refl;
    tail_eq = refl;
    run = tt;
    once = tt;
    outside = λ s h. (refl, refl);
  };
  flagged = λ s. refl;
  counted = refl;
  fits = omega arith;
}

abbrev two_links : Links
two_links = record { next = update (λ s. 0) 5 6; prev = update (λ s. 0) 6 5; head = 5; tail = 6 }

two-IsList : IsList two_links (5 ∷ 6 ∷ [])
two-IsList = record {
  head_eq = refl;
  tail_eq = refl;
  run = (
    λ e. absurd (omega (arith, e)),
    refl,
    refl,
    (λ e. absurd (omega (arith, e)), refl, refl, tt),
  );
  once = (refl, (refl, tt));
  outside = λ s h. (ground (arith, h), ground (arith, h));
}

abbrev five : ℕ
five = 5

some_sock : five ≢ 0
some_sock e = absurd (omega (arith, e))

set_flag-Keeps_example :
    (w' : Worklist) × ((set_flag 5 true empty ≡ some w')
      × Keeps w' (with_flag 5 true [])
      × (w'.flag 5 ≡ true))
set_flag-Keeps_example = set_flag-Keeps 5 true empty [] empty-Keeps some_sock (omega arith)

rotate-IsList_example : (l' : Links) × ((rotate 5 two_links ≡ some l') × IsList l' (6 ∷ 5 ∷ []))
rotate-IsList_example = rotate-IsList 5 two_links (6 ∷ []) two-IsList

abbrev none_listed : Worklists
none_listed = record { rearm = empty; oneshot = empty }

restore-KeepsBoth_example :
    (p' : Worklists) × ((restore_worklist_state 5 false true none_listed ≡ some p')
      × KeepsBoth p' (restored 5 false []) (restored 5 true [])
      × (p'.rearm.flag 5 ≡ false)
      × (p'.oneshot.flag 5 ≡ true))
restore-KeepsBoth_example =
    restore-KeepsBoth 5 false true none_listed [] []
      (record { rearm = empty-Keeps; oneshot = empty-Keeps; apart = λ s. refl }) some_sock refl
      (omega arith) (omega arith)

abbrev two_listed : Worklist
two_listed = record { flag = λ s. has s (5 ∷ 6 ∷ []); links = two_links; count = 2 }

deferred-rounds_example :
    (has_deferred_from 3 5 (λ s. s == 6) two_links ≡ some (any_held (λ s. s == 6) (5 ∷ 6 ∷ [])))
    × ((h : ℕ → Bool) × ((release_deferred_from 3 5 (λ s. s == 6) two_links ≡ some h)
          × ((x : ℕ) → h x ≡ ((x == 6) && not (has x (5 ∷ 6 ∷ []))))))
deferred-rounds_example =
    deferred-rounds two_listed (5 ∷ 6 ∷ []) (λ s. s == 6)
      (record { list = two-IsList; flagged = λ s. refl; counted = refl; fits = omega arith })
