-- ===== src/Port/Modify/Effect.antt =====
-- A modification of src/wepoll_ex_port.c takes effect without a failed assertion.
use wepoll_ex.Prelude.{
  ℕ, suc, ◌≡◌, ◌≢◌, refl, ap, ◌∙◌, Bool, true, false, ◌&&◌, ◌||◌, not, arith, ◌==◌, if◌then◌else◌,
  some,
}
use wepoll_ex.Bits.Masks.{meets}
use wepoll_ex.Port.Worklist.{Worklists, set_needs_rearm, set_oneshot_fired}
use wepoll_ex.Port.State.{Registration, PortState, epolloneshot, next_generation}
use wepoll_ex.Port.Modify.{Wish, goes_dormant, preserves, relist, enacted, take_effect, modified}
use wepoll_ex.Port.Modify.Lists.{Linked, weaken, set_needs_rearm-Linked, set_oneshot_fired-Linked}

abbrev pub rearm_after : (stops covers before : Bool) → Bool
rearm_after true covers before = false
rearm_after false true before = before
rearm_after false false before = true

rearm_step :
    (stops covers : Bool) (n s : ℕ) (q : Worklists)
    → Linked (suc n) q
    → s ≢ 0
    → q.oneshot.flag s ≡ false
    → (q' : Worklists) × (((if stops
            then set_needs_rearm s false q
            else if not covers
            then set_needs_rearm s true q
            else some q)
          ≡ some q')
        × Linked n q'
        × (q'.rearm.flag s ≡ rearm_after stops covers (q.rearm.flag s))
        × (q'.oneshot.flag s ≡ q.oneshot.flag s))
rearm_step true covers n s q v nz idle = set_needs_rearm-Linked n s false q v nz refl
rearm_step false true n s q v nz idle = (q, (refl, weaken n q v, refl, refl))
rearm_step false false n s q v nz idle = set_needs_rearm-Linked n s true q v nz idle

fire_step :
    (fires : Bool) (n s : ℕ) (q : Worklists)
    → Linked (suc n) q
    → s ≢ 0
    → q.oneshot.flag s ≡ false
    → (fires && q.rearm.flag s) ≡ false
    → (q' : Worklists) × (((if fires then set_oneshot_fired s true q else some q) ≡ some q')
        × Linked n q'
        × (q'.oneshot.flag s ≡ fires)
        × (q'.rearm.flag s ≡ q.rearm.flag s))
fire_step true n s q v nz idle apart = set_oneshot_fired-Linked n s true q v nz apart
fire_step false n s q v nz idle apart = (q, (refl, weaken n q v, idle, refl))

stopped :
    (dormant kept once covers before now : Bool)
    → now ≡ rearm_after (dormant || kept) covers before
    → ((kept && once) && now) ≡ false
stopped true false once covers before now e = refl
stopped true true once covers before now e = ground (arith, e)
stopped false true once covers before now e = ground (arith, e)
stopped false false once covers before now e = refl

-- The lists of a port take the change of one registration.
pub record Relisted (n s : ℕ) (w : Wish) (covers : Bool) (r : Registration) (p p' : Worklists)
    : Type 0 where
  pub linked : Linked n p'
  pub rearm_flag :
      p'.rearm.flag s ≡ rearm_after (goes_dormant w r || preserves w r) covers (p.rearm.flag s)
  pub fired_flag : p'.oneshot.flag s ≡ (preserves w r && meets w.flags epolloneshot)

pub relist-Relisted :
    (n s : ℕ) (w : Wish) (covers : Bool) (r : Registration) (p : Worklists)
    → Linked (suc (suc (suc n))) p
    → s ≢ 0
    → (p' : Worklists) × ((relist s w covers r p ≡ some p') × Relisted n s w covers r p p')
unfolding relist
relist-Relisted n s w covers r p v nz =
    let (p1, (a, v1, idle, keeps)) = set_oneshot_fired-Linked (suc (suc n)) s false p v nz refl in
    let (p2, (b, v2, rearm, same)) =
      rearm_step (goes_dormant w r || preserves w r) covers (suc n) s p1 v1 nz idle in
    let rearm' = rearm ∙ ap (rearm_after (goes_dormant w r || preserves w r) covers) keeps in
    let (p3, (c, v3, fires, same')) =
      fire_step (preserves w r && meets w.flags epolloneshot) n s p2 v2 nz (same ∙ idle) (
        stopped (goes_dormant w r) (preserves w r) (meets w.flags epolloneshot) covers
          (p.rearm.flag s) (p2.rearm.flag s) rearm') in
    (
      p3,
      (rw (a, b, c) refl, record { linked = v3; rearm_flag = same' ∙ rearm'; fired_flag = fires }),
    )

pub own_sock : (s : ℕ) (f g : ℕ → Registration) → (if s == s then f s else g s) ≡ f s
own_sock s f g = ground arith

-- The registration once the request is in effect, and the lists.
pub take_effect-some :
    (n s : ℕ) (w : Wish) (covers : Bool) (now : ℕ) (p : PortState)
    → Linked (suc (suc (suc n))) p.worklists
    → s ≢ 0
    → (p' : PortState) × ((take_effect s w covers now p ≡ some p')
        × Relisted n s w covers (p.sock s) p.worklists p'.worklists
        × (p'.sock s ≡ modified w (next_generation p.next_sock_generation) (p.sock s))
        × (p'.wake ≡ p.wake))
unfolding take_effect enacted
take_effect-some n s w covers now p v nz =
    let (lists, (runs, done)) = relist-Relisted n s w covers (p.sock s) p.worklists v nz in
    (
      enacted s w now lists p,
      (
        rw (take_effect, runs) refl,
        done,
        own_sock s (λ t. modified w (next_generation p.next_sock_generation) (p.sock t)) p.sock,
        refl,
      ),
    )
