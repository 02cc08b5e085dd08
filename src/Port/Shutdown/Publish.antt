-- ===== src/Port/Shutdown/Publish.antt =====
-- The node that the publication of a local shutdown of src/wepoll_ex_port.c queues.
use wepoll_ex.Prelude.{
  ℕ, zero, suc, ◌≡◌, ◌≢◌, refl, sym, ap, ◌∙◌, Bool, true, false, arith, if◌then◌else◌, some, [],
  ◌∷◌, ◌++◌,
}
use wepoll_ex.Bits.Masks.{meets}
use wepoll_ex.Port.Worklist.{Worklists, set_oneshot_fired}
use wepoll_ex.Port.State.{ReadyNode, PortState, epolloneshot}
use wepoll_ex.Port.Modify.Lists.{Linked, weaken, set_needs_rearm-Linked, set_oneshot_fired-Linked}
use wepoll_ex.Port.Modify.Effect.{own_sock}
use wepoll_ex.Port.Levels.{explicit_rearm_enabled}
use wepoll_ex.Port.Shutdown.{
  published, node_of, relist_queued, queued_generation, with_node, publish,
}

fire_if :
    (fires : Bool) (n s : ℕ) (q : Worklists)
    → Linked (suc n) q
    → s ≢ 0
    → q.rearm.flag s ≡ false
    → (q' : Worklists) × (((if fires then set_oneshot_fired s true q else some q) ≡ some q')
        × Linked n q'
        × (q'.rearm.flag s ≡ false)
        × (fires ≡ true → q'.oneshot.flag s ≡ true))
fire_if true n s q v nz off =
    let (q', (runs, linked, fired, same)) = set_oneshot_fired-Linked n s true q v nz off in
    (q', (runs, linked, same ∙ off, λ e. fired))
fire_if false n s q v nz off = (q, (refl, weaken n q v, off, λ e. absurd (ground (arith, e))))

-- `node` is queued behind all others and is the live node of the registration.
pub record Live (s : ℕ) (p q : PortState) (node : ReadyNode) : Type 0 where
  pub linked : Linked zero q.worklists
  pub queued_last : q.ready ≡ p.ready ++ node ∷ []
  pub events_eq : node.events ≡ (q.sock s).pending_events
  pub generation_eq : node.sock_generation ≡ (q.sock s).generation
  pub data_eq : node.data_ ≡ (q.sock s).interest.user_data
  pub in_queue : (q.sock s).ready_queued ≡ true
  pub not_deferred : q.worklists.rearm.flag s ≡ false
  pub disabled :
      meets (p.sock s).interest.user_flags epolloneshot ≡ true → q.worklists.oneshot.flag s ≡ true

-- A publication never fails an assertion. Its node is the last of the ready queue and carries the events
-- and the generation of the registration, which leaves the rearm list and, under EPOLLONESHOT, is
-- disabled.
pub publish-Live :
    (s now delivered observed : ℕ) (p : PortState)
    → Linked 2 p.worklists
    → s ≢ 0
    → (q : PortState) × ((publish s now delivered observed p ≡ some q)
        × ((node : ReadyNode) × ((node.events ≡ delivered) × Live s p q node)))
unfolding publish with_node published relist_queued
publish-Live s now delivered observed p v nz =
    let r = p.sock s in
    let (l1, (a, v1, off, same)) = set_needs_rearm-Linked 1 s false p.worklists v nz refl in
    let (l2, (b, v2, off2, fired)) =
      fire_if (meets r.interest.user_flags epolloneshot) 0 s l1 v1 nz off in
    let g = queued_generation r p.next_sock_generation in
    let q = with_node s now delivered observed l2 p in
    let own : q.sock s ≡ published r (explicit_rearm_enabled p r) delivered observed g r =
      own_sock s (λ t. published r (explicit_rearm_enabled p r) delivered observed g (p.sock t))
        p.sock in
    (
      q,
      (
        rw (publish, relist_queued, a, b) refl,
        (
          node_of r now delivered g,
          (
            refl,
            record {
              linked = v2;
              queued_last = refl;
              events_eq = sym (ap (λ x. x.pending_events) own);
              generation_eq = sym (ap (λ x. x.generation) own);
              data_eq = sym (ap (λ x. x.interest.user_data) own);
              in_queue = ap (λ x. x.ready_queued) own;
              not_deferred = off2;
              disabled = fired;
            },
          ),
        ),
      ),
    )
