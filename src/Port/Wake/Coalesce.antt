-- ===== src/Port/Wake/Coalesce.antt =====
-- Requests of wakes to src/wepoll_ex_port.c that no wait has taken coalesce; a failed post ends the port.
use wepoll_ex.Prelude.{
  ℕ, ◌+◌, ◌≡◌, ◌≢◌, ◌⊎◌, inl, inr, refl, ◌∙◌, sym, ap, subst, Bool, true, false, not, Option, none,
  some, ◌==◌, if◌then◌else◌, List, [], ◌∷◌, arith, Option-cases, Bool-cases,
}
use wepoll_ex.Status.{Status, ok, failed}
use wepoll_ex.Errno.Codes.{ebadf, error_invalid_handle, error_gen_failure}
use wepoll_ex.Errno.State.{ErrorState, set_errno}
use wepoll_ex.Api.Port.{Event}
use wepoll_ex.Port.Wake.{
  WakePort, PostOutcome, wake_none, untagged, tagged, is_shut, request_wake, mark_wake, post_wake,
  post_iocp, fail_iocp_post, revoke_iocp_posts, take_wake, TakenWake, zero_events, basic_event,
  extended_event,
}

pub record Request : Type 0 where
  pub outcome : PostOutcome
  pub event : Option Event

pub after : List Request → WakePort → ErrorState → WakePort
after [] p err = p
after (r ∷ rs) p err =
    let (status, p1, err1) = request_wake r.outcome r.event p err in after rs p1 err1

abbrev pub or_else : Option Event → Option Event → Option Event
or_else none later = later
or_else (some e) later = some e

-- The first event that a request brings.
abbrev pub first_event : List Request → Option Event
first_event [] = none
first_event (r ∷ rs) = or_else r.event (first_event rs)

abbrev pub taken : (basic_events : Bool) (now : ℕ) → Option Event → TakenWake
taken basic_events now none = zero_events
taken basic_events now (some e) = if basic_events then basic_event e else extended_event e now

abbrev pub Carries : WakePort → Option Event → Type 0
Carries p none = p.wake_pending ≡ untagged
Carries p (some e) = (p.wake_pending ≡ tagged) × (p.wake_event ≡ e)

-- An open port on which a wake is pending.
pub record Waits (p : WakePort) (event : Option Event) (packets : ℕ) : Type 0 where
  pub open_port : is_shut p ≡ false
  pub carries : Carries p event
  pub posted : p.packets ≡ packets

Waits-request :
    (o : PostOutcome) (event later : Option Event) (n : ℕ) (p : WakePort) (err : ErrorState)
    → Waits p event n
    → Waits (request_wake o later p err).1 (or_else event later) n
unfolding request_wake mark_wake
Waits-request o (some e) later n p err w = record {
  open_port = ground (arith, w.open_port, w.carries);
  carries = (ground (arith, w.open_port, w.carries), ground (arith, w.open_port, w.carries));
  posted = ground (arith, w.open_port, w.carries, w.posted);
}
Waits-request o none none n p err w = record {
  open_port = ground (arith, w.open_port, w.carries);
  carries = ground (arith, w.open_port, w.carries);
  posted = ground (arith, w.open_port, w.carries, w.posted);
}
Waits-request o none (some e) n p err w = record {
  open_port = ground (arith, w.open_port, w.carries);
  carries = (ground (arith, w.open_port, w.carries), ground (arith, w.open_port, w.carries));
  posted = ground (arith, w.open_port, w.carries, w.posted);
}

or_else_assoc : (a b c : Option Event) → or_else (or_else a b) c ≡ or_else a (or_else b c)
or_else_assoc none b c = refl
or_else_assoc (some e) b c = refl

or_else-none : (a : Option Event) → or_else a none ≡ a
or_else-none none = refl
or_else-none (some e) = refl

after-Waits :
    (rs : List Request) (event : Option Event) (n : ℕ) (p : WakePort) (err : ErrorState)
    → Waits p event n
    → Waits (after rs p err) (or_else event (first_event rs)) n
unfolding after
after-Waits [] event n p err w = subst (λ e. Waits p e n) (sym (or_else-none event)) w
after-Waits (r ∷ rs) event n p err w =
    let answer = request_wake r.outcome r.event p err in
    subst (λ e. Waits (after rs answer.1 answer.2) e n)
      (or_else_assoc event r.event (first_event rs))
      (after-Waits rs (or_else event r.event) n answer.1 answer.2
        (Waits-request r.outcome event r.event n p err w))

take-Waits :
    (basic_events : Bool) (now n : ℕ) (p : WakePort) (event : Option Event)
    → Waits p event n
    → ((take_wake basic_events now p).0 ≡ taken basic_events now event)
      × ((take_wake basic_events now p).1.wake_pending ≡ wake_none)
unfolding take_wake
take-Waits basic_events now n p none w = (ground (arith, w.carries), ground (arith, w.carries))
take-Waits basic_events now n p (some e) w = (ground (arith, w.carries), ground (arith, w.carries))

-- The port after a packet that could not be posted: no wake is pending, the handle is gone, the error is
-- kept, and every request is EBADF.
pub record Ended (p : WakePort) : Type 0 where
  pub idle : p.wake_pending ≡ wake_none
  pub no_handle : p.iocp_post_handle ≡ false
  pub kept : p.iocp_post_error ≢ 0
  pub refuses :
      (o : PostOutcome) (event : Option Event) (err : ErrorState)
      → request_wake o event p err ≡ (failed, p, set_errno ebadf err)

post_wake-posted :
    (o : PostOutcome) (p p1 : WakePort) (err : ErrorState)
    → post_iocp o p ≡ (none, p1)
    → post_wake o p err ≡ (ok, p1, err)
unfolding post_wake
post_wake-posted o p p1 err e = ground (arith, e)

post_wake-Ended :
    (o : PostOutcome) (code : ℕ) (p p1 : WakePort) (err : ErrorState)
    → p1.closing ≡ false
    → post_iocp o p ≡ (some code, p1)
    → ((post_wake o p err).0 ≡ failed) × Ended (post_wake o p err).1
unfolding post_wake fail_iocp_post revoke_iocp_posts request_wake
post_wake-Ended o code p p1 err open_port e = (
  ground (arith, e),
  record {
    idle = ground (arith, e, open_port);
    no_handle = ground (arith, e, open_port);
    kept = ground (arith, e, open_port);
    refuses = λ o' event err'. ground (arith, e, open_port);
  },
)

post_iocp-cases :
    (o : PostOutcome) (p : WakePort)
    → (post_iocp o p ≡ (none, record p { packets = p.packets + 1 }))
      ⊎ ((code : ℕ) × (post_iocp o p ≡ (some code, p)))
unfolding post_iocp
post_iocp-cases o p = elim (Bool-cases (not p.iocp_post_handle)) [
  | inl closed ↦ inr (error_invalid_handle, ground (arith, closed))
  | inr usable ↦ elim (Bool-cases o.fault_hit) [
    | inl hit ↦ inr (error_gen_failure, ground (arith, usable, hit))
    | inr free ↦ elim (Option-cases o.post_error) [
      | inl posts ↦ inl (ground (arith, usable, free, posts))
      | inr (code, fails) ↦
          inr (if code == 0 then error_gen_failure else code, ground (arith, usable, free, fails))
    ]
  ]
]

-- What the locked section leaves behind on a port without a pending wake.
record Marked (p m : WakePort) (event : Option Event) : Type 0 where
  carries : Carries m event
  same_packets : m.packets ≡ p.packets
  same_closing : m.closing ≡ p.closing
  same_closed : m.iocp_closed ≡ p.iocp_closed

mark_wake-Marked :
    (event : Option Event) (p : WakePort)
    → p.wake_pending ≡ wake_none
    → ((mark_wake event p).0 ≡ true) × Marked p (mark_wake event p).1 event
unfolding mark_wake
mark_wake-Marked none p idle = (
  ground (arith, idle),
  record {
    carries = ground (arith, idle);
    same_packets = ground (arith, idle);
    same_closing = ground (arith, idle);
    same_closed = ground (arith, idle);
  },
)
mark_wake-Marked (some e) p idle = (
  ground (arith, idle),
  record {
    carries = (ground (arith, idle), ground (arith, idle));
    same_packets = ground (arith, idle);
    same_closing = ground (arith, idle);
    same_closed = ground (arith, idle);
  },
)

Carries-packets :
    (event : Option Event) (p : WakePort) (n : ℕ)
    → Carries p event
    → Carries (record p { packets = n }) event
Carries-packets none p n c = c
Carries-packets (some e) p n c = c

-- A wake of an open port on which none is pending, whatever the post meets: either the call succeeds, the
-- wake is pending with its event, and one packet more was posted; or it fails, no wake is pending, the
-- handle is gone, an error is kept for the waits, and every later request is EBADF.
pub request_wake-posts :
    (o : PostOutcome) (event : Option Event) (p : WakePort) (err : ErrorState)
    → is_shut p ≡ false
    → p.wake_pending ≡ wake_none
    → (((request_wake o event p err).0 ≡ ok)
        × Waits (request_wake o event p err).1 event (p.packets + 1))
      ⊎ (((request_wake o event p err).0 ≡ failed) × Ended (request_wake o event p err).1)
unfolding request_wake
request_wake-posts o event p err open_port idle =
    let (posts, k) = mark_wake-Marked event p idle in
    let m = (mark_wake event p).1 in
    let runs : request_wake o event p err ≡ post_wake o m err = ground (arith, open_port, posts) in
    elim (post_iocp-cases o m) [
      | inl e ↦
          let all = runs ∙ post_wake-posted o m (record m { packets = m.packets + 1 }) err e in
          inl (
            ap (λ (x : Status × WakePort × ErrorState). x.0) all,
            subst (λ (x : Status × WakePort × ErrorState). Waits x.1 event (p.packets + 1))
                (sym all)
                (record {
                  open_port = ground (arith, open_port, k.same_closing, k.same_closed);
                  carries = Carries-packets event m (m.packets + 1) k.carries;
                  posted = ap (λ n. n + 1) k.same_packets;
                }),
          )
      | inr (code, e) ↦
          let (fails, ended) =
            post_wake-Ended o code m m err (ground (arith, open_port, k.same_closing)) e in
          inr (
            ap (λ (x : Status × WakePort × ErrorState). x.0) runs ∙ fails,
            subst (λ (x : Status × WakePort × ErrorState). Ended x.1) (sym runs) ended,
          )
    ]

-- After a wake is pending with one event or none, any further requests post no packet, and the next
-- `ep_port_take_wake` returns the first event among them all, or no event if none has one, and
-- leaves no wake pending.
pub after-take :
    (rs : List Request) (event : Option Event) (n : ℕ) (basic_events : Bool) (now : ℕ)
    (p : WakePort) (err : ErrorState)
    → Waits p event n
    → ((take_wake basic_events now (after rs p err)).0
        ≡ taken basic_events now (or_else event (first_event rs)))
      × ((take_wake basic_events now (after rs p err)).1.wake_pending ≡ wake_none)
      × ((after rs p err).packets ≡ n)
after-take rs event n basic_events now p err w =
    let v = after-Waits rs event n p err w in
    let (takes, clears) =
      take-Waits basic_events now n (after rs p err) (or_else event (first_event rs)) v in
    (takes, clears, v.posted)
