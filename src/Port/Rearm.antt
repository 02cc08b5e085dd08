-- ===== src/Port/Rearm.antt =====
-- `ep_port_rearm_classes` of src/wepoll_ex_port.c: the caller acknowledges classes of a terminal or of a
-- directional report, and the registration reports them again.
pub mod Outcome
pub mod Settle
pub mod Acknowledge
mod Examples
use wepoll_ex.Prelude.{
  ℕ, ◌+◌, ◌%◌, ◌^◌, Bool, true, false, ◌&&◌, ◌||◌, not, ◌==◌, if◌then◌else◌, Option, none, some,
  bit_and,
}
use wepoll_ex.Bits.{complement}
use wepoll_ex.Bits.Masks.{meets}
use wepoll_ex.Status.{Status, ok, failed}
use wepoll_ex.Errno.Codes.{einval, ebusy, eopnotsupp}
use wepoll_ex.Errno.State.{get_last_error_info, restore_last_error_info}
use wepoll_ex.Port.Classes.{Classes, any_class, minus, meet, filter_classes, afd_events_for_state}
use wepoll_ex.Port.FdTable.{lookup}
use wepoll_ex.Port.Worklist.{Worklists, set_needs_rearm, set_oneshot_fired, restore_worklist_state}
use wepoll_ex.Port.Wake.{PostOutcome}
use wepoll_ex.Port.State.{
  Registration, Interest, PortState, PortKernel, Submitted, registered, is_pending, is_idle,
  matches, retired, query_failed, submitted, withdrawn, submit_failed, refuse_with, next_generation,
  with_sock,
}
use wepoll_ex.Port.Modify.{◌and_do◌, finish}
use wepoll_ex.Port.Levels.{explicit_rearm_enabled}

-- The bits WEPOLL_EX_REARM_READ, WEPOLL_EX_REARM_WRITE and WEPOLL_EX_REARM_TERMINAL.
abbrev pub classes_of : ℕ → Classes
classes_of n = record { read = meets n 1; write = meets n 2; terminal = meets n 4 }

abbrev pub with_interest : (sock : ℕ) → (Interest → Interest) → PortState → PortState
with_interest s f p = with_sock s (λ r. record r { interest = f r.interest }) p

abbrev pub park : (sock : ℕ) (parked : Bool) → PortState → PortState
park s parked p = with_interest s (λ i. record i { udp_readless_receive_parked = parked }) p

-- What is left disarmed.
abbrev pub left_disarmed : Classes → Registration → Classes
left_disarmed classes r = minus r.interest.explicit_disarmed_classes classes

-- The acknowledgement of a one-shot delivery is complete.
abbrev pub completes : (fired : Bool) → Classes → Registration → Bool
completes fired classes r = fired && not (any_class (left_disarmed classes r))

abbrev pub still_parked : (fired : Bool) → Classes → Registration → Bool
still_parked fired classes r =
    if classes.read || classes.terminal || completes fired classes r
    then false
    else r.interest.udp_readless_receive_parked

abbrev pub acknowledged : Classes → (parked : Bool) → Interest → Interest
acknowledged classes parked i = record i {
  explicit_disarmed_classes = minus i.explicit_disarmed_classes classes;
  observed_events = filter_classes i.observed_events classes;
  et_holdoff = false;
  udp_readless_receive_parked = parked;
}

-- A part of a one-shot delivery: nothing is armed yet.
unfoldable pub acknowledge_part : (sock : ℕ) → Classes → (parked : Bool) → PortState → PortState
acknowledge_part s classes parked p =
    with_interest s (acknowledged classes parked)
      (record p { generation = (p.generation + 1) % 2 ^ 64 })

abbrev pub wanted_events : Classes → (parked : Bool) → Registration → ℕ
wanted_events classes parked r =
    afd_events_for_state r.afd r.interest.user_events parked (left_disarmed classes r)

-- As `settle_poll` of Port/Modify; `none` is a cancellation that failed, with the parking restored.
unfoldable pub settle_poll :
    PortKernel
    → (sock : ℕ) (whole : Bool) (wanted : ℕ) (parked : Bool) → PortState
    → Option Bool × PortState
settle_poll k s whole wanted parked p =
    let q = park s parked p in
    let r = p.sock s in
    let (status, cancelled) = k.cancel s q in
    let cancels : Option Bool × PortState = elim status [
      | ok ↦ (some false, cancelled)
      | failed ↦ (none, park s r.interest.udp_readless_receive_parked cancelled)
    ] in
    if not (is_pending r.poll_status)
    then (some false, q)
    else if whole || not (r.local_shutdown == 0)
    then cancels
    else if not (meets wanted (complement 32 r.submitted_afd_events))
    then (some true, q)
    else cancels

unfoldable pub rearmed : (whole : Bool) → Classes → (generation : ℕ) → Registration → Registration
rearmed whole classes generation r =
    let i = acknowledged classes r.interest.udp_readless_receive_parked r.interest in
    if whole
    then record r {
      interest = record i { observed_events = 0 };
      pending_events = 0;
      generation = generation;
      state = registered;
    }
    else record r { interest = i }

unfoldable pub relist : (sock : ℕ) (whole covers wants : Bool) → Worklists → Option Worklists
relist s whole covers wants p =
    (if whole then set_oneshot_fired s false p else some p)
    and_do (λ q. if not covers then set_needs_rearm s wants q else some q)

-- Something is to be polled or published.
abbrev pub wants_poll : (wanted : ℕ) → Registration → Bool
wants_poll wanted r = not (wanted == 0) || not (r.local_shutdown == 0)

unfoldable pub armed : (sock : ℕ) (whole : Bool) → Classes → Worklists → PortState → PortState
armed s whole classes lists p =
    let g = next_generation p.next_sock_generation in
    with_sock s (rearmed whole classes g) (record p {
      worklists = lists;
      next_sock_generation = if whole then g else p.next_sock_generation;
    })

-- The registration of before the call, after a submission that failed.
abbrev pub rolled_back : (old now : Registration) → Registration
rolled_back old now = record now {
  interest = record now.interest {
    explicit_disarmed_classes = old.interest.explicit_disarmed_classes;
    observed_events = old.interest.observed_events;
    et_holdoff = old.interest.et_holdoff;
    udp_readless_receive_parked = old.interest.udp_readless_receive_parked;
  };
  pending_events = old.pending_events;
  generation = old.generation;
  state = old.state;
}

unfoldable pub roll_back : (sock : ℕ) → (old now : PortState) → Option (Status × PortState)
roll_back s old now =
    elim (restore_worklist_state s (old.worklists.rearm.flag s) (old.worklists.oneshot.flag s)
      now.worklists) [
        | none ↦ none
        | some lists ↦ some (
          failed,
          with_sock s (rolled_back (old.sock s)) (record now {
            worklists = lists;
            err = restore_last_error_info (get_last_error_info now.err) now.err;
          }),
        )
      ]

unfoldable pub answered :
    PostOutcome
    → (sock : ℕ) → (old : PortState) → Submitted
    → (q : PortState) → Option (Status × PortState)
answered o s old submitted q =
    some (finish o (not ((q.sock s).local_shutdown == 0) && (q.sock s).ready_queued) q)
answered o s old withdrawn q =
    some (failed, record q { err = restore_last_error_info (get_last_error_info q.err) q.err })
answered o s old submit_failed q = roll_back s old q

-- `old` is the state at the start of the call, `p` the one with the classes armed.
unfoldable pub submit_armed :
    PortKernel → PostOutcome → (sock wanted : ℕ) → (old p : PortState) → Option (Status × PortState)
submit_armed k o s wanted old p =
    let r = p.sock s in
    let (answer, q) = k.submit s p in
    if is_idle r.poll_status && wants_poll wanted r && p.waiter_active && not p.waiter_coalescing
    then answered o s old answer q
    else some (finish o false p)

unfoldable pub arm :
    PortKernel
    → PostOutcome
    → (sock : ℕ) (whole covers : Bool) (wanted : ℕ) → Classes
    → (old p : PortState) → Option (Status × PortState)
arm k o s whole covers wanted classes old p =
    elim (relist s whole covers (wants_poll wanted (p.sock s)) p.worklists) [
      | none ↦ none
      | some lists ↦ submit_armed k o s wanted old (armed s whole classes lists p)
    ]

-- With something to arm.
unfoldable pub rearm_disarmed :
    PortKernel → PostOutcome → (sock : ℕ) → Classes → PortState → Option (Status × PortState)
rearm_disarmed k o s classes p =
    let r = p.sock s in
    let fired = p.worklists.oneshot.flag s in
    let whole = completes fired classes r in
    let parked = still_parked fired classes r in
    let wanted = wanted_events classes parked r in
    let (covers, q) = settle_poll k s whole wanted parked p in
    if fired && not whole
    then some (ok, acknowledge_part s classes parked p)
    else elim covers [ none ↦ some (failed, q) | some c ↦ arm k o s whole c wanted classes p q ]

-- `ep_sock_rearm_classes_locked`
unfoldable pub rearm_locked :
    PortKernel → PostOutcome → (sock : ℕ) → Classes → PortState → Option (Status × PortState)
rearm_locked k o s classes p =
    let r = p.sock s in
    if r.ready_queued
    then some (refuse_with ebusy p)
    else if not (any_class (meet r.interest.explicit_disarmed_classes classes))
    then some (ok, p)
    else rearm_disarmed k o s classes p

-- `none` is a failed assertion.
unfoldable pub rearm_classes :
    PortKernel → PostOutcome → (fd classes : ℕ) → PortState → Option (Status × PortState)
rearm_classes k o fd classes p =
    if (classes == 0) || meets classes (complement 32 7)
    then some (refuse_with einval p)
    else elim (lookup fd p.table) [
      | none ↦ some (failed, k.fail_absent fd p)
      | some sock ↦
          let (answer, q) = k.validate_control sock.addr p in
          elim answer [
            | matches ↦
                if explicit_rearm_enabled q (q.sock sock.addr)
                then rearm_locked k o sock.addr (classes_of classes) q
                else some (refuse_with eopnotsupp q)
            | retired ↦ some (failed, q)
            | query_failed ↦ some (failed, q)
          ]
    ]
