-- ===== src/Fault.antt =====
-- src/wepoll_ex_fault.c, the build with WEPOLL_EX_ENABLE_FAULT_INJECTION: fault points that fail on a
-- configured hit. A point is its number in `ep_fault_point_t`.
pub mod Once
mod Examples
use wepoll_ex.Prelude.{
  ℕ, ◌+◌, ◌%◌, ◌^◌, bit_and, bit_or, Bool, ◌||◌, not, ◌==◌, ltb, if◌then◌else◌, update,
}
use wepoll_ex.Bits.{complement}
use wepoll_ex.Status.{Status, ok, failed}
use wepoll_ex.Errno.Codes.{einval}
use wepoll_ex.Errno.State.{ErrorState, set_errno}

abbrev pub point_count : ℕ
point_count = 21

-- The points at which the modelled code calls `ep_fault_hit`.
abbrev pub pool_init_alloc : ℕ
pool_init_alloc = 0

abbrev pub pool_grow : ℕ
pool_grow = 1

pub record Slot : Type 0 where
  pub fail_at : ℕ
  pub hits : ℕ
  pub error : ℕ

-- `g_fault_mask` and `g_fault_slots`.
pub record FaultState : Type 0 where
  pub mask : ℕ
  pub slots : ℕ → Slot

abbrev pub empty_slot : Slot
empty_slot = record { fail_at = 0; hits = 0; error = 0 }

abbrev pub no_faults : FaultState
no_faults = record { mask = 0; slots = λ _. empty_slot }

unfoldable pub point_valid : ℕ → Bool
point_valid point = ltb point point_count

-- An `error` of 0 stands for any that is not positive.
unfoldable pub configure :
    (point fail_at error : ℕ) → FaultState → ErrorState → Status × FaultState × ErrorState
unfolding point_valid
configure point fail_at error f s =
    if not (point_valid point) || fail_at == 0 || error == 0
    then (failed, f, set_errno einval s)
    else let bit = 2 ^ point in
      (
        ok,
        record {
          mask = bit_or (bit_and f.mask (complement 64 bit)) bit;
          slots = update f.slots point (record { fail_at = fail_at; hits = 0; error = error });
        },
        s,
      )

-- The loop clears every slot below the count; no other is ever read.
unfoldable pub reset : FaultState → FaultState
reset f = record { mask = 0; slots = λ i. if ltb i point_count then empty_slot else f.slots i }

-- The part that `ep_fault_hit` and `ep_fault_hit_through` share: `stays_quiet ordinal fail_at` is
-- the test that returns 0.
unfoldable pub hit_when :
    (ℕ → ℕ → Bool) → ℕ → FaultState → ErrorState → Status × FaultState × ErrorState
unfolding point_valid
hit_when stays_quiet point f s =
    if not (point_valid point)
    then (ok, f, s)
    else if bit_and f.mask (2 ^ point) == 0
    then (ok, f, s)
    else let slot = f.slots point in
      let ordinal = (slot.hits + 1) % 2 ^ 64 in
      let f' = record f { slots = update f.slots point (record slot { hits = ordinal }) } in
      if stays_quiet ordinal slot.fail_at then (ok, f', s) else (failed, f', set_errno slot.error s)

unfoldable pub hit : ℕ → FaultState → ErrorState → Status × FaultState × ErrorState
unfolding hit_when
hit = hit_when (λ ordinal fail_at. not (ordinal == fail_at))

unfoldable pub hit_through : ℕ → FaultState → ErrorState → Status × FaultState × ErrorState
unfolding hit_when
hit_through = hit_when (λ ordinal fail_at. ltb fail_at ordinal)

unfoldable pub hits : ℕ → FaultState → ErrorState → ℕ × ErrorState
unfolding point_valid
hits point f s =
    if not (point_valid point) then (0, set_errno einval s) else ((f.slots point).hits, s)
