-- ===== src/Errno/Channel.antt =====
-- The error channel of src/wepoll_ex_errno.c: errno and the supplementary record agree, and a saved
-- record can be put back.
use wepoll_ex.Prelude.{ℕ, ◌≡◌, refl, Bool, arith, bit_and}
use wepoll_ex.Errno.Mapping.{winerr_to_errno, status_to_errno}
use wepoll_ex.Errno.State.{
  ErrorInfo, ErrorState, info_version, native_exact, domain_win32, domain_winsock, domain_ntstatus,
  info_from_errno, set_errno, set_win32_error, set_winsock_error, set_ntstatus_error,
  get_last_error_info, restore_last_error_info,
}

-- The record that a caller reads speaks of the current errno.
abbrev pub IsCoherent : ErrorState → Type 0
IsCoherent s = (get_last_error_info s).portable_error ≡ s.errno

-- What a native error leaves in the channel.
abbrev pub Reports : (domain code portable : ℕ) → ErrorState → Type 0
Reports domain code portable t =
    let info = get_last_error_info t in
    (t.errno ≡ portable)
    × (info.portable_error ≡ portable)
    × (info.native_domain ≡ domain)
    × (info.native_code ≡ code)
    × (bit_and info.flags native_exact ≡ native_exact)

-- Each setter of a native error leaves errno, the record's errno, the exact code and its domain, and
-- says that the code is exact; a Winsock error is also its own Winsock equivalent.
pub set_native_error-Reports :
    (rtl : ℕ → ℕ) (resolved : Bool) (code : ℕ) (s : ErrorState)
    → Reports domain_win32 code (winerr_to_errno code) (set_win32_error code s)
      × Reports domain_winsock code (winerr_to_errno code) (set_winsock_error code s)
      × Reports domain_ntstatus code
          (status_to_errno rtl resolved code)
          (set_ntstatus_error rtl resolved code s)
      × ((get_last_error_info (set_winsock_error code s)).winsock_error ≡ code)
unfolding set_win32_error set_winsock_error set_ntstatus_error get_last_error_info info_from_errno
set_native_error-Reports rtl resolved code s = ground arith

pub set_errno-IsCoherent : (error : ℕ) (s : ErrorState) → IsCoherent (set_errno error s)
unfolding set_errno get_last_error_info info_from_errno
set_errno-IsCoherent error s = ground arith

version-get_last_error_info : (s : ErrorState) → (get_last_error_info s).version ≡ info_version
unfolding get_last_error_info info_from_errno
version-get_last_error_info s = ground arith

get-restore_last_error_info :
    (info : ErrorInfo) (t : ErrorState)
    → info.version ≡ info_version
    → get_last_error_info (restore_last_error_info info t) ≡ info
unfolding get_last_error_info restore_last_error_info
get-restore_last_error_info info t h = ground arith

-- `ep_get_last_error_info` before a clean-up and `ep_restore_last_error_info` after it: whatever the
-- clean-up did to the channel, the record and errno are those of before.
pub restore-get_last_error_info :
    (s t : ErrorState)
    → IsCoherent s
    → let u = restore_last_error_info (get_last_error_info s) t in
      (get_last_error_info u ≡ get_last_error_info s) × (u.errno ≡ s.errno)
unfolding restore_last_error_info
restore-get_last_error_info s t h =
    (get-restore_last_error_info _ t (version-get_last_error_info s), h)

get-current : (e : ErrorState) → e.last.version ≡ info_version → get_last_error_info e ≡ e.last
unfolding get_last_error_info
get-current e h = ground (arith, h)

-- The same where errno itself is saved too, and put back last.
pub restore-errno :
    (s t : ErrorState)
    → let u : ErrorState = record (restore_last_error_info (get_last_error_info s) t) {
      errno = s.errno;
    } in
      (get_last_error_info u ≡ get_last_error_info s) × (u.errno ≡ s.errno)
unfolding restore_last_error_info
restore-errno s t = (
  get-current (record { errno = s.errno; last = get_last_error_info s })
      (version-get_last_error_info s),
  refl,
)
