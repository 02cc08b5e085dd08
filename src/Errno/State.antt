-- ===== src/Errno/State.antt =====
-- The thread's errno and its supplementary error record: the setters, the getter and the restore of
-- src/wepoll_ex_errno.c, the Windows branches.
use wepoll_ex.Prelude.{ℕ, Bool, bit_or, ◌==◌, if◌then◌else◌}
use wepoll_ex.Errno.Mapping.{errno_to_winsock, winerr_to_errno, status_to_errno}

-- `wepoll_ex_error_info` of include/wepoll_ex.h.
pub record ErrorInfo : Type 0 where
  pub version : ℕ
  pub struct_size : ℕ
  pub portable_error : ℕ
  pub native_domain : ℕ
  pub native_code : ℕ
  pub winsock_error : ℕ
  pub flags : ℕ
  pub reserved : ℕ

-- `errno` and `g_last_error_info`, both of the thread.
pub record ErrorState : Type 0 where
  pub errno : ℕ
  pub last : ErrorInfo

-- `memset(error_info, 0, sizeof(*error_info))`, and a thread that has set no error yet.
abbrev pub zero_info : ErrorInfo
zero_info = record {
  version = 0;
  struct_size = 0;
  portable_error = 0;
  native_domain = 0;
  native_code = 0;
  winsock_error = 0;
  flags = 0;
  reserved = 0;
}

abbrev pub fresh_thread : ErrorState
fresh_thread = record { errno = 0; last = zero_info }

-- WEPOLL_EX_ERROR_INFO_VERSION and `sizeof(wepoll_ex_error_info)`.
abbrev pub info_version : ℕ
info_version = 1

abbrev pub info_size : ℕ
info_size = 32

abbrev pub native_exact : ℕ
native_exact = 1

abbrev pub winsock_equivalent : ℕ
winsock_equivalent = 2

-- WEPOLL_EX_NATIVE_ERROR_WIN32, _WINSOCK and _NTSTATUS.
abbrev pub domain_win32 : ℕ
domain_win32 = 1

abbrev pub domain_winsock : ℕ
domain_winsock = 2

abbrev pub domain_ntstatus : ℕ
domain_ntstatus = 3

unfoldable pub info_from_errno : ℕ → ErrorInfo
info_from_errno error =
    let base : ErrorInfo = record zero_info {
      version = info_version;
      struct_size = info_size;
      portable_error = error;
    } in
    let w = errno_to_winsock error in
    if w == 0
    then base
    else record base { winsock_error = w; flags = bit_or base.flags winsock_equivalent }

unfoldable pub set_errno : ℕ → ErrorState → ErrorState
set_errno error s = record { errno = error; last = info_from_errno error }

unfoldable pub set_native_error : (portable domain code : ℕ) → ErrorState → ErrorState
unfolding set_errno
set_native_error portable domain code s =
    let t = set_errno portable s in
    record t {
      last = record (t.last) {
        native_domain = domain;
        native_code = code;
        flags = bit_or t.last.flags native_exact;
      };
    }

unfoldable pub set_win32_error : ℕ → ErrorState → ErrorState
unfolding set_native_error
set_win32_error error s = set_native_error (winerr_to_errno error) domain_win32 error s

unfoldable pub set_winsock_error : ℕ → ErrorState → ErrorState
unfolding set_native_error
set_winsock_error error s =
    let t = set_native_error (winerr_to_errno error) domain_winsock error s in
    record t {
      last = record (t.last) {
        winsock_error = error;
        flags = bit_or t.last.flags winsock_equivalent;
      };
    }

-- `rtl` and `resolved` as for `status_to_errno`.
unfoldable pub set_ntstatus_error : (ℕ → ℕ) → Bool → ℕ → ErrorState → ErrorState
unfolding set_native_error
set_ntstatus_error rtl resolved status s =
    set_native_error (status_to_errno rtl resolved status) domain_ntstatus status s

unfoldable pub get_last_error_info : ErrorState → ErrorInfo
get_last_error_info s = if s.last.version == info_version then s.last else info_from_errno s.errno

unfoldable pub restore_last_error_info : ErrorInfo → ErrorState → ErrorState
restore_last_error_info info s = record { errno = info.portable_error; last = info }
