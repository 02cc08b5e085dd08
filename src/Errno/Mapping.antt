-- ===== src/Errno/Mapping.antt =====
-- `ep_errno_to_winsock`, `ep_winerr_to_errno` and `ep_status_to_errno` of src/wepoll_ex_errno.c,
-- the Windows branches. A `switch`, and a chain of `if (error == A) return B`, is a table read from
-- the top.
use wepoll_ex.Prelude.{ℕ, Bool, List, [], ◌∷◌, ◌==◌, if◌then◌else◌}
use wepoll_ex.Errno.Codes.{
  eacces, eaddrinuse, eaddrnotavail, eafnosupport, eagain, ealready, ebadf, ebusy, ecanceled,
  econnaborted, econnrefused, econnreset, edestaddrreq, edquot, eexist, efault, ehostdown,
  ehostunreach, einprogress, einval, eio, eisconn, eloop, emfile, emsgsize, enametoolong, enetdown,
  enetreset, enetunreach, enobufs, enoent, enomem, enoprotoopt, enosys, enotconn, enotempty,
  enotsock, enotsup, eopnotsupp, epfnosupport, epipe, eprotonosupport, eprototype, eremote,
  error_abandoned_wait_0, error_access_denied, error_already_exists, error_broken_pipe, error_busy,
  error_call_not_implemented, error_cancelled, error_file_exists, error_file_not_found,
  error_gen_failure, error_invalid_address, error_invalid_data, error_invalid_function,
  error_invalid_handle, error_invalid_parameter, error_io_pending, error_no_data,
  error_no_system_resources, error_not_enough_memory, error_not_found, error_not_ready,
  error_not_supported, error_operation_aborted, error_outofmemory, error_path_not_found,
  error_pipe_not_connected, error_sem_timeout, error_sharing_violation, error_timeout,
  error_too_many_open_files, esocktnosupport, estale, etimedout, etoomanyrefs, eusers, wait_timeout,
  wsaeacces, wsaeaddrinuse, wsaeaddrnotavail, wsaeafnosupport, wsaealready, wsaebadf,
  wsaeconnaborted, wsaeconnrefused, wsaeconnreset, wsaedestaddrreq, wsaedquot, wsaefault,
  wsaehostdown, wsaehostunreach, wsaeinprogress, wsaeinval, wsaeisconn, wsaeloop, wsaemfile,
  wsaemsgsize, wsaenametoolong, wsaenetdown, wsaenetreset, wsaenetunreach, wsaenobufs,
  wsaenoprotoopt, wsaenotconn, wsaenotempty, wsaenotsock, wsaeopnotsupp, wsaepfnosupport,
  wsaeprotonosupport, wsaeprototype, wsaeremote, wsaeshutdown, wsaesocktnosupport, wsaestale,
  wsaetimedout, wsaetoomanyrefs, wsaeusers, wsaewouldblock,
}

-- The value of the first entry with key `k`, or the default.
unfoldable pub lookup_or : ℕ → List (ℕ × ℕ) → ℕ → ℕ
lookup_or k [] d = d
lookup_or k ((a, b) ∷ t) d = if k == a then b else lookup_or k t d

unfoldable pub winsock_table : List (ℕ × ℕ)
winsock_table =
    (eagain, wsaewouldblock)
    ∷ (eacces, wsaeacces)
    ∷ (eafnosupport, wsaeafnosupport)
    ∷ (ealready, wsaealready)
    ∷ (ebadf, wsaebadf)
    ∷ (econnaborted, wsaeconnaborted)
    ∷ (econnrefused, wsaeconnrefused)
    ∷ (econnreset, wsaeconnreset)
    ∷ (edestaddrreq, wsaedestaddrreq)
    ∷ (efault, wsaefault)
    ∷ (ehostunreach, wsaehostunreach)
    ∷ (einprogress, wsaeinprogress)
    ∷ (einval, wsaeinval)
    ∷ (eisconn, wsaeisconn)
    ∷ (emfile, wsaemfile)
    ∷ (emsgsize, wsaemsgsize)
    ∷ (enetdown, wsaenetdown)
    ∷ (enetreset, wsaenetreset)
    ∷ (enetunreach, wsaenetunreach)
    ∷ (enobufs, wsaenobufs)
    ∷ (enomem, wsaenobufs)
    ∷ (enoprotoopt, wsaenoprotoopt)
    ∷ (enotconn, wsaenotconn)
    ∷ (enotsock, wsaenotsock)
    ∷ (eopnotsupp, wsaeopnotsupp)
    ∷ (eprotonosupport, wsaeprotonosupport)
    ∷ (eprototype, wsaeprototype)
    ∷ (etimedout, wsaetimedout)
    ∷ []

unfoldable pub errno_to_winsock : ℕ → ℕ
unfolding lookup_or winsock_table
errno_to_winsock error = lookup_or error winsock_table 0

unfoldable pub errno_table : List (ℕ × ℕ)
errno_table =
    (0, 0)
    ∷ (error_file_not_found, enoent)
    ∷ (error_path_not_found, enoent)
    ∷ (error_not_found, enoent)
    ∷ (error_too_many_open_files, emfile)
    ∷ (error_access_denied, eacces)
    ∷ (error_invalid_handle, ebadf)
    ∷ (error_abandoned_wait_0, ebadf)
    ∷ (error_not_enough_memory, enomem)
    ∷ (error_outofmemory, enomem)
    ∷ (error_no_system_resources, enomem)
    ∷ (error_invalid_data, einval)
    ∷ (error_invalid_parameter, einval)
    ∷ (error_invalid_address, efault)
    ∷ (error_not_ready, eagain)
    ∷ (error_io_pending, eagain)
    ∷ (error_busy, ebusy)
    ∷ (error_sharing_violation, ebusy)
    ∷ (error_file_exists, eexist)
    ∷ (error_already_exists, eexist)
    ∷ (error_broken_pipe, epipe)
    ∷ (error_no_data, epipe)
    ∷ (error_pipe_not_connected, enotconn)
    ∷ (error_operation_aborted, ecanceled)
    ∷ (error_cancelled, ecanceled)
    ∷ (error_sem_timeout, etimedout)
    ∷ (error_timeout, etimedout)
    ∷ (wait_timeout, etimedout)
    ∷ (error_not_supported, enotsup)
    ∷ (error_call_not_implemented, enotsup)
    ∷ (error_invalid_function, enosys)
    ∷ (error_gen_failure, eio)
    ∷ (wsaewouldblock, eagain)
    ∷ (wsaeinprogress, eagain)
    ∷ (wsaealready, eagain)
    ∷ (wsaeinval, einval)
    ∷ (wsaebadf, ebadf)
    ∷ (wsaeacces, eacces)
    ∷ (wsaefault, efault)
    ∷ (wsaemfile, emfile)
    ∷ (wsaenobufs, enobufs)
    ∷ (wsaenotsock, enotsock)
    ∷ (wsaedestaddrreq, edestaddrreq)
    ∷ (wsaemsgsize, emsgsize)
    ∷ (wsaeprototype, eprototype)
    ∷ (wsaenoprotoopt, enoprotoopt)
    ∷ (wsaeprotonosupport, eprotonosupport)
    ∷ (wsaesocktnosupport, esocktnosupport)
    ∷ (wsaeopnotsupp, eopnotsupp)
    ∷ (wsaepfnosupport, epfnosupport)
    ∷ (wsaeafnosupport, eafnosupport)
    ∷ (wsaeaddrinuse, eaddrinuse)
    ∷ (wsaeaddrnotavail, eaddrnotavail)
    ∷ (wsaenetdown, enetdown)
    ∷ (wsaenetunreach, enetunreach)
    ∷ (wsaenetreset, enetreset)
    ∷ (wsaeconnaborted, econnaborted)
    ∷ (wsaeconnreset, econnreset)
    ∷ (wsaenotconn, enotconn)
    ∷ (wsaeshutdown, epipe)
    ∷ (wsaetoomanyrefs, etoomanyrefs)
    ∷ (wsaetimedout, etimedout)
    ∷ (wsaeconnrefused, econnrefused)
    ∷ (wsaeloop, eloop)
    ∷ (wsaenametoolong, enametoolong)
    ∷ (wsaehostdown, ehostdown)
    ∷ (wsaehostunreach, ehostunreach)
    ∷ (wsaenotempty, enotempty)
    ∷ (wsaeusers, eusers)
    ∷ (wsaedquot, edquot)
    ∷ (wsaestale, estale)
    ∷ (wsaeremote, eremote)
    ∷ []

unfoldable pub winerr_to_errno : ℕ → ℕ
unfolding lookup_or errno_table
winerr_to_errno code = lookup_or code errno_table einval

-- `rtl` is `RtlNtStatusToDosError`, resolved at start-up from ntdll, or none.
unfoldable pub ntstatus_to_winerr : (ℕ → ℕ) → Bool → ℕ → ℕ
ntstatus_to_winerr rtl resolved status = if resolved then rtl status else status

unfoldable pub status_to_errno : (ℕ → ℕ) → Bool → ℕ → ℕ
unfolding ntstatus_to_winerr winerr_to_errno
status_to_errno rtl resolved status = winerr_to_errno (ntstatus_to_winerr rtl resolved status)
