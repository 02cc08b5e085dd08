-- ===== src/Errno/Codes.antt =====
-- The errno values of the Windows C runtime, and the Win32 and Winsock error codes that
-- src/wepoll_ex_errno.c names, with their documented numbers.
use Prim.Native.Nat.{ℕ}

abbrev pub enoent : ℕ
enoent = 2

abbrev pub eio : ℕ
eio = 5

abbrev pub ebadf : ℕ
ebadf = 9

abbrev pub eagain : ℕ
eagain = 11

abbrev pub enomem : ℕ
enomem = 12

abbrev pub eacces : ℕ
eacces = 13

abbrev pub efault : ℕ
efault = 14

abbrev pub ebusy : ℕ
ebusy = 16

abbrev pub eexist : ℕ
eexist = 17

abbrev pub einval : ℕ
einval = 22

abbrev pub emfile : ℕ
emfile = 24

abbrev pub enospc : ℕ
enospc = 28

abbrev pub epipe : ℕ
epipe = 32

abbrev pub enametoolong : ℕ
enametoolong = 38

abbrev pub enosys : ℕ
enosys = 40

abbrev pub enotempty : ℕ
enotempty = 41

abbrev pub eaddrinuse : ℕ
eaddrinuse = 100

abbrev pub eaddrnotavail : ℕ
eaddrnotavail = 101

abbrev pub eafnosupport : ℕ
eafnosupport = 102

abbrev pub ealready : ℕ
ealready = 103

abbrev pub ecanceled : ℕ
ecanceled = 105

abbrev pub econnaborted : ℕ
econnaborted = 106

abbrev pub econnrefused : ℕ
econnrefused = 107

abbrev pub econnreset : ℕ
econnreset = 108

abbrev pub edestaddrreq : ℕ
edestaddrreq = 109

abbrev pub ehostunreach : ℕ
ehostunreach = 110

abbrev pub einprogress : ℕ
einprogress = 112

abbrev pub eisconn : ℕ
eisconn = 113

abbrev pub eloop : ℕ
eloop = 114

abbrev pub emsgsize : ℕ
emsgsize = 115

abbrev pub enetdown : ℕ
enetdown = 116

abbrev pub enetreset : ℕ
enetreset = 117

abbrev pub enetunreach : ℕ
enetunreach = 118

abbrev pub enobufs : ℕ
enobufs = 119

abbrev pub enoprotoopt : ℕ
enoprotoopt = 123

abbrev pub enotconn : ℕ
enotconn = 126

abbrev pub enotsock : ℕ
enotsock = 128

abbrev pub enotsup : ℕ
enotsup = 129

abbrev pub eopnotsupp : ℕ
eopnotsupp = 130

abbrev pub eoverflow : ℕ
eoverflow = 132

abbrev pub eprotonosupport : ℕ
eprotonosupport = 135

abbrev pub eprototype : ℕ
eprototype = 136

abbrev pub etimedout : ℕ
etimedout = 138

-- The names that MinGW's errno.h may lack: the `#ifndef` block.
abbrev pub esocktnosupport : ℕ
esocktnosupport = eopnotsupp

abbrev pub epfnosupport : ℕ
epfnosupport = eafnosupport

abbrev pub etoomanyrefs : ℕ
etoomanyrefs = eagain

abbrev pub ehostdown : ℕ
ehostdown = ehostunreach

abbrev pub eusers : ℕ
eusers = eagain

abbrev pub edquot : ℕ
edquot = enospc

abbrev pub estale : ℕ
estale = einval

abbrev pub eremote : ℕ
eremote = einval

-- Win32 and Winsock codes.
abbrev pub error_invalid_function : ℕ
error_invalid_function = 1

abbrev pub error_file_not_found : ℕ
error_file_not_found = 2

abbrev pub error_path_not_found : ℕ
error_path_not_found = 3

abbrev pub error_too_many_open_files : ℕ
error_too_many_open_files = 4

abbrev pub error_access_denied : ℕ
error_access_denied = 5

abbrev pub error_invalid_handle : ℕ
error_invalid_handle = 6

abbrev pub error_not_enough_memory : ℕ
error_not_enough_memory = 8

abbrev pub error_invalid_data : ℕ
error_invalid_data = 13

abbrev pub error_outofmemory : ℕ
error_outofmemory = 14

abbrev pub error_not_ready : ℕ
error_not_ready = 21

abbrev pub error_gen_failure : ℕ
error_gen_failure = 31

abbrev pub error_sharing_violation : ℕ
error_sharing_violation = 32

abbrev pub error_not_supported : ℕ
error_not_supported = 50

abbrev pub error_file_exists : ℕ
error_file_exists = 80

abbrev pub error_invalid_parameter : ℕ
error_invalid_parameter = 87

abbrev pub error_broken_pipe : ℕ
error_broken_pipe = 109

abbrev pub error_call_not_implemented : ℕ
error_call_not_implemented = 120

abbrev pub error_sem_timeout : ℕ
error_sem_timeout = 121

abbrev pub error_busy : ℕ
error_busy = 170

abbrev pub error_already_exists : ℕ
error_already_exists = 183

abbrev pub error_no_data : ℕ
error_no_data = 232

abbrev pub error_pipe_not_connected : ℕ
error_pipe_not_connected = 233

abbrev pub wait_timeout : ℕ
wait_timeout = 258

abbrev pub error_invalid_address : ℕ
error_invalid_address = 487

abbrev pub error_abandoned_wait_0 : ℕ
error_abandoned_wait_0 = 735

abbrev pub error_operation_aborted : ℕ
error_operation_aborted = 995

abbrev pub error_io_pending : ℕ
error_io_pending = 997

abbrev pub error_not_found : ℕ
error_not_found = 1168

abbrev pub error_cancelled : ℕ
error_cancelled = 1223

abbrev pub error_no_system_resources : ℕ
error_no_system_resources = 1450

abbrev pub error_timeout : ℕ
error_timeout = 1460

abbrev pub wsaebadf : ℕ
wsaebadf = 10009

abbrev pub wsaeacces : ℕ
wsaeacces = 10013

abbrev pub wsaefault : ℕ
wsaefault = 10014

abbrev pub wsaeinval : ℕ
wsaeinval = 10022

abbrev pub wsaemfile : ℕ
wsaemfile = 10024

abbrev pub wsaewouldblock : ℕ
wsaewouldblock = 10035

abbrev pub wsaeinprogress : ℕ
wsaeinprogress = 10036

abbrev pub wsaealready : ℕ
wsaealready = 10037

abbrev pub wsaenotsock : ℕ
wsaenotsock = 10038

abbrev pub wsaedestaddrreq : ℕ
wsaedestaddrreq = 10039

abbrev pub wsaemsgsize : ℕ
wsaemsgsize = 10040

abbrev pub wsaeprototype : ℕ
wsaeprototype = 10041

abbrev pub wsaenoprotoopt : ℕ
wsaenoprotoopt = 10042

abbrev pub wsaeprotonosupport : ℕ
wsaeprotonosupport = 10043

abbrev pub wsaesocktnosupport : ℕ
wsaesocktnosupport = 10044

abbrev pub wsaeopnotsupp : ℕ
wsaeopnotsupp = 10045

abbrev pub wsaepfnosupport : ℕ
wsaepfnosupport = 10046

abbrev pub wsaeafnosupport : ℕ
wsaeafnosupport = 10047

abbrev pub wsaeaddrinuse : ℕ
wsaeaddrinuse = 10048

abbrev pub wsaeaddrnotavail : ℕ
wsaeaddrnotavail = 10049

abbrev pub wsaenetdown : ℕ
wsaenetdown = 10050

abbrev pub wsaenetunreach : ℕ
wsaenetunreach = 10051

abbrev pub wsaenetreset : ℕ
wsaenetreset = 10052

abbrev pub wsaeconnaborted : ℕ
wsaeconnaborted = 10053

abbrev pub wsaeconnreset : ℕ
wsaeconnreset = 10054

abbrev pub wsaenobufs : ℕ
wsaenobufs = 10055

abbrev pub wsaeisconn : ℕ
wsaeisconn = 10056

abbrev pub wsaenotconn : ℕ
wsaenotconn = 10057

abbrev pub wsaeshutdown : ℕ
wsaeshutdown = 10058

abbrev pub wsaetoomanyrefs : ℕ
wsaetoomanyrefs = 10059

abbrev pub wsaetimedout : ℕ
wsaetimedout = 10060

abbrev pub wsaeconnrefused : ℕ
wsaeconnrefused = 10061

abbrev pub wsaeloop : ℕ
wsaeloop = 10062

abbrev pub wsaenametoolong : ℕ
wsaenametoolong = 10063

abbrev pub wsaehostdown : ℕ
wsaehostdown = 10064

abbrev pub wsaehostunreach : ℕ
wsaehostunreach = 10065

abbrev pub wsaenotempty : ℕ
wsaenotempty = 10066

abbrev pub wsaeusers : ℕ
wsaeusers = 10068

abbrev pub wsaedquot : ℕ
wsaedquot = 10069

abbrev pub wsaestale : ℕ
wsaestale = 10070

abbrev pub wsaeremote : ℕ
wsaeremote = 10071
