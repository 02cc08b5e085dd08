-- ===== src/Errno/Examples.antt =====
-- Concrete errors through the maps and the channel of src/wepoll_ex_errno.c.
use wepoll_ex.Prelude.{◌≡◌, ◌==◌, if◌then◌else◌}
use wepoll_ex.Errno.Codes.{eisconn}
use wepoll_ex.Errno.Mapping.{errno_to_winsock, winerr_to_errno}
use wepoll_ex.Errno.Totality.{winerr_to_errno-errno_to_winsock, back}

winerr_to_errno-errno_to_winsock_example :
    winerr_to_errno (errno_to_winsock eisconn)
    ≡ (if errno_to_winsock eisconn == 0 then 0 else back eisconn)
winerr_to_errno-errno_to_winsock_example = winerr_to_errno-errno_to_winsock eisconn
