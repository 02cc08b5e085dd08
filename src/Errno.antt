-- ===== src/Errno.antt =====
-- src/wepoll_ex_errno.c, the Windows build.
pub mod Codes
pub mod Mapping
pub mod State
pub mod Totality
pub mod Channel
mod Examples
