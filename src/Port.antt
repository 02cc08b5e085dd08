-- ===== src/Port.antt =====
-- Parts of src/wepoll_ex_port.c.
pub mod FdTable
pub mod Wake
pub mod Classes
pub mod Exclusive
pub mod Worklist
pub mod State
pub mod Sample
pub mod Modify
pub mod Cancel
pub mod Retire
pub mod Levels
pub mod Shutdown
pub mod Rearm
pub mod Register
