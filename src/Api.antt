-- ===== src/Api.antt =====
-- src/wepoll_ex_api.c: the table of epoll descriptors, and the public functions over it.
pub mod Table
pub mod Lookup
pub mod Allocate
pub mod Count
pub mod System
pub mod Port
pub mod Call
pub mod Control
pub mod Public
pub mod Sockets
pub mod Close
mod Toy
mod Examples
pub mod Lifetime
