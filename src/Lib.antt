-- ===== src/Lib.antt =====
-- wepoll-ex: epoll for Windows over IOCP and AFD.
--
-- A caller of the library holds small integers, epoll descriptors. src/wepoll_ex_api.c maps each of them
-- to a shared record that owns a port, counts the calls in flight (`refs`) and the descriptors
-- (`aliases`), and hands the port's teardown to exactly one thread. The port (src/wepoll_ex_port.c,
-- src/wepoll_ex_afd.c) watches sockets; it takes buffers from a pool (src/wepoll_ex_pool.c), fails on
-- purpose at fault points (src/wepoll_ex_fault.c) and reports errors through errno and a
-- supplementary record of the thread (src/wepoll_ex_errno.c).
--
-- Files and the code they are about:
--
--   Errno/Codes    errno and Win32 codes of the UCRT and of Winsock
--   Errno/Mapping  `ep_errno_to_winsock`, `ep_winerr_to_errno`, `ep_status_to_errno`
--   Errno/State    errno and `g_last_error_info`: the setters, the getter, the restore
--   Fault          src/wepoll_ex_fault.c with `WEPOLL_EX_ENABLE_FAULT_INJECTION`
--   Heap           the C allocator: cells at addresses, each outcome of `malloc` given by a list, so that
--                  a theorem covers every pattern of failures
--   Pool           the buffer pool, the first half of src/wepoll_ex_pool.c
--   Ready          the ready queue of src/wepoll_ex_pool.c; Ready/Steps interleaves the steps of the producers
--                  with those of the consumer, one access to shared memory each, as if sequentially
--                  consistent: the weaker orders that C allows are not modelled
--   Api/Table      the locked operations of src/wepoll_ex_api.c on the table of descriptors
--   Api/System     the same as steps of a system: each locked section of each thread is one event, and any
--                  order of events is a run; `none` is a read of a freed record or a failed assertion
--   Api/Port       the interface of src/wepoll_ex_port.c that src/wepoll_ex_api.c uses, functions on a
--                  world
--   Api/Call       `epfd_require`, `epfd_put` and `epfd_destroy` around a call of the port
--   Api/Control    `epoll_ctl_port`, `epoll_ctl`, `epoll_ctl_ctx`, `epoll_ctl_batch`
--   Api/Public     `epoll_create`, `epoll_create1`, `epoll_create_ex` and the wait functions
--   Api/Sockets    rearming, waking, counting, duplicating, closing and shutting down
--   Api/Close      `wepoll_close`, with what other threads do while it waits as arguments
--   Port/FdTable   the table of registered sockets of src/wepoll_ex_port.c: open addressing, linear probing
--   Port/Wake      `ep_port_wake`, `ep_port_wake_event`, `ep_port_take_wake` and the posts to the completion
--                  port, one call after another; what a post meets is an argument
--   Port/Classes   readiness classes: `ep_readiness_classes` and the filters and AFD masks made of them
--   Port/Exclusive the claims of EPOLLEXCLUSIVE registrations. The chains of the buckets are lists, in the
--                  order of the links
--   Port/Worklist  the rearm and the oneshot list, link by link. The source has each list's functions
--                  twice, with other fields; the model has them once
--   Port/State     a port with its registrations, as the control operations see it; `PortKernel` is what they
--                  use of the rest of the port
--   Port/Register  `ep_port_register`, EPOLL_CTL_ADD; the probe of the target and the allocation of its
--                  registration are an argument
--   Port/Modify    `ep_port_modify`, EPOLL_CTL_MOD
--   Port/Cancel    `ep_sock_cancel_locked`; what the system answers is an argument
--   Port/Retire    `ep_port_unregister`, EPOLL_CTL_DEL, and `ep_sock_drop_closed_locked`; the groups of AFD
--                  polls and the buffers that a registration gives back are left out
--   Port/Levels    what WSAPoll, select and a local shutdown add to the readiness that AFD reports
--   Port/Shutdown  `ep_port_shutdown_socket` and `ep_sock_queue_local_shutdown_locked`
--   Port/Rearm     `ep_port_rearm_classes`: classes that a report disarmed are armed again
--   Port/Sample    a port for the examples
--   Afd            the translation between epoll events and AFD events, of src/wepoll_ex_afd.c
--   Bits           words read bit by bit, tests against masks
--   Wait           the timeouts of src/wepoll_ex_port.c and what is left of them
--
-- The files below these state and prove; those named Examples hold concrete runs.
--
-- Conventions. A function that returns 0 or -1 answers a `Status`; errno and the record are an
-- `ErrorState` that is passed on. Words wrap by an explicit `% 2 ^ w`. A mutex makes a locked
-- section one step; what `pthread_mutex_init` and `pthread_mutex_lock` return is an argument. Loops:
-- the search for a free descriptor runs on `INT_MAX` rounds, as in the code; `ep_pool_entries_free`
-- runs on the number of allocated entries, which its theorem shows to be enough; the loops of the
-- table of sockets run on as many rounds as it has slots, which the theorems on insertion and
-- removal show to be enough; all else is structural.
-- The NULL pool and the NULL port of a wake, the address of a `struct timespec` result that is
-- NULL, and the handle of the event that a closing thread waits on are not modelled: no caller
-- passes a NULL pool, port or result.
--
-- What the port's own operations take from the submission, the cancellation and the control of a
-- socket's identity is a parameter, `PortKernel` of Port/State, with laws that each theorem names; an
-- assertion inside of those functions is not covered there. Port/Cancel has the cancellation itself, and
-- Port/Cancel/Kernel that it has the laws that Port/Modify and Port/Rearm ask for.
--
-- Not modelled: of src/wepoll_ex_port.c the submission and the completion of polls, and the wait
-- loop; AFD polling but for its masks; process-wide start-up; the POSIX build. The nginx module,
-- the benchmarks and the tests are clients.
pub mod Prelude
pub mod Bits
pub mod Status
pub mod Errno
pub mod Fault
pub mod Heap
pub mod Pool
pub mod Ready
pub mod Api
pub mod Wait
pub mod Port
pub mod Afd
