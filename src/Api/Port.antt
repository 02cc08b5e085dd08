-- ===== src/Api/Port.antt =====
-- What src/wepoll_ex_api.c uses of the port, of the process-wide start-up and of Winsock, as an
-- interface: the world `W` holds all their state.
use wepoll_ex.Prelude.{ℕ, ◌^◌, ◌-◌, Bool, Option, List}
use wepoll_ex.Prelude.Int.{ℤ}
use wepoll_ex.Status.{Status}
use wepoll_ex.Wait.{Timeout}
use wepoll_ex.Errno.State.{ErrorState}

-- A C call that answers an `A`: it changes the world and the thread's errors.
abbrev pub Effect : (W A : Type 0) → Type 0
Effect W A = W × ErrorState → A × W × ErrorState

-- `struct epoll_event` of include/wepoll_ex.h.
pub record Event : Type 0 where
  pub events : ℕ
  pub user_data : ℕ

-- EPOLL_FD_INVALID of 64-bit Windows.
abbrev pub fd_invalid : ℕ
fd_invalid = 2 ^ 64 - 1

-- The port's functions, each on the port's number; those that return 0 or -1 answer a `Status`.
pub record PortApi (W : Type 0) : Type 0 where
  pub global_init : Effect W Status
  pub create : (size : ℤ) (flags : ℕ) → Effect W (Option ℕ)
  pub begin_close : ℕ → W × ErrorState → W × ErrorState
  pub destroy : ℕ → Effect W Status
  pub validate_target : ℕ → (fd : ℕ) (adding : Bool) → Effect W Status
  pub register : ℕ → (fd events flags user_data user_ctx : ℕ) → Effect W Status
  pub modify : ℕ → (fd events flags user_data user_ctx : ℕ) → Effect W Status
  pub unregister : ℕ → (fd : ℕ) → Effect W Status
  pub shutdown_socket : ℕ → (fd : ℕ) → ℤ → Effect W Status
  pub rearm : ℕ → (fd : ℕ) → Effect W Status
  pub rearm_classes : ℕ → (fd classes : ℕ) → Effect W Status
  pub wake : ℕ → Effect W Status
  pub wake_event : ℕ → Event → Effect W Status
  -- the signal mask is the address of one, 0 for NULL
  pub wait : ℕ → (maxevents timeout_ms : ℤ) (sigmask : ℕ) → Effect W ℤ
  pub wait_timeout : ℕ → (maxevents : ℤ) → Timeout → (sigmask : ℕ) → Effect W ℤ
  pub wait_basic_timeout : ℕ → (maxevents : ℤ) → Timeout → (sigmask : ℕ) → Effect W ℤ
  pub rearm_classes_batch : ℕ → (fds classes : List ℕ) (count : ℤ) → Effect W Status
  -- `fd_table_count`, read under `fd_table_lock`
  pub fd_table_count : ℕ → W → ℕ
  -- Winsock's `closesocket`, with the value of `WSAGetLastError` if it fails
  pub closesocket : ℕ → W → Option ℕ × W
