-- ===== src/Api/Toy.antt =====
-- A port that keeps the set of its sockets and nothing more, as an instance of the interface of
-- Api/Port.antt, and a table with one open descriptor.
use wepoll_ex.Prelude.{ℕ, Bool, true, false, none, some, [], ◌∷◌, update, if◌then◌else◌}
use wepoll_ex.Prelude.Int.{pos}
use wepoll_ex.Status.{Status, ok, failed}
use wepoll_ex.Errno.Codes.{eexist, enoent}
use wepoll_ex.Errno.State.{set_errno, fresh_thread}
use wepoll_ex.Api.Table.{Table, Shared, Entry}
use wepoll_ex.Api.Port.{Effect, PortApi}
use wepoll_ex.Api.Call.{Machine}

abbrev pub Sockets : Type 0
Sockets = ℕ → Bool

abbrev pub quiet : {A : Type 0} → A → Effect Sockets A
quiet a (w, err) = (a, w, err)

abbrev pub insert : ℕ → Effect Sockets Status
insert fd (w, err) = if w fd then (failed, w, set_errno eexist err) else (ok, update w fd true, err)

abbrev pub require_there : ℕ → Effect Sockets Status
require_there fd (w, err) = if w fd then (ok, w, err) else (failed, w, set_errno enoent err)

abbrev pub remove : ℕ → Effect Sockets Status
remove fd (w, err) =
    if w fd then (ok, update w fd false, err) else (failed, w, set_errno enoent err)

abbrev pub toy : PortApi Sockets
toy = record {
  global_init = quiet ok;
  create = λ size flags. quiet (some 7);
  begin_close = λ port s. s;
  destroy = λ port (w, err). (ok, λ fd. false, err);
  validate_target = λ port fd adding. quiet ok;
  register = λ port fd events flags user_data user_ctx. insert fd;
  modify = λ port fd events flags user_data user_ctx. require_there fd;
  unregister = λ port fd. remove fd;
  shutdown_socket = λ port fd how. quiet ok;
  rearm = λ port fd. quiet ok;
  rearm_classes = λ port fd classes. quiet ok;
  wake = λ port. quiet ok;
  wake_event = λ port event. quiet ok;
  wait = λ port maxevents timeout_ms sigmask. quiet (pos 0);
  wait_timeout = λ port maxevents timeout sigmask. quiet (pos 0);
  wait_basic_timeout = λ port maxevents timeout sigmask. quiet (pos 0);
  rearm_classes_batch = λ port fds classes count. quiet ok;
  fd_table_count = λ port w. 0;
  closesocket = λ fd w. (none, w);
}

-- A record with `refs` calls in flight and `aliases` descriptors, the first of which is 1.
abbrev pub record_of : (refs aliases : ℕ) → Shared
record_of refs aliases = record {
  port = 7;
  refs = refs;
  aliases = aliases;
  closing = false;
  detached = false;
  drained = false;
}

abbrev pub entry_one : Entry
entry_one = record { fd = 1; shared = 1 }

abbrev pub table_of : Shared → Table
table_of v = record {
  buckets = update (λ b. []) 1 (entry_one ∷ []);
  next_fd = 2;
  shareds = record { cell = update (λ a. none) 1 (some v); fresh = 2; grants = [] };
  close_timeout_ms = 5000;
  close_timeout_count = 0;
  deferred_destroy_count = 0;
}

-- One socket, number 3, is registered.
abbrev pub machine_of : Shared → Machine Sockets
machine_of v = record {
  table = table_of v;
  world = update (λ fd. false) 3 true;
  err = fresh_thread;
}
