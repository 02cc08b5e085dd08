-- ===== src/Api/Public/Wait.antt =====
-- The guards that the five wait functions of src/wepoll_ex_api.c share.
use wepoll_ex.Prelude.{ℕ, ◌≤◌, ◌<◌, ◌≡◌, refl, false, some, arith}
use wepoll_ex.Prelude.Int.{ℤ, pos}
use wepoll_ex.Api.Table.{Shared}
use wepoll_ex.Api.Port.{PortApi}
use wepoll_ex.Api.Call.{Machine, minus_one, run}
use wepoll_ex.Api.Call.Balance.{Open, with_port-Open}
use wepoll_ex.Api.Public.{max_events, wait_basic_timeout, epoll_pwait, epoll_wait_ex}
use wepoll_ex.Wait.{from_milliseconds}

-- The number of events asked for is from 1 to the limit.
abbrev pub CountFits : ℤ → Type 0
CountFits maxevents = (n : ℕ) × (maxevents ≡ pos n) × (0 < n) × (n ≤ max_events)

module _ {W : Type 0} (api : PortApi W) (epfd maxevents : ℤ) (s sigmask : ℕ) (v : Shared)
    (m : Machine W) (o : Open epfd s v m.table) (fits : CountFits maxevents) where
  -- On an open descriptor, with a buffer and a number of events from 1 to the limit, `epoll_pwait` and
  -- `epoll_wait_ex` are the port's own wait, for the given time; the table of descriptors is as before.
  pub epoll_pwait-Open :
      (timeout : ℤ)
      → let basic = api.wait_basic_timeout v.port maxevents (from_milliseconds timeout) sigmask in
        (epoll_pwait api epfd maxevents false timeout sigmask m ≡ some (run basic m))
        × (epoll_wait_ex api epfd maxevents false timeout m
            ≡ some (run (api.wait v.port maxevents timeout 0) m))
        × ((run basic m).1.table ≡ m.table)
  unfolding epoll_pwait wait_basic_timeout epoll_wait_ex
  epoll_pwait-Open timeout =
      let (n, e, positive, small) = fits in
      (
        rw e (
            ground (
              arith,
              positive,
              small,
              with_port-Open api epfd s v minus_one
                  (λ port. api.wait_basic_timeout port (pos n) (from_milliseconds timeout) sigmask)
                  m o,
            )),
        rw e (
            ground (
              arith,
              positive,
              small,
              with_port-Open api epfd s v minus_one (λ port. api.wait port (pos n) timeout 0) m o,
            )),
        refl,
      )
