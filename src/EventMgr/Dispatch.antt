-- ===== src/EventMgr/Dispatch.antt =====
-- lib/eventmgr/EventMgr.h, `CMonitorEpoll::RunOnce`: the timers, the wait for events and what is
-- done with each; and the main loop of test1/main1.cpp and test2/main2.cpp.
use cpp_coroutine.Common.{
  ℕ, zero, suc, ◌&&◌, Bool, true, false, List, [], ◌∷◌, Option, none, some, if◌then◌else◌,
}
use cpp_coroutine.Common.Int.{ℤ, to_int}
use cpp_coroutine.Util.{PortType, port_tcp, port_udp, IoResult, io_ok, io_err}
use cpp_coroutine.Util.Timer.{Timeval}
use cpp_coroutine.FdMgr.{FdData, FdType, connect}
use cpp_coroutine.FdKey.{FdKey}
use cpp_coroutine.FdMgr.Nodes.{node_of, load}
use cpp_coroutine.CoroutineMgr.{Body, ReqData, Sys, schedule_all, ◌>>=◌}
use cpp_coroutine.EventMgr.{run_expired}
use cpp_coroutine.EventMgr.Net.{
  Calls, Net, EpollEvent, happened, wait_failed, can_read, is_listen_fd,
}
use cpp_coroutine.EventMgr.Handlers.{unwatch, tcp_connect, new_req, do_read_tcp}

abbrev is_connect : FdType → Bool
is_connect t = elim t [ connect ↦ true | _ ↦ false ]

abbrev is_tcp : PortType → Bool
is_tcp t = elim t [ port_tcp ↦ true | port_udp ↦ false ]

module _ {O : Type 0} (sys : Calls O) where
  -- The clock of the scheduler.
  abbrev pub net_clock : Net O → Timeval
  net_clock w = sys.now w.os

  module _ (check_at seq_at : ℕ → List ℕ → ℕ → Option ℤ) where
    -- An event of the socket with the data `d`. What the handlers return is not used.
    unfoldable pub handle_event : EpollEvent → FdKey → FdData → Sys (Net O) → Option (Sys (Net O))
    handle_event ev p d s =
        if is_listen_fd d.fd_state
        then (if can_read ev.events then (do r ← new_req sys ev.fd d s; some r.1) else some s)
        else if can_read ev.events && is_tcp d.port_type
        then (do r ← do_read_tcp sys check_at seq_at ev.fd p s; some r.1)
        else some s

    -- The body of the loop over the events.
    unfoldable pub dispatch_event : EpollEvent → Sys (Net O) → Option (Sys (Net O))
    unfolding handle_event
    dispatch_event ev s = elim (node_of ev.fd s.world.fds) [
      | none ↦ some (unwatch sys ev.fd s)
      | some p ↦ do
        d ← load p s.world.fds
        if is_connect d.fd_state then tcp_connect ev.events p d s else handle_event ev p d s
    ]

    unfoldable pub dispatch : List EpollEvent → Sys (Net O) → Option (Sys (Net O))
    dispatch [] s = some s
    dispatch (ev ∷ rest) s = do t ← dispatch_event ev s; dispatch rest t

    -- `RunOnce` from the timers on; the milliseconds are passed as an `int`.
    unfoldable pub wait_events : ℕ → Sys (Net O) → Option (IoResult × Sys (Net O))
    wait_events ms s =
        let (res, os') = sys.epoll_wait (to_int ms) s.world.os in
        let t = record s { world = record (s.world) { os = os' } } in
        elim res [
          | wait_failed ↦ some (io_err, t)
          | happened events ↦ do u ← dispatch events t; some (io_ok, u)
        ]

    module _ (callback : ℕ → ReqData → Body (Net O)) where
      unfoldable pub run_once : Sys (Net O) → Option (IoResult × Sys (Net O))
      unfolding wait_events
      run_once s = do
        (ms, t) ← run_expired net_clock callback s
        elim ms [ none ↦ some (io_ok, t) | some ms ↦ wait_events ms t ]

      -- The main loop, a number of times; `fuel` is for each round of `ScheduleAll`.
      unfoldable pub main_loop : ℕ → ℕ → Sys (Net O) → Option (Sys (Net O))
      main_loop fuel zero s = some s
      main_loop fuel (suc n) s = do
        (r, t) ← run_once s
        u ← schedule_all net_clock callback fuel t
        main_loop fuel n u
