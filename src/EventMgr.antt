-- ===== src/EventMgr.antt =====
-- lib/eventmgr/EventMgr.h, `CMonitorEpoll::RunOnce`: what the main loop does with the timers before
-- it asks for events.
pub mod Wake
pub mod Call
pub mod Send
pub mod Receive
pub mod Net
pub mod Handlers
pub mod Dispatch
pub mod Requests
pub mod Replies
pub mod Accepts
pub mod Connect
pub mod Closing
pub mod Reach
pub mod Exchange
pub mod Kept
pub mod Udp
pub mod Listeners
pub mod Unknown
pub mod Hidden
pub mod Rounds
use cpp_coroutine.Common.{ℕ, Option, none, some, ◌==◌, if◌then◌else◌}
use cpp_coroutine.Util.Timer.{Timeval}
use cpp_coroutine.ExpireMgr.{next_wait_time}
use cpp_coroutine.CoroutineMgr.{Body, ReqData, Sys, set_ready, schedule, ◌>>=◌}

module _ {W : Type 0} (clock : W → Timeval) (callback : ℕ → ReqData → Body W) where
  -- `RunOnce` up to `epoll_wait`: with an expired coroutine it runs that one and is done, which is
  -- `none`; else it goes on to wait for the milliseconds.
  unfoldable pub run_expired : Sys W → Option (Option ℕ × Sys W)
  run_expired s =
      let (ms, id) = next_wait_time s.expire (clock s.world) in
      if id == 0
      then some (some ms, s)
      else (do t ← set_ready s id; u ← schedule clock callback id t; some (none, u))
