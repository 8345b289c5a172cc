-- ===== src/CoroutineMgr/Rounds/Steps.antt =====
-- lib/eventmgr/CoroutineMgr.h: the loop of `ScheduleAll` at a node, by its state.
use cpp_coroutine.Common.{ℕ, zero, suc, ◌≡◌, ◌≢◌, refl, none, some, arith}
use cpp_coroutine.OrderedMap.{find, after}
use cpp_coroutine.Util.{ready, wait, end}
use cpp_coroutine.Util.Timer.{Timeval}
use cpp_coroutine.CoroutineMgr.{Body, Context, Sys, ReqData, destroy, switch_to, schedule_from}

module _ {W : Type 0} where
  module _ (clock : W → Timeval) (callback : ℕ → ReqData → Body W) where
    pub step_main :
        (fuel k : ℕ) (s : Sys W) (c : Context W)
        → find k s.idtonode ≡ some c
        → k ≡ 0
        → schedule_from clock callback (suc fuel) (some k) s
          ≡ schedule_from clock callback fuel (after k s.idtonode) s
    unfolding schedule_from
    step_main fuel k s c h z = ground arith

    pub step_wait :
        (fuel k : ℕ) (s : Sys W) (c : Context W)
        → find k s.idtonode ≡ some c
        → k ≢ 0
        → c.state ≡ wait
        → schedule_from clock callback (suc fuel) (some k) s
          ≡ schedule_from clock callback fuel (after k s.idtonode) s
    unfolding schedule_from
    step_wait fuel k s c h n st = ground arith

    pub step_end :
        (fuel k : ℕ) (s : Sys W) (c : Context W)
        → find k s.idtonode ≡ some c
        → k ≢ 0
        → c.state ≡ end
        → schedule_from clock callback (suc fuel) (some k) s
          ≡ schedule_from clock callback fuel (after k s.idtonode) (destroy s c.req.id).1
    unfolding schedule_from
    step_end fuel k s c h n st = ground arith

    pub step_ready :
        (fuel k : ℕ) (s t : Sys W) (c : Context W)
        → find k s.idtonode ≡ some c
        → k ≢ 0
        → c.state ≡ ready
        → switch_to clock callback k s ≡ some t
        → schedule_from clock callback (suc fuel) (some k) s
          ≡ schedule_from clock callback fuel (some k) t
    unfolding schedule_from
    step_ready fuel k s t c h n st e = ground arith

    pub step_done : (fuel : ℕ) (s : Sys W) → schedule_from clock callback fuel none s ≡ some s
    unfolding schedule_from
    step_done zero s = refl
    step_done (suc fuel) s = refl
