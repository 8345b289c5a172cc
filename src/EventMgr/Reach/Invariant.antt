-- ===== src/EventMgr/Reach/Invariant.antt =====
-- lib/eventmgr/EventMgr.h and CoroutineMgr.h: what holds between two steps of the main loop.
use cpp_coroutine.Common.{ℕ, List, Option}
use cpp_coroutine.Common.Int.{ℤ}
use cpp_coroutine.FdKey.{FdKey}
use cpp_coroutine.CoroutineMgr.{Body, ReqData, Sys}
use cpp_coroutine.CoroutineMgr.Invariant.{IsValid}
use cpp_coroutine.CoroutineMgr.Start.{Issued}
use cpp_coroutine.EventMgr.Net.{Calls, Net}
use cpp_coroutine.EventMgr.Reach.{Reach}

module _ {O : Type 0} (sys : Calls O) (check_at seq_at : ℕ → List ℕ → ℕ → Option ℤ)
    (callback : ℕ → ReqData → Body (Net O)) where
  -- What holds between two steps.
  pub record IsBetween (s : Sys (Net O)) : Type 0 where
    pub valid : IsValid s
    pub issued : Issued s
