-- ===== src/Tests/Paths.antt =====
-- A path of the main loop from `Init` on over the steps of Tests/Steps, and what holds at its end.
use cpp_coroutine.EventMgr.Reach.{Reach}
