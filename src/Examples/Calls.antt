-- ===== src/Examples/Calls.antt =====
-- Calls on the sockets within a program that shares more than these, and sequences of them.
use cpp_coroutine.Common.{ℕ, suc, ◌≡◌, ◌<◌, refl, ap, ◌∙◌, List, length}
use cpp_coroutine.Common.Int.{pos}
use cpp_coroutine.Util.{fd_write}
use cpp_coroutine.Util.Timer.{TimerMs}
use cpp_coroutine.EventMgr.Call.{
  Call, ret, fault, step, sleep, Pause, returns, faulted, waits, until_wait, ◌>>=◌,
}
use cpp_coroutine.EventMgr.Call.Laws.{then_do, until_wait->>=}
use cpp_coroutine.EventMgr.Send.{SendEnd}
use cpp_coroutine.EventMgr.Send.Loop.{IsSend, Sent, after_loop, tcpsend_lem, send_loop-keeps}
use cpp_coroutine.EventMgr.Net.{Calls, Net}
use cpp_coroutine.EventMgr.Connect.{net_now, net_send, net_add, net_del}
use cpp_coroutine.EventMgr.Connect.Request.{sending}
use cpp_coroutine.Examples.{App, within}

module _ {O : Type 0} where
  module _ {A : Type 0} where
    -- Where such a call stands, by where the call on the sockets does.
    abbrev pub pause_within : ℕ → Pause (Net O) A → Pause (App O) A
    pause_within id (returns a v) = returns a (record { net = v; id = id })
    pause_within id faulted = faulted
    pause_within id (waits ms c v) = waits ms (within c) (record { net = v; id = id })

    pub until_wait-within :
        (c : Call (Net O) A) (w : App O)
        → until_wait (within c) w ≡ pause_within w.id (until_wait c w.net)
    unfolding until_wait within
    until_wait-within (ret a) w = refl
    until_wait-within fault w = refl
    until_wait-within (step f k) w = until_wait-within (k w.net) (record w { net = f w.net })
    until_wait-within (sleep ms c) w = refl

    -- A call on the sockets, and what comes after it.
    pub within_then :
        {B : Type 0} (c : Call (Net O) A) (f : A → Call (App O) B) (w : App O)
        → until_wait (within c >>= f) w ≡ then_do (pause_within w.id (until_wait c w.net)) f
    within_then c f w =
        until_wait->>= (within c) f w ∙ ap (λ p. then_do p f) (until_wait-within c w)

  module _ (sys : Calls O) (sent : Net O → ℕ → List ℕ)
      (ok : IsSend (net_now sys) (net_send sys) sent) where
    -- How a callback stands whose last act is `tcpsend`, after its loop: it returns 0, or waits
    -- for a full socket.
    abbrev pub after_last : ℕ → TimerMs → ℕ → SendEnd → Net O → Pause (App O) ℕ
    after_last server timer id out v =
        then_do
          (pause_within id (
            after_loop (net_now sys) (net_send sys) sent ok (λ n. net_add sys fd_write (pos n))
              (λ n. net_del sys (pos n)) server timer out v))
          (λ r. ret 0)

    -- The loop of `tcpsend` ends with a prefix of the bytes sent.
    pub last_send :
        (server : ℕ) (timer : TimerMs) (src : List ℕ) (w : App O)
        → 0 < length src
        → (out : SendEnd) × (v : Net O) × Sent
            (net_now sys)
            (net_send sys)
            sent
            server
            (sent w.net)
            src
            out
            v
          × (v.fds ≡ w.net.fds)
          × (until_wait (within (sending sys (pos server) timer src) >>= λ r. ret 0) w
              ≡ after_last server timer w.id out v)
    last_send server timer src w more =
        let (out, v, s, loop, e) =
          tcpsend_lem (net_now sys) (net_send sys) sent ok (λ n. net_add sys fd_write (pos n))
            (λ n. net_del sys (pos n)) server timer src w.net more in
        (
          out,
          v,
          s,
          send_loop-keeps (net_now sys) (net_send sys) (λ (x : Net O). x.fds) (λ server src w. refl)
              (suc (length src)) server timer src 0 w.net v out loop,
          within_then (sending sys (pos server) timer src) (λ r. ret 0) w
              ∙ ap (λ p. then_do (pause_within w.id p) (λ r. ret 0)) e,
        )
