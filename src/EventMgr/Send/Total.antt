-- ===== src/EventMgr/Send/Total.antt =====
-- lib/eventmgr/EventMgr.cpp: `tcpsend` as a part of a callback.
use cpp_coroutine.Common.{
  ℕ, suc, ◌≡◌, List, [], ◌∷◌, ◌==◌, ◌||◌, true, some, length, arith, Bool-cases, inl, inr,
}
use cpp_coroutine.Common.Int.{ℤ, pos, negsuc}
use cpp_coroutine.Util.{io_timeout, io_remote_close, io_err}
use cpp_coroutine.Util.Timer.{Timeval, TimerMs, is_timeout}
use cpp_coroutine.EventMgr.Call.{ret, NoFault}
use cpp_coroutine.EventMgr.Send.{
  SendResult, SendEnd, returned, blocked, send_loop, tcpsend, wait_writable, eintr, eagain,
}
use cpp_coroutine.EventMgr.Send.Loop.{IsSend, tcpsend_lem, SendResult-cases}

module _ {W : Type 0} (now : W → Timeval) (send : ℕ → List ℕ → W → SendResult × W)
    (sent : W → ℕ → List ℕ) (ok : IsSend now send sent) (monitor_add monitor_del : ℕ → W → W) where
  -- With nothing to send one step is enough.
  loop_empty :
      (server : ℕ) (timer : TimerMs) (w : W)
      → (r : SendEnd × W) × (send_loop now send 1 server timer [] 0 w ≡ some r)
  unfolding send_loop
  loop_empty server timer w = elim (Bool-cases (is_timeout timer (now w))) [
    | inl over ↦ ((returned io_timeout, w), rw (over, send_loop))
    | inr at ↦ elim (SendResult-cases (send server [] w).0) [
      | inl (n, e) ↦
          let none_at : (n == 0) ≡ true = ground (arith, ok.at_most server [] w n e) in
          ((returned io_remote_close, (send server [] w).1), rw (at, e, none_at, send_loop))
      | inr (errno, e) ↦ elim (Bool-cases (errno == eintr || errno == eagain)) [
        | inl full ↦ ((blocked, (send server [] w).1), rw (at, e, full, send_loop))
        | inr failed ↦ ((returned io_err, (send server [] w).1), rw (at, e, failed, send_loop))
      ]
    ]
  ]

  loop_total :
      (server : ℕ) (timer : TimerMs) (src : List ℕ) (w : W)
      → (r : SendEnd × W) × (send_loop now send (suc (length src)) server timer src 0 w ≡ some r)
  loop_total server timer [] w = loop_empty server timer w
  loop_total server timer (b ∷ bs) w =
      let (out, w', _, e, _) =
        tcpsend_lem now send sent ok monitor_add monitor_del server timer (b ∷ bs) w
          (omega arith) in
      ((out, w'), e)

  after-NoFault :
      (server : ℕ) (timer : TimerMs) (out : SendEnd)
      → NoFault (elim out [
        | returned result ↦ ret result
        | blocked ↦ wait_writable now send monitor_add monitor_del server timer
      ])
  after-NoFault server timer (returned r) = tt
  after-NoFault server timer blocked = λ a b c. tt

  -- For a `send` that accepts at most what it is given, `tcpsend` never faults.
  pub tcpsend-NoFault :
      (server : ℤ) (timer : TimerMs) (src : List ℕ)
      → NoFault (tcpsend now send monitor_add monitor_del server timer src)
  unfolding tcpsend
  tcpsend-NoFault (negsuc n) timer src = tt
  tcpsend-NoFault (pos server) timer src =
      λ w. let (r, e) = loop_total server timer src w in rw e (after-NoFault server timer r.0)
