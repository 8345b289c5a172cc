-- ===== src/EventMgr/Send.antt =====
-- lib/eventmgr/EventMgr.cpp, `tcpsend`. The calls of the system are arguments, and what they change
-- is part of what the program shares: the clock, `send`, and the two calls of `epoll_ctl`.
pub mod Loop
pub mod Total
use cpp_coroutine.Common.{
  ℕ, zero, suc, ◌+◌, ◌%◌, ◌^◌, ◌||◌, true, false, List, Option, none, some, ◌==◌, if◌then◌else◌,
  length, drop,
}
use cpp_coroutine.Common.Int.{ℤ, pos, negsuc}
use cpp_coroutine.Util.{IoResult, io_ok, io_err, io_arg_invalid, io_timeout, io_remote_close}
use cpp_coroutine.Util.Timer.{Timeval, TimerMs, is_timeout, left_time}
use cpp_coroutine.EventMgr.Call.{Call, ret, fault, step, ◌>>=◌, ◌>>◌, change, shared, pause}

-- What `send` returns: a count, or -1 with `errno`.
pub data SendResult : Type 0 where
  accepted refused : ℕ → SendResult

-- How the loop ends: with a result, or before the wait for a socket that is full.
pub data SendEnd : Type 0 where
  returned : IoResult → SendEnd
  blocked : SendEnd

-- `EINTR`, and `EAGAIN`, which is `EWOULDBLOCK` too.
abbrev pub eintr : ℕ
eintr = 4

abbrev pub eagain : ℕ
eagain = 11

module _ {W : Type 0} (now : W → Timeval) (send : ℕ → List ℕ → W → SendResult × W) where
  -- The loop of `tcpsend`, `total` bytes sent; `none` where the fuel ends.
  unfoldable pub send_loop : ℕ → ℕ → TimerMs → List ℕ → ℕ → W → Option (SendEnd × W)
  unfolding is_timeout
  send_loop zero server timer src total w = none
  send_loop (suc fuel) server timer src total w = elim (is_timeout timer (now w)) [
    | true ↦ some (returned io_timeout, w)
    | false ↦
        let (got, w') = send server (drop total src) w in
        elim got [
          | accepted n ↦ elim (n == 0) [
            | true ↦ some (returned io_remote_close, w')
            | false ↦ elim (total + n == length src) [
              | true ↦ some (returned io_ok, w')
              | false ↦ send_loop fuel server timer src (total + n) w'
            ]
          ]
          | refused errno ↦
              if errno == eintr || errno == eagain
              then some (blocked, w')
              else some (returned io_err, w')
        ]
  ]

  module _ (monitor_add monitor_del : ℕ → W → W) where
    -- The wait for a full socket; what is left of the time is read after `Add`.
    abbrev pub wait_writable : ℕ → TimerMs → Call W IoResult
    wait_writable server timer = do
      change (monitor_add server)
      w ← shared
      pause (left_time timer (now w) % 2 ^ 32)
      change (monitor_del server)
      ret io_ok

    -- `tcpsend`
    unfoldable pub tcpsend : ℤ → TimerMs → List ℕ → Call W IoResult
    unfolding send_loop
    tcpsend (negsuc n) timer src = ret io_arg_invalid
    tcpsend (pos server) timer src =
        step
          (λ w. elim (send_loop (suc (length src)) server timer src 0 w) [
            | none ↦ w
            | some r ↦ r.1
          ])
          (λ w. elim (send_loop (suc (length src)) server timer src 0 w) [
            | none ↦ fault
            | some r ↦ elim r.0 [
              | returned result ↦ ret result
              | blocked ↦ wait_writable server timer
            ]
          ])
