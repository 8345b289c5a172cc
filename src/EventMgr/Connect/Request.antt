-- ===== src/EventMgr/Connect/Request.antt =====
-- lib/eventmgr/EventMgr.cpp: `tcpsendrecv` over a connection that is there, up to its wait.
use cpp_coroutine.Common.{
  ℕ, suc, Bool, ◌%◌, ◌^◌, ◌≡◌, ◌≢◌, ◌<◌, refl, ap, ◌∙◌, false, List, Option, some, ◌==◌, length,
  arith, if◌then◌else◌,
}
use cpp_coroutine.Common.Int.{ℤ, pos, ltb_ℤ}
use cpp_coroutine.Util.{port_tcp, IoResult, io_ok, io_err, fd_read, fd_write}
use cpp_coroutine.Util.MemData.{MemData}
use cpp_coroutine.Util.Timer.{TimerMs, timer_ms, left_time}
use cpp_coroutine.FdKey.{FdKey, Text}
use cpp_coroutine.FdMgr.{FdData, ip_port_key}
use cpp_coroutine.FdMgr.Nodes.{find_node, load, store}
use cpp_coroutine.EventMgr.Call.{Call, ret, Pause, returns, waits, until_wait, change, ◌>>=◌, ◌>>◌}
use cpp_coroutine.EventMgr.Call.Laws.{then_do, until_wait->>=}
use cpp_coroutine.EventMgr.Send.{SendEnd, returned, blocked, tcpsend}
use cpp_coroutine.EventMgr.Send.Loop.{IsSend, Sent, after_loop, tcpsend_lem, send_loop-keeps}
use cpp_coroutine.EventMgr.Net.{Calls, Net}
use cpp_coroutine.EventMgr.Replies.{load-store}
use cpp_coroutine.EventMgr.Connect.{
  tcpconnect, tcpsendrecv, sequel, await_answer, take_answer, net_add, net_del, net_now, net_send,
}
use cpp_coroutine.EventMgr.Connect.Steps.{entered, tcpconnect_found}

module _ {O : Type 0} (sys : Calls O) where
  await_step :
      (fd seq : ℤ) (timer : TimerMs) (p : FdKey) (dst : MemData) (d : FdData) (w : Net O)
      → load p w.fds ≡ some d
      → let v : Net O = if length d.seq_to_coroutine == 1 then net_add sys fd_read fd w else w in
        until_wait (await_answer sys fd timer seq p dst) w
        ≡ waits (left_time timer (net_now sys v) % 2 ^ 32) (take_answer sys fd seq p dst) v
  unfolding await_answer until_wait
  await_step fd seq timer p dst d w at = rw (at, until_wait)

  -- `tcpsend` as `tcpsendrecv` calls it.
  abbrev pub sending : ℤ → TimerMs → List ℕ → Call (Net O) IoResult
  sending fd timer src =
      tcpsend (net_now sys) (net_send sys) (λ n. net_add sys fd_write (pos n))
        (λ n. net_del sys (pos n)) fd timer src

  module _ (seq_at : ℕ → List ℕ → ℕ → Option ℤ) where
    to_connect :
        (id port timeoutms cb_seq cb_check : ℕ) (ip : Text) (src : List ℕ) (dst : MemData) (seq : ℤ)
        (w : Net O)
        → port ≢ 0
        → cb_check ≢ 0
        → cb_seq ≢ 0
        → seq_at cb_seq src (length src) ≡ some seq
        → let timer = timer_ms timeoutms (net_now sys w) in
          until_wait
            (tcpsendrecv sys seq_at id (some ip) port (some src) dst timeoutms cb_seq cb_check)
            w
          ≡ then_do (until_wait (tcpconnect sys id ip port timeoutms cb_seq cb_check seq) w) (λ r.
            if ltb_ℤ r.0 (pos 0)
            then ret (io_err, dst)
            else (sending r.0 timer src >>= sequel sys r.0 timer seq r.1 dst))
    unfolding tcpsendrecv until_wait find_node
    to_connect id port timeoutms cb_seq cb_check ip src dst seq w hp hc hs known =
        let port_set : (port == 0) ≡ false = ground arith in
        let check_set : (cb_check == 0) ≡ false = ground arith in
        let seq_set : (cb_seq == 0) ≡ false = ground arith in
        rw (port_set, check_set, seq_set, known, until_wait)
          (until_wait->>= (tcpconnect sys id ip port timeoutms cb_seq cb_check seq)
            (λ r.
              if ltb_ℤ r.0 (pos 0)
              then ret (io_err, dst)
              else (sending r.0 (timer_ms timeoutms (net_now sys w)) src
                  >>= sequel sys r.0 (timer_ms timeoutms (net_now sys w)) seq r.1 dst))
            w)

    -- How `tcpsendrecv` stands once `tcpsend` has ended or waits.
    abbrev pub after_send :
        ℕ
        → TimerMs
        → ℤ
        → FdKey
        → FdData
        → MemData
        → SendEnd
        → Net O
        → Pause (Net O) (IoResult × MemData)
    after_send n timer seq p d dst (returned r) v = elim r [
      | io_ok ↦
          let u : Net O =
            if length d.seq_to_coroutine == 1 then net_add sys fd_read (pos n) v else v in
          waits (left_time timer (net_now sys u) % 2 ^ 32) (take_answer sys (pos n) seq p dst) u
      | failure ↦ returns (failure, dst) v
    ]
    after_send n timer seq p d dst blocked v =
        let u : Net O = net_add sys fd_write (pos n) v in
        waits (left_time timer (net_now sys u) % 2 ^ 32)
          (change (net_del sys (pos n)) >> await_answer sys (pos n) timer seq p dst) u

    after_loop-after_send :
        (n : ℕ) (timer : TimerMs) (seq : ℤ) (p : FdKey) (d : FdData) (dst : MemData)
        (sent : Net O → ℕ → List ℕ) (ok : IsSend (net_now sys) (net_send sys) sent) (out : SendEnd)
        (v : Net O)
        → load p v.fds ≡ some d
        → then_do
            (after_loop
              (net_now sys)
              (net_send sys)
              sent
              ok
              (λ n. net_add sys fd_write (pos n))
              (λ n. net_del sys (pos n))
              n
              timer
              out
              v)
            (sequel sys (pos n) timer seq (some p) dst)
          ≡ after_send n timer seq p d dst out v
    unfolding sequel until_wait
    after_loop-after_send n timer seq p d dst sent ok (returned io_ok) v at =
        await_step (pos n) seq timer p dst d v at
    after_loop-after_send n timer seq p d dst sent ok (returned r) v at = refl
    after_loop-after_send n timer seq p d dst sent ok blocked v at = refl

    -- `tcpsendrecv` of at least one byte over a connection that is there, with all callbacks set
    -- and a `send` that accepts at most what it is given: the call is entered in the table under
    -- its sequence number with its buffer cleared, and on the descriptor of that connection a
    -- prefix of the bytes is sent, and nothing on another descriptor. If the loop of `tcpsend`
    -- ends with `IO_OK`, all are sent, and it waits for the answer for what is left of the timer,
    -- the socket being watched if the call is the only one; with another result it returns that
    -- one; and for a full socket it waits, and then goes on to wait for the answer as if all were
    -- sent.
    pub tcpsendrecv_found :
        (id port timeoutms cb_seq cb_check n : ℕ) (ip : Text) (src : List ℕ) (dst : MemData)
        (seq : ℤ) (w : Net O) (p : FdKey) (d : FdData) (sent : Net O → ℕ → List ℕ)
        → IsSend (net_now sys) (net_send sys) sent
        → port ≢ 0
        → cb_check ≢ 0
        → cb_seq ≢ 0
        → 0 < length src
        → seq_at cb_seq src (length src) ≡ some seq
        → find_node (ip_port_key ip port port_tcp) w.fds ≡ some p
        → load p w.fds ≡ some d
        → d.fd ≡ pos n
        → let w1 : Net O = record w { fds = store p (entered sys id seq d) w.fds } in
          (out : SendEnd) × (v : Net O) × Sent
            (net_now sys)
            (net_send sys)
            sent
            n
            (sent w1)
            src
            out
            v
          × (v.fds ≡ store p (entered sys id seq d) w.fds)
          × (until_wait
                (tcpsendrecv sys seq_at id (some ip) port (some src) dst timeoutms cb_seq cb_check)
                w
              ≡ after_send n
                  (timer_ms timeoutms (net_now sys w))
                  seq
                  p
                  (entered sys id seq d)
                  dst
                  out
                  v)
    tcpsendrecv_found id port timeoutms cb_seq cb_check n ip src dst seq w p d sent ok hp hc hs more
          known here at fd_at =
        let timer : TimerMs = timer_ms timeoutms (net_now sys w) in
        let w1 : Net O = record w { fds = store p (entered sys id seq d) w.fds } in
        let (out, v, s, loop, e) =
          tcpsend_lem (net_now sys) (net_send sys) sent ok (λ n. net_add sys fd_write (pos n))
            (λ n. net_del sys (pos n)) n timer src w1 more in
        let kept : v.fds ≡ w1.fds =
          send_loop-keeps (net_now sys) (net_send sys) (λ (x : Net O). x.fds) (λ server src w. refl)
            (suc (length src)) n timer src 0 w1 v out loop in
        let above : ltb_ℤ (pos n) (pos 0) ≡ false = ground arith in
        let rest : ℤ × Option FdKey → Call (Net O) (IoResult × MemData) = λ r.
          if ltb_ℤ r.0 (pos 0)
          then ret (io_err, dst)
          else (sending r.0 timer src >>= sequel sys r.0 timer seq r.1 dst) in
        (
          out,
          v,
          s,
          kept,
          to_connect id port timeoutms cb_seq cb_check ip src dst seq w hp hc hs known
              ∙ (ap (λ r. then_do r rest)
                    (tcpconnect_found sys id port timeoutms cb_seq cb_check ip seq p d w here at)
                  ∙ (ap (λ (z : ℤ). until_wait (rest (z, some p)) w1) fd_at
                      ∙ (ap
                            (λ (b : Bool).
                              until_wait
                                (if b
                                  then ret (io_err, dst)
                                  else (sending (pos n) timer src
                                      >>= sequel sys (pos n) timer seq (some p) dst))
                                w1)
                            above
                          ∙ (until_wait->>= (sending (pos n) timer src)
                                (sequel sys (pos n) timer seq (some p) dst) w1
                              ∙ (ap (λ r. then_do r (sequel sys (pos n) timer seq (some p) dst)) e
                                  ∙ after_loop-after_send n timer seq p (entered sys id seq d) dst
                                      sent ok out v
                                      (ap (load p) kept
                                        ∙ load-store p (entered sys id seq d) d w.fds at)))))),
        )
