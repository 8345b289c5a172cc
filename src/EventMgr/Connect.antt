-- ===== src/EventMgr/Connect.antt =====
-- lib/eventmgr/EventMgr.cpp: `tcpconnect` and `tcpsendrecv`. The id of the coroutine that calls them
-- is an argument, and so is what the sequence function gives for a buffer. A pointer into the table
-- is the key of its node.
pub mod Steps
pub mod Request
use cpp_coroutine.Common.{
  ℕ, ◌+◌, ◌-◌, ◌%◌, ◌^◌, Bool, true, false, not, List, [], ◌∷◌, Option, none, some, ◌==◌, ltb,
  if◌then◌else◌, length,
}
use cpp_coroutine.Common.Int.{ℤ, pos, negsuc, ltb_ℤ}
use cpp_coroutine.OrderedMap
use cpp_coroutine.OrderedMap.{Map}
use cpp_coroutine.Util.{
  port_tcp, IoResult, io_ok, io_err, io_arg_invalid, fd_read, fd_write, fd_read_write, FdEvent,
}
use cpp_coroutine.Util.MemData
use cpp_coroutine.Util.MemData.{MemData, size}
use cpp_coroutine.Util.Timer.{Timeval, TimerMs, timer_ms, left_time}
use cpp_coroutine.FdKey.{FdKey, Text}
use cpp_coroutine.FdMgr
use cpp_coroutine.FdMgr.{FdData, SendRecv, other, connect, Table, ip_port_key, add_conn, fd_data}
use cpp_coroutine.FdMgr.Nodes.{find_node, load, store}
use cpp_coroutine.EventMgr.Call.{
  Call, ret, fault, step, sleep, ◌>>=◌, ◌>>◌, shared, change, ask, need, pause,
}
use cpp_coroutine.EventMgr.Send.{SendResult, tcpsend}
use cpp_coroutine.EventMgr.Net.{Calls, Net}
use cpp_coroutine.EventMgr.Handlers.{seq_key}

-- `EINPROGRESS`
abbrev pub einprogress : ℕ
einprogress = 115

-- `seq_to_coroutine[seq]`: an entry that is not there is made.
abbrev pub sendrecv_at : ℤ → Map SendRecv → SendRecv
sendrecv_at seq m = elim (OrderedMap.find (seq_key seq) m) [
  | none ↦ record { id = 0; recv_data = record { bytes = []; offset = 0 } }
  | some sr ↦ sr
]

module _ {O : Type 0} (sys : Calls O) where
  abbrev pub net_now : Net O → Timeval
  net_now w = sys.now w.os

  abbrev pub on_os : {A : Type 0} → (O → A × O) → Net O → A × Net O
  on_os f w = ((f w.os).0, record w { os = (f w.os).1 })

  abbrev pub net_send : ℕ → List ℕ → Net O → SendResult × Net O
  net_send fd src = on_os (sys.send fd src)

  -- `Add` and `Del` of the monitor.
  abbrev pub net_add : FdEvent → ℤ → Net O → Net O
  net_add fe fd w = record w { os = (sys.epoll_add fd fe w.os).1 }

  abbrev pub net_del : ℤ → Net O → Net O
  net_del fd w = record w { os = (sys.epoll_del fd w.os).1 }

  -- Reading and writing through `stFdData*`.
  abbrev pub load_node : FdKey → Call (Net O) FdData
  load_node p = do w ← shared; need (load p w.fds)

  abbrev pub store_node : FdKey → FdData → Call (Net O) (Unit {0})
  store_node p d = change (λ w. record w { fds = store p d w.fds })

  -- `tcpconnect` from `fd_state = E_OTHER` on: the call is entered under its sequence number.
  unfoldable pub connected : ℕ → ℤ → FdKey → Call (Net O) (ℤ × Option FdKey)
  unfolding MemData.clear
  connected id seq p = do
    d ← load_node p
    let sr = sendrecv_at seq d.seq_to_coroutine
    let sr' = record sr { id = id; recv_data = MemData.clear sr.recv_data }
    let d' = record (FdMgr.clear d) {
      fd_state = other;
      seq_to_coroutine = OrderedMap.put (seq_key seq) sr' d.seq_to_coroutine;
    }
    store_node p d'
    ret (d.fd, some p)

  -- `tcpconnect` while the connection is being made. Reading `last_op_ret` before it was assigned is
  -- a fault.
  unfoldable pub connecting : ℕ → ℕ → ℕ → ℕ → ℤ → ℕ → FdKey → Call (Net O) (ℤ × Option FdKey)
  unfolding connected
  connecting id timeout cb_seq cb_check seq n p = do
    d ← load_node p
    store_node p (record d {
      fd_state = connect;
      check = cb_check;
      seq = cb_seq;
      port_type = port_tcp;
      context_id = id;
    })
    change (net_add fd_read_write (pos n))
    pause timeout
    change (net_del (pos n))
    e ← load_node p
    store_node p (record e { context_id = 0 })
    r ← need e.last_op_ret
    elim r [
      | io_ok ↦ connected id seq p
      | _ ↦ do
        change (λ w. record w { fds = (FdMgr.destroy (pos n) w.fds).1 })
        ret (negsuc 1, none)
    ]

  -- The node that `Add` made.
  abbrev pub conn_node : ℕ → Text → ℕ → FdKey
  conn_node n ip port = record (ip_port_key ip port port_tcp) { socket_fd = pos n }

  -- `tcpconnect` with no connection to the address.
  unfoldable pub open_conn : ℕ → Text → ℕ → ℕ → ℕ → ℕ → ℤ → Call (Net O) (ℤ × Option FdKey)
  unfolding connecting connected
  open_conn id ip port timeout cb_seq cb_check seq = do
    made ← ask (on_os sys.socket)
    elim made [
      | none ↦ ret (negsuc 0, none)
      | some n ↦ do
        failure ← ask (on_os (sys.connect n ip port))
        w ← shared
        let added = add_conn (pos n) ip port port_tcp w.fds
        change (λ v. elim added [ none ↦ v | some m ↦ record v { fds = m } ])
        elim failure [
          | none ↦ do _ ← need added; connected id seq (conn_node n ip port)
          | some errno ↦ if not (errno == einprogress) then ret (pos 2, none) else (do
            _ ← need added
            connecting id timeout cb_seq cb_check seq n (conn_node n ip port))
        ]
    ]

  -- `tcpconnect`: the descriptor, or a failure, and `pdata`.
  unfoldable pub tcpconnect : ℕ → Text → ℕ → ℕ → ℕ → ℕ → ℤ → Call (Net O) (ℤ × Option FdKey)
  unfolding open_conn
  tcpconnect id ip port timeout cb_seq cb_check seq = do
    w ← shared
    elim (find_node (ip_port_key ip port port_tcp) w.fds) [
      | some p ↦ connected id seq p
      | none ↦ open_conn id ip port timeout cb_seq cb_check seq
    ]

  -- `tcpsendrecv` from the wait for the answer on: what becomes of `dst`.
  unfoldable pub take_answer : ℤ → ℤ → FdKey → MemData → Call (Net O) (IoResult × MemData)
  unfolding size
  take_answer fd seq p dst = do
    d ← load_node p
    sr ← need (OrderedMap.find (seq_key seq) d.seq_to_coroutine)
    if size sr.recv_data == 0 then ret (io_err, dst) else (do
      let rest = OrderedMap.erase (seq_key seq) d.seq_to_coroutine
      store_node p (record d { seq_to_coroutine = rest })
      change (λ w. elim rest [ [] ↦ net_del fd w | _ ∷ _ ↦ w ])
      ret (io_ok, sr.recv_data))

  -- `tcpsendrecv` with the request sent.
  unfoldable pub await_answer :
      ℤ → TimerMs → ℤ → FdKey → MemData → Call (Net O) (IoResult × MemData)
  unfolding take_answer
  await_answer fd timer seq p dst = do
    d ← load_node p
    change (λ w. if length d.seq_to_coroutine == 1 then net_add fd_read fd w else w)
    w ← shared
    pause (left_time timer (net_now w) % 2 ^ 32)
    take_answer fd seq p dst

  -- `tcpsendrecv` from the result of `tcpsend` on.
  unfoldable pub sequel :
      ℤ → TimerMs → ℤ → Option FdKey → MemData → IoResult → Call (Net O) (IoResult × MemData)
  unfolding await_answer
  sequel fd timer seq pdata dst io_ok = do p ← need pdata; await_answer fd timer seq p dst
  sequel fd timer seq pdata dst failure = ret (failure, dst)

  -- `tcpsendrecv`; `none` stands for a null pointer.
  unfoldable pub tcpsendrecv :
      (ℕ → List ℕ → ℕ → Option ℤ)
      → ℕ
      → Option Text
      → ℕ
      → Option (List ℕ)
      → MemData
      → ℕ
      → ℕ
      → ℕ
      → Call (Net O) (IoResult × MemData)
  unfolding tcpconnect sequel
  tcpsendrecv seq_at id none port src dst timeoutms cb_seq cb_check = ret (io_arg_invalid, dst)
  tcpsendrecv seq_at id (some ip) port none dst timeoutms cb_seq cb_check =
      ret (io_arg_invalid, dst)
  tcpsendrecv seq_at id (some ip) port (some src) dst timeoutms cb_seq cb_check =
      if port == 0
      then ret (io_arg_invalid, dst)
      else if cb_check == 0
      then ret (io_arg_invalid, dst)
      else (do
        start ← shared
        let timer = timer_ms timeoutms (net_now start)
        seq ← need (if cb_seq == 0 then none else seq_at cb_seq src (length src))
        (fd, pdata) ← tcpconnect id ip port timeoutms cb_seq cb_check seq
        if ltb_ℤ fd (pos 0) then ret (io_err, dst) else (do
          sent ←
              tcpsend net_now net_send (λ n. net_add fd_write (pos n)) (λ n. net_del (pos n)) fd
                timer src
          sequel fd timer seq pdata dst sent))
