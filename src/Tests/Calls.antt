-- ===== src/Tests/Calls.antt =====
-- Calls of `tcpconnect` and `tcpsendrecv` on the sample.
use cpp_coroutine.Common.{◌≡◌, refl, false, [], ◌∷◌, none, some, arith}
use cpp_coroutine.Common.Int.{pos}
use cpp_coroutine.OrderedMap.{find}
use cpp_coroutine.Util.{port_tcp}
use cpp_coroutine.Util.Timer.{timer_ms}
use cpp_coroutine.FdKey.{FdKey, ip_port_empty, ip_port_eq, text_eq}
use cpp_coroutine.FdKey.Order.{conn_key}
use cpp_coroutine.FdMgr.{fd_data, get_conn}
use cpp_coroutine.FdMgr.Lookup.{find_conn}
use cpp_coroutine.FdMgr.Nodes.{store}
use cpp_coroutine.EventMgr.Call.{returns, until_wait}
use cpp_coroutine.EventMgr.Send.{SendEnd}
use cpp_coroutine.EventMgr.Send.Loop.{Sent}
use cpp_coroutine.EventMgr.Net.{Net}
use cpp_coroutine.EventMgr.Connect.{tcpconnect, tcpsendrecv, net_now, net_send}
use cpp_coroutine.EventMgr.Connect.Steps.{entered, tcpconnect_found, connect_refused}
use cpp_coroutine.EventMgr.Connect.Request.{after_send, tcpsendrecv_found}
use cpp_coroutine.Tests.Sample.{
  Os, sys, sent, send-IsSend, seq_at, server, elsewhere, address, conn, plain, conns, net, buffer,
  plain-IsSorted, conns-IsOrdered, conn_loaded, conn_found,
}

elsewhere_full : ip_port_empty (address elsewhere) ≡ false
unfolding ip_port_empty text_eq
elsewhere_full = refl

elsewhere_absent : find_conn (address elsewhere) conns ≡ none
unfolding ip_port_eq text_eq
elsewhere_absent = refl

eight_absent : find 8 plain ≡ none
unfolding find
eight_absent = refl

tcpconnect_found_run :
    until_wait (tcpconnect sys 2 server 80 100 2 1 (pos 9)) net
    ≡ returns
        (pos 6, some (conn_key (address server) 6))
        (record net {
          fds = store (conn_key (address server) 6) (entered sys 2 (pos 9) conn) net.fds;
        })
tcpconnect_found_run =
    tcpconnect_found sys 2 80 100 2 1 server (pos 9) (conn_key (address server) 6) conn net
      conn_found conn_loaded

connect_refused_example :
    (v : Net Os) × (until_wait (tcpconnect sys 2 elsewhere 80 100 2 1 (pos 9)) net
      ≡ returns (pos 2, none) v)
    × (get_conn elsewhere 80 port_tcp v.fds ≡ some (fd_data (pos 8)))
    × ((p : FdKey) × (x : Net Os) × (until_wait (tcpconnect sys 3 elsewhere 80 100 2 1 (pos 10)) v
          ≡ returns (pos 8, some p) x)
        × (x.os ≡ v.os))
connect_refused_example =
    connect_refused sys 2 3 80 100 2 1 8 111 elsewhere (pos 9) (pos 10) net plain conns
      plain-IsSorted conns-IsOrdered refl elsewhere_full elsewhere_absent eight_absent
      ((λ h. omega arith), tt) refl refl (λ h. omega arith)

tcpsendrecv_found_example :
    (out : SendEnd) × (v : Net Os) × Sent
      (net_now sys)
      (net_send sys)
      sent
      6
      (λ j. [])
      (1 ∷ 2 ∷ [])
      out
      v
    × (v.fds ≡ store (conn_key (address server) 6) (entered sys 2 (pos 5) conn) net.fds)
    × (until_wait (tcpsendrecv sys seq_at 2 (some server) 80 (some (1 ∷ 2 ∷ [])) buffer 100 2 1) net
        ≡ after_send sys seq_at 6
            (timer_ms 100 (record { tv_sec = 1; tv_usec = 0 }))
            (pos 5)
            (conn_key (address server) 6)
            (entered sys 2 (pos 5) conn)
            buffer
            out
            v)
tcpsendrecv_found_example =
    tcpsendrecv_found sys seq_at 2 80 100 2 1 6 server (1 ∷ 2 ∷ []) buffer (pos 5) net
      (conn_key (address server) 6) conn sent send-IsSend (λ h. omega arith) (λ h. omega arith)
      (λ h. omega arith) (omega arith) refl conn_found conn_loaded refl
