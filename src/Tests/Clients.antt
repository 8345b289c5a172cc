-- ===== src/Tests/Clients.antt =====
-- The callback of test1 over a connection to the program of test2.
use cpp_coroutine.Common.{◌≡◌, refl, [], ◌∷◌, some, arith}
use cpp_coroutine.Common.Int.{pos}
use cpp_coroutine.OrderedMap.{find}
use cpp_coroutine.Util.{port_tcp, io_ok, io_err}
use cpp_coroutine.Util.MemData.{MemData, content, empty}
use cpp_coroutine.Util.Timer.{timer_ms}
use cpp_coroutine.FdKey.{
  FdKey, ip_port_empty, ip_port_eq, ip_port_lt, text_eq, text_lt, key_lt, fd_eq, fd_empty,
}
use cpp_coroutine.FdKey.Order.{conn_key}
use cpp_coroutine.FdMgr.{FdData, fd_data, other, ip_port_key, lower_bound}
use cpp_coroutine.FdMgr.Lookup.{table}
use cpp_coroutine.FdMgr.Nodes.{find_node, load, store, key_same}
use cpp_coroutine.CoroutineMgr.{Sys}
use cpp_coroutine.HeadPkg.{HeadPkg}
use cpp_coroutine.EventMgr.Call.{returns, until_wait, ◌>>=◌}
use cpp_coroutine.EventMgr.Call.Laws.{then_do}
use cpp_coroutine.EventMgr.Send.{SendEnd}
use cpp_coroutine.EventMgr.Send.Loop.{Sent}
use cpp_coroutine.EventMgr.Receive.{received}
use cpp_coroutine.EventMgr.Net.{Calls, Net}
use cpp_coroutine.EventMgr.Handlers.{do_read_tcp}
use cpp_coroutine.EventMgr.Kept.{IsSameSched}
use cpp_coroutine.EventMgr.Connect.{net_now, net_send, take_answer}
use cpp_coroutine.EventMgr.Connect.Request.{after_send}
use cpp_coroutine.EventMgr.Connect.Steps.{entered}
use cpp_coroutine.Examples.{App, new_pkg, within}
use cpp_coroutine.Examples.Packages.{IsPackage, checks, seqs}
use cpp_coroutine.Examples.Calls.{pause_within, after_last}
use cpp_coroutine.Examples.Client.{forward, process, server_ip}
use cpp_coroutine.Examples.Client.Asking.{request_text, client_asks}
use cpp_coroutine.Examples.Client.Forward.{forward_timer}
use cpp_coroutine.Examples.Client.Delivered.{answer_delivered}
use cpp_coroutine.Examples.Client.Lost.{answer_lost}
use cpp_coroutine.Tests.Sample.{
  Os, sys, net, sent, send-IsSend, conn, plain, server, address, sample, sample-IsValid, call_found,
  call-IsValid, call, buffer, one_timer, conn_loaded,
}
use cpp_coroutine.Tests.Programs.{rd, reply, replied, replied-IsPackage}
use cpp_coroutine.Tests.Codes.{codes, messages}

-- A connection to the other program, with no call yet.
abbrev idle_conn : FdData
idle_conn = record (fd_data (pos 6)) { port_type = port_tcp; check = 1; seq = 2; fd_state = other }

abbrev there : FdKey
there = conn_key (record { ip = server_ip; port = 31000; type = port_tcp }) 6

abbrev joined : Net Os
joined = record net {
  fds = table plain ((record { ip = server_ip; port = 31000; type = port_tcp }, 6, idle_conn) ∷ []);
}

abbrev app : App Os
app = record { net = joined; id = 7 }

joined_found : find_node (ip_port_key server_ip 31000 port_tcp) joined.fds ≡ some there
unfolding find_node lower_bound key_lt ip_port_lt ip_port_eq text_eq text_lt ip_port_empty fd_empty
    fd_eq
joined_found = refl

joined_loaded : load there joined.fds ≡ some idle_conn
unfolding load key_same ip_port_eq text_eq fd_eq
joined_loaded = refl

client_asks_example :
    (pkg : HeadPkg) × IsPackage codes pkg.packed 8 (request_text sys codes messages joined)
    × ((out : SendEnd) × (v : Net Os) × Sent
          (net_now sys)
          (net_send sys)
          sent
          6
          (λ j. [])
          pkg.packed
          out
          v
        × (v.fds ≡ store there (entered sys 2 (pos 8) idle_conn) joined.fds)
        × (until_wait (process sys codes messages 2 1 2 (some (rd []))) app
            ≡ then_do
                (pause_within 8 (
                  after_send sys
                    (seqs codes)
                    6
                    (timer_ms 90000 (net_now sys joined))
                    (pos 8)
                    there
                    (entered sys 2 (pos 8) idle_conn)
                    empty
                    out
                    v))
                (forward sys codes messages (rd []) pkg)))
client_asks_example =
    client_asks sys codes messages 2 1 2 6 (rd []) app there idle_conn sent send-IsSend
      (λ h. omega arith) (λ h. omega arith) (omega arith) joined_found joined_loaded refl

-- The answer comes on the connection.
abbrev answering : Calls Os
answering = record sys { recv = λ fd room o. (received replied, o) }

abbrev asked : FdKey
asked = conn_key (address server) 6

answer_delivered_example :
    (t : Sys (Net Os)) × (do_read_tcp answering checks (seqs codes) (pos 6) asked sample
      ≡ some (io_ok, t))
    × ((got : MemData) × (u : Net Os) × (out : SendEnd) × (v : Net Os) × (until_wait
            (take_answer answering (pos 6) (pos 5) asked buffer)
            t.world
          ≡ returns (io_ok, got) u)
        × (content got ≡ replied)
        × Sent (net_now answering) (net_send answering) sent 4 net.os (104 ∷ 105 ∷ []) out v
        × (v.fds ≡ u.fds)
        × (until_wait
              (within (take_answer answering (pos 6) (pos 5) asked buffer)
                >>= forward answering codes messages (rd []) new_pkg)
              (record { net = t.world; id = 7 })
            ≡ after_last answering sent send-IsSend 4
                (forward_timer answering codes messages u)
                7
                out
                v))
answer_delivered_example =
    answer_delivered answering codes messages (λ o. o)
      (record { recv_keeps = λ fd room o j. refl; del_keeps = λ fd o j. refl }) send-IsSend 6 4 1500
      5 7 0 (0 ∷ 0 ∷ 7 ∷ 6 ∷ 1 ∷ 2 ∷ 3 ∷ 1 ∷ 104 ∷ 105 ∷ []) asked sample conn (pos 6) call buffer
      (rd []) new_pkg reply sample-IsValid conn_loaded refl (λ h. omega arith) (λ h. omega arith)
      refl (omega arith) replied-IsPackage call_found call-IsValid one_timer refl (omega arith)

-- The call has number 6, and the answer number 5.
abbrev waiting : Sys (Net Os)
waiting = record sample {
  world = record joined {
    fds = table plain (
        (
          record { ip = server_ip; port = 31000; type = port_tcp },
          6,
          entered answering 1 (pos 6) idle_conn,
        )
        ∷ []);
  };
}

waiting_loaded : load there waiting.world.fds ≡ some (entered answering 1 (pos 6) idle_conn)
unfolding load key_same ip_port_eq text_eq fd_eq
waiting_loaded = refl

answer_lost_example :
    (t : Sys (Net Os)) × (do_read_tcp answering checks (seqs codes) (pos 6) there waiting
      ≡ some (io_err, t))
    × IsSameSched waiting t
    × (t.world.os ≡ net.os)
    × (t.world.fds ≡ waiting.world.fds)
unfolding find
answer_lost_example =
    answer_lost answering codes 6 0 1 5 4 (0 ∷ 0 ∷ 7 ∷ 6 ∷ 1 ∷ 2 ∷ 3 ∷ 1 ∷ 104 ∷ 105 ∷ [])
      (messages.serialize_rsp reply) there waiting idle_conn (omega arith) (omega arith)
      (λ h. omega arith) waiting_loaded refl (λ h. omega arith) (λ h. omega arith) refl
      (omega arith) replied-IsPackage
