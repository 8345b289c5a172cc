-- ===== src/Tests/Sockets.antt =====
-- A system whose `bind` fails, a socket that listens on it, and the start of the programs.
use cpp_coroutine.Common.{ℕ, ◌≡◌, ◌⊎◌, refl, [], ◌∷◌, some, arith, true}
use cpp_coroutine.Common.Int.{pos, negsuc, ltb_ℤ}
use cpp_coroutine.OrderedMap.{find}
use cpp_coroutine.Util.{IoResult, io_ok, io_err, port_tcp, port_udp}
use cpp_coroutine.FdMgr.Lookup.{table}
use cpp_coroutine.CoroutineMgr.{Sys}
use cpp_coroutine.CoroutineMgr.Invariant as Sched
use cpp_coroutine.CoroutineMgr.Start.{Issued}
use cpp_coroutine.Fd.{Handles, get}
use cpp_coroutine.Fd.Objects.{IsHandles}
use cpp_coroutine.Fd.Sockets.{ServerSocket, Sockets, SocketCalls, init_server, init_client}
use cpp_coroutine.Fd.Sockets.Opening.{Listening}
use cpp_coroutine.Fd.Sockets.Servers.{Holds, init_server_lem}
use cpp_coroutine.Fd.Sockets.Clients.{Opened, init_client_lem}
use cpp_coroutine.EventMgr.Net.{Net}
use cpp_coroutine.EventMgr.Listeners.{listener_data}
use cpp_coroutine.Examples.Start.{start}
use cpp_coroutine.Examples.Start.Ready.{start_lem}
use cpp_coroutine.Tests.Sample.{Os, sys}
use cpp_coroutine.Tests.Handles.{three_handles, three_handles-IsHandles, three_at}

abbrev calls : SocketCalls Os
calls = record {
  socket = λ type o. (pos 9, o);
  reuse_addr = λ fd o. (pos 0, o);
  bind = λ fd a o. (negsuc 0, o);
  listen = λ fd n o. (pos 0, o);
  epoll_create = λ n o. (pos 8, o);
}

abbrev member : ServerSocket
member = record { m_port = 31000; m_type = port_tcp; m_cb_check = some 1 }

abbrev nothing_sent : Os
nothing_sent j = []

abbrev sockets : Sockets Os
sockets = record {
  handles = three_handles;
  servers = (3, member) ∷ [];
  remotes = [];
  os = nothing_sent;
}

member_found : find 3 sockets.servers ≡ some member
unfolding find
member_found = refl

init_server_lem_example :
    (r : IoResult) × (t : Sockets Os) × (init_server calls 3 sockets ≡ some (r, t))
    × (t.servers ≡ sockets.servers)
    × IsHandles t.handles
    × (((ltb_ℤ (pos 9) (pos 0) ≡ true) × (r ≡ io_err) × (t.handles ≡ three_handles))
        ⊎ ((n : ℕ) × (pos 9 ≡ pos n)
            × Holds calls 3 1 n three_handles t.handles
            × ((Listening calls (pos n) member nothing_sent × (r ≡ io_ok))
                ⊎ ((¬ Listening calls (pos n) member nothing_sent) × (r ≡ io_err)))))
init_server_lem_example =
    init_server_lem calls 3 1 sockets member three_handles-IsHandles three_at member_found

init_client_lem_run :
    Opened calls 3 1 sockets (pos 9, nothing_sent) (init_client calls port_udp 3 sockets)
init_client_lem_run = init_client_lem calls 3 1 sockets three_handles-IsHandles three_at port_udp

start_lem_example :
    (h : Handles) × (u : Sys (Net Os)) × (start sys calls 31000 1 7 100 200 5 nothing_sent
      ≡ some (io_ok, h, u))
    × IsHandles h
    × (get 200 h ≡ some (pos 9))
    × Sched.IsValid u
    × Issued u
    × (u.staticid ≡ 0)
    × (u.world.fds ≡ table ((9, listener_data 9 port_tcp 1) ∷ []) [])
    × (find 1 u.world.pkgcallback ≡ some 7)
start_lem_example =
    start_lem sys calls 31000 1 7 100 200 5 9 nothing_sent (λ h. omega arith) (λ h. omega arith)
      (λ h. omega arith) refl
