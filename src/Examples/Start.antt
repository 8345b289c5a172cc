-- ===== src/Examples/Start.antt =====
-- `main` of test1/main1.cpp and test2/main2.cpp, up to the loop. The addresses of the object of
-- `CFdEpoll` and of the local `CServerSocket` are arguments, and so are those of the check and of the
-- callback.
pub mod Ready
use cpp_coroutine.Common.{ℕ, [], Option, none, some}
use cpp_coroutine.Common.Int.{negsuc}
use cpp_coroutine.Util.{IoResult, port_tcp}
use cpp_coroutine.CoroutineMgr.{Sys, initial, init, ◌>>=◌}
use cpp_coroutine.Fd.{Handles, construct, get}
use cpp_coroutine.Fd.Sequences.{no_handles}
use cpp_coroutine.Fd.Sockets.{
  Sockets, SocketCalls, new_server, get_type, get_cb_check, init_server, init_monitor,
}
use cpp_coroutine.EventMgr.Net.{Calls, Net, register_package}
use cpp_coroutine.EventMgr.Handlers.{add_server_fd}

module _ {O : Type 0} (sys : Calls O) (so : SocketCalls O) where
  -- The object of the monitor, before `Init`.
  abbrev pub no_sockets : ℕ → O → Sockets O
  no_sockets x o = record {
    handles = construct x (negsuc 0) no_handles;
    servers = [];
    remotes = [];
    os = o;
  }

  -- The results of `Init` of the monitor and of the socket, and of `RegisterPackage`, are not used;
  -- that of `CoroutineMgr::Init` decides whether the loop is reached. `garbage` is what `m_active`
  -- holds before.
  unfoldable pub start : ℕ → ℕ → ℕ → ℕ → ℕ → ℕ → O → Option (IoResult × Handles × Sys (Net O))
  unfolding init_monitor init_server new_server get get_type get_cb_check add_server_fd
      register_package init initial construct
  start port check process monitor server garbage o = do
    (_, s) ← init_monitor so monitor (no_sockets monitor o)
    (_, t) ← init_server so server (new_server server port port_tcp check s)
    fd ← get server t.handles
    let w : Net O = record { fds = []; pkgcallback = []; os = t.os }
    type ← get_type server t
    cb ← get_cb_check server t
    u ← add_server_fd sys fd type cb (initial garbage w)
    let (r, v) = init (record u { world = (register_package check process u.world).1 })
    some (r, t.handles, v)

  -- The two programs.
  abbrev pub start_test1 : ℕ → ℕ → ℕ → ℕ → ℕ → O → Option (IoResult × Handles × Sys (Net O))
  start_test1 = start 30000

  abbrev pub start_test2 : ℕ → ℕ → ℕ → ℕ → ℕ → O → Option (IoResult × Handles × Sys (Net O))
  start_test2 = start 31000
