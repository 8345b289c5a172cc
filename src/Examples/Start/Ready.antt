-- ===== src/Examples/Start/Ready.antt =====
-- test1/main1.cpp and test2/main2.cpp: the state in which the programs come to their loop.
use cpp_coroutine.Common.{
  ℕ, ◌≡◌, ◌≢◌, refl, ap, ◌∙◌, [], ◌∷◌, none, some, ◌==◌, if◌then◌else◌, arith, inl, inr, true,
}
use cpp_coroutine.Common.Int.{ℤ, pos, negsuc, ltb_ℤ}
use cpp_coroutine.OrderedMap.{find, put}
use cpp_coroutine.OrderedMap.Laws.{find-put}
use cpp_coroutine.Util.{IoResult, io_ok, io_err, port_tcp, fd_read}
use cpp_coroutine.FdMgr.Lookup.{table}
use cpp_coroutine.CoroutineMgr.{Sys, initial, init, ◌>>=◌}
use cpp_coroutine.CoroutineMgr.Invariant.{IsValid}
use cpp_coroutine.CoroutineMgr.Start.{
  Issued, started, started-IsValid, started-Issued, init-started,
}
use cpp_coroutine.Fd.{Handles, construct, new_fd, get}
use cpp_coroutine.Fd.Objects.{IsHandles}
use cpp_coroutine.Fd.Making.{construct-IsHandles}
use cpp_coroutine.Fd.Sequences.{no_handles, no_handles-IsHandles}
use cpp_coroutine.Fd.Sockets.{
  Sockets, SocketCalls, new_server, init_server, init_epoll, init_monitor, sock_type, get_type,
  get_cb_check,
}
use cpp_coroutine.Fd.Sockets.Servers.{init_server_lem}
use cpp_coroutine.Fd.Sockets.Clients.{init_epoll_lem}
use cpp_coroutine.EventMgr.Net.{Calls, Net, register_package}
use cpp_coroutine.EventMgr.Handlers.{add_server_fd, watch}
use cpp_coroutine.EventMgr.Listeners.{listener_data, add_server_fd_lem}
use cpp_coroutine.Examples.Start.{no_sockets, start}

find-construct :
    (x y : ℕ) (fd : ℤ) (h : Handles)
    → find y (construct x fd h).objects ≡ (if x == y then some h.next else find y h.objects)
unfolding construct new_fd
find-construct x y fd h = find-put y x h.next h.objects

no_object : (x : ℕ) → find x no_handles.objects ≡ none
unfolding find
no_object x = refl

registered :
    {O : Type 0} (check process : ℕ) (w : Net O)
    → check ≢ 0
    → process ≢ 0
    → register_package check process w
      ≡ (io_ok, record w { pkgcallback = put check process w.pkgcallback })
unfolding register_package
registered check process w hc hp = ground arith

module _ {O : Type 0} (sys : Calls O) (so : SocketCalls O) where
  abbrev handles_at : ℕ → O → Handles
  handles_at x o = (no_sockets sys so x o).handles

  monitor-IsHandles : (x : ℕ) (o : O) → IsHandles (handles_at x o)
  monitor-IsHandles x o =
      construct-IsHandles x (negsuc 0) no_handles no_handles-IsHandles (no_object x)

  -- The state with the object of the socket, before its `Init`.
  made_server :
      (port check server : ℕ) (s : Sockets O)
      → IsHandles s.handles
      → find server s.handles.objects ≡ none
      → IsHandles (new_server server port port_tcp check s).handles
        × (find server (new_server server port port_tcp check s).handles.objects
            ≡ some s.handles.next)
        × (find server (new_server server port port_tcp check s).servers
            ≡ some (record { m_port = port; m_type = port_tcp; m_cb_check = some check }))
        × ((new_server server port port_tcp check s).os ≡ s.os)
  unfolding new_server
  made_server port check server s i absent = (
    construct-IsHandles server (negsuc 0) s.handles i absent,
    ground (arith, find-construct server server (negsuc 0) s.handles),
    ground (
      arith,
      find-put server server (record { m_port = port; m_type = port_tcp; m_cb_check = some check })
          s.servers,
    ),
    refl,
  )

  start_step :
      (port check process monitor server garbage n : ℕ) (o : O) (r1 r2 : IoResult) (s t : Sockets O)
      (u : Sys (Net O))
      → init_monitor so monitor (no_sockets sys so monitor o) ≡ some (r1, s)
      → init_server so server (new_server server port port_tcp check s) ≡ some (r2, t)
      → get server t.handles ≡ some (pos n)
      → find server t.servers
        ≡ some (record { m_port = port; m_type = port_tcp; m_cb_check = some check })
      → add_server_fd sys
          (pos n)
          port_tcp
          check
          (initial garbage (record { fds = []; pkgcallback = []; os = t.os }))
        ≡ some u
      → let v = init (record u { world = (register_package check process u.world).1 }) in
        start sys so port check process monitor server garbage o ≡ some (v.0, t.handles, v.1)
  unfolding start get_type get_cb_check
  start_step port check process monitor server garbage n o r1 r2 s t u e1 e2 e3 e4 e5 =
      rw (e1, e2, e3, e4, e5, ◌>>=◌)

  monitor_inits :
      (x : ℕ) (s t : Sockets O) (r : IoResult)
      → init_epoll so x s ≡ some (r, t)
      → (r' : IoResult) × (init_monitor so x s ≡ some (r', t))
  unfolding init_monitor
  monitor_inits x s t r e = (elim r [ io_ok ↦ io_ok | _ ↦ io_err ], rw (e, ◌>>=◌))

  -- No object of a server is made yet, whether or not `epoll_create` gave a descriptor.
  monitor_made :
      (monitor server : ℕ) (o : O)
      → monitor ≢ server
      → (r : IoResult) × (s : Sockets O) × (init_monitor so monitor (no_sockets sys so monitor o)
          ≡ some (r, s))
        × IsHandles s.handles
        × (find server s.handles.objects ≡ none)
        × (s.os ≡ (so.epoll_create 100 o).1)
  monitor_made monitor server o apart =
      let first : find server (handles_at monitor o).objects ≡ none =
        ground (arith, find-construct monitor server (negsuc 0) no_handles, no_object server) in
      let own : find monitor (handles_at monitor o).objects ≡ some 0 =
        ground (arith, find-construct monitor monitor (negsuc 0) no_handles) in
      let (r, s, e, i, _, os, ends) =
        init_epoll_lem so monitor 0 (no_sockets sys so monitor o) (monitor-IsHandles monitor o)
          own in
      let (r', e') = monitor_inits monitor (no_sockets sys so monitor o) s r e in
      (
        r',
        s,
        e',
        i,
        elim ends [
          | inl (_, _, same) ↦ ap (λ (h : Handles). find server h.objects) same ∙ first
          | inr (_, _, _, (_, objects, _)) ↦
              ap (find server) objects
              ∙ ground (
                arith,
                find-put server monitor (handles_at monitor o).next (handles_at monitor o).objects,
                first,
              )
        ],
        os,
      )

  negative_not : (n : ℕ) (z : ℤ) → z ≡ pos n → ltb_ℤ z (pos 0) ≡ true → ⊥
  negative_not n z e h = ground arith

  same_number : (m n : ℕ) (z : ℤ) → z ≡ pos m → z ≡ pos n → pos m ≡ pos n
  same_number m n z e f = cc

  -- The shared data at the loop.
  abbrev at_loop : ℕ → ℕ → ℕ → O → Net O
  at_loop n check process o = record {
    fds = table ((n, listener_data n port_tcp check) ∷ []) [];
    pkgcallback = put check process [];
    os = (sys.epoll_add (pos n) fd_read o).1;
  }

  listening :
      (n check process garbage : ℕ) (o : O)
      → check ≢ 0
      → process ≢ 0
      → (u : Sys (Net O)) × (add_server_fd sys
            (pos n)
            port_tcp
            check
            (initial garbage (record { fds = []; pkgcallback = []; os = o }))
          ≡ some u)
        × (init (record u { world = (register_package check process u.world).1 })
            ≡ (io_ok, started (at_loop n check process o)))
  unfolding initial watch find put
  listening n check process garbage o hc hp =
      let s = initial garbage (record { fds = []; pkgcallback = []; os = o }) in
      (
        _,
        add_server_fd_lem sys n check port_tcp s [] [] tt tt refl refl tt,
        ap (λ (x : IoResult × Net O). init (initial garbage x.1))
              (registered check process (record (at_loop n check process o) { pkgcallback = [] }) hc
                hp)
            ∙ init-started garbage (at_loop n check process o),
      )

  -- The programs of test1 and test2, with the port of either: if `socket` gives a descriptor,
  -- whatever `epoll_create`, `setsockopt`, `bind` and `listen` answer, `main` comes to its loop.
  -- The scheduler is then valid with the caller as node 0, the table holds the one listening
  -- socket with the check, whose descriptor the local object keeps open, and the callback is
  -- registered under the check.
  pub start_lem :
      (port check process monitor server garbage n : ℕ) (o : O)
      → monitor ≢ server
      → check ≢ 0
      → process ≢ 0
      → (so.socket (sock_type port_tcp) (so.epoll_create 100 o).1).0 ≡ pos n
      → (h : Handles) × (u : Sys (Net O)) × (start sys so port check process monitor server garbage
            o
          ≡ some (io_ok, h, u))
        × IsHandles h
        × (get server h ≡ some (pos n))
        × IsValid u
        × Issued u
        × (u.staticid ≡ 0)
        × (u.world.fds ≡ table ((n, listener_data n port_tcp check) ∷ []) [])
        × (find check u.world.pkgcallback ≡ some process)
  unfolding initial watch
  start_lem port check process monitor server garbage n o apart hc hp good =
      let (r1, s, e1, i, absent, os) = monitor_made monitor server o apart in
      let (j, own, member, same) = made_server port check server s i absent in
      let (r2, t, e2, kept, k, ends) =
        init_server_lem so server s.handles.next (new_server server port port_tcp check s) _ j own
          member in
      let number : (so.socket (sock_type port_tcp) (new_server server port port_tcp check s).os).0
          ≡ pos n =
        ap (λ x. (so.socket (sock_type port_tcp) x).0) (same ∙ os) ∙ good in
      let held : get server t.handles ≡ some (pos n) = elim ends [
        | inl (bad, _, _) ↦ absurd (negative_not n _ number bad)
        | inr (m, at, (got, _, _), _) ↦ got ∙ ap some (same_number m n _ at number)
      ] in
      let (u, e4, ready) = listening n check process garbage t.os hc hp in
      let v : Net O = at_loop n check process t.os in
      (
        t.handles,
        started v,
        start_step port check process monitor server garbage n o r1 r2 s t u e1 e2 held
              (ap (find server) kept ∙ member) e4
            ∙ ap (λ q. some (q.0, t.handles, q.1)) ready,
        k,
        held,
        started-IsValid v,
        started-Issued v,
        refl,
        refl,
        ground (arith, find-put check check process []),
      )
