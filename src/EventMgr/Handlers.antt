-- ===== src/EventMgr/Handlers.antt =====
-- lib/eventmgr/EventMgr.h, `CMonitorEpoll`: what is done with an event, by the descriptor that it is
-- about. `none` is a fault, as in the scheduler.
use cpp_coroutine.Common.{
  ℕ, ◌+◌, ◌-◌, ◌^◌, Bool, true, false, not, List, Option, none, some, ◌==◌, if◌then◌else◌,
}
use cpp_coroutine.Common.Int.{ℤ, pos, negsuc}
use cpp_coroutine.OrderedMap
use cpp_coroutine.OrderedMap.{Map}
use cpp_coroutine.Util.{
  PortType, port_tcp, port_udp, IoResult, io_ok, io_err, io_remote_close, fd_read,
}
use cpp_coroutine.Util.MemData
use cpp_coroutine.Util.MemData.{MemData, size, copy, remove}
use cpp_coroutine.ExpireMgr
use cpp_coroutine.FdKey.{FdKey}
use cpp_coroutine.FdMgr
use cpp_coroutine.FdMgr.{FdData, fd_data, server_conn, listen, fd_key, get_fd, add_fd, SendRecv}
use cpp_coroutine.FdMgr.Nodes.{node_of, load, store}
use cpp_coroutine.CoroutineMgr.{Sys, create, update, set_ready, ◌>>=◌}
use cpp_coroutine.EventMgr.Receive.{tcprecv, def_recv_size}
use cpp_coroutine.EventMgr.Net.{
  Calls, Net, accepted_from, accept_failed, has_error, is_client, is_other_conn, to_u32,
}

abbrev is_ok : IoResult → Bool
is_ok r = elim r [ io_ok ↦ true | _ ↦ false ]

abbrev is_closed : IoResult → Bool
is_closed r = elim r [ io_remote_close ↦ true | _ ↦ false ]

-- The key of `seq_to_coroutine` for an `int`.
abbrev pub seq_key : ℤ → ℕ
seq_key (pos n) = n + 2 ^ 31
seq_key (negsuc n) = 2 ^ 31 - 1 - n

-- `m_pkgcallback[check]`: an entry that is not there is made, with `NULL`.
unfoldable pub callback_of : ℕ → Map ℕ → ℕ × Map ℕ
callback_of check m = elim (OrderedMap.find check m) [
  | none ↦ (0, OrderedMap.put check 0 m)
  | some cb ↦ (cb, m)
]

module _ {O : Type 0} where
  -- `TcpConnect`; the error number only goes to the log.
  unfoldable pub tcp_connect : ℕ → FdKey → FdData → Sys (Net O) → Option (Sys (Net O))
  tcp_connect events p d s =
      let d' = record d { last_op_ret = some (if has_error events then io_err else io_ok) } in
      set_ready (record s { world = record (s.world) { fds = store p d' s.world.fds } })
        d.context_id

  -- The assignments to the node that `Create` has made. An address that was never assigned is a
  -- fault.
  unfoldable pub fill_req : ℤ → FdData → MemData → ℕ → Sys (Net O) → Option (IoResult × Sys (Net O))
  unfolding callback_of
  fill_req fd d md pkgsize t = do
    let (cb, m) = callback_of d.check t.world.pkgcallback
    c ← OrderedMap.find t.staticid t.idtonode
    recvdata ← copy c.req.recvdata md.bytes pkgsize
    _ ← remove md pkgsize
    remote ← d.remote
    u ←
        update t.staticid
          (λ c. record c {
            req = record (c.req) {
              m_cb = cb;
              recvdata = recvdata;
              remoteaddr = remote;
              server_socket = fd;
            };
          })
          t
    some (io_ok, record u { world = record (u.world) { pkgcallback = m } })

  -- `DoReadTcp` for the socket of a client: a coroutine is made for the package at the start of
  -- the buffer.
  unfoldable pub new_client_req :
      ℤ → FdData → MemData → ℕ → Sys (Net O) → Option (IoResult × Sys (Net O))
  unfolding fill_req
  new_client_req fd d md pkgsize s = fill_req fd d md pkgsize (create s)

module _ {O : Type 0} (sys : Calls O) where
  -- `Add(fd, FD_READ)` of the monitor; the result is not used.
  unfoldable pub watch : ℤ → Sys (Net O) → Sys (Net O)
  watch fd s = record s {
    world = record (s.world) { os = (sys.epoll_add fd fd_read s.world.os).1 };
  }

  -- `Del` of the monitor.
  unfoldable pub unwatch : ℤ → Sys (Net O) → Sys (Net O)
  unwatch fd s = record s { world = record (s.world) { os = (sys.epoll_del fd s.world.os).1 } }

  -- `DelFd`
  unfoldable pub del_fd : ℤ → Sys (Net O) → Sys (Net O)
  unfolding unwatch
  del_fd fd s =
      let t = unwatch fd s in
      record t {
        expire = ExpireMgr.del t.expire (to_u32 fd);
        world = record (t.world) { fds = (FdMgr.destroy fd t.world.fds).1 };
      }

  -- `NewReq` of a socket with the data `d`.
  unfoldable pub new_req : ℤ → FdData → Sys (Net O) → Option (IoResult × Sys (Net O))
  unfolding watch
  new_req ss d s = elim d.port_type [
    | port_tcp ↦
        let (res, os') = sys.accept ss s.world.os in
        let t = record s { world = record (s.world) { os = os' } } in
        elim res [
          | accept_failed ↦ some (io_err, t)
          | accepted_from n remote ↦ do
            m ← add_fd (pos n) t.world.fds
            listener ← get_fd ss m
            let e = record (fd_data (pos n)) {
              remote = some remote;
              port_type = port_tcp;
              check = listener.check;
              fd_state = server_conn;
            }
            some (
              io_ok,
              watch (pos n)
                  (record t { world = record (t.world) { fds = store (fd_key (pos n)) e m } }),
            )
        ]
    | port_udp ↦ do
      let t = create s
      u ← update t.staticid (λ c. record c { req = record (c.req) { server_socket = ss } }) t
      v ← set_ready u t.staticid
      p ← node_of ss v.world.fds
      e ← load p v.world.fds
      some (
        io_ok,
        record v {
          world = record (v.world) {
            fds = store p (record e { port_type = port_udp }) v.world.fds;
          };
        },
      )
  ]

  -- `AddServerFd`; the handle is named by its descriptor.
  unfoldable pub add_server_fd : ℤ → PortType → ℕ → Sys (Net O) → Option (Sys (Net O))
  unfolding watch
  add_server_fd fd type check s = do
    let t = watch fd s
    m ← add_fd fd t.world.fds
    let e = record (fd_data fd) { port_type = type; check = check; fd_state = listen }
    some (record t { world = record (t.world) { fds = store (fd_key fd) e m } })

  module _ (check_at seq_at : ℕ → List ℕ → ℕ → Option ℤ) where
    -- `DoReadTcp` for a connection to another server: the coroutine that waits for the sequence
    -- number gets the package.
    unfoldable pub reply :
        FdKey → FdData → MemData → ℕ → Sys (Net O) → Option (IoResult × Sys (Net O))
    unfolding unwatch size MemData.clear
    reply p d md pkgsize s = do
      seq ← (if d.seq == 0 then none else seq_at d.seq md.bytes pkgsize)
      elim (OrderedMap.find (seq_key seq) d.seq_to_coroutine) [
        | none ↦ some (io_err, unwatch d.fd s)
        | some sr ↦ elim (OrderedMap.find sr.id s.idtonode) [
          | none ↦ some (io_err, unwatch d.fd s)
          | some _ ↦ do
            got ← copy (MemData.clear sr.recv_data) md.bytes (size md)
            let sr' = record sr { recv_data = got }
            let d' = record d {
              seq_to_coroutine = OrderedMap.put (seq_key seq) sr' d.seq_to_coroutine;
            }
            t ←
                set_ready (record s { world = record (s.world) { fds = store p d' s.world.fds } })
                  sr.id
            some (io_ok, t)
        ]
      ]

    -- The end of `DoReadTcp`, with what `tcprecv` gave.
    unfoldable pub read_done :
        ℤ → FdKey → FdData → IoResult → MemData → ℤ → Sys (Net O) → Option (IoResult × Sys (Net O))
    unfolding del_fd reply new_client_req
    read_done fd p d ret md (negsuc n) s = some (io_err, if is_closed ret then del_fd fd s else s)
    read_done fd p d ret md (pos pkgsize) s =
        if pkgsize == 0
        then some (io_err, if is_closed ret then del_fd fd s else s)
        else if not (is_ok ret)
        then some (io_err, if is_closed ret then del_fd fd s else s)
        else if is_client d.fd_state
        then new_client_req fd d md pkgsize s
        else if is_other_conn d.fd_state
        then reply p d md pkgsize s
        else some (io_ok, s)

    -- The state after `recv`, which a negative descriptor does not reach. The buffer is new, so
    -- that it offers `DEF_RECV_SIZE` bytes.
    unfoldable pub drained : ℤ → Sys (Net O) → Sys (Net O)
    drained (negsuc n) s = s
    drained (pos n) s = record s {
      world = record (s.world) { os = (sys.recv (pos n) def_recv_size s.world.os).1 };
    }

    -- `DoReadTcp`
    unfoldable pub do_read_tcp : ℤ → FdKey → Sys (Net O) → Option (IoResult × Sys (Net O))
    unfolding read_done drained MemData.empty
    do_read_tcp fd p s = do
      d ← load p s.world.fds
      if d.check == 0 then some (io_err, s) else (do
        (ret, md, pkgsize) ←
            tcprecv (check_at d.check) (λ room. (sys.recv fd room s.world.os).0) fd MemData.empty
              (pos 0)
        read_done fd p d ret md pkgsize (drained fd s))
