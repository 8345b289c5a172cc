-- ===== src/EventMgr/Accepts.antt =====
-- lib/eventmgr/EventMgr.h: events of the sockets that listen and of the connections of clients, from
-- the table of descriptors on.
use cpp_coroutine.Common.{
  ℕ, ◌+◌, ◌^◌, ◌≡◌, ◌≢◌, ◌≤◌, ◌<◌, refl, ap, ◌∙◌, true, List, ◌∷◌, Option, none, some, length, take,
  arith,
}
use cpp_coroutine.Common.Int.{ℤ, pos}
use cpp_coroutine.OrderedMap
use cpp_coroutine.OrderedMap.{Map, IsSorted}
use cpp_coroutine.OrderedMap.Laws.{find-put, put-IsSorted}
use cpp_coroutine.Util.{port_tcp, io_ok}
use cpp_coroutine.FdKey.{FdKey}
use cpp_coroutine.FdKey.Order.{plain_key}
use cpp_coroutine.FdMgr.{FdData, fd_data, SockAddr, server_conn, add_fd, get_fd, Table}
use cpp_coroutine.FdMgr.Lookup.{Conns, table, IsOrdered}
use cpp_coroutine.FdMgr.Insert.{FreshFd}
use cpp_coroutine.FdMgr.Nodes.{store, load, node_of}
use cpp_coroutine.FdMgr.Plain.{put-put, node_of-plain, load-plain, store-plain}
use cpp_coroutine.FdMgr.Reads.{add_fd_lem, get_fd_plain}
use cpp_coroutine.CoroutineMgr.{Sys, ◌>>=◌}
use cpp_coroutine.CoroutineMgr.Invariant.{IsValid}
use cpp_coroutine.CoroutineMgr.Start.{Issued}
use cpp_coroutine.EventMgr.Receive.{received, def_recv_size}
use cpp_coroutine.EventMgr.Net.{Calls, Net, EpollEvent, accepted_from, can_read, is_listen_fd}
use cpp_coroutine.EventMgr.Handlers.{watch, new_req, do_read_tcp}
use cpp_coroutine.EventMgr.Dispatch.{dispatch_event, handle_event}
use cpp_coroutine.EventMgr.Requests.{HasRequest, read_request}

-- The entry of a connection that was accepted.
abbrev pub client_data : ℕ → SockAddr → FdData → FdData
client_data n remote listener = record (fd_data (pos n)) {
  remote = some remote;
  port_type = port_tcp;
  check = listener.check;
  fd_state = server_conn;
}

module _ {O : Type 0} (sys : Calls O) where
  -- After the call of `accept`.
  abbrev after_accept : ℕ → Sys (Net O) → Sys (Net O)
  after_accept ss s = record s {
    world = record (s.world) { os = (sys.accept (pos ss) s.world.os).1 };
  }

  accept_step :
      (ss n : ℕ) (remote : SockAddr) (d l : FdData) (s : Sys (Net O)) (m : Table FdData)
      → d.port_type ≡ port_tcp
      → (sys.accept (pos ss) s.world.os).0 ≡ accepted_from n remote
      → add_fd (pos n) s.world.fds ≡ some m
      → get_fd (pos ss) m ≡ some l
      → new_req sys (pos ss) d s
        ≡ some (
          io_ok,
          watch sys (pos n) (record (after_accept ss s) {
            world = record ((after_accept ss s).world) {
              fds = store (plain_key n) (client_data n remote l) m;
            };
          }),
        )
  unfolding new_req
  accept_step ss n remote d l s m e1 e2 e3 e4 = rw (e1, e2, e3, e4, ◌>>=◌, new_req)

  -- In a table of sorted descriptors and ordered connections, `NewReq` of a listening TCP socket,
  -- when `accept` gives a descriptor that is in neither part, succeeds: the table has one more
  -- descriptor, a client with the peer's address and the check of the listening socket, and the
  -- scheduler stays as it is.
  pub new_req_accepts :
      (ss n : ℕ) (remote : SockAddr) (d l : FdData) (s : Sys (Net O)) (ps : Map FdData)
      (cs : Conns FdData)
      → IsSorted ps
      → IsOrdered cs
      → s.world.fds ≡ table ps cs
      → OrderedMap.find ss ps ≡ some l
      → d.port_type ≡ port_tcp
      → (sys.accept (pos ss) s.world.os).0 ≡ accepted_from n remote
      → OrderedMap.find n ps ≡ none
      → FreshFd n cs
      → (t : Sys (Net O)) × (new_req sys (pos ss) d s ≡ some (io_ok, t))
        × (t.world.fds ≡ table (OrderedMap.put n (client_data n remote l) ps) cs)
        × (t.idtonode ≡ s.idtonode)
        × (t.active ≡ s.active)
        × (t.staticid ≡ s.staticid)
        × (t.expire ≡ s.expire)
        × (t.world.pkgcallback ≡ s.world.pkgcallback)
  unfolding watch
  new_req_accepts ss n remote d l s ps cs sorted ordered at here tcp got absent free =
      let e : FdData = client_data n remote l in
      let ps' : Map FdData = OrderedMap.put n (fd_data (pos n)) ps in
      let added : add_fd (pos n) s.world.fds ≡ some (table ps' cs) =
        ap (add_fd (pos n)) at ∙ add_fd_lem ps cs sorted ordered n absent free in
      let found : get_fd (pos ss) (table ps' cs) ≡ some l =
        get_fd_plain ps' cs (put-IsSorted n (fd_data (pos n)) ps sorted) ordered ss
          (ground (arith, find-put ss n (fd_data (pos n)) ps)) in
      (
        _,
        accept_step ss n remote d l s (table ps' cs) tcp got added found,
        store-plain n e (fd_data (pos n)) ps' cs (put-IsSorted n (fd_data (pos n)) ps sorted)
              (ground (arith, find-put n n (fd_data (pos n)) ps))
            ∙ ap (λ m. table m cs) (put-put n e (fd_data (pos n)) ps),
        refl,
        refl,
        refl,
        refl,
        refl,
      )

  module _ (check_at seq_at : ℕ → List ℕ → ℕ → Option ℤ) where
    dispatch_client :
        (ev : EpollEvent) (p : FdKey) (d : FdData) (s : Sys (Net O))
        → node_of ev.fd s.world.fds ≡ some p
        → load p s.world.fds ≡ some d
        → d.fd_state ≡ server_conn
        → d.port_type ≡ port_tcp
        → can_read ev.events ≡ true
        → dispatch_event sys check_at seq_at ev s
          ≡ (do r ← do_read_tcp sys check_at seq_at ev.fd p s; some r.1)
    unfolding dispatch_event handle_event is_listen_fd
    dispatch_client ev p d s e1 e2 e3 e4 e5 =
        rw (e1, e2, e3, e4, e5, ◌>>=◌, dispatch_event, handle_event)

    -- In a valid state with all ids up to `staticid` given out and fewer than 2^32, and a table
    -- of sorted descriptors and connections: the loop over the events, for a readable TCP client
    -- with a check that has a callback, and bytes that the check finds to start with a whole
    -- package, makes one more coroutine. It is ready under the next id, which was free, and holds
    -- exactly the package, the peer, the socket and the callback; the state stays valid, and the
    -- other nodes and the table stay.
    pub dispatch_request :
        (n events b pkg cb : ℕ) (bs : List ℕ) (s : Sys (Net O)) (d : FdData) (a : SockAddr)
        (ps : Map FdData) (cs : Conns FdData)
        → IsValid s
        → Issued s
        → s.staticid + 1 < 2 ^ 32
        → IsSorted ps
        → s.world.fds ≡ table ps cs
        → OrderedMap.find n ps ≡ some d
        → d.fd_state ≡ server_conn
        → d.port_type ≡ port_tcp
        → d.remote ≡ some a
        → d.check ≢ 0
        → OrderedMap.find d.check s.world.pkgcallback ≡ some cb
        → cb ≢ 0
        → can_read events ≡ true
        → (sys.recv (pos n) def_recv_size s.world.os).0 ≡ received (b ∷ bs)
        → length (b ∷ bs) ≤ def_recv_size
        → ((src : List ℕ)
            → take (length (b ∷ bs)) src ≡ b ∷ bs
            → check_at d.check src (length (b ∷ bs)) ≡ some (pos pkg))
        → 0 < pkg
        → pkg ≤ length (b ∷ bs)
        → (t : Sys (Net O)) × (dispatch_event sys check_at seq_at
              (record { events = events; fd = pos n })
              s
            ≡ some t)
          × HasRequest s t (take pkg (b ∷ bs)) (pos n) a cb
    dispatch_request n events b pkg cb bs s d a ps cs v i room sorted at here st tcp addr chk reg
          set can got fits found more whole =
        let loaded : load (plain_key n) s.world.fds ≡ some d =
          ap (load (plain_key n)) at ∙ load-plain n d ps cs here in
        let (t, e, h) =
          read_request sys check_at seq_at n b pkg cb bs (plain_key n) s d a v i room loaded st addr
            chk reg set got fits found more whole in
        (
          t,
          dispatch_client (record { events = events; fd = pos n }) (plain_key n) d s
                (ap (node_of (pos n)) at ∙ node_of-plain n d ps cs sorted here) loaded st tcp can
              ∙ ap (λ r. r >>= λ x. some (x.1)) e,
          h,
        )
