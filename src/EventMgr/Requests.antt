-- ===== src/EventMgr/Requests.antt =====
-- lib/eventmgr/EventMgr.h: `DoReadTcp` when a client has sent a package.
use cpp_coroutine.Common.{
  ℕ, ◌+◌, ◌^◌, ◌≡◌, ◌≢◌, ◌≤◌, ◌<◌, ap, sym, ◌∙◌, subst, List, ◌∷◌, Option, none, some, length,
  length-take_of_le, take_of_length-eq, take-take, take, drop, leb, if◌then◌else◌, arith,
}
use cpp_coroutine.Common.Int.{ℤ, pos}
use cpp_coroutine.OrderedMap.{find}
use cpp_coroutine.OrderedMap.Laws.{find-put}
use cpp_coroutine.Util.{IoResult, io_ok, ready}
use cpp_coroutine.Util.MemData
use cpp_coroutine.Util.MemData.{MemData, content, copy, remove, size}
use cpp_coroutine.Util.MemData.Content.{copy_lem}
use cpp_coroutine.FdKey.{FdKey}
use cpp_coroutine.FdMgr.{FdData, SockAddr, server_conn}
use cpp_coroutine.FdMgr.Nodes.{load}
use cpp_coroutine.CoroutineMgr.{Context, Sys, ReqData, req_data, fresh, create, update, ◌>>=◌}
use cpp_coroutine.CoroutineMgr.Invariant.{IsValid}
use cpp_coroutine.CoroutineMgr.Start.{Issued, created, create-created, requested_lem}
use cpp_coroutine.EventMgr.Receive.{received, def_recv_size, tcprecv}
use cpp_coroutine.EventMgr.Receive.Fresh.{tcprecv_package}
use cpp_coroutine.EventMgr.Net.{Calls, Net, is_client}
use cpp_coroutine.EventMgr.Handlers.{
  callback_of, fill_req, new_client_req, read_done, drained, do_read_tcp,
}

module _ {W : Type 0} where
  pub world-IsValid : (w : W) (s : Sys W) → IsValid s → IsValid (record s { world = w })
  world-IsValid w s v = record {
    sorted = v.sorted;
    linked = v.linked;
    at_main = v.at_main;
    main_node = v.main_node;
    main_timer = v.main_timer;
    nodes = v.nodes;
  }

  pub world-Issued : (w : W) (s : Sys W) → Issued s → Issued (record s { world = w })
  world-Issued w s i = record { room = i.room; issued = i.issued }

remove_total : (d : MemData) (n : ℕ) → n ≤ length d.bytes → (e : MemData) × (remove d n ≡ some e)
unfolding remove size
remove_total d n h = (
  record { bytes = drop n d.bytes; offset = if leb (size d) n then 0 else d.offset },
  ground arith,
)

-- The request of the new node.
abbrev pub request_of : MemData → ℤ → SockAddr → ℕ → ℕ → ReqData
request_of r fd a cb id = record {
  recvdata = r;
  remoteaddr = a;
  id = id;
  server_socket = fd;
  m_cb = cb;
}

module _ {O : Type 0} where
  fill_req_lem :
      (fd : ℤ) (d : FdData) (md : MemData) (pkg cb : ℕ) (t u : Sys (Net O)) (c : Context (Net O))
      (r x : MemData) (a : SockAddr)
      → find d.check t.world.pkgcallback ≡ some cb
      → find t.staticid t.idtonode ≡ some c
      → copy c.req.recvdata md.bytes pkg ≡ some r
      → remove md pkg ≡ some x
      → d.remote ≡ some a
      → update t.staticid
          (λ c. record c {
            req = record (c.req) { m_cb = cb; recvdata = r; remoteaddr = a; server_socket = fd };
          })
          t
        ≡ some u
      → fill_req fd d md pkg t
        ≡ some (io_ok, record u { world = record (u.world) { pkgcallback = t.world.pkgcallback } })
  unfolding fill_req
  fill_req_lem fd d md pkg cb t u c r x a e1 e2 e3 e4 e5 e6 =
      rw (e1, e2, e3, e4, e5, e6, ◌>>=◌, callback_of)

  -- A ready node for the package is in the table, under the next id, and all else is as before.
  pub record HasRequest (s t : Sys (Net O)) (bytes : List ℕ) (fd : ℤ) (a : SockAddr) (cb : ℕ)
      : Type 0 where
    pub valid : IsValid t
    pub issued : Issued t
    pub unused : find (s.staticid + 1) s.idtonode ≡ none
    pub node :
        (r : MemData) × (content r ≡ bytes)
        × (find (s.staticid + 1) t.idtonode
            ≡ some (record {
              coroutine = fresh;
              req = request_of r fd a cb (s.staticid + 1);
              state = ready;
            }))
    pub others : (j : ℕ) → j ≢ s.staticid + 1 → find j t.idtonode ≡ find j s.idtonode
    pub table : t.world.fds ≡ s.world.fds
    pub ids : t.staticid ≡ s.staticid + 1

  new_client_req_lem :
      (fd : ℤ) (d : FdData) (md : MemData) (pkg cb : ℕ) (s : Sys (Net O)) (a : SockAddr)
      → IsValid s
      → Issued s
      → s.staticid + 1 < 2 ^ 32
      → find d.check s.world.pkgcallback ≡ some cb
      → cb ≢ 0
      → d.remote ≡ some a
      → pkg ≤ length md.bytes
      → length md.bytes < 2 ^ 32
      → (t : Sys (Net O)) × (new_client_req fd d md pkg s ≡ some (io_ok, t))
        × HasRequest s t (take pkg md.bytes) fd a cb
  unfolding new_client_req
  new_client_req_lem fd d md pkg cb s a v i room reg set addr fits small =
      let id : ℕ = s.staticid + 1 in
      let (r, copied, vr, same, off) =
        copy_lem (req_data.recvdata) md.bytes pkg
          (record { used = omega arith; small = omega arith }) fits (omega arith) in
      let req : ReqData = request_of r fd a cb 0 in
      let (t, made, vt, it, free, at, others, kept, ids) = requested_lem s req v i room set in
      let assign = λ (c : Context (Net O)). record c {
        req = record (c.req) { m_cb = cb; recvdata = r; remoteaddr = a; server_socket = fd };
      } in
      let made' : create s ≡ created s id = create-created s room free in
      let (x, removed) = remove_total md pkg fits in
      let c : Context (Net O) = record {
        coroutine = fresh;
        req = record req_data { id = id };
        state = ready;
      } in
      let u : Sys (Net O) = record t {
        world = record (t.world) { pkgcallback = s.world.pkgcallback };
      } in
      (
        u,
        ap (fill_req fd d md pkg) made'
            ∙ fill_req_lem fd d md pkg cb (created s id) t c r x a reg
                (ground (arith, find-put id id c s.idtonode)) copied removed addr
                (ap (λ z. update z.staticid assign z) (sym made') ∙ made),
        record {
          valid = world-IsValid u.world t vt;
          issued = world-Issued u.world t it;
          unused = free;
          node = (
            r,
            same ∙ take_of_length-eq pkg (take pkg md.bytes) (length-take_of_le pkg md.bytes fits),
            at,
          );
          others = others;
          table = ap (λ (w : Net O). w.fds) kept;
          ids = ids;
        },
      )

module _ {O : Type 0} (sys : Calls O) (check_at seq_at : ℕ → List ℕ → ℕ → Option ℤ) where
  pub read_step :
      (fd : ℤ) (p : FdKey) (s : Sys (Net O)) (d : FdData) (ret : IoResult) (md : MemData) (pkg : ℤ)
      → load p s.world.fds ≡ some d
      → d.check ≢ 0
      → tcprecv
          (check_at d.check)
          (λ room. (sys.recv fd room s.world.os).0)
          fd
          MemData.empty
          (pos 0)
        ≡ some (ret, md, pkg)
      → do_read_tcp sys check_at seq_at fd p s
        ≡ read_done sys check_at seq_at fd p d ret md pkg (drained sys check_at seq_at fd s)
  unfolding do_read_tcp
  read_step fd p s d ret md pkg e n r = ground arith

  read_done_client :
      (fd : ℤ) (p : FdKey) (s : Sys (Net O)) (d : FdData) (md : MemData) (pkg : ℕ)
      → 0 < pkg
      → d.fd_state ≡ server_conn
      → read_done sys check_at seq_at fd p d io_ok md (pos pkg) s ≡ new_client_req fd d md pkg s
  unfolding read_done is_client
  read_done_client fd p s d md pkg more st = ground arith

  -- In a valid state with all ids up to `staticid` given out and fewer than 2^32, `DoReadTcp` of
  -- a client's socket with a check that has a callback, when `recv` gives at most `DEF_RECV_SIZE`
  -- bytes that start with a whole package: it returns `IO_OK` and one more coroutine is ready,
  -- under the next id, which was free, with the package, the peer, the socket and the callback;
  -- the state stays valid, and the other nodes and the table stay.
  pub read_request :
      (n b pkg cb : ℕ) (bs : List ℕ) (p : FdKey) (s : Sys (Net O)) (d : FdData) (a : SockAddr)
      → IsValid s
      → Issued s
      → s.staticid + 1 < 2 ^ 32
      → load p s.world.fds ≡ some d
      → d.fd_state ≡ server_conn
      → d.remote ≡ some a
      → d.check ≢ 0
      → find d.check s.world.pkgcallback ≡ some cb
      → cb ≢ 0
      → (sys.recv (pos n) def_recv_size s.world.os).0 ≡ received (b ∷ bs)
      → length (b ∷ bs) ≤ def_recv_size
      → ((src : List ℕ)
          → take (length (b ∷ bs)) src ≡ b ∷ bs
          → check_at d.check src (length (b ∷ bs)) ≡ some (pos pkg))
      → 0 < pkg
      → pkg ≤ length (b ∷ bs)
      → (t : Sys (Net O)) × (do_read_tcp sys check_at seq_at (pos n) p s ≡ some (io_ok, t))
        × HasRequest s t (take pkg (b ∷ bs)) (pos n) a cb
  unfolding drained
  read_request n b pkg cb bs p s d a v i room at st addr chk reg set got fits found more whole =
      let (md, r, same, off, len, small) =
        tcprecv_package (check_at d.check) (λ room. (sys.recv (pos n) room s.world.os).0) n b pkg bs
          got fits found more in
      let s' : Sys (Net O) = drained sys check_at seq_at (pos n) s in
      let (t, e, h) =
        new_client_req_lem (pos n) d md pkg cb s' a (world-IsValid s'.world s v)
          (world-Issued s'.world s i) room reg set addr (omega arith) small in
      let cut : take pkg md.bytes ≡ take pkg (b ∷ bs) =
        sym (take-take pkg md.offset md.bytes (omega arith)) ∙ ap (take pkg) same in
      (
        t,
        read_step (pos n) p s d io_ok md (pos pkg) at chk r
            ∙ (read_done_client (pos n) p s' d md pkg more st ∙ e),
        subst (λ l. HasRequest s t l (pos n) a cb) cut
            (record {
              valid = h.valid;
              issued = h.issued;
              unused = h.unused;
              node = h.node;
              others = h.others;
              table = h.table;
              ids = h.ids;
            }),
      )
