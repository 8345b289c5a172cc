-- ===== src/EventMgr/Connect/Steps.antt =====
-- lib/eventmgr/EventMgr.cpp: the parts of `tcpconnect` and `tcpsendrecv` between two waits.
use cpp_coroutine.Common.{ℕ, ◌≡◌, ◌≢◌, refl, ap, ◌∙◌, false, [], ◌∷◌, none, some, ◌==◌, arith}
use cpp_coroutine.Common.Int.{ℤ, pos}
use cpp_coroutine.OrderedMap
use cpp_coroutine.OrderedMap.{Map, find, IsSorted}
use cpp_coroutine.Util.{port_tcp}
use cpp_coroutine.Util.MemData
use cpp_coroutine.Util.MemData.{MemData, size}
use cpp_coroutine.FdKey.{FdKey, Text, IpPort, ip_port_empty}
use cpp_coroutine.FdKey.Order.{ip_port_eq_refl}
use cpp_coroutine.FdMgr
use cpp_coroutine.FdMgr.{FdData, SendRecv, other, Table, ip_port_key, fd_data, add_conn, get_conn}
use cpp_coroutine.FdMgr.Lookup.{Conns, table, IsOrdered, find_conn}
use cpp_coroutine.FdMgr.Insert.{FreshFd}
use cpp_coroutine.FdMgr.Reads.{add_conn_lem, get_conn_lem}
use cpp_coroutine.FdMgr.Pointers.{find_node-none, load-find_node}
use cpp_coroutine.FdMgr.Nodes.{find_node, load, store}
use cpp_coroutine.EventMgr.Call.{returns, until_wait}
use cpp_coroutine.EventMgr.Net.{Calls, Net}
use cpp_coroutine.EventMgr.Handlers.{seq_key}
use cpp_coroutine.EventMgr.Connect.{
  sendrecv_at, connected, tcpconnect, net_del, open_conn, einprogress,
}

module _ {O : Type 0} (sys : Calls O) where
  -- What is left of the table and of the system once an answer is taken.
  abbrev pub taken : ℤ → ℤ → FdKey → FdData → Net O → Net O
  taken fd seq p d w =
      let rest = OrderedMap.erase (seq_key seq) d.seq_to_coroutine in
      let v = record w { fds = store p (record d { seq_to_coroutine = rest }) w.fds } in
      elim rest [ [] ↦ net_del sys fd v | _ ∷ _ ↦ v ]

  -- The connection with a call entered under its sequence number.
  abbrev pub entered : ℕ → ℤ → FdData → FdData
  entered id seq d =
      let sr = sendrecv_at seq d.seq_to_coroutine in
      record (FdMgr.clear d) {
        fd_state = other;
        seq_to_coroutine =
            OrderedMap.put (seq_key seq)
              (record sr { id = id; recv_data = MemData.clear sr.recv_data }) d.seq_to_coroutine;
      }

  connected_step :
      (id : ℕ) (seq : ℤ) (p : FdKey) (d : FdData) (w : Net O)
      → load p w.fds ≡ some d
      → until_wait (connected sys id seq p) w
        ≡ returns (d.fd, some p) (record w { fds = store p (entered id seq d) w.fds })
  unfolding connected until_wait
  connected_step id seq p d w at = rw (at, until_wait)

  -- `tcpconnect` to an address that the table has, connected or still connecting, calls nothing
  -- of the system: it returns the socket at once, marks it as connected and enters the call under
  -- its sequence number, with the buffer cleared.
  pub tcpconnect_found :
      (id port timeout cb_seq cb_check : ℕ) (ip : Text) (seq : ℤ) (p : FdKey) (d : FdData)
      (w : Net O)
      → find_node (ip_port_key ip port port_tcp) w.fds ≡ some p
      → load p w.fds ≡ some d
      → until_wait (tcpconnect sys id ip port timeout cb_seq cb_check seq) w
        ≡ returns (d.fd, some p) (record w { fds = store p (entered id seq d) w.fds })
  unfolding tcpconnect until_wait
  tcpconnect_found id port timeout cb_seq cb_check ip seq p d w here at =
      rw (here, until_wait) (connected_step id seq p d w at)

  tcpconnect_new :
      (id port timeout cb_seq cb_check : ℕ) (ip : Text) (seq : ℤ) (w : Net O)
      → find_node (ip_port_key ip port port_tcp) w.fds ≡ none
      → until_wait (tcpconnect sys id ip port timeout cb_seq cb_check seq) w
        ≡ until_wait (open_conn sys id ip port timeout cb_seq cb_check seq) w
  unfolding tcpconnect until_wait
  tcpconnect_new id port timeout cb_seq cb_check ip seq w none_at = rw (none_at, until_wait)

  -- The system after `socket` and `connect`.
  abbrev after_connect : ℕ → Text → ℕ → Net O → O
  after_connect n ip port w = (sys.connect n ip port (sys.socket w.os).1).1

  open_refused :
      (id port timeout cb_seq cb_check n errno : ℕ) (ip : Text) (seq : ℤ) (w : Net O)
      (m : Table FdData)
      → (sys.socket w.os).0 ≡ some n
      → (sys.connect n ip port (sys.socket w.os).1).0 ≡ some errno
      → errno ≢ einprogress
      → add_conn (pos n) ip port port_tcp w.fds ≡ some m
      → until_wait (open_conn sys id ip port timeout cb_seq cb_check seq) w
        ≡ returns (pos 2, none) (record w { fds = m; os = after_connect n ip port w })
  unfolding open_conn until_wait
  open_refused id port timeout cb_seq cb_check n errno ip seq w m made refused other_error added =
      let differs : (errno == einprogress) ≡ false = ground arith in
      rw (made, refused, added, differs, until_wait)

  -- In a table of sorted descriptors and ordered connections without the address, when `connect`
  -- fails with another error than `EINPROGRESS`, `tcpconnect` returns 2 and leaves the new socket
  -- in the table under the address: the next `tcpconnect` to it returns that socket, and the
  -- state of the system stays.
  pub connect_refused :
      (id again port timeout cb_seq cb_check n errno : ℕ) (ip : Text) (seq next : ℤ) (w : Net O)
      (ps : Map FdData) (cs : Conns FdData)
      → IsSorted ps
      → IsOrdered cs
      → w.fds ≡ table ps cs
      → let a : IpPort = record { ip = ip; port = port; type = port_tcp } in
        ip_port_empty a ≡ false
        → find_conn a cs ≡ none
        → OrderedMap.find n ps ≡ none
        → FreshFd n cs
        → (sys.socket w.os).0 ≡ some n
        → (sys.connect n ip port (sys.socket w.os).1).0 ≡ some errno
        → errno ≢ einprogress
        → (v : Net O) × (until_wait (tcpconnect sys id ip port timeout cb_seq cb_check seq) w
            ≡ returns (pos 2, none) v)
          × (get_conn ip port port_tcp v.fds ≡ some (fd_data (pos n)))
          × ((p : FdKey) × (x : Net O) × (until_wait
                  (tcpconnect sys again ip port timeout cb_seq cb_check next)
                  v
                ≡ returns (pos n, some p) x)
              × (x.os ≡ v.os))
  connect_refused id again port timeout cb_seq cb_check n errno ip seq next w ps cs sorted ordered
        at full absent free fresh made refused other_error =
      let a : IpPort = record { ip = ip; port = port; type = port_tcp } in
      let k : FdKey = ip_port_key ip port port_tcp in
      let (cs', added, ordered', reads) =
        add_conn_lem ps cs sorted ordered n ip port port_tcp full absent free fresh in
      let v : Net O = record w { fds = table ps cs'; os = after_connect n ip port w } in
      let nowhere : find_node k w.fds ≡ none =
        ap (find_node k) at
        ∙ find_node-none k (table ps cs) (
            unfold get_conn in
            (get_conn_lem ps cs sorted ordered ip port port_tcp full ∙ absent)) in
      let there : find_conn a cs' ≡ some (fd_data (pos n)) = reads a ∙ rw (ip_port_eq_refl a) in
      let kept : get_conn ip port port_tcp (table ps cs') ≡ some (fd_data (pos n)) =
        get_conn_lem ps cs' sorted ordered' ip port port_tcp full ∙ there in
      let (p, node, value, _) =
        load-find_node k (fd_data (pos n)) (table ps cs') (unfold get_conn in kept) in
      (
        v,
        tcpconnect_new id port timeout cb_seq cb_check ip seq w nowhere
            ∙ open_refused id port timeout cb_seq cb_check n errno ip seq w (table ps cs') made
                refused other_error (ap (add_conn (pos n) ip port port_tcp) at ∙ added),
        kept,
        (
          p,
          _,
          tcpconnect_found again port timeout cb_seq cb_check ip next p (fd_data (pos n)) v node
              value,
          refl,
        ),
      )
