-- ===== src/Fd/Sockets.antt =====
-- lib/eventmgr/Fd.h, the classes of sockets, and `CFdEpoll` of EventMgr.h. An object of one of them is
-- a `CFd` with more members. The calls of the system are arguments.
pub mod Opening
pub mod Servers
pub mod Clients
use cpp_coroutine.Common.{
  ℕ, ◌+◌, ◌*◌, ◌/◌, ◌%◌, Bool, false, not, Option, none, some, ◌==◌, if◌then◌else◌,
}
use cpp_coroutine.Common.Int.{ℤ, pos, negsuc, ltb_ℤ}
use cpp_coroutine.OrderedMap
use cpp_coroutine.OrderedMap.{Map}
use cpp_coroutine.Util.{PortType, port_tcp, port_udp, IoResult, io_ok, io_err}
use cpp_coroutine.FdMgr.{SockAddr}
use cpp_coroutine.FdKey.{Text}
use cpp_coroutine.CoroutineMgr.{◌>>=◌}
use cpp_coroutine.Fd
use cpp_coroutine.Fd.{Handles, construct, copy_construct, assign, set_newfd}

-- The members of `CServerSocket`; a check that was never assigned is `none`.
pub record ServerSocket : Type 0 where
  pub m_port : ℕ
  pub m_type : PortType
  pub m_cb_check : Option ℕ

-- What `socket`, `setsockopt` of `SO_REUSEADDR`, `bind` to a port of all addresses, `listen` and
-- `epoll_create` return, an `int` each.
pub record SocketCalls (O : Type 0) : Type 0 where
  pub socket : ℕ → O → ℤ × O
  pub reuse_addr : ℤ → O → ℤ × O
  pub bind : ℤ → SockAddr → O → ℤ × O
  pub listen : ℤ → ℕ → O → ℤ × O
  pub epoll_create : ℕ → O → ℤ × O

-- All objects with their members, and the system.
pub record Sockets (O : Type 0) : Type 0 where
  pub handles : Handles
  pub servers : Map ServerSocket
  pub remotes : Map SockAddr
  pub os : O

-- `SOCK_STREAM` or `SOCK_DGRAM`, with `SOCK_NONBLOCK`.
abbrev pub sock_type : PortType → ℕ
sock_type port_tcp = 1 + 2048
sock_type port_udp = 2 + 2048

abbrev pub is_zero : ℤ → Bool
is_zero (pos n) = n == 0
is_zero (negsuc n) = false

abbrev pub is_minus_one : ℤ → Bool
is_minus_one (pos n) = false
is_minus_one (negsuc n) = n == 0

-- `htons`
abbrev pub htons : ℕ → ℕ
htons port = port % 256 * 256 + port / 256 % 256

module _ {O : Type 0} where
  -- `CServerSocket()` and `CServerSocket(port, pt, cb)`.
  unfoldable pub default_server : ℕ → Sockets O → Sockets O
  unfolding construct
  default_server x s = record s {
    handles = construct x (negsuc 0) s.handles;
    servers =
        OrderedMap.put x (record { m_port = 0; m_type = port_tcp; m_cb_check = none }) s.servers;
  }

  unfoldable pub new_server : ℕ → ℕ → PortType → ℕ → Sockets O → Sockets O
  unfolding construct
  new_server x port type cb s = record s {
    handles = construct x (negsuc 0) s.handles;
    servers =
        OrderedMap.put x (record { m_port = port; m_type = type; m_cb_check = some cb }) s.servers;
  }

  -- `operator=` and the copy of a `CServerSocket`.
  unfoldable pub assign_server : ℕ → ℕ → Sockets O → Option (Sockets O)
  unfolding assign
  assign_server y x s = if x == y then some s else (do
    h ← assign y x s.handles
    ss ← OrderedMap.find x s.servers
    some (record s { handles = h; servers = OrderedMap.put y ss s.servers }))

  unfoldable pub copy_server : ℕ → ℕ → Sockets O → Option (Sockets O)
  unfolding copy_construct
  copy_server y x s = do
    h ← copy_construct y x s.handles
    ss ← OrderedMap.find x s.servers
    some (record s { handles = h; servers = OrderedMap.put y ss s.servers })

  -- `GetType` and `GetCbCheck`; a check that was never assigned is a fault.
  unfoldable pub get_type : ℕ → Sockets O → Option PortType
  get_type x s = do ss ← OrderedMap.find x s.servers; some ss.m_type

  unfoldable pub get_cb_check : ℕ → Sockets O → Option ℕ
  get_cb_check x s = do ss ← OrderedMap.find x s.servers; ss.m_cb_check

  -- `GetRemoteAddr`
  unfoldable pub get_remote_addr : ℕ → Sockets O → Option SockAddr
  get_remote_addr x s = OrderedMap.find x s.remotes

  -- `CUdpClientSocket()`, its copy, and `operator=`, which assigns nothing.
  unfoldable pub new_udp : ℕ → Sockets O → Sockets O
  unfolding construct
  new_udp x s = record s { handles = construct x (negsuc 0) s.handles }

  unfoldable pub copy_udp : ℕ → ℕ → Sockets O → Option (Sockets O)
  unfolding copy_construct
  copy_udp y x s = do h ← copy_construct y x s.handles; some (record s { handles = h })

  unfoldable pub assign_udp : ℕ → ℕ → Sockets O → Option (Sockets O)
  assign_udp y x s = some s

  -- `CTcpClientSocket(remoteip, port)`; `inet_addr` is an argument.
  unfoldable pub new_tcp : (Text → ℕ) → ℕ → Text → ℕ → Sockets O → Sockets O
  unfolding construct
  new_tcp inet_addr x ip port s = record s {
    handles = construct x (negsuc 0) s.handles;
    remotes = OrderedMap.put x (record { s_addr = inet_addr ip; sin_port = htons port }) s.remotes;
  }

  -- `operator=` and the copy of a `CTcpClientSocket`.
  unfoldable pub assign_tcp : ℕ → ℕ → Sockets O → Option (Sockets O)
  unfolding assign
  assign_tcp y x s = if x == y then some s else (do
    h ← assign y x s.handles
    remote ← OrderedMap.find x s.remotes
    some (record s { handles = h; remotes = OrderedMap.put y remote s.remotes }))

  unfoldable pub copy_tcp : ℕ → ℕ → Sockets O → Option (Sockets O)
  unfolding copy_construct
  copy_tcp y x s = do
    h ← copy_construct y x s.handles
    remote ← OrderedMap.find x s.remotes
    some (record s { handles = h; remotes = OrderedMap.put y remote s.remotes })

  -- The descriptor that a call has given goes into the object.
  abbrev pub hold : ℕ → ℤ → Sockets O → Option (Sockets O)
  hold x fd s = do h ← set_newfd x fd s.handles; some (record s { handles = h })

  module _ (sys : SocketCalls O) where
    -- `CServerSocket::Init` from `setsockopt` on.
    unfoldable pub bind_and_listen : ℤ → ServerSocket → O → IoResult × O
    bind_and_listen fd ss o =
        let (opt, o1) = sys.reuse_addr fd o in
        let (bound, o2) = sys.bind fd (record { s_addr = 0; sin_port = htons ss.m_port }) o1 in
        let (ret, o3) = sys.listen fd 20 o2 in
        if not (is_zero opt)
        then (io_err, o1)
        else if is_minus_one bound
        then (io_err, o2)
        else if not (is_zero ret)
        then (io_err, o3)
        else (io_ok, o3)

    -- `CServerSocket::Init`
    unfoldable pub init_server : ℕ → Sockets O → Option (IoResult × Sockets O)
    unfolding bind_and_listen set_newfd
    init_server x s = do
      ss ← OrderedMap.find x s.servers
      let (fd, o) = sys.socket (sock_type ss.m_type) s.os
      let t = record s { os = o }
      if ltb_ℤ fd (pos 0) then some (io_err, t) else (do
        u ← hold x fd t
        let (r, o') = bind_and_listen fd ss u.os
        some (r, record u { os = o' }))

    -- `CUdpClientSocket::Init` and `CTcpClientSocket::Init`, by the type.
    unfoldable pub init_client : PortType → ℕ → Sockets O → Option (IoResult × Sockets O)
    unfolding set_newfd
    init_client type x s = do
      let (fd, o) = sys.socket (sock_type type) s.os
      let t = record s { os = o }
      if ltb_ℤ fd (pos 0) then some (io_err, t) else (do u ← hold x fd t; some (io_ok, u))

    abbrev pub init_udp_client : ℕ → Sockets O → Option (IoResult × Sockets O)
    init_udp_client = init_client port_udp

    abbrev pub init_tcp_client : ℕ → Sockets O → Option (IoResult × Sockets O)
    init_tcp_client = init_client port_tcp

    -- `CFdEpoll::Init`
    unfoldable pub init_epoll : ℕ → Sockets O → Option (IoResult × Sockets O)
    unfolding set_newfd
    init_epoll x s = do
      let (fd, o) = sys.epoll_create 100 s.os
      let t = record s { os = o }
      if ltb_ℤ fd (pos 0) then some (io_err, t) else (do u ← hold x fd t; some (io_ok, u))

    -- `CMonitorEpoll::Init`, with the address of `m_fd`; the stack is only read for a log.
    unfoldable pub init_monitor : ℕ → Sockets O → Option (IoResult × Sockets O)
    unfolding init_epoll
    init_monitor x s = do (r, t) ← init_epoll x s; some (elim r [ io_ok ↦ io_ok | _ ↦ io_err ], t)
