-- ===== src/FdMgr.antt =====
-- lib/eventmgr/FdMgr.h, `CFdMgr` and the records of its table. The table is a `std::map` under the
-- comparison of `FdKey`, here the entries in the order of the tree. `find` and `insert` make the
-- comparisons that the tree's search makes along that order: the first entry that is not less than
-- the key, and the first one that the key is less than, with the entry before it. In the tables of
-- Lookup each of these tests changes once along the order, so that the shape of the tree has no part.
pub mod Lookup
pub mod Insert
pub mod Reads
pub mod Nodes
pub mod Plain
pub mod Pointers
use cpp_coroutine.Common.{ℕ, Bool, true, not, List, [], ◌∷◌, Option, none, some, if◌then◌else◌}
use mathlib.Core.Option
use cpp_coroutine.Common.Int.{ℤ, pos, negsuc}
use cpp_coroutine.OrderedMap.{Map}
use cpp_coroutine.Util.{PortType, port_tcp, port_udp, IoResult, io_ok, io_err}
use cpp_coroutine.Util.MemData.{MemData}
use cpp_coroutine.Util.MemData
use cpp_coroutine.FdKey.{FdKey, key_lt, IpPort, Text, no_ip_port, no_fd}

-- `stSendRecv`
pub record SendRecv : Type 0 where
  pub id : ℕ
  pub recv_data : MemData

-- `E_FD_TYPE`
pub data FdType : Type 0 where
  listen server_conn other connect : FdType

-- `sockaddr_in`
pub record SockAddr : Type 0 where
  pub s_addr : ℕ
  pub sin_port : ℕ

-- `stFdData`. A callback is its address, 0 for `NULL`; the `int` keys of `seq_to_coroutine` are
-- stored as key + 2 ^ 31, in the same order; `none` is a value that was never assigned.
pub record FdData : Type 0 where
  pub check : ℕ
  pub seq : ℕ
  pub seq_to_coroutine : Map SendRecv
  pub recvdata : MemData
  pub remote : Option SockAddr
  pub port_type : PortType
  pub fd_state : FdType
  pub context_id : ℕ
  pub last_op_ret : Option IoResult
  pub fd : ℤ

-- The constructor of `stFdData`, and `sfd.fd = fd`.
abbrev pub fd_data : ℤ → FdData
fd_data fd = record {
  check = 0;
  seq = 0;
  seq_to_coroutine = [];
  recvdata = record { bytes = []; offset = 0 };
  remote = none;
  port_type = port_udp;
  fd_state = other;
  context_id = 0;
  last_op_ret = none;
  fd = fd;
}

-- `stFdData::Clear`
abbrev pub clear : FdData → FdData
clear d = record d { last_op_ret = some io_ok }

abbrev pub Table {ℓ} : Type ℓ → Type ℓ
Table V = List (FdKey × V)

module _ {ℓ} {V : Type ℓ} where
  -- The first entry that is not less than the key, and those behind it.
  unfoldable pub lower_bound : FdKey → Table V → Table V
  lower_bound k [] = []
  lower_bound k ((j, v) ∷ m) = if key_lt j k then lower_bound k m else (j, v) ∷ m

  unfoldable pub find : FdKey → Table V → Option V
  unfolding lower_bound
  find k m = elim (lower_bound k m) [ [] ↦ none | (j, v) ∷ _ ↦ if key_lt k j then none else some v ]

  -- `before` says that the entry before, if there is one, is less than the key.
  unfoldable pub insert_from : Bool → FdKey → V → Table V → Option (Table V)
  insert_from before k v [] = if before then some ((k, v) ∷ []) else none
  insert_from before k v ((j, w) ∷ m) =
      if key_lt k j
      then (if before then some ((k, v) ∷ (j, w) ∷ m) else none)
      else Option.map (◌∷◌ (j, w)) (insert_from (key_lt j k) k v m)

  -- `insert`: nothing if an equal key is found.
  unfoldable pub insert : FdKey → V → Table V → Option (Table V)
  unfolding insert_from
  insert = insert_from true

  -- `erase` of the entry that `find` points to.
  unfoldable pub erase : FdKey → Table V → Table V
  erase k [] = []
  erase k ((j, v) ∷ m) = if key_lt j k then (j, v) ∷ erase k m else m

-- The key of `Exist(fd, iter)`.
abbrev pub fd_key : ℤ → FdKey
fd_key fd = record { ip_port = no_ip_port; socket_fd = fd }

-- The key of `Exist(ip, port, type, iter)`.
abbrev pub ip_port_key : Text → ℕ → PortType → FdKey
ip_port_key ip port type = record {
  ip_port = record { ip = ip; port = port; type = type };
  socket_fd = no_fd;
}

-- `Get(fd)`
unfoldable pub get_fd : ℤ → Table FdData → Option FdData
get_fd fd m = find (fd_key fd) m

-- `Get(ip, port, type)`
unfoldable pub get_conn : Text → ℕ → PortType → Table FdData → Option FdData
get_conn ip port type m = find (ip_port_key ip port type) m

-- `Add(fd)`: the table with the new entry, or nothing for `NULL`.
unfoldable pub add_fd : ℤ → Table FdData → Option (Table FdData)
add_fd fd m = insert (fd_key fd) (fd_data fd) m

-- `Add(fd, ip, port, type)`
unfoldable pub add_conn : ℤ → Text → ℕ → PortType → Table FdData → Option (Table FdData)
add_conn fd ip port type m =
    insert (record (ip_port_key ip port type) { socket_fd = fd }) (fd_data fd) m

-- `Destroy(fd)`
unfoldable pub destroy : ℤ → Table FdData → IoResult × Table FdData
destroy fd m = elim (find (fd_key fd) m) [
  | none ↦ (io_err, m)
  | some _ ↦ (io_ok, erase (fd_key fd) m)
]
