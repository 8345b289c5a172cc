-- ===== src/Util.antt =====
-- lib/eventmgr/util.h: the enumerations and constants that every part shares.
pub mod Timer
pub mod Text
pub mod MemData
use cpp_coroutine.Common.{ℕ, ◌*◌}

-- `EIORESULT`
pub data IoResult : Type 0 where
  io_ok io_socket_err io_err io_arg_invalid io_send_again io_timeout : IoResult
  io_remote_close io_connect_wait : IoResult

-- `EPORTTYPE`
pub data PortType : Type 0 where
  port_tcp port_udp : PortType

-- `EFDEVENT`
pub data FdEvent : Type 0 where
  fd_read fd_write fd_read_write : FdEvent

-- `ENodeState`
pub data NodeState : Type 0 where
  ready wait end : NodeState

-- `TIME_EXPIRE`
abbrev pub time_expire : ℕ
time_expire = 2000 * 1000
