-- ===== src/EventMgr/Net.antt =====
-- lib/eventmgr/EventMgr.h: what `CMonitorEpoll` shares with the coroutines, and the calls of the
-- system that it makes. The state of the system is a type `O`; what a call does to it is an
-- argument.
use cpp_coroutine.Common.{
  ℕ, ◌%◌, ◌^◌, Bool, List, Option, not, if◌then◌else◌, ◌==◌, bit_and, true, false, ◌-◌,
}
use cpp_coroutine.Common.Int.{ℤ, pos, negsuc}
use cpp_coroutine.OrderedMap
use cpp_coroutine.OrderedMap.{Map}
use cpp_coroutine.Util.{IoResult, io_ok, io_arg_invalid, FdEvent, fd_read, fd_write, fd_read_write}
use cpp_coroutine.Util.Timer.{Timeval}
use cpp_coroutine.FdMgr.{FdData, FdType, listen, server_conn, other, SockAddr, Table}
use cpp_coroutine.FdKey.{Text}
use cpp_coroutine.EventMgr.Receive.{RecvResult}
use cpp_coroutine.EventMgr.Send.{SendResult}

-- `epoll_event`; `data` holds the descriptor.
pub record EpollEvent : Type 0 where
  pub events : ℕ
  pub fd : ℤ

-- What `epoll_wait` returns: events, none after the time is over, or -1.
pub data EpollResult : Type 0 where
  happened : List EpollEvent → EpollResult
  wait_failed : EpollResult

-- What `accept` returns: a descriptor and the address of the peer, or -1.
pub data AcceptResult : Type 0 where
  accepted_from : ℕ → SockAddr → AcceptResult
  accept_failed : AcceptResult

-- The calls of the system; `epoll_ctl` answers whether it succeeds, `socket` gives a descriptor or
-- nothing, and `connect` nothing or `errno`.
pub record Calls (O : Type 0) : Type 0 where
  pub now : O → Timeval
  pub epoll_wait : ℤ → O → EpollResult × O
  pub epoll_add : ℤ → FdEvent → O → Bool × O
  pub epoll_del : ℤ → O → Bool × O
  pub accept : ℤ → O → AcceptResult × O
  pub recv : ℤ → ℕ → O → RecvResult × O
  pub send : ℕ → List ℕ → O → SendResult × O
  pub socket : O → Option ℕ × O
  pub connect : ℕ → Text → ℕ → O → Option ℕ × O

-- The table of `CFdMgr`, `m_pkgcallback` by the address of the check, and the system.
pub record Net (O : Type 0) : Type 0 where
  pub fds : Table FdData
  pub pkgcallback : Map ℕ
  pub os : O

abbrev pub epollin : ℕ
epollin = 1

abbrev pub epollout : ℕ
epollout = 4

abbrev pub epollerr : ℕ
epollerr = 8

-- `Convert`
unfoldable pub convert : FdEvent → ℕ
convert fd_read = epollin
convert fd_write = epollout
convert fd_read_write = 5

-- `RegisterPackage`
unfoldable pub register_package : {O : Type 0} → ℕ → ℕ → Net O → IoResult × Net O
register_package check process w =
    if check == 0
    then (io_arg_invalid, w)
    else if process == 0
    then (io_arg_invalid, w)
    else (io_ok, record w { pkgcallback = OrderedMap.put check process w.pkgcallback })

unfoldable pub can_read : ℕ → Bool
can_read events = not (bit_and events epollin == 0)

unfoldable pub can_write : ℕ → Bool
can_write events = not (bit_and events epollout == 0)

unfoldable pub has_error : ℕ → Bool
has_error events = not (bit_and epollerr events == 0)

unfoldable pub is_listen_fd : FdType → Bool
is_listen_fd t = elim t [ listen ↦ true | _ ↦ false ]

-- `IsClient`
unfoldable pub is_client : FdType → Bool
is_client t = elim t [ server_conn ↦ true | _ ↦ false ]

-- `IsOtherConn`
unfoldable pub is_other_conn : FdType → Bool
is_other_conn t = elim t [ other ↦ true | _ ↦ false ]

-- An `int` stored in a `uint32_t`.
abbrev pub to_u32 : ℤ → ℕ
to_u32 (pos n) = n % 2 ^ 32
to_u32 (negsuc n) = 2 ^ 32 - 1 - n % 2 ^ 32
