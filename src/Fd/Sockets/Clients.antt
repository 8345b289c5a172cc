-- ===== src/Fd/Sockets/Clients.antt =====
-- lib/eventmgr/Fd.h and EventMgr.cpp: `Init` of the sockets of clients and of `CFdEpoll`.
use cpp_coroutine.Common.{
  ℕ, ◌≡◌, refl, some, ◌⊎◌, inl, inr, true, false, if◌then◌else◌, arith, Option,
}
use cpp_coroutine.Common.Int.{ℤ, pos, ltb_ℤ}
use cpp_coroutine.OrderedMap.{find}
use cpp_coroutine.Util.{PortType, io_ok, io_err, IoResult}
use cpp_coroutine.CoroutineMgr.{◌>>=◌}
use cpp_coroutine.Fd.Objects.{IsHandles}
use cpp_coroutine.Fd.Sockets.{SocketCalls, Sockets, sock_type, hold, init_client, init_epoll}
use cpp_coroutine.Fd.Sockets.Opening.{newfd_got}
use cpp_coroutine.Fd.Sockets.Servers.{ℤ-cases, Holds}

module _ {O : Type 0} (sys : SocketCalls O) where
  -- `Init` with a descriptor from `made`: without one `IO_ERR`, and no object changes; else `IO_OK`
  -- and the object holds it.
  abbrev pub Opened : ℕ → ℕ → Sockets O → ℤ × O → Option (IoResult × Sockets O) → Type 0
  Opened x b s made got =
      (r : IoResult) × (t : Sockets O) × (got ≡ some (r, t))
      × IsHandles t.handles
      × (t.servers ≡ s.servers)
      × (t.os ≡ made.1)
      × (((ltb_ℤ made.0 (pos 0) ≡ true) × (r ≡ io_err) × (t.handles ≡ s.handles))
          ⊎ ((n : ℕ) × (made.0 ≡ pos n) × (r ≡ io_ok) × Holds sys x b n s.handles t.handles))

  -- What both `Init` do.
  abbrev opening : ℕ → Sockets O → ℤ × O → Option (IoResult × Sockets O)
  opening x s made =
      if ltb_ℤ made.0 (pos 0)
      then some (io_err, record s { os = made.1 })
      else (do u ← hold x made.0 (record s { os = made.1 }); some (io_ok, u))

  opening_lem :
      (x b : ℕ) (s : Sockets O) (made : ℤ × O)
      → IsHandles s.handles
      → find x s.handles.objects ≡ some b
      → Opened x b s made (opening x s made)
  opening_lem x b s made i at = elim (ℤ-cases made.0) [
    | inr bad ↦
        (io_err, record s { os = made.1 }, rw bad refl, i, refl, refl, inl (bad, refl, refl))
    | inl (n, good) ↦
        let (c, h, here, went, ih, got, objects, closed) = newfd_got x b (pos n) s.handles i at in
        let above : ltb_ℤ (pos n) (pos 0) ≡ false = ground arith in
        (
          io_ok,
          record s { handles = h; os = made.1 },
          rw (good, above, went, ◌>>=◌) refl,
          ih,
          refl,
          refl,
          inr (n, good, refl, (got, objects, (c, here, closed))),
        )
  ]

  module _ (x b : ℕ) (s : Sockets O) (i : IsHandles s.handles)
      (at : find x s.handles.objects ≡ some b) where
    -- `Init` of a live `CUdpClientSocket` or `CTcpClientSocket` does not fault: without a
    -- descriptor from `socket` it is `IO_ERR` and no object changes; else it is `IO_OK`, the object
    -- holds the descriptor, what it held is closed if nothing shares it, and no other object
    -- changes.
    pub init_client_lem :
        (type : PortType)
        → Opened x b s (sys.socket (sock_type type) s.os) (init_client sys type x s)
    unfolding init_client
    init_client_lem type = opening_lem x b s (sys.socket (sock_type type) s.os) i at

    -- `CFdEpoll::Init`, in the same way, with the descriptor of `epoll_create`.
    pub init_epoll_lem : Opened x b s (sys.epoll_create 100 s.os) (init_epoll sys x s)
    unfolding init_epoll
    init_epoll_lem = opening_lem x b s (sys.epoll_create 100 s.os) i at
