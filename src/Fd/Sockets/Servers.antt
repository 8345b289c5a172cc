-- ===== src/Fd/Sockets/Servers.antt =====
-- lib/eventmgr/Fd.h: `CServerSocket::Init`.
use cpp_coroutine.Common.{ℕ, ◌≡◌, refl, some, ◌⊎◌, inl, inr, true, false, arith}
use cpp_coroutine.Common.Int.{ℤ, pos, negsuc, ltb_ℤ}
use cpp_coroutine.OrderedMap.{find, put}
use cpp_coroutine.Util.{io_ok, io_err, IoResult}
use cpp_coroutine.CoroutineMgr.{◌>>=◌}
use cpp_coroutine.Fd.{Shared, Handles, set_newfd, get}
use cpp_coroutine.Fd.Counts.{count, closed_by}
use cpp_coroutine.Fd.Objects.{IsHandles}
use cpp_coroutine.Fd.Sockets.{
  ServerSocket, SocketCalls, Sockets, sock_type, bind_and_listen, init_server,
}
use cpp_coroutine.Fd.Sockets.Opening.{Listening, bind_and_listen_lem, newfd_got}

pub ℤ-cases : (z : ℤ) → ((n : ℕ) × (z ≡ pos n)) ⊎ (ltb_ℤ z (pos 0) ≡ true)
ℤ-cases (pos n) = inl (n, refl)
ℤ-cases (negsuc n) = inr (ground arith)

module _ {O : Type 0} (sys : SocketCalls O) where
  init_failed :
      (x : ℕ) (s : Sockets O) (ss : ServerSocket)
      → find x s.servers ≡ some ss
      → ltb_ℤ (sys.socket (sock_type ss.m_type) s.os).0 (pos 0) ≡ true
      → init_server sys x s
        ≡ some (io_err, record s { os = (sys.socket (sock_type ss.m_type) s.os).1 })
  unfolding init_server
  init_failed x s ss at bad = rw (at, bad, ◌>>=◌)

  init_opened :
      (x n : ℕ) (s : Sockets O) (ss : ServerSocket) (h : Handles)
      → find x s.servers ≡ some ss
      → (sys.socket (sock_type ss.m_type) s.os).0 ≡ pos n
      → set_newfd x (pos n) s.handles ≡ some h
      → let r = bind_and_listen sys (pos n) ss (sys.socket (sock_type ss.m_type) s.os).1 in
        init_server sys x s ≡ some (r.0, record s { handles = h; os = r.1 })
  unfolding init_server
  init_opened x n s ss h at good e =
      let above : ltb_ℤ (pos n) (pos 0) ≡ false = ground arith in rw (at, good, above, e, ◌>>=◌)

  -- The object holds the descriptor `n`, and what it held before is closed if nothing shares it.
  abbrev pub Holds : ℕ → ℕ → ℕ → Handles → Handles → Type 0
  Holds x b n h t =
      (get x t ≡ some (pos n))
      × (t.objects ≡ put x h.next h.objects)
      × ((c : Shared) × (find b h.shared ≡ some c)
          × (t.closed ≡ closed_by c.fd (count b t.objects) h.closed))

  -- `CServerSocket::Init` of a live object does not fault. Without a descriptor from `socket` it
  -- is `IO_ERR`, and no object changes. Else the object holds the new descriptor, also when a
  -- later call fails; the old one is closed if nothing shares it, no other object changes and the
  -- counts stay right. The result is `IO_OK` exactly if `setsockopt`, `bind` and `listen`
  -- succeed, one after the other, and `IO_ERR` otherwise.
  pub init_server_lem :
      (x b : ℕ) (s : Sockets O) (ss : ServerSocket)
      → IsHandles s.handles
      → find x s.handles.objects ≡ some b
      → find x s.servers ≡ some ss
      → let made = sys.socket (sock_type ss.m_type) s.os in
        (r : IoResult) × (t : Sockets O) × (init_server sys x s ≡ some (r, t))
        × (t.servers ≡ s.servers)
        × IsHandles t.handles
        × (((ltb_ℤ made.0 (pos 0) ≡ true) × (r ≡ io_err) × (t.handles ≡ s.handles))
            ⊎ ((n : ℕ) × (made.0 ≡ pos n)
                × Holds x b n s.handles t.handles
                × ((Listening sys (pos n) ss made.1 × (r ≡ io_ok))
                    ⊎ ((¬ Listening sys (pos n) ss made.1) × (r ≡ io_err)))))
  init_server_lem x b s ss i at found =
      let made = sys.socket (sock_type ss.m_type) s.os in
      elim (ℤ-cases made.0) [
        | inr bad ↦ (
          io_err,
          record s { os = made.1 },
          init_failed x s ss found bad,
          refl,
          i,
          inl (bad, refl, refl),
        )
        | inl (n, good) ↦
            let (c, h, here, went, ih, got, objects, closed) =
              newfd_got x b (pos n) s.handles i at in
            let r = bind_and_listen sys (pos n) ss made.1 in
            (
              r.0,
              record s { handles = h; os = r.1 },
              init_opened x n s ss h found good went,
              refl,
              ih,
              inr (
                n,
                good,
                (got, objects, (c, here, closed)),
                bind_and_listen_lem sys (pos n) ss made.1,
              ),
            )
      ]
