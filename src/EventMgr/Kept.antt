-- ===== src/EventMgr/Kept.antt =====
-- lib/eventmgr/EventMgr.h: handlers that leave the scheduler as it is.
use cpp_coroutine.Common.{ℕ, ◌≡◌, refl, ap, subst, Option, none, some, Option-cases, inl, inr, ◌⊎◌}
use cpp_coroutine.Common.Int.{ℤ, pos}
use cpp_coroutine.Util.{PortType, port_tcp, IoResult, io_ok}
use cpp_coroutine.FdMgr.{FdData, add_fd, get_fd, SockAddr}
use cpp_coroutine.CoroutineMgr.{Sys, ◌>>=◌}
use cpp_coroutine.EventMgr.Net.{Calls, Net, AcceptResult, accepted_from, accept_failed}
use cpp_coroutine.EventMgr.Handlers.{new_req, add_server_fd, watch}

-- The coroutines and timers of two states are the same.
pub record IsSameSched {W : Type 0} (s t : Sys W) : Type 0 where
  pub nodes : t.idtonode ≡ s.idtonode
  pub active : t.active ≡ s.active
  pub ids : t.staticid ≡ s.staticid
  pub timers : t.expire ≡ s.expire

AcceptResult-cases :
    (r : AcceptResult) → ((n : ℕ) × (a : SockAddr) × (r ≡ accepted_from n a)) ⊎ (r ≡ accept_failed)
AcceptResult-cases (accepted_from n a) = inl (n, a, refl)
AcceptResult-cases accept_failed = inr refl

-- So are those of every state that an operation may end in.
abbrev Kept : {A W : Type 0} → Sys W → Option (A × Sys W) → Type 0
Kept s none = Unit
Kept s (some x) = IsSameSched s x.1

of-Kept :
    {A W : Type 0} {o : Option (A × Sys W)} {r : A} {s t : Sys W}
    → o ≡ some (r, t)
    → Kept s o
    → IsSameSched s t
of-Kept {s = s} e k = subst (Kept s) e k

module _ {O : Type 0} (sys : Calls O) where
  new_req-Kept :
      (ss : ℤ) (d : FdData) (s : Sys (Net O)) → d.port_type ≡ port_tcp → Kept s (new_req sys ss d s)
  unfolding new_req watch
  new_req-Kept ss d s tcp = elim (AcceptResult-cases (sys.accept ss s.world.os).0) [
    | inr failed ↦
        rw (tcp, failed, new_req)
          (record { nodes = refl; active = refl; ids = refl; timers = refl })
    | inl (n, a, got) ↦ elim (Option-cases (add_fd (pos n) s.world.fds)) [
      | inl none_at ↦ rw (tcp, got, none_at, ◌>>=◌, new_req) tt
      | inr (m, added) ↦ elim (Option-cases (get_fd ss m)) [
        | inl none_at ↦ rw (tcp, got, added, none_at, ◌>>=◌, new_req) tt
        | inr (l, found) ↦
            rw (tcp, got, added, found, ◌>>=◌, new_req)
              (record { nodes = refl; active = refl; ids = refl; timers = refl })
      ]
    ]
  ]

  -- `NewReq` of a TCP socket, whatever `accept` answers and the table holds.
  pub new_req-IsSameSched :
      (ss : ℤ) (d : FdData) (r : IoResult) (s t : Sys (Net O))
      → d.port_type ≡ port_tcp
      → new_req sys ss d s ≡ some (r, t)
      → IsSameSched s t
  new_req-IsSameSched ss d r s t tcp e = of-Kept e (new_req-Kept ss d s tcp)

  add_server-Kept :
      (fd : ℤ) (type : PortType) (check : ℕ) (s : Sys (Net O))
      → Kept s (add_server_fd sys fd type check s >>= λ t. some (io_ok, t))
  unfolding add_server_fd watch
  add_server-Kept fd type check s = elim (Option-cases (add_fd fd s.world.fds)) [
    | inl none_at ↦ rw (none_at, ◌>>=◌) tt
    | inr (m, added) ↦
        rw (added, ◌>>=◌) (record { nodes = refl; active = refl; ids = refl; timers = refl })
  ]

  -- `AddServerFd`.
  pub add_server_fd-IsSameSched :
      (fd : ℤ) (type : PortType) (check : ℕ) (s t : Sys (Net O))
      → add_server_fd sys fd type check s ≡ some t
      → IsSameSched s t
  add_server_fd-IsSameSched fd type check s t e =
      of-Kept (ap (λ o. o >>= λ t. some (io_ok, t)) e) (add_server-Kept fd type check s)
