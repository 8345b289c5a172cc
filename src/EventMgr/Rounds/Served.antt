-- ===== src/EventMgr/Rounds/Served.antt =====
-- A round of the main loop in which a client has sent a package.
use cpp_coroutine.Common.{
  ℕ, ◌+◌, ◌-◌, ◌*◌, ◌^◌, ◌≡◌, ◌≢◌, ◌≤◌, ◌<◌, inl, inr, ◌∙◌, true, List, [], ◌∷◌, Option, some,
  length, take, arith,
}
use cpp_coroutine.Common.Int.{ℤ, pos, to_int}
use cpp_coroutine.OrderedMap
use cpp_coroutine.OrderedMap.{Map, IsSorted, find}
use cpp_coroutine.Util.{port_tcp, io_ok, wait, time_expire}
use cpp_coroutine.ExpireMgr.Spec.{deadline, clock as ms_of}
use cpp_coroutine.FdMgr.{FdData, SockAddr, server_conn}
use cpp_coroutine.FdMgr.Lookup.{Conns, table}
use cpp_coroutine.CoroutineMgr.{Body, Context, ReqData, Sys, schedule_all, ◌>>=◌}
use cpp_coroutine.CoroutineMgr.Invariant.{IsValid}
use cpp_coroutine.CoroutineMgr.Start.{Issued}
use cpp_coroutine.EventMgr.{run_expired}
use cpp_coroutine.EventMgr.Wake.{Woken, run_expired_lem}
use cpp_coroutine.EventMgr.Receive.{received, def_recv_size}
use cpp_coroutine.EventMgr.Net.{Calls, Net, EpollEvent, happened, can_read}
use cpp_coroutine.EventMgr.Dispatch.{net_clock, wait_events, dispatch, dispatch_event, run_once}
use cpp_coroutine.EventMgr.Requests.{world-IsValid, world-Issued, HasRequest}
use cpp_coroutine.EventMgr.Accepts.{dispatch_request}
use cpp_coroutine.EventMgr.Rounds.{IsRound, schedule_all-IsRound}

module _ {O : Type 0} (sys : Calls O) (callback : ℕ → ReqData → Body (Net O)) where
  -- No timer has run out.
  abbrev pub IsEarly : Sys (Net O) → Type 0
  IsEarly s = (j e : ℕ) → deadline s.expire j ≡ some e → ms_of (net_clock sys s.world) < e

  early :
      (s : Sys (Net O))
      → IsValid s
      → IsEarly s
      → (ms : ℕ) × (run_expired (net_clock sys) callback s ≡ some (some ms, s))
  early s v before =
      let (r, t, e, _, w) = run_expired_lem (net_clock sys) callback s v in same r t e w
    where
      same :
          (r : Option ℕ) (t : Sys (Net O))
          → run_expired (net_clock sys) callback s ≡ some (r, t)
          → Woken (net_clock sys) callback s r t
          → (ms : ℕ) × (run_expired (net_clock sys) callback s ≡ some (some ms, s))
      same r t e (inl (_, a, b)) = (time_expire, e ∙ cc)
      same r t e (inr (id, x, first, inl (_, a, b))) =
          (x - ms_of (net_clock sys s.world), e ∙ rw (a, b))
      same r t e (inr (id, x, first, inr (due, _, _, _, _))) =
          absurd (omega (arith, due, before id x first.0))

  module _ (check_at seq_at : ℕ → List ℕ → ℕ → Option ℤ) where
    -- After `epoll_wait`.
    abbrev waited : ℕ → Sys (Net O) → Sys (Net O)
    waited ms s = record s {
      world = record (s.world) { os = (sys.epoll_wait (to_int ms) s.world.os).1 };
    }

    one_event :
        (ms : ℕ) (ev : EpollEvent) (s t : Sys (Net O))
        → run_expired (net_clock sys) callback s ≡ some (some ms, s)
        → (sys.epoll_wait (to_int ms) s.world.os).0 ≡ happened (ev ∷ [])
        → dispatch_event sys check_at seq_at ev (waited ms s) ≡ some t
        → run_once sys check_at seq_at callback s ≡ some (io_ok, t)
    unfolding run_once wait_events dispatch
    one_event ms ev s t a b c = rw (a, b, c, run_once, wait_events, dispatch, ◌>>=◌)

    -- In a valid state with all ids up to `staticid` given out, fewer than 2^32, no timer due,
    -- and a table of sorted descriptors and connections, suppose that `epoll_wait` brings the one
    -- event that a TCP client with a check that has a callback can be read, and `recv` gives at
    -- most `DEF_RECV_SIZE` bytes that start with a whole package. Then `RunOnce` returns `IO_OK`,
    -- and one more coroutine is ready, under the next id, which was free, with exactly the
    -- package, the peer, the socket and the callback; the other nodes and the table stay. The
    -- `ScheduleAll` after it ends without a fault in a valid state in which every node but 0 is
    -- waiting.
    pub request_served :
        (fuel n events b pkg cb : ℕ) (bs : List ℕ) (s : Sys (Net O)) (d : FdData) (a : SockAddr)
        (ps : Map FdData) (cs : Conns FdData)
        → IsValid s
        → Issued s
        → s.staticid + 1 < 2 ^ 32
        → 2 * (s.staticid + 2) ≤ fuel
        → IsEarly s
        → ((ms : ℤ)
            → (sys.epoll_wait ms s.world.os).0
              ≡ happened (record { events = events; fd = pos n } ∷ []))
        → IsSorted ps
        → s.world.fds ≡ table ps cs
        → OrderedMap.find n ps ≡ some d
        → d.fd_state ≡ server_conn
        → d.port_type ≡ port_tcp
        → d.remote ≡ some a
        → d.check ≢ 0
        → OrderedMap.find d.check s.world.pkgcallback ≡ some cb
        → cb ≢ 0
        → can_read events ≡ true
        → ((ms : ℤ)
            → (sys.recv (pos n) def_recv_size (sys.epoll_wait ms s.world.os).1).0
              ≡ received (b ∷ bs))
        → length (b ∷ bs) ≤ def_recv_size
        → ((src : List ℕ)
            → take (length (b ∷ bs)) src ≡ b ∷ bs
            → check_at d.check src (length (b ∷ bs)) ≡ some (pos pkg))
        → 0 < pkg
        → pkg ≤ length (b ∷ bs)
        → (t u : Sys (Net O)) × (run_once sys check_at seq_at callback s ≡ some (io_ok, t))
          × HasRequest s t (take pkg (b ∷ bs)) (pos n) a cb
          × (schedule_all (net_clock sys) callback fuel t ≡ some u)
          × IsRound fuel u
          × ((j : ℕ) (c : Context (Net O)) → j ≢ 0 → find j u.idtonode ≡ some c → c.state ≡ wait)
    request_served fuel n events b pkg cb bs s d a ps cs v i room fuel_ok before event sorted at
          here st tcp addr chk reg set can got fits found more whole =
        let (ms, early_run) = early s v before in
        let s' : Sys (Net O) = waited ms s in
        let (t, e, h) =
          dispatch_request sys check_at seq_at n events b pkg cb bs s' d a ps cs
            (world-IsValid s'.world s v) (world-Issued s'.world s i) room sorted at here st tcp addr
            chk reg set can (got (to_int ms)) fits found more whole in
        let (u, went, k, idle) =
          schedule_all-IsRound sys callback fuel t (record {
            valid = h.valid;
            issued = h.issued;
            enough = omega (arith, h.ids, fuel_ok);
          }) in
        (
          t,
          u,
          one_event ms (record { events = events; fd = pos n }) s t early_run (event (to_int ms)) e,
          record {
            valid = h.valid;
            issued = h.issued;
            unused = h.unused;
            node = h.node;
            others = h.others;
            table = h.table;
            ids = h.ids;
          },
          went,
          k,
          idle,
        )
