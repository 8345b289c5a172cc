-- ===== src/EventMgr/Reach.antt =====
-- lib/eventmgr/EventMgr.h and CoroutineMgr.h: the states that the main loop goes through, whatever the
-- order of timers, rounds of `ScheduleAll`, new clients, requests and answers.
pub mod Invariant
use native.Mathlib.Decide.{ℕ_discrete}
use cpp_coroutine.Common.{
  ℕ, suc, ◌+◌, ◌*◌, ◌^◌, ◌≡◌, ◌≢◌, ◌≤◌, ◌<◌, inl, inr, refl, ap, sym, ◌∙◌, subst, List, [], ◌∷◌,
  Option, none, some, length, take, arith,
}
use cpp_coroutine.Common.Int.{ℤ, pos}
use cpp_coroutine.OrderedMap
use cpp_coroutine.OrderedMap.{Map, IsSorted, find}
use cpp_coroutine.Util.{PortType, port_tcp, IoResult, io_ok}
use cpp_coroutine.Util.MemData
use cpp_coroutine.ExpireMgr.{IsLinked}
use cpp_coroutine.ExpireMgr.Spec.{deadline}
use cpp_coroutine.FdKey.{FdKey}
use cpp_coroutine.FdMgr.{FdData, SendRecv, SockAddr, server_conn, other}
use cpp_coroutine.FdMgr.Lookup.{Conns, table, IsOrdered}
use cpp_coroutine.FdMgr.Insert.{FreshFd}
use cpp_coroutine.FdMgr.Nodes.{load}
use cpp_coroutine.CoroutineMgr.{Body, Context, ReqData, Sys, schedule_all, initial, init}
use cpp_coroutine.CoroutineMgr.Invariant.{IsValid, IsNode-same, waits_of_deadline}
use cpp_coroutine.CoroutineMgr.Start.{Issued, init_lem}
use cpp_coroutine.EventMgr.{run_expired}
use cpp_coroutine.EventMgr.Wake.{run_expired_lem}
use cpp_coroutine.EventMgr.Receive.{received, def_recv_size}
use cpp_coroutine.EventMgr.Net.{Calls, Net, accepted_from}
use cpp_coroutine.EventMgr.Handlers.{do_read_tcp, new_req, add_server_fd, seq_key}
use cpp_coroutine.EventMgr.Dispatch.{net_clock}
use cpp_coroutine.EventMgr.Requests.{read_request}
use cpp_coroutine.EventMgr.Replies.{read_reply}
use cpp_coroutine.EventMgr.Accepts.{new_req_accepts}
use cpp_coroutine.EventMgr.Rounds.{IsRound, Issued-kept, expired-IsRound, schedule_all-IsRound}

module _ {O : Type 0} (sys : Calls O) (check_at seq_at : ℕ → List ℕ → ℕ → Option ℤ)
    (callback : ℕ → ReqData → Body (Net O)) where
  -- The client at `n` has sent a whole package.
  pub record IsRequest (n : ℕ) (p : FdKey) (s : Sys (Net O)) : Type 0 where
    pub b : ℕ
    pub pkg : ℕ
    pub cb : ℕ
    pub bs : List ℕ
    pub d : FdData
    pub a : SockAddr
    pub room : s.staticid + 1 < 2 ^ 32
    pub loaded : load p s.world.fds ≡ some d
    pub client : d.fd_state ≡ server_conn
    pub peer : d.remote ≡ some a
    pub checked : d.check ≢ 0
    pub registered : find d.check s.world.pkgcallback ≡ some cb
    pub set : cb ≢ 0
    pub got : (sys.recv (pos n) def_recv_size s.world.os).0 ≡ received (b ∷ bs)
    pub fits : length (b ∷ bs) ≤ def_recv_size
    pub found :
        (src : List ℕ)
        → take (length (b ∷ bs)) src ≡ b ∷ bs
        → check_at d.check src (length (b ∷ bs)) ≡ some (pos pkg)
    pub more : 0 < pkg
    pub whole : pkg ≤ length (b ∷ bs)

  -- The server at `n` has answered a call whose coroutine has a timer.
  pub record IsAnswer (n : ℕ) (p : FdKey) (s : Sys (Net O)) : Type 0 where
    pub b : ℕ
    pub pkg : ℕ
    pub e : ℕ
    pub bs : List ℕ
    pub d : FdData
    pub z : ℤ
    pub sr : SendRecv
    pub loaded : load p s.world.fds ≡ some d
    pub server : d.fd_state ≡ other
    pub checked : d.check ≢ 0
    pub numbered : d.seq ≢ 0
    pub got : (sys.recv (pos n) def_recv_size s.world.os).0 ≡ received (b ∷ bs)
    pub fits : length (b ∷ bs) ≤ def_recv_size
    pub found :
        (src : List ℕ)
        → take (length (b ∷ bs)) src ≡ b ∷ bs
        → (check_at d.check src (length (b ∷ bs)) ≡ some (pos pkg))
          × (seq_at d.seq src pkg ≡ some z)
    pub more : 0 < pkg
    pub known : find (seq_key z) d.seq_to_coroutine ≡ some sr
    pub buffer : MemData.IsValid sr.recv_data
    pub timer : deadline s.expire sr.id ≡ some e

  -- The server at `n` has answered under a number that no call has.
  pub record IsLost (n : ℕ) (p : FdKey) (s : Sys (Net O)) : Type 0 where
    pub b : ℕ
    pub pkg : ℕ
    pub bs : List ℕ
    pub d : FdData
    pub z : ℤ
    pub loaded : load p s.world.fds ≡ some d
    pub server : d.fd_state ≡ other
    pub checked : d.check ≢ 0
    pub numbered : d.seq ≢ 0
    pub got : (sys.recv (pos n) def_recv_size s.world.os).0 ≡ received (b ∷ bs)
    pub fits : length (b ∷ bs) ≤ def_recv_size
    pub found :
        (src : List ℕ)
        → take (length (b ∷ bs)) src ≡ b ∷ bs
        → (check_at d.check src (length (b ∷ bs)) ≡ some (pos pkg))
          × (seq_at d.seq src pkg ≡ some z)
    pub more : 0 < pkg
    pub unknown : find (seq_key z) d.seq_to_coroutine ≡ none

  -- The peer at `n` has closed the connection, and `n` is not the id of a coroutine with a timer.
  pub record IsClosed (n : ℕ) (p : FdKey) (s : Sys (Net O)) : Type 0 where
    pub d : FdData
    pub loaded : load p s.world.fds ≡ some d
    pub checked : d.check ≢ 0
    pub got : (sys.recv (pos n) def_recv_size s.world.os).0 ≡ received []
    pub small : n < 2 ^ 32
    pub no_timer : deadline s.expire n ≡ none

  -- A step of the main loop.
  pub data Step (s : Sys (Net O)) : Sys (Net O) → Type 0 where
    timers :
        {t : Sys (Net O)} {r : Option ℕ}
        → run_expired (net_clock sys) callback s ≡ some (r, t)
        → Step s t
    round :
        {t : Sys (Net O)} (fuel : ℕ)
        → 2 * (s.staticid + 1) ≤ fuel
        → schedule_all (net_clock sys) callback fuel s ≡ some t
        → Step s t
    request :
        {t : Sys (Net O)} {n : ℕ} {p : FdKey} {r : IoResult}
        → IsRequest n p s
        → do_read_tcp sys check_at seq_at (pos n) p s ≡ some (r, t)
        → Step s t
    answer :
        {t : Sys (Net O)} {n : ℕ} {p : FdKey} {r : IoResult}
        → IsAnswer n p s
        → do_read_tcp sys check_at seq_at (pos n) p s ≡ some (r, t)
        → Step s t
    lost :
        {t : Sys (Net O)} {n : ℕ} {p : FdKey} {r : IoResult}
        → IsLost n p s
        → do_read_tcp sys check_at seq_at (pos n) p s ≡ some (r, t)
        → Step s t
    closed :
        {t : Sys (Net O)} {n : ℕ} {p : FdKey} {r : IoResult}
        → IsClosed n p s
        → do_read_tcp sys check_at seq_at (pos n) p s ≡ some (r, t)
        → Step s t
    accept :
        {t : Sys (Net O)} {r : IoResult} (ss : ℤ) (d : FdData)
        → d.port_type ≡ port_tcp
        → new_req sys ss d s ≡ some (r, t)
        → Step s t
    listens :
        {t : Sys (Net O)} (fd : ℤ) (type : PortType) (check : ℕ)
        → add_server_fd sys fd type check s ≡ some t
        → Step s t

  pub data Reach (s : Sys (Net O)) : Sys (Net O) → Type 0 where
    at_start : Reach s s
    and_then : {t u : Sys (Net O)} → Reach s t → Step t u → Reach s u
