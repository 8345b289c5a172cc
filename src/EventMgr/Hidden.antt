-- ===== src/EventMgr/Hidden.antt =====
-- lib/eventmgr/EventMgr.h: events of connections to other servers that `Get(fd)` does not find.
use cpp_coroutine.Common.{ℕ, ◌≡◌, ◌<◌, ap, ◌∙◌, List, Option, none, some}
use cpp_coroutine.Common.Int.{ℤ, pos}
use cpp_coroutine.OrderedMap
use cpp_coroutine.OrderedMap.{Map, IsSorted}
use cpp_coroutine.Util.{port_tcp, io_ok}
use cpp_coroutine.FdMgr.{FdData, SockAddr, get_fd, fd_key}
use cpp_coroutine.FdMgr.Lookup.{Conns, table, IsOrdered}
use cpp_coroutine.FdMgr.Insert.{FreshFd}
use cpp_coroutine.FdMgr.Nodes.{node_of}
use cpp_coroutine.FdMgr.Pointers.{find_node-none}
use cpp_coroutine.FdMgr.Reads.{get_fd-put}
use cpp_coroutine.CoroutineMgr.{Sys}
use cpp_coroutine.EventMgr.Net.{Calls, Net, EpollEvent, accepted_from}
use cpp_coroutine.EventMgr.Handlers.{unwatch, new_req}
use cpp_coroutine.EventMgr.Dispatch.{dispatch_event}
use cpp_coroutine.EventMgr.Accepts.{client_data, new_req_accepts}

module _ {O : Type 0} (sys : Calls O) (check_at seq_at : ℕ → List ℕ → ℕ → Option ℤ) where
  dispatch_unknown :
      (ev : EpollEvent) (s : Sys (Net O))
      → get_fd ev.fd s.world.fds ≡ none
      → dispatch_event sys check_at seq_at ev s ≡ some (unwatch sys ev.fd s)
  unfolding dispatch_event
  dispatch_unknown ev s h =
      let missing : node_of ev.fd s.world.fds ≡ none =
        unfold node_of get_fd in find_node-none (fd_key ev.fd) s.world.fds h in
      rw (missing, dispatch_event)

  -- In a table of sorted descriptors and ordered connections, once `NewReq` of a listening TCP
  -- socket has accepted a new descriptor, an event of any smaller descriptor that is not among
  -- the plain ones, also if it is the socket of a connection, has no effect but that the socket
  -- is no longer watched.
  pub accept_hides :
      (ss n f events : ℕ) (remote : SockAddr) (d l : FdData) (s : Sys (Net O)) (ps : Map FdData)
      (cs : Conns FdData)
      → IsSorted ps
      → IsOrdered cs
      → s.world.fds ≡ table ps cs
      → OrderedMap.find ss ps ≡ some l
      → d.port_type ≡ port_tcp
      → (sys.accept (pos ss) s.world.os).0 ≡ accepted_from n remote
      → OrderedMap.find n ps ≡ none
      → FreshFd n cs
      → OrderedMap.find f ps ≡ none
      → f < n
      → (t : Sys (Net O)) × (new_req sys (pos ss) d s ≡ some (io_ok, t))
        × (dispatch_event sys check_at seq_at (record { events = events; fd = pos f }) t
            ≡ some (unwatch sys (pos f) t))
  accept_hides ss n f events remote d l s ps cs sorted ordered at here tcp got absent free other
        lt =
      let (t, e, fds, _, _, _, _, _) =
        new_req_accepts sys ss n remote d l s ps cs sorted ordered at here tcp got absent free in
      (
        t,
        e,
        dispatch_unknown (record { events = events; fd = pos f }) t
            (ap (get_fd (pos f)) fds
              ∙ get_fd-put ps cs sorted ordered f n (client_data n remote l) other lt),
      )
