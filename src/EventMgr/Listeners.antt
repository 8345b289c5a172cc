-- ===== src/EventMgr/Listeners.antt =====
-- lib/eventmgr/EventMgr.h: `AddServerFd`.
use cpp_coroutine.Common.{ℕ, ◌≡◌, ap, ◌∙◌, none, some, arith}
use cpp_coroutine.Common.Int.{pos}
use cpp_coroutine.OrderedMap
use cpp_coroutine.OrderedMap.{Map, IsSorted}
use cpp_coroutine.OrderedMap.Laws.{find-put, put-IsSorted}
use cpp_coroutine.Util.{PortType}
use cpp_coroutine.FdKey.Order.{plain_key}
use cpp_coroutine.FdMgr.{FdData, fd_data, listen, Table, add_fd}
use cpp_coroutine.FdMgr.Lookup.{Conns, table, IsOrdered}
use cpp_coroutine.FdMgr.Insert.{FreshFd}
use cpp_coroutine.FdMgr.Nodes.{store}
use cpp_coroutine.FdMgr.Plain.{put-put, store-plain}
use cpp_coroutine.FdMgr.Reads.{add_fd_lem}
use cpp_coroutine.CoroutineMgr.{Sys, ◌>>=◌}
use cpp_coroutine.EventMgr.Net.{Calls, Net}
use cpp_coroutine.EventMgr.Handlers.{watch, add_server_fd}

-- The entry of a listening socket.
abbrev pub listener_data : ℕ → PortType → ℕ → FdData
listener_data n type check = record (fd_data (pos n)) {
  port_type = type;
  check = check;
  fd_state = listen;
}

module _ {O : Type 0} (sys : Calls O) where
  add_server_step :
      (n check : ℕ) (type : PortType) (s : Sys (Net O)) (m : Table FdData)
      → add_fd (pos n) s.world.fds ≡ some m
      → add_server_fd sys (pos n) type check s
        ≡ some (record (watch sys (pos n) s) {
          world = record ((watch sys (pos n) s).world) {
            fds = store (plain_key n) (listener_data n type check) m;
          };
        })
  unfolding add_server_fd watch
  add_server_step n check type s m e = rw (e, ◌>>=◌)

  -- In a table of sorted descriptors and ordered connections, `AddServerFd` of a descriptor that
  -- is in neither part does not fault: the table has one more descriptor, a listening socket with
  -- the type and the check, and the scheduler stays as it is.
  pub add_server_fd_lem :
      (n check : ℕ) (type : PortType) (s : Sys (Net O)) (ps : Map FdData) (cs : Conns FdData)
      → IsSorted ps
      → IsOrdered cs
      → s.world.fds ≡ table ps cs
      → OrderedMap.find n ps ≡ none
      → FreshFd n cs
      → add_server_fd sys (pos n) type check s
        ≡ some (record (watch sys (pos n) s) {
          world = record ((watch sys (pos n) s).world) {
            fds = table (OrderedMap.put n (listener_data n type check) ps) cs;
          };
        })
  add_server_fd_lem n check type s ps cs sorted ordered at absent free =
      let e : FdData = listener_data n type check in
      let ps' : Map FdData = OrderedMap.put n (fd_data (pos n)) ps in
      let stored : store (plain_key n) e (table ps' cs) ≡ table (OrderedMap.put n e ps) cs =
        store-plain n e (fd_data (pos n)) ps' cs (put-IsSorted n (fd_data (pos n)) ps sorted)
          (ground (arith, find-put n n (fd_data (pos n)) ps))
        ∙ ap (λ m. table m cs) (put-put n e (fd_data (pos n)) ps) in
      add_server_step n check type s (table ps' cs)
        (ap (add_fd (pos n)) at ∙ add_fd_lem ps cs sorted ordered n absent free)
      ∙ ap
          (λ (m : Table FdData). some (record (watch sys (pos n) s) {
            world = record ((watch sys (pos n) s).world) { fds = m };
          }))
          stored
