-- ===== src/EventMgr/Closing.antt =====
-- lib/eventmgr/EventMgr.h: `DelFd` and the timers of the scheduler.
use cpp_coroutine.Common.{
  ℕ, ◌%◌, ◌^◌, ◌≡◌, ◌≢◌, ◌<◌, ◌↔◌, List, [], refl, ap, ◌∙◌, subst, Option, none, some, inl, inr,
  Option-cases, arith, ◌==◌, if◌then◌else◌,
}
use cpp_coroutine.Common.Int.{ℤ, pos}
use cpp_coroutine.OrderedMap.{find}
use cpp_coroutine.Util.{NodeState, wait, io_err, io_remote_close}
use cpp_coroutine.ExpireMgr
use cpp_coroutine.ExpireMgr.Links.{del-IsLinked, find-del}
use cpp_coroutine.ExpireMgr.Spec.{deadline}
use cpp_coroutine.CoroutineMgr.{Body, Context, Saved, paused, Sys}
use cpp_coroutine.CoroutineMgr.Invariant.{
  IsNode, IsNode-same, IsShape, IsValid, waits_of_deadline, ne-zero_of_deadline,
}
use cpp_coroutine.CoroutineMgr.Start.{Issued}
use cpp_coroutine.EventMgr.Net.{Calls, Net}
use cpp_coroutine.EventMgr.Handlers.{del_fd, unwatch, read_done, drained, do_read_tcp}
use cpp_coroutine.EventMgr.Kept.{IsSameSched}
use cpp_coroutine.EventMgr.Requests.{read_step}
use cpp_coroutine.EventMgr.Receive.{received, def_recv_size}
use cpp_coroutine.EventMgr.Receive.Fresh.{fresh_buffer, tcprecv_closed}
use cpp_coroutine.FdKey.{FdKey}
use cpp_coroutine.FdMgr.{FdData}
use cpp_coroutine.FdMgr.Nodes.{load}
use cpp_coroutine.Util.MemData.{MemData}

module _ {W : Type 0} where
  -- A node that waits has a timer.
  wait_without_timer :
      (k : ℕ) (c : Context W) (b : Body W) (o : Option (Context W)) (d : Option ℕ)
      → IsNode k o d
      → o ≡ some c
      → d ≡ none
      → c.state ≡ wait
      → c.coroutine ≡ paused b
      → ⊥
  wait_without_timer k c b o d h e f st saved =
      let at : IsNode k (some c) none = subst (λ x. IsNode k x none) e (subst (IsNode k o) f h) in
      subst (λ (x : Saved W). IsShape x wait c.req.m_cb none) saved
        (subst (λ (x : NodeState). IsShape c.coroutine x c.req.m_cb none) st at.1)

module _ {O : Type 0} (sys : Calls O) where
  deadline-del_fd :
      (n j : ℕ) (s : Sys (Net O))
      → IsValid s
      → n < 2 ^ 32
      → deadline (del_fd sys (pos n) s).expire j ≡ (if n == j then none else deadline s.expire j)
  unfolding del_fd unwatch
  deadline-del_fd n j s v small =
      ap (λ i. deadline (ExpireMgr.del s.expire i) j) (omega arith) ∙ find-del s.expire n j v.linked

  nodes_kept : (n : ℕ) (s : Sys (Net O)) → (del_fd sys (pos n) s).idtonode ≡ s.idtonode
  unfolding del_fd unwatch
  nodes_kept n s = refl

  pub deleted-Issued : (n : ℕ) (s : Sys (Net O)) → Issued s → Issued (del_fd sys (pos n) s)
  unfolding del_fd unwatch
  deleted-Issued n s i = record { room = i.room; issued = i.issued }

  del_fd_breaks :
      (n e : ℕ) (s : Sys (Net O))
      → IsValid s
      → n < 2 ^ 32
      → deadline s.expire n ≡ some e
      → ¬ IsValid (del_fd sys (pos n) s)
  del_fd_breaks n e s v small timer u =
      let (c, b, at, st, saved, _) = waits_of_deadline s n e v timer in
      let t : Sys (Net O) = del_fd sys (pos n) s in
      wait_without_timer n c b (find n t.idtonode) (deadline t.expire n)
        (u.nodes n (ne-zero_of_deadline s n e v timer)) (ap (find n) (nodes_kept n s) ∙ at)
        (ground (arith, deadline-del_fd n n s v small)) st saved

  del_fd_safe :
      (n : ℕ) (s : Sys (Net O))
      → IsValid s
      → n < 2 ^ 32
      → deadline s.expire n ≡ none
      → IsValid (del_fd sys (pos n) s)
  unfolding del_fd unwatch
  del_fd_safe n s v small none_at =
      let same : (j : ℕ) → deadline (del_fd sys (pos n) s).expire j ≡ deadline s.expire j =
        λ j. ground (arith, deadline-del_fd n j s v small) in
      record {
        sorted = v.sorted;
        linked = del-IsLinked s.expire (n % 2 ^ 32) v.linked;
        at_main = v.at_main;
        main_node = v.main_node;
        main_timer = same 0 ∙ v.main_timer;
        nodes = λ k z. IsNode-same k _ _ _ _ refl (same k) (v.nodes k z);
      }

  -- For a descriptor below 2^32, `DelFd` in a valid state keeps the scheduler valid exactly if
  -- the descriptor is not the id of a coroutine that has a timer.
  pub del_fd-IsValid_iff :
      (n : ℕ) (s : Sys (Net O))
      → IsValid s
      → n < 2 ^ 32
      → IsValid (del_fd sys (pos n) s) ↔ (deadline s.expire n ≡ none)
  del_fd-IsValid_iff n s v small = (
    λ u. elim (Option-cases (deadline s.expire n)) [
      | inl none_at ↦ none_at
      | inr (e, timer) ↦ absurd (del_fd_breaks n e s v small timer u)
    ],
    del_fd_safe n s v small,
  )

  module _ (check_at seq_at : ℕ → List ℕ → ℕ → Option ℤ) where
    done_closed :
        (n : ℕ) (p : FdKey) (d : FdData) (md : MemData) (s : Sys (Net O))
        → read_done sys check_at seq_at (pos n) p d io_remote_close md (pos 0) s
          ≡ some (io_err, del_fd sys (pos n) s)
    unfolding read_done
    done_closed n p d md s = refl

    -- `DoReadTcp` of a connection that the peer has closed calls `DelFd` for it.
    pub read_closed :
        (n : ℕ) (p : FdKey) (s : Sys (Net O)) (d : FdData)
        → load p s.world.fds ≡ some d
        → d.check ≢ 0
        → (sys.recv (pos n) def_recv_size s.world.os).0 ≡ received []
        → (u : Sys (Net O)) × (do_read_tcp sys check_at seq_at (pos n) p s
            ≡ some (io_err, del_fd sys (pos n) u))
          × IsSameSched s u
    unfolding drained
    read_closed n p s d at chk got =
        let u : Sys (Net O) = drained sys check_at seq_at (pos n) s in
        (
          u,
          read_step sys check_at seq_at (pos n) p s d io_remote_close fresh_buffer (pos 0) at chk (
                tcprecv_closed (check_at d.check) (λ room. (sys.recv (pos n) room s.world.os).0) n
                  got)
              ∙ done_closed n p d fresh_buffer u,
          record { nodes = refl; active = refl; ids = refl; timers = refl },
        )
