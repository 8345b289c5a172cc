-- ===== src/EventMgr/Unknown.antt =====
-- lib/eventmgr/EventMgr.h: `DoReadTcp` when another server has answered under a number that no call
-- has.
use cpp_coroutine.Common.{
  ℕ, ◌≡◌, ◌≢◌, ◌≤◌, ◌<◌, refl, ap, sym, ◌∙◌, List, ◌∷◌, Option, none, some, length, take, false,
  arith, ◌==◌,
}
use cpp_coroutine.Common.Int.{ℤ, pos}
use cpp_coroutine.OrderedMap.{find}
use cpp_coroutine.Util.{io_ok, io_err}
use cpp_coroutine.Util.MemData.{MemData}
use cpp_coroutine.FdKey.{FdKey}
use cpp_coroutine.FdMgr.{FdData, other}
use cpp_coroutine.FdMgr.Nodes.{load}
use cpp_coroutine.CoroutineMgr.{Sys, ◌>>=◌}
use cpp_coroutine.EventMgr.Receive.{received, def_recv_size}
use cpp_coroutine.EventMgr.Receive.Fresh.{tcprecv_package}
use cpp_coroutine.EventMgr.Net.{Calls, Net}
use cpp_coroutine.EventMgr.Handlers.{seq_key, reply, unwatch, drained, do_read_tcp}
use cpp_coroutine.EventMgr.Kept.{IsSameSched}
use cpp_coroutine.EventMgr.Replies.{read_done_other}
use cpp_coroutine.EventMgr.Requests.{read_step}

module _ {O : Type 0} (sys : Calls O) (check_at seq_at : ℕ → List ℕ → ℕ → Option ℤ) where
  reply_unknown :
      (p : FdKey) (d : FdData) (md : MemData) (pkg : ℕ) (z : ℤ) (s : Sys (Net O))
      → d.seq ≢ 0
      → seq_at d.seq md.bytes pkg ≡ some z
      → find (seq_key z) d.seq_to_coroutine ≡ none
      → reply sys check_at seq_at p d md pkg s ≡ some (io_err, unwatch sys d.fd s)
  unfolding reply
  reply_unknown p d md pkg z s n e1 e2 =
      let same : (d.seq == 0) ≡ false = ground arith in rw (same, e1, e2, ◌>>=◌)

  -- `DoReadTcp` of a connection to another server, when `recv` gives at most `DEF_RECV_SIZE` bytes
  -- that the check takes for a package with a number that no call of the connection has, returns
  -- `IO_ERR`: the bytes are read and dropped, the socket is no longer watched, and no coroutine, no
  -- timer and no entry of the table changes.
  pub read_unknown :
      (n b pkg : ℕ) (bs : List ℕ) (p : FdKey) (s : Sys (Net O)) (d : FdData) (z : ℤ)
      → load p s.world.fds ≡ some d
      → d.fd_state ≡ other
      → d.check ≢ 0
      → d.seq ≢ 0
      → (sys.recv (pos n) def_recv_size s.world.os).0 ≡ received (b ∷ bs)
      → length (b ∷ bs) ≤ def_recv_size
      → ((src : List ℕ)
          → take (length (b ∷ bs)) src ≡ b ∷ bs
          → (check_at d.check src (length (b ∷ bs)) ≡ some (pos pkg))
            × (seq_at d.seq src pkg ≡ some z))
      → 0 < pkg
      → find (seq_key z) d.seq_to_coroutine ≡ none
      → (t : Sys (Net O)) × (do_read_tcp sys check_at seq_at (pos n) p s ≡ some (io_err, t))
        × IsSameSched s t
        × (t.world.os ≡ (sys.epoll_del d.fd (sys.recv (pos n) def_recv_size s.world.os).1).1)
        × (t.world.fds ≡ s.world.fds)
  unfolding drained unwatch
  read_unknown n b pkg bs p s d z at st chk hs got fits found more absent =
      let (md, r, same, off, len, small) =
        tcprecv_package (check_at d.check) (λ room. (sys.recv (pos n) room s.world.os).0) n b pkg bs
          got fits (λ src h. (found src h).0) more in
      let prefix : take (length (b ∷ bs)) md.bytes ≡ b ∷ bs =
        ap (λ k. take k md.bytes) (sym off) ∙ same in
      let s' : Sys (Net O) = drained sys check_at seq_at (pos n) s in
      (
        unwatch sys d.fd s',
        read_step sys check_at seq_at (pos n) p s d io_ok md (pos pkg) at chk r
            ∙ (read_done_other sys check_at seq_at (pos n) p s' d md pkg more st
                ∙ reply_unknown p d md pkg z s' hs (found md.bytes prefix).1 absent),
        record { nodes = refl; active = refl; ids = refl; timers = refl },
        refl,
        refl,
      )
