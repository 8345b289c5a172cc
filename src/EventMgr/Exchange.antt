-- ===== src/EventMgr/Exchange.antt =====
-- lib/eventmgr/EventMgr.h and EventMgr.cpp: from the answer that `DoReadTcp` reads to the end of the
-- `tcpsendrecv` that waits for it.
use cpp_coroutine.Common.{
  ℕ, ◌≡◌, ◌≢◌, ◌≤◌, ◌<◌, false, List, ◌∷◌, Option, some, length, take, ◌==◌, arith,
}
use cpp_coroutine.Common.Int.{ℤ, pos}
use cpp_coroutine.OrderedMap.{find}
use cpp_coroutine.Util.{io_ok}
use cpp_coroutine.Util.MemData.{MemData, IsValid, content, size}
use cpp_coroutine.ExpireMgr.Spec.{deadline}
use cpp_coroutine.FdKey.{FdKey}
use cpp_coroutine.FdMgr.{FdData, SendRecv, other}
use cpp_coroutine.FdMgr.Nodes.{load}
use cpp_coroutine.CoroutineMgr.{Sys}
use cpp_coroutine.CoroutineMgr.Invariant as Sched
use cpp_coroutine.EventMgr.Call.{returns, until_wait}
use cpp_coroutine.EventMgr.Receive.{received, def_recv_size}
use cpp_coroutine.EventMgr.Net.{Calls, Net}
use cpp_coroutine.EventMgr.Handlers.{seq_key, do_read_tcp}
use cpp_coroutine.EventMgr.Replies.{HasAnswer, read_reply}
use cpp_coroutine.EventMgr.Connect.{take_answer}
use cpp_coroutine.EventMgr.Connect.Steps.{taken}

pub size_of_content : (d : MemData) (b : ℕ) (bs : List ℕ) → content d ≡ b ∷ bs → size d ≢ 0
unfolding size
size_of_content d b bs h z = ground (arith, h, z)

module _ {O : Type 0} (sys : Calls O) where
  pub take_answer_found :
      (fd seq : ℤ) (p : FdKey) (dst : MemData) (w : Net O) (d : FdData) (sr : SendRecv)
      → load p w.fds ≡ some d
      → find (seq_key seq) d.seq_to_coroutine ≡ some sr
      → size sr.recv_data ≢ 0
      → until_wait (take_answer sys fd seq p dst) w
        ≡ returns (io_ok, sr.recv_data) (taken sys fd seq p d w)
  unfolding take_answer until_wait
  take_answer_found fd seq p dst w d sr at here n =
      let bytes : (size sr.recv_data == 0) ≡ false = ground arith in
      rw (at, here, bytes, until_wait)

  module _ (check_at seq_at : ℕ → List ℕ → ℕ → Option ℤ) where
    -- In a valid state, `DoReadTcp` of a connection to another server, when `recv` gives at most
    -- `DEF_RECV_SIZE` bytes that the check takes for a package with the sequence number of a
    -- call, whose coroutine has a timer: the bytes are stored under that number, the coroutine is
    -- ready at the same place and without a timer, its node is otherwise as it was, no other node
    -- changes, and the state stays valid. If `tcpsendrecv` goes on from its wait with the shared
    -- data as they then are, it returns `IO_OK` with exactly these bytes, in a valid buffer.
    pub answer_returned :
        (n b pkg e : ℕ) (bs : List ℕ) (p : FdKey) (s : Sys (Net O)) (d : FdData) (z fd : ℤ)
        (sr : SendRecv) (dst : MemData)
        → Sched.IsValid s
        → load p s.world.fds ≡ some d
        → d.fd_state ≡ other
        → d.check ≢ 0
        → d.seq ≢ 0
        → (sys.recv (pos n) def_recv_size s.world.os).0 ≡ received (b ∷ bs)
        → length (b ∷ bs) ≤ def_recv_size
        → ((src : List ℕ)
            → take (length (b ∷ bs)) src ≡ b ∷ bs
            → (check_at d.check src (length (b ∷ bs)) ≡ some (pos pkg))
              × (seq_at d.seq src pkg ≡ some z))
        → 0 < pkg
        → find (seq_key z) d.seq_to_coroutine ≡ some sr
        → IsValid sr.recv_data
        → deadline s.expire sr.id ≡ some e
        → (t : Sys (Net O)) × (do_read_tcp sys check_at seq_at (pos n) p s ≡ some (io_ok, t))
          × HasAnswer sys check_at seq_at s t
              (sys.recv (pos n) def_recv_size s.world.os).1
              p
              (seq_key z)
              sr.id
              (b ∷ bs)
          × ((got : MemData) × (w : Net O) × (until_wait (take_answer sys fd z p dst) t.world
                ≡ returns (io_ok, got) w)
              × (content got ≡ b ∷ bs)
              × IsValid got)
    answer_returned n b pkg e bs p s d z fd sr dst v at st chk hs recv fits found more known vr
          timer =
        let (t, went, h) =
          read_reply sys check_at seq_at n b pkg e bs p s d z sr v at st chk hs recv fits found more
            known vr timer in
        let (d', sr', loaded, here, _, bytes, whole) = h.stored in
        (
          t,
          went,
          h,
          (
            sr'.recv_data,
            taken sys fd z p d' t.world,
            take_answer_found fd z p dst t.world d' sr' loaded here
                (size_of_content sr'.recv_data b bs bytes),
            bytes,
            whole,
          ),
        )
