-- ===== src/EventMgr/Replies.antt =====
-- lib/eventmgr/EventMgr.h: `DoReadTcp` when another server has answered a coroutine that waits.
use cpp_coroutine.Common.{
  ℕ, ◌^◌, ◌≡◌, ◌≢◌, ◌≤◌, ◌<◌, refl, ap, sym, ◌∙◌, List, [], ◌∷◌, Option, none, some, length, take,
  false, take-take, arith, ◌==◌,
}
use cpp_coroutine.Common.Int.{ℤ, pos}
use cpp_coroutine.OrderedMap
use cpp_coroutine.OrderedMap.{find}
use cpp_coroutine.OrderedMap.Laws.{find-put}
use cpp_coroutine.Util.{io_ok, ready, wait}
use cpp_coroutine.Util.MemData
use cpp_coroutine.Util.MemData.{MemData, IsValid, content, copy, size}
use cpp_coroutine.Util.MemData.Content.{copy_lem}
use cpp_coroutine.ExpireMgr.Spec.{deadline}
use cpp_coroutine.FdKey.{FdKey}
use cpp_coroutine.FdMgr.{FdData, SendRecv, other, Table}
use cpp_coroutine.FdMgr.Nodes.{load, store}
use cpp_coroutine.CoroutineMgr.{Body, Context, Sys, paused, set_ready, ◌>>=◌}
use cpp_coroutine.CoroutineMgr.Invariant.{waits_of_deadline, set_ready-IsValid, set_ready-keeps}
use cpp_coroutine.CoroutineMgr.Invariant as Sched
use cpp_coroutine.EventMgr.Receive.{received, def_recv_size}
use cpp_coroutine.EventMgr.Receive.Fresh.{tcprecv_package}
use cpp_coroutine.EventMgr.Net.{Calls, Net, is_client, is_other_conn}
use cpp_coroutine.EventMgr.Handlers.{seq_key, reply, read_done, drained, do_read_tcp}
use cpp_coroutine.EventMgr.Requests.{world-IsValid, read_step}

pub load-store {ℓ} :
    {V : Type ℓ} (p : FdKey) (v w : V) (m : Table V)
    → load p m ≡ some w
    → load p (store p v m) ≡ some v
unfolding load store
load-store p v w [] h = cc
load-store p v w ((j, x) ∷ m) h = ground (arith, load-store p v w m)

-- The bytes of a package in a buffer that was cleared.
copy_cleared :
    (d md : MemData) (bs : List ℕ)
    → IsValid d
    → content md ≡ bs
    → md.offset ≤ length md.bytes
    → length md.bytes < 2 ^ 32
    → (e : MemData) × (copy (MemData.clear d) md.bytes (size md) ≡ some e)
      × IsValid e
      × (content e ≡ bs)
unfolding MemData.clear size
copy_cleared d md bs v same used small =
    let (e, copied, ve, c, off) =
      copy_lem (MemData.clear d) md.bytes md.offset (record { used = omega arith; small = v.small })
        used (omega arith) in
    (e, copied, ve, c ∙ (take-take md.offset md.offset md.bytes (omega arith) ∙ same))

module _ {O : Type 0} (sys : Calls O) (check_at seq_at : ℕ → List ℕ → ℕ → Option ℤ) where
  -- What the connection holds after the answer.
  abbrev answered : FdData → ℤ → SendRecv → MemData → FdData
  answered d z sr got = record d {
    seq_to_coroutine =
        OrderedMap.put (seq_key z) (record sr { recv_data = got }) d.seq_to_coroutine;
  }

  abbrev with_fds : Table FdData → Sys (Net O) → Sys (Net O)
  with_fds m s = record s { world = record (s.world) { fds = m } }

  reply_step :
      (p : FdKey) (d : FdData) (md got : MemData) (pkg : ℕ) (z : ℤ) (sr : SendRecv)
      (s t : Sys (Net O)) (c : Context (Net O))
      → d.seq ≢ 0
      → seq_at d.seq md.bytes pkg ≡ some z
      → find (seq_key z) d.seq_to_coroutine ≡ some sr
      → find sr.id s.idtonode ≡ some c
      → copy (MemData.clear sr.recv_data) md.bytes (size md) ≡ some got
      → set_ready (with_fds (store p (answered d z sr got) s.world.fds) s) sr.id ≡ some t
      → reply sys check_at seq_at p d md pkg s ≡ some (io_ok, t)
  unfolding reply
  reply_step p d md got pkg z sr s t c n e1 e2 e3 e4 e5 =
      let same : (d.seq == 0) ≡ false = ground arith in rw (same, e1, e2, e3, e4, e5, ◌>>=◌)

  pub read_done_other :
      (fd : ℤ) (p : FdKey) (s : Sys (Net O)) (d : FdData) (md : MemData) (pkg : ℕ)
      → 0 < pkg
      → d.fd_state ≡ other
      → read_done sys check_at seq_at fd p d io_ok md (pos pkg) s
        ≡ reply sys check_at seq_at p d md pkg s
  unfolding read_done is_client is_other_conn
  read_done_other fd p s d md pkg more st = ground arith

  -- The coroutine `id` has the answer `bytes` and is ready, its node otherwise as it was; no other
  -- node has changed, and the system is `o`.
  pub record HasAnswer (s t : Sys (Net O)) (o : O) (p : FdKey) (key id : ℕ) (bytes : List ℕ)
      : Type 0 where
    pub valid : Sched.IsValid t
    pub ids : t.staticid ≡ s.staticid
    pub no_timer : deadline t.expire id ≡ none
    pub others : (j : ℕ) → j ≢ id → find j t.idtonode ≡ find j s.idtonode
    pub node :
        (c : Context (Net O)) × (b : Body (Net O)) × (find id s.idtonode ≡ some c)
        × (c.state ≡ wait)
        × (c.coroutine ≡ paused b)
        × (find id t.idtonode ≡ some (record c { state = ready }))
    pub system : t.world.os ≡ o
    pub stored :
        (d : FdData) × (sr : SendRecv) × (load p t.world.fds ≡ some d)
        × (find key d.seq_to_coroutine ≡ some sr)
        × (sr.id ≡ id)
        × (content sr.recv_data ≡ bytes)
        × IsValid sr.recv_data

  reply_lem :
      (p : FdKey) (d : FdData) (md : MemData) (bs : List ℕ) (pkg e : ℕ) (z : ℤ) (sr : SendRecv)
      (s : Sys (Net O))
      → Sched.IsValid s
      → load p s.world.fds ≡ some d
      → d.seq ≢ 0
      → seq_at d.seq md.bytes pkg ≡ some z
      → find (seq_key z) d.seq_to_coroutine ≡ some sr
      → IsValid sr.recv_data
      → deadline s.expire sr.id ≡ some e
      → content md ≡ bs
      → md.offset ≤ length md.bytes
      → length md.bytes < 2 ^ 32
      → (t : Sys (Net O)) × (reply sys check_at seq_at p d md pkg s ≡ some (io_ok, t))
        × HasAnswer s t s.world.os p (seq_key z) sr.id bs
  reply_lem p d md bs pkg e z sr s v at n seq known vr timer same used small =
      let (got, copied, vg, cg) = copy_cleared sr.recv_data md bs vr same used small in
      let d' : FdData = answered d z sr got in
      let u : Sys (Net O) = with_fds (store p d' s.world.fds) s in
      let (c, b, found, waiting, stands, _) = waits_of_deadline s sr.id e v timer in
      let (t, woken, vt, gone, others, _, kept, ids) =
        set_ready-IsValid u sr.id e (world-IsValid u.world s v) timer in
      (
        t,
        reply_step p d md got pkg z sr s t c n seq known found copied woken,
        record {
          valid = vt;
          ids = ids;
          no_timer = gone;
          others = others;
          node = (c, b, found, waiting, stands, set_ready-keeps u t sr.id c found woken);
          system = ap (λ (w : Net O). w.os) kept;
          stored = (
            d',
            record sr { recv_data = got },
            ap (λ (w : Net O). load p w.fds) kept ∙ load-store p d' d s.world.fds at,
            ground (
              arith,
              find-put (seq_key z) (seq_key z) (record sr { recv_data = got }) d.seq_to_coroutine,
            ),
            refl,
            cg,
            vg,
          );
        },
      )

  -- In a valid state, `DoReadTcp` of a connection to another server, when `recv` gives at most
  -- `DEF_RECV_SIZE` bytes that the check takes for a package with the sequence number of a call,
  -- whose coroutine has a timer: the bytes are stored under that number, the coroutine is ready
  -- with its place kept and no timer, no other node changes, and the state stays valid.
  pub read_reply :
      (n b pkg e : ℕ) (bs : List ℕ) (p : FdKey) (s : Sys (Net O)) (d : FdData) (z : ℤ)
      (sr : SendRecv)
      → Sched.IsValid s
      → load p s.world.fds ≡ some d
      → d.fd_state ≡ other
      → d.check ≢ 0
      → d.seq ≢ 0
      → (sys.recv (pos n) def_recv_size s.world.os).0 ≡ received (b ∷ bs)
      → length (b ∷ bs) ≤ def_recv_size
      → ((src : List ℕ)
          → take (length (b ∷ bs)) src ≡ b ∷ bs
          → (check_at d.check src (length (b ∷ bs)) ≡ some (pos pkg))
            × (seq_at d.seq src pkg ≡ some z))
      → 0 < pkg
      → find (seq_key z) d.seq_to_coroutine ≡ some sr
      → IsValid sr.recv_data
      → deadline s.expire sr.id ≡ some e
      → (t : Sys (Net O)) × (do_read_tcp sys check_at seq_at (pos n) p s ≡ some (io_ok, t))
        × HasAnswer s t (sys.recv (pos n) def_recv_size s.world.os).1 p (seq_key z) sr.id (b ∷ bs)
  unfolding drained
  read_reply n b pkg e bs p s d z sr v at st chk hs got fits found more known vr timer =
      let (md, r, same, off, len, small) =
        tcprecv_package (check_at d.check) (λ room. (sys.recv (pos n) room s.world.os).0) n b pkg bs
          got fits (λ src h. (found src h).0) more in
      let s' : Sys (Net O) = drained sys check_at seq_at (pos n) s in
      let prefix : take (length (b ∷ bs)) md.bytes ≡ b ∷ bs =
        ap (λ k. take k md.bytes) (sym off) ∙ same in
      let (t, went, h) =
        reply_lem p d md (b ∷ bs) pkg e z sr s' (world-IsValid s'.world s v) at hs
          (found md.bytes prefix).1 known vr timer same (omega arith) small in
      (
        t,
        read_step sys check_at seq_at (pos n) p s d io_ok md (pos pkg) at chk r
            ∙ (read_done_other (pos n) p s' d md pkg more st ∙ went),
        record {
          valid = h.valid;
          ids = h.ids;
          no_timer = h.no_timer;
          others = h.others;
          node = h.node;
          system = h.system;
          stored = h.stored;
        },
      )
