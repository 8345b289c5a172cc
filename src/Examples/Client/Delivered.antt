-- ===== src/Examples/Client/Delivered.antt =====
-- test1/main1.cpp, from the answer that `DoReadTcp` reads to what the client of the program is sent.
use cpp_coroutine.Common.{
  ℕ, ◌≡◌, ◌≢◌, ◌≤◌, ◌<◌, refl, ap, ◌∙◌, List, [], ◌∷◌, ◌++◌, length, take, some, arith,
}
use cpp_coroutine.Common.Int.{ℤ, pos, to_int}
use cpp_coroutine.OrderedMap
use cpp_coroutine.OrderedMap.{Map, find}
use cpp_coroutine.Util.{io_ok}
use cpp_coroutine.Util.MemData.{MemData, IsValid, content}
use cpp_coroutine.ExpireMgr.Spec.{deadline}
use cpp_coroutine.FdKey.{FdKey}
use cpp_coroutine.FdMgr.{FdData, SendRecv, other}
use cpp_coroutine.FdMgr.Nodes.{load, store}
use cpp_coroutine.CoroutineMgr.{Sys, ReqData}
use cpp_coroutine.CoroutineMgr.Invariant as Sched
use cpp_coroutine.HeadPkg.{Protobuf, HeadPkg}
use cpp_coroutine.EventMgr.Call.{returns, until_wait, ◌>>=◌}
use cpp_coroutine.EventMgr.Call.Laws.{then_do}
use cpp_coroutine.EventMgr.Send.{SendEnd}
use cpp_coroutine.EventMgr.Send.Loop.{IsSend, Sent}
use cpp_coroutine.EventMgr.Receive.{received, def_recv_size}
use cpp_coroutine.EventMgr.Net.{Calls, Net}
use cpp_coroutine.EventMgr.Handlers.{seq_key, do_read_tcp}
use cpp_coroutine.EventMgr.Connect.{net_now, net_send, net_del, take_answer}
use cpp_coroutine.EventMgr.Connect.Steps.{taken}
use cpp_coroutine.EventMgr.Replies.{read_reply}
use cpp_coroutine.EventMgr.Exchange.{take_answer_found, size_of_content}
use cpp_coroutine.Examples.{DataRsp, Messages, text, within}
use cpp_coroutine.Examples.Calls.{after_last, within_then, pause_within}
use cpp_coroutine.Examples.Packages.{checks, seqs, IsPackage, check_front, seq_front}
use cpp_coroutine.Examples.Client.{forward}
use cpp_coroutine.Examples.Client.Forward.{forward_timer, answer_forwarded}

module _ {O : Type 0} (sys : Calls O) (ledger : O → ℕ → List ℕ) where
  -- `recv` and the monitor send nothing on any descriptor.
  pub record IsQuiet : Type 0 where
    pub recv_keeps :
        (fd : ℤ) (room : ℕ) (o : O) (j : ℕ) → ledger (sys.recv fd room o).1 j ≡ ledger o j
    pub del_keeps : (fd : ℤ) (o : O) (j : ℕ) → ledger (sys.epoll_del fd o).1 j ≡ ledger o j

  taken_keeps :
      (fd z : ℤ) (p : FdKey) (d : FdData) (w : Net O) (j : ℕ)
      → IsQuiet
      → ledger (taken sys fd z p d w).os j ≡ ledger w.os j
  taken_keeps fd z p d w j q = after (OrderedMap.erase (seq_key z) d.seq_to_coroutine)
    where
      after :
          (rest : Map SendRecv)
          → let v : Net O = record w {
            fds = store p (record d { seq_to_coroutine = rest }) w.fds;
          } in
            ledger (elim rest as (λ r. Net O) [ [] ↦ net_del sys fd v | _ ∷ _ ↦ v ]).os j
            ≡ ledger w.os j
      after [] = q.del_keeps fd w.os j
      after (x ∷ rest) = refl

module _ {O : Type 0} (sys : Calls O) (pb : Protobuf) (ms : Messages) where
  -- In a valid state, when a package with an answer comes in one `recv` on the connection, under
  -- the number of a call whose coroutine has a timer, and `send` accepts at most what it is
  -- given, and neither `recv` nor the change of the watched descriptors sends anything:
  -- `DoReadTcp` succeeds, and the callback of test1, when it goes on from its wait with the
  -- shared data as they then are, gets the answer from `tcpsendrecv` and sends on the socket of
  -- its client, after what was sent there before the answer was read, a prefix of exactly the
  -- answer's text; on no other descriptor is anything sent.
  pub answer_delivered :
      (ledger : O → ℕ → List ℕ) (quiet : IsQuiet sys ledger)
      (ok : IsSend (net_now sys) (net_send sys) (λ w. ledger w.os)) (n m e num id b : ℕ)
      (bs : List ℕ) (p : FdKey) (s : Sys (Net O)) (d : FdData) (fd : ℤ) (sr : SendRecv)
      (dst : MemData) (rd : ReqData) (pkg : HeadPkg) (rsp : DataRsp)
      → Sched.IsValid s
      → load p s.world.fds ≡ some d
      → d.fd_state ≡ other
      → d.check ≢ 0
      → d.seq ≢ 0
      → (sys.recv (pos n) def_recv_size s.world.os).0 ≡ received (b ∷ bs)
      → length (b ∷ bs) ≤ def_recv_size
      → IsPackage pb (b ∷ bs) num (ms.serialize_rsp rsp)
      → find (seq_key (to_int num)) d.seq_to_coroutine ≡ some sr
      → IsValid sr.recv_data
      → deadline s.expire sr.id ≡ some e
      → rd.server_socket ≡ pos m
      → 0 < length (text rsp.msg)
      → (t : Sys (Net O)) × (do_read_tcp sys checks (seqs pb) (pos n) p s ≡ some (io_ok, t))
        × ((got : MemData) × (u : Net O) × (out : SendEnd) × (v : Net O) × (until_wait
                (take_answer sys fd (to_int num) p dst)
                t.world
              ≡ returns (io_ok, got) u)
            × (content got ≡ b ∷ bs)
            × Sent
                (net_now sys)
                (net_send sys)
                (λ w. ledger w.os)
                m
                (ledger s.world.os)
                (text rsp.msg)
                out
                v
            × (v.fds ≡ u.fds)
            × (until_wait
                  (within (take_answer sys fd (to_int num) p dst) >>= forward sys pb ms rd pkg)
                  (record { net = t.world; id = id })
                ≡ after_last sys (λ w. ledger w.os) ok m (forward_timer sys pb ms u) id out v))
  answer_delivered ledger quiet ok n m e num id b bs p s d fd sr dst rd pkg rsp v at st chk hs got
        fits i known vr timer to more =
      let sent : Net O → ℕ → List ℕ = λ w. ledger w.os in
      let (t, went, h) =
        read_reply sys checks (seqs pb) n b (length (b ∷ bs)) e bs p s d (to_int num) sr v at st chk
          hs got fits
          (λ src h. (
            check_front pb (b ∷ bs) src num (ms.serialize_rsp rsp) i h,
            seq_front pb (b ∷ bs) src num (ms.serialize_rsp rsp) i h,
          ))
          (omega arith) known vr timer in
      let (d', sr', loaded, here, _, same, whole) = h.stored in
      let u : Net O = taken sys fd (to_int num) p d' t.world in
      let end =
        take_answer_found sys fd (to_int num) p dst t.world d' sr' loaded here
          (size_of_content sr'.recv_data b bs same) in
      let (out, x, (total, le, grown, all, less), kept, f) =
        answer_forwarded sys pb ms sent ok m num rd pkg sr'.recv_data (b ∷ bs) rsp
          (record { net = u; id = id }) i whole same to more in
      let before : (j : ℕ) → ledger u.os j ≡ ledger s.world.os j = λ j.
        taken_keeps sys ledger fd (to_int num) p d' t.world j quiet
        ∙ (ap (λ (o : O). ledger o j) h.system
            ∙ quiet.recv_keeps (pos n) def_recv_size s.world.os j) in
      (
        t,
        went,
        (
          sr'.recv_data,
          u,
          out,
          x,
          end,
          same,
          (
            total,
            le,
            (
              grown.0 ∙ ap (λ (l : List ℕ). l ++ take total (text rsp.msg)) (before m),
              λ j z. grown.1 j z ∙ before j,
            ),
            all,
            less,
          ),
          kept,
          within_then (take_answer sys fd (to_int num) p dst) (forward sys pb ms rd pkg)
                (record { net = t.world; id = id })
              ∙ (ap (λ q. then_do (pause_within id q) (forward sys pb ms rd pkg)) end ∙ f),
        ),
      )
