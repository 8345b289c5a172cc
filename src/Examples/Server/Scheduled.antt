-- ===== src/Examples/Server/Scheduled.antt =====
-- test2/main2.cpp: `process` as the callback of a coroutine, from the request to the answer.
use cpp_coroutine.Common.{
  ℕ, ◌+◌, ◌%◌, ◌^◌, ◌≡◌, ◌≢◌, ◌≤◌, ◌<◌, inl, sym, subst, ap, ◌∙◌, List, length, Option, none, some,
}
use cpp_coroutine.Common.Int.{pos}
use cpp_coroutine.OrderedMap.{find}
use cpp_coroutine.Util.{ready, wait, fd_write}
use cpp_coroutine.Util.Timer.{Timeval, TimerMs, timer_ms}
use cpp_coroutine.Util.Text.{Tm}
use cpp_coroutine.Util.MemData.{size}
use cpp_coroutine.ExpireMgr.Spec.{deadline, clock as ms_of, IsFirst}
use cpp_coroutine.CoroutineMgr.{Body, finish, Context, Sys, ReqData, fresh, switch_to}
use cpp_coroutine.CoroutineMgr.Invariant.{IsValid}
use cpp_coroutine.CoroutineMgr.Slices.{Returned}
use cpp_coroutine.CoroutineMgr.Slices.Ends.{Ended, some_inj}
use cpp_coroutine.HeadPkg.{Head, Protobuf, HeadPkg, decode, set_data}
use cpp_coroutine.EventMgr.{run_expired}
use cpp_coroutine.EventMgr.Call.{
  Call, Pause, ret, fault, step, sleep, waits, until_wait, NoFault, as_body, pause, ◌>>◌,
}
use cpp_coroutine.EventMgr.Call.Laws.{NoFault->>=}
use cpp_coroutine.EventMgr.Call.Bodies.{
  Goes, Left, until_wait-Goes, switch_to_part, run_expired_part,
}
use cpp_coroutine.EventMgr.Send.{SendEnd, returned, blocked}
use cpp_coroutine.EventMgr.Send.Loop.{IsSend, Sent}
use cpp_coroutine.EventMgr.Send.Total.{tcpsend-NoFault}
use cpp_coroutine.EventMgr.Net.{Calls, Net}
use cpp_coroutine.EventMgr.Connect.{net_now, net_send, net_add, net_del}
use cpp_coroutine.EventMgr.Connect.Request.{sending}
use cpp_coroutine.Examples.{DataReq, Messages, text, App, new_pkg, within, body, encode_next}
use cpp_coroutine.Examples.Calls.{after_last}
use cpp_coroutine.Examples.Packages.{numbered, IsPackage, next_id}
use cpp_coroutine.Examples.Server.{respond, process}
use cpp_coroutine.Examples.Server.Answers.{answer_text, request_answered}

module _ {O A : Type 0} where
  pub within-NoFault : (c : Call (Net O) A) → NoFault c → NoFault (within c)
  unfolding within
  within-NoFault (ret a) n = tt
  within-NoFault fault n = n
  within-NoFault (step f k) n = λ w. within-NoFault (k w.net) (n w.net)
  within-NoFault (sleep ms c) n = within-NoFault c n

module _ {O : Type 0} (sys : Calls O) where
  -- The clock of the scheduler.
  abbrev pub app_clock : App O → Timeval
  app_clock w = net_now sys w.net

  -- How the coroutine `k` stands after the answer: ended, or for a full socket waiting until it
  -- can be written.
  abbrev pub Answered : ℕ → ℕ → ℕ → SendEnd → Net O → Sys (App O) → Type 0
  Answered k n id (returned r) x t = Ended k (record { net = x; id = id }) t
  Answered k n id blocked x t =
      (t.world ≡ record { net = net_add sys fd_write (pos n) x; id = id })
      × ((c : Context (App O)) × (find k t.idtonode ≡ some c) × (c.state ≡ wait))

module _ {O : Type 0} (sys : Calls O) (pb : Protobuf) (ms : Messages) (localtime : ℕ → Tm)
    (sent : Net O → ℕ → List ℕ) (ok : IsSend (net_now sys) (net_send sys) sent) where
  respond-NoFault :
      (rd : ReqData) (pkg : HeadPkg) (req : DataReq)
      → NoFault (respond sys pb ms localtime rd pkg req)
  unfolding respond
  respond-NoFault rd pkg req = λ w v u.
      let src =
        (encode_next pb (set_data pkg (answer_text sys pb ms localtime req w.net)) v).0.packed in
      let timer = timer_ms 100 (net_now sys u.net) in
      let sends = sending sys rd.server_socket timer src in
      NoFault->>= (within sends) (λ r. ret 0)
        (within-NoFault sends (
          tcpsend-NoFault (net_now sys) (net_send sys) sent ok (λ n. net_add sys fd_write (pos n))
            (λ n. net_del sys (pos n)) rd.server_socket timer src))
        (λ r. tt)

  -- What `process` does with a text.
  abbrev asked : ReqData → Head → Option DataReq → Call (App O) ℕ
  asked rd h none = ret 0
  asked rd h (some req) = do
    pause 10000
    respond sys pb ms localtime rd (body (record new_pkg { head = h })).1 req

  asked-NoFault : (rd : ReqData) (h : Head) (o : Option DataReq) → NoFault (asked rd h o)
  asked-NoFault rd h none = tt
  asked-NoFault rd h (some req) = respond-NoFault rd (body (record new_pkg { head = h })).1 req

  process_asks :
      (rd : ReqData) (h : Head)
      → decode pb rd.recvdata.bytes (size rd.recvdata) ≡ some (some h)
      → process sys pb ms localtime (some rd) ≡ asked rd h (ms.parse_req (text h.body))
  unfolding process body
  process_asks rd h e = rw e

  -- With a buffer that `Decode` can read, the callback does not fault.
  pub process-NoFault :
      (rd : ReqData) (parsed : Option Head)
      → decode pb rd.recvdata.bytes (size rd.recvdata) ≡ some parsed
      → NoFault (process sys pb ms localtime (some rd))
  unfolding process body
  process-NoFault rd none e = rw e tt
  process-NoFault rd (some h) e =
      subst NoFault (sym (process_asks rd h e)) (asked-NoFault rd h (ms.parse_req (text h.body)))

  answered :
      (k n id : ℕ) (timer : TimerMs) (out : SendEnd) (x : Net O) (t : Sys (App O))
      → (g : Goes (after_last sys sent ok n timer id out x)) × Left
          (app_clock sys)
          k
          (after_last sys sent ok n timer id out x)
          g
          t
      → Answered sys k n id out x t
  unfolding until_wait
  answered k n id timer (returned r) x t (g, l) = l
  answered k n id timer blocked x t (g, (world, (c, at, st, stands), due)) = (world, (c, at, st))

  Left-same :
      (k : ℕ) (p q : Pause (App O) ℕ) (t : Sys (App O)) (g : Goes p)
      → p ≡ q
      → Left (app_clock sys) k p g t
      → (h : Goes q) × Left (app_clock sys) k q h t
  Left-same k p q t g e l = subst (λ r. (h : Goes r) × Left (app_clock sys) k r h t) e (g, l)

  module _ (callback : ℕ → ReqData → Body (App O)) where
    -- A coroutine in a valid state is ready with a request that is a `DataReq`, from a socket
    -- that is not negative, and its callback is `process` of test2. When it is scheduled, it
    -- waits for ten seconds, and nothing that the program shares changes. In any valid state in
    -- which its node is still as it was left and its deadline is the first and is reached, the
    -- timer part of `RunOnce` runs it without a fault: if the package is shorter than 2^31 bytes
    -- and `send` accepts at most what it is given, a prefix of a whole package with the next
    -- number and the answer is sent on the socket of the request and nothing on another
    -- descriptor, the table stays, the coroutine has ended, or for a full socket waits, the state
    -- is valid, and no other node changes.
    pub request_completed :
        (k n due : ℕ) (s t u : Sys (App O)) (c : Context (App O)) (h : Head) (req : DataReq)
        → IsValid s
        → k ≢ 0
        → find k s.idtonode ≡ some c
        → c.state ≡ ready
        → c.coroutine ≡ fresh
        → (parsed : decode pb c.req.recvdata.bytes (size c.req.recvdata) ≡ some (some h))
        → ms.parse_req (text h.body) ≡ some req
        → c.req.server_socket ≡ pos n
        → callback c.req.m_cb c.req
          ≡ as_body
              (process sys pb ms localtime (some c.req))
              (process-NoFault c.req (some h) parsed)
              (λ r. finish)
        → switch_to (app_clock sys) callback k s ≡ some t
        → IsValid u
        → find k u.idtonode ≡ find k t.idtonode
        → IsFirst u.expire k due
        → due ≤ ms_of (app_clock sys u.world)
        → length (
              pb.serialize (
                numbered pb
                  (next_id pb u.world.id)
                  (answer_text sys pb ms localtime req u.world.net)))
            + 4
          < 2 ^ 31
        → (t.world ≡ s.world)
          × (deadline t.expire k ≡ some ((ms_of (app_clock sys s.world) + 10000) % 2 ^ 64))
          × ((v : Sys (App O)) × (run_expired (app_clock sys) callback u ≡ some (none, v))
              × Returned k u v
              × ((src : List ℕ) × (out : SendEnd) × (x : Net O) × IsPackage pb src
                    (next_id pb u.world.id)
                    (answer_text sys pb ms localtime req u.world.net)
                  × Sent (net_now sys) (net_send sys) sent n (sent u.world.net) src out x
                  × (x.fds ≡ u.world.net.fds)
                  × Answered sys k n (next_id pb u.world.id) out x v))
    request_completed k n due s t u c h req vs nz at st new parsed found from is went vu same first
          over small =
        let call = process sys pb ms localtime (some c.req) in
        let (t', e, r, l) =
          switch_to_part (app_clock sys) callback k s c call (process-NoFault c.req (some h) parsed)
            vs nz at st (inl (new, is)) in
        let (rest, waits_at, (src, pkg, (out, x, sends, kept, after))) =
          request_answered sys pb ms localtime sent ok n c.req h req s.world u.world parsed found
            from small in
        let (g, (world, (d, here, waiting, stands), timed)) =
          Left-same k (until_wait call s.world) (waits 10000 rest s.world) t'
            (until_wait-Goes call s.world (process-NoFault c.req (some h) parsed)) waits_at l in
        let same_t : t' ≡ t = some_inj (sym e ∙ went) in
        let at_u : find k u.idtonode ≡ some d =
          same ∙ (ap (λ (y : Sys (App O)). find k y.idtonode) (sym same_t) ∙ here) in
        let (v, e', r', l') =
          run_expired_part (app_clock sys) callback k due u d rest g vu first over at_u stands in
        (
          ap (λ (y : Sys (App O)). y.world) (sym same_t) ∙ world,
          ap (λ (y : Sys (App O)). deadline y.expire k) (sym same_t) ∙ timed,
          (
            v,
            e',
            r',
            (
              src,
              out,
              x,
              pkg,
              sends,
              kept,
              answered k n (next_id pb u.world.id) _ out x v (
                  Left-same k (until_wait rest u.world) _ v (until_wait-Goes rest u.world g) after
                    l'),
            ),
          ),
        )
