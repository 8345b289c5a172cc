-- ===== src/Examples/Server/Answers.antt =====
-- test2/main2.cpp: what a client of the program is sent.
use cpp_coroutine.Common.{
  ℕ, ◌+◌, ◌^◌, ◌≡◌, ◌<◌, refl, ◌∙◌, arith, List, length, none, some, ◌⊎◌, inl, inr,
}
use cpp_coroutine.Common.Int.{pos}
use cpp_coroutine.Util.MemData.{size}
use cpp_coroutine.Util.Timer.{timer_ms}
use cpp_coroutine.Util.Text.{Tm}
use cpp_coroutine.CoroutineMgr.{ReqData}
use cpp_coroutine.HeadPkg.{Head, Protobuf, HeadPkg, decode, set_data}
use cpp_coroutine.EventMgr.Call.{returns, waits, until_wait}
use cpp_coroutine.EventMgr.Send.{SendEnd}
use cpp_coroutine.EventMgr.Send.Loop.{IsSend, Sent}
use cpp_coroutine.EventMgr.Net.{Calls, Net}
use cpp_coroutine.EventMgr.Connect.{net_now, net_send}
use cpp_coroutine.EventMgr.Connect.Request.{sending}
use cpp_coroutine.EventMgr.Call.{Call, ◌>>=◌, ret}
use cpp_coroutine.Examples.{DataReq, Messages, text, new_pkg, body, App, encode_next, within}
use cpp_coroutine.Examples.Calls.{after_last, last_send}
use cpp_coroutine.Examples.Packages.{numbered, IsPackage, next_id, encode_next_lem}
use cpp_coroutine.Examples.Server.{answer, respond, process}

module _ {O : Type 0} (sys : Calls O) (pb : Protobuf) (ms : Messages) (localtime : ℕ → Tm) where
  -- The text of the answer.
  abbrev pub answer_text : DataReq → Net O → List ℕ
  answer_text req v = ms.serialize_rsp (answer sys pb ms localtime req (net_now sys v).tv_sec)

  respond_step :
      (rd : ReqData) (pkg : HeadPkg) (req : DataReq) (w : App O)
      → let r = encode_next pb (set_data pkg (answer_text req w.net)) w in
        until_wait (respond sys pb ms localtime rd pkg req) w
        ≡ until_wait
            (within (sending sys rd.server_socket (timer_ms 100 (net_now sys r.1.net)) r.0.packed)
              >>= λ z. ret 0)
            r.1
  unfolding respond until_wait
  respond_step rd pkg req w = refl

  process_waits :
      (rd : ReqData) (h : Head) (req : DataReq) (w : App O)
      → decode pb rd.recvdata.bytes (size rd.recvdata) ≡ some (some h)
      → ms.parse_req (text h.body) ≡ some req
      → until_wait (process sys pb ms localtime (some rd)) w
        ≡ waits 10000 (respond sys pb ms localtime rd (body (record new_pkg { head = h })).1 req) w
  unfolding process body until_wait
  process_waits rd h req w parsed found = rw (parsed, found, until_wait)

  -- A request that `Decode` refuses, or whose text is not a `DataReq`, is not answered: the
  -- callback returns at once, and neither the sockets nor the counter change.
  pub request_refused :
      (rd : ReqData) (w : App O)
      → (decode pb rd.recvdata.bytes (size rd.recvdata) ≡ some none)
        ⊎ ((h : Head) × (decode pb rd.recvdata.bytes (size rd.recvdata) ≡ some (some h))
            × (ms.parse_req (text h.body) ≡ none))
      → until_wait (process sys pb ms localtime (some rd)) w ≡ returns 0 w
  unfolding process body until_wait
  request_refused rd w (inl refused) = rw (refused, until_wait)
  request_refused rd w (inr (h, parsed, unknown)) = rw (parsed, unknown, until_wait)

  module _ (sent : Net O → ℕ → List ℕ) (ok : IsSend (net_now sys) (net_send sys) sent) where
    -- What a callback sends as its last act to a client, from the state `w`: a prefix of a
    -- package with the next number, which the counter then holds, and with the answer's text.
    abbrev pub IsReply : ℕ → DataReq → App O → Call (App O) ℕ → Type 0
    IsReply n req w rest =
        (src : List ℕ) × IsPackage pb src (next_id pb w.id) (answer_text req w.net)
        × ((out : SendEnd) × (v : Net O) × Sent (net_now sys) (net_send sys) sent n (sent w.net) src
              out v
            × (v.fds ≡ w.net.fds)
            × (until_wait rest w
                ≡ after_last sys sent ok n (timer_ms 100 (net_now sys w.net)) (next_id pb w.id) out
                    v))

    respond_lem :
        (n : ℕ) (rd : ReqData) (pkg : HeadPkg) (req : DataReq) (w : App O)
        → rd.server_socket ≡ pos n
        → length (pb.serialize (numbered pb (next_id pb w.id) (answer_text req w.net))) + 4 < 2 ^ 31
        → IsReply n req w (respond sys pb ms localtime rd pkg req)
    respond_lem n rd pkg req w at small =
        let (pkg_ok, _, counted) = encode_next_lem pb pkg (answer_text req w.net) w small in
        let r = encode_next pb (set_data pkg (answer_text req w.net)) w in
        let (out, v, s, kept, e) =
          last_send sys sent ok n (timer_ms 100 (net_now sys w.net)) r.0.packed
            (record w { id = next_id pb w.id }) (omega (arith, pkg_ok.four)) in
        (r.0.packed, pkg_ok, (out, v, s, kept, respond_step rd pkg req w ∙ (rw (counted, at) e)))

    -- A request with a text that is a `DataReq`, on a socket that is not negative, is answered
    -- after a wait of ten seconds, before which nothing changes: from whatever state `v` is there
    -- after the wait, if the package is shorter than 2^31 bytes and `send` accepts at most what
    -- it is given, the peer is sent a prefix of a whole package that decodes to the answer, with
    -- the command and the query of the request and the time. Its number is the next one of the
    -- counter, whatever number the request has; the table stays. Then the callback returns 0, or
    -- waits for a full socket.
    pub request_answered :
        (n : ℕ) (rd : ReqData) (h : Head) (req : DataReq) (w v : App O)
        → decode pb rd.recvdata.bytes (size rd.recvdata) ≡ some (some h)
        → ms.parse_req (text h.body) ≡ some req
        → rd.server_socket ≡ pos n
        → length (pb.serialize (numbered pb (next_id pb v.id) (answer_text req v.net))) + 4 < 2 ^ 31
        → (rest : Call (App O) ℕ) × (until_wait (process sys pb ms localtime (some rd)) w
            ≡ waits 10000 rest w)
          × IsReply n req v rest
    request_answered n rd h req w v parsed found at small =
        let pkg = (body (record new_pkg { head = h })).1 in
        (
          respond sys pb ms localtime rd pkg req,
          process_waits rd h req w parsed found,
          respond_lem n rd pkg req v at small,
        )
