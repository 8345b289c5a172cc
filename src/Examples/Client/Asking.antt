-- ===== src/Examples/Client/Asking.antt =====
-- test1/main1.cpp: what the program sends to the one of test2, over a connection that is there.
use cpp_coroutine.Common.{ℕ, ◌+◌, ◌^◌, ◌≡◌, ◌≢◌, ◌<◌, refl, ◌∙◌, List, length, some, arith}
use cpp_coroutine.Common.Int.{pos, to_int}
use cpp_coroutine.Util.{port_tcp}
use cpp_coroutine.Util.MemData.{empty}
use cpp_coroutine.Util.Timer.{timer_ms}
use cpp_coroutine.FdKey.{FdKey}
use cpp_coroutine.FdMgr.{FdData, ip_port_key}
use cpp_coroutine.FdMgr.Nodes.{find_node, load, store}
use cpp_coroutine.CoroutineMgr.{ReqData}
use cpp_coroutine.HeadPkg.{Protobuf, HeadPkg, seq, set_data}
use cpp_coroutine.EventMgr.Call.{until_wait}
use cpp_coroutine.EventMgr.Call.Laws.{then_do}
use cpp_coroutine.EventMgr.Send.{SendEnd}
use cpp_coroutine.EventMgr.Send.Loop.{IsSend, Sent}
use cpp_coroutine.EventMgr.Net.{Calls, Net}
use cpp_coroutine.EventMgr.Connect.{net_now, net_send, tcpsendrecv}
use cpp_coroutine.EventMgr.Connect.Request.{after_send, tcpsendrecv_found}
use cpp_coroutine.EventMgr.Connect.Steps.{entered}
use cpp_coroutine.Examples.{Messages, new_pkg, App, encode_next}
use cpp_coroutine.Examples.Calls.{pause_within, within_then}
use cpp_coroutine.Examples.Packages.{numbered, IsPackage, next_id, encode_next_lem}
use cpp_coroutine.Examples.Client.{server_ip, request, forward, process}

module _ {O : Type 0} (sys : Calls O) (pb : Protobuf) (ms : Messages) where
  -- The text of the request.
  abbrev pub request_text : Net O → List ℕ
  request_text v = ms.serialize_req (request sys pb ms (net_now sys v).tv_sec)

  module _ (at_seq at_check : ℕ) where
    process_step :
        (id : ℕ) (rd : ReqData) (w : App O)
        → let r = encode_next pb (set_data new_pkg (request_text w.net)) w in
          until_wait (process sys pb ms at_seq at_check id (some rd)) w
          ≡ then_do
              (pause_within r.1.id (
                until_wait
                  (tcpsendrecv sys
                    (λ f. seq pb)
                    id
                    (some server_ip)
                    31000
                    (some (r.0.packed))
                    empty
                    90000
                    at_seq
                    at_check)
                  r.1.net))
              (forward sys pb ms rd r.0)
    unfolding process until_wait
    process_step id rd w =
        let r = encode_next pb (set_data new_pkg (request_text w.net)) w in
        within_then
          (tcpsendrecv sys (λ f. seq pb) id (some server_ip) 31000 (some (r.0.packed)) empty 90000
            at_seq at_check)
          (forward sys pb ms rd r.0) r.1

    -- `process` of test1 over a connection to the program of test2, for a `send` that accepts at
    -- most what it is given and a package shorter than 2^31 bytes: the counter goes on, the call
    -- is entered in the table under the new number, and on the descriptor of the connection a
    -- prefix is sent of a whole package with that number and the request, command 100 and the
    -- seconds of the clock, and nothing on another descriptor. It then stands as `tcpsendrecv`
    -- does with 90 seconds, and what that returns goes to the rest of the callback.
    pub client_asks :
        (id n : ℕ) (rd : ReqData) (w : App O) (p : FdKey) (d : FdData) (sent : Net O → ℕ → List ℕ)
        → IsSend (net_now sys) (net_send sys) sent
        → at_check ≢ 0
        → at_seq ≢ 0
        → length (pb.serialize (numbered pb (next_id pb w.id) (request_text w.net))) + 4 < 2 ^ 31
        → find_node (ip_port_key server_ip 31000 port_tcp) w.net.fds ≡ some p
        → load p w.net.fds ≡ some d
        → d.fd ≡ pos n
        → let calls = entered sys id (to_int (next_id pb w.id)) d in
          let w1 : Net O = record (w.net) { fds = store p calls w.net.fds } in
          (pkg : HeadPkg) × IsPackage pb pkg.packed (next_id pb w.id) (request_text w.net)
          × ((out : SendEnd) × (v : Net O) × Sent
                (net_now sys)
                (net_send sys)
                sent
                n
                (sent w1)
                pkg.packed
                out
                v
              × (v.fds ≡ store p calls w.net.fds)
              × (until_wait (process sys pb ms at_seq at_check id (some rd)) w
                  ≡ then_do
                      (pause_within (next_id pb w.id) (
                        after_send sys
                          (λ f. seq pb)
                          n
                          (timer_ms 90000 (net_now sys w.net))
                          (to_int (next_id pb w.id))
                          p
                          calls
                          empty
                          out
                          v))
                      (forward sys pb ms rd pkg)))
    client_asks id n rd w p d sent ok hc hs small here at fd_at =
        let (i, _, counted) = encode_next_lem pb new_pkg (request_text w.net) w small in
        let pkg : HeadPkg = (encode_next pb (set_data new_pkg (request_text w.net)) w).0 in
        let (out, v, s, kept, e) =
          tcpsendrecv_found sys (λ f. seq pb) id 31000 90000 at_seq at_check n server_ip pkg.packed
            empty (to_int (next_id pb w.id)) w.net p d sent ok (λ h. omega arith) hc hs
            (omega (arith, i.four)) i.known here at fd_at in
        (pkg, i, (out, v, s, kept, process_step id rd w ∙ (rw counted (rw e refl))))
