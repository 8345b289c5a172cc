-- ===== src/Examples/Server.antt =====
-- test2/main2.cpp, `process`: it answers a request after ten seconds.
pub mod Answers
pub mod Scheduled
use cpp_coroutine.Common.{ℕ, ◌%◌, ◌^◌, List, [], ◌∷◌, ◌++◌, Option, none, some}
use cpp_coroutine.Common.Int.{pos}
use cpp_coroutine.Util.MemData.{size}
use cpp_coroutine.Util.Timer.{timer_ms}
use cpp_coroutine.Util.Text.{Tm, get_ymdhms}
use cpp_coroutine.CoroutineMgr.{ReqData}
use cpp_coroutine.HeadPkg.{Protobuf, HeadPkg, decode, set_data}
use cpp_coroutine.EventMgr.Call.{Call, ret, ◌>>=◌, ◌>>◌, shared, ask, need, pause}
use cpp_coroutine.EventMgr.Net.{Calls}
use cpp_coroutine.EventMgr.Connect.{net_now}
use cpp_coroutine.EventMgr.Connect.Request.{sending}
use cpp_coroutine.Examples.{
  DataReq, DataRsp, Messages, number, new_pkg, body, App, encode_next, within,
}

module _ {O : Type 0} (sys : Calls O) (pb : Protobuf) (ms : Messages) (localtime : ℕ → Tm) where
  -- The answer, with a text of the time and a line end.
  abbrev pub answer : DataReq → ℕ → DataRsp
  answer req ts = record {
    cmd = some (number req.cmd);
    result = some (number req.query);
    msg = some (get_ymdhms localtime ts ++ (13 ∷ 10 ∷ []));
  }

  -- From the wait on.
  unfoldable pub respond : ReqData → HeadPkg → DataReq → Call (App O) ℕ
  unfolding set_data encode_next within
  respond rd pkg req = do
    w ← shared
    let rsp = answer req (net_now sys w.net).tv_sec
    packed ← ask (encode_next pb (set_data pkg (ms.serialize_rsp rsp)))
    start ← shared
    let timer = timer_ms 100 (net_now sys start.net)
    _ ← within (sending sys rd.server_socket timer packed.packed)
    ret 0

  -- `process`; `none` stands for a null pointer.
  unfoldable pub process : Option ReqData → Call (App O) ℕ
  unfolding decode size body respond
  process none = ret 0
  process (some rd) = do
    parsed ← need (decode pb rd.recvdata.bytes (size rd.recvdata))
    elim parsed [
      | none ↦ ret 0
      | some h ↦
          let (bytes, pkg) = body (record new_pkg { head = h }) in
          elim (ms.parse_req bytes) [ none ↦ ret 0 | some req ↦ do pause 10000; respond rd pkg req ]
    ]
