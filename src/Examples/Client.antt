-- ===== src/Examples/Client.antt =====
-- test1/main1.cpp: `process`, which asks the program of test2 for data and hands the answer on. The
-- id of the coroutine that runs and the addresses of `HeadPkg::Seq` and `Check` are arguments.
pub mod Forward
pub mod Asking
pub mod Lost
pub mod Delivered
use cpp_coroutine.Common.{ℕ, ◌%◌, ◌^◌, List, [], ◌∷◌, Option, none, some}
use cpp_coroutine.Common.Int.{ℤ, to_int}
use cpp_coroutine.Util.{IoResult, io_ok}
use cpp_coroutine.Util.MemData.{MemData, size, empty}
use cpp_coroutine.Util.Timer.{timer_ms, set_timeout}
use cpp_coroutine.FdKey.{Text}
use cpp_coroutine.CoroutineMgr.{ReqData}
use cpp_coroutine.HeadPkg.{Protobuf, HeadPkg, decode, set_data, seq}
use cpp_coroutine.EventMgr.Call.{Call, ret, ◌>>=◌, shared, ask, need}
use cpp_coroutine.EventMgr.Net.{Calls}
use cpp_coroutine.EventMgr.Connect.{net_now, tcpsendrecv}
use cpp_coroutine.EventMgr.Connect.Request.{sending}
use cpp_coroutine.Examples.{DataReq, Messages, text, new_pkg, body, App, encode_next, within}

-- `check`: all bytes that have come are a package.
unfoldable pub check : List ℕ → ℕ → Option ℤ
check src len = some (to_int len)

-- "10.244.181.24"
abbrev pub server_ip : Text
server_ip = 49 ∷ 48 ∷ 46 ∷ 50 ∷ 52 ∷ 52 ∷ 46 ∷ 49 ∷ 56 ∷ 49 ∷ 46 ∷ 50 ∷ 52 ∷ []

module _ {O : Type 0} (sys : Calls O) (pb : Protobuf) (ms : Messages) where
  -- From the result of `tcpsendrecv` on.
  unfoldable pub forward : ReqData → HeadPkg → IoResult × MemData → Call (App O) ℕ
  unfolding decode size body set_timeout within
  forward rd pkg (io_ok, rspdata) = do
    parsed ← need (decode pb rspdata.bytes (size rspdata))
    elim parsed [
      | none ↦ ret 0
      | some h ↦
          let (bytes, _) = body (record pkg { head = h }) in
          elim (ms.parse_rsp bytes) [
            | none ↦ ret 0
            | some rsp ↦ do
              start ← shared
              let timer = set_timeout (timer_ms 0 (net_now sys start.net)) 100
              _ ← within (sending sys rd.server_socket timer (text rsp.msg))
              ret 0
          ]
    ]
  forward rd pkg (failure, rspdata) = ret 0

  -- The request, with the seconds of the clock.
  abbrev pub request : ℕ → DataReq
  request ts = record { cmd = some 100; query = some (ts % 2 ^ 32) }

  module _ (at_seq at_check : ℕ) where
    -- `process`; `none` stands for a null pointer.
    unfoldable pub process : ℕ → Option ReqData → Call (App O) ℕ
    unfolding set_data encode_next tcpsendrecv forward empty
    process id none = ret 0
    process id (some rd) = do
      start ← shared
      let req = request (net_now sys start.net).tv_sec
      pkg ← ask (encode_next pb (set_data new_pkg (ms.serialize_req req)))
      got ← within (
          tcpsendrecv sys (λ f. seq pb) id (some server_ip) 31000 (some pkg.packed) empty 90000
            at_seq at_check)
      forward rd pkg got
