-- ===== src/Tests/Programs.antt =====
-- The callbacks of test1 and test2 on the sample: requests, answers and their numbers.
use cpp_coroutine.Common.{ℕ, ◌≡◌, inl, refl, List, [], ◌∷◌, some, length, arith}
use cpp_coroutine.Common.Int.{pos}
use cpp_coroutine.Util.{io_ok, io_timeout}
use cpp_coroutine.Util.MemData.{MemData, size}
use cpp_coroutine.Util.Text.{Tm, get_ymdhms}
use cpp_coroutine.CoroutineMgr.{ReqData, req_data}
use cpp_coroutine.HeadPkg.{check, decode, seq, read_u32}
use cpp_coroutine.EventMgr.Call.{Call, returns, waits, until_wait}
use cpp_coroutine.EventMgr.Send.{SendEnd}
use cpp_coroutine.EventMgr.Send.Loop.{Sent}
use cpp_coroutine.EventMgr.Net.{Net}
use cpp_coroutine.EventMgr.Connect.{net_now, net_send}
use cpp_coroutine.Examples.{DataReq, DataRsp, App, new_pkg}
use cpp_coroutine.Examples.Packages.{IsPackage}
use cpp_coroutine.Examples.Calls.{after_last}
use cpp_coroutine.Examples.Server
use cpp_coroutine.Examples.Server.Answers.{IsReply, request_answered, request_refused}
use cpp_coroutine.Examples.Client.{forward}
use cpp_coroutine.Examples.Client.Forward.{forward_timer, answer_forwarded, answer_refused}
use cpp_coroutine.Tests.Sample.{Os, sys, net, sent, send-IsSend}
use cpp_coroutine.Tests.Codes.{codes, messages}

abbrev pub noon : ℕ → Tm
noon ts = record { tm_year = 126; tm_mon = 10; tm_mday = 26; tm_hour = 12; tm_min = 0; tm_sec = 0 }

-- The package with number 5 and the request 1, 2.
abbrev pub asked : List ℕ
asked = 0 ∷ 0 ∷ 0 ∷ 4 ∷ 6 ∷ 1 ∷ 2 ∷ 3 ∷ []

abbrev pub rd : List ℕ → ReqData
rd bytes = record req_data {
  recvdata = record { bytes = bytes; offset = length bytes };
  server_socket = pos 4;
}

abbrev app : App Os
app = record { net = net; id = 7 }

abbrev later : App Os
later = record { net = net; id = 8 }

abbrev pub question : DataReq
question = record { cmd = some 1; query = some 2 }

request_answered_run :
    (rest : Call (App Os) ℕ) × (until_wait
        (Server.process sys codes messages noon (some (rd asked)))
        app
      ≡ waits 10000 rest app)
    × IsReply sys codes messages noon sent send-IsSend 4 question later rest
unfolding decode size get_ymdhms
request_answered_run =
    request_answered sys codes messages noon sent send-IsSend 4 (rd asked)
      (record { seq = some 5; body = some (2 ∷ 3 ∷ []) }) question app later refl refl refl
      (omega arith)

request_refused_run :
    until_wait (Server.process sys codes messages noon (some (rd []))) app ≡ returns 0 app
unfolding decode size
request_refused_run = request_refused sys codes messages noon (rd []) app (inl refl)

-- An answer, and the package with number 5 and it.
abbrev pub reply : DataRsp
reply = record { cmd = some 1; result = some 2; msg = some (104 ∷ 105 ∷ []) }

abbrev pub replied : List ℕ
replied = 0 ∷ 0 ∷ 0 ∷ 7 ∷ 6 ∷ 1 ∷ 2 ∷ 3 ∷ 1 ∷ 104 ∷ 105 ∷ []

pub replied-IsPackage : IsPackage codes replied 5 (messages.serialize_rsp reply)
unfolding check decode seq read_u32
replied-IsPackage = record { whole = refl; decoded = refl; known = refl; four = omega arith }

abbrev full : MemData
full = record { bytes = replied; offset = 11 }

answer_forwarded_run :
    (out : SendEnd) × (v : Net Os) × Sent
      (net_now sys)
      (net_send sys)
      sent
      4
      (λ j. [])
      (104 ∷ 105 ∷ [])
      out
      v
    × (v.fds ≡ net.fds)
    × (until_wait (forward sys codes messages (rd []) new_pkg (io_ok, full)) app
        ≡ after_last sys sent send-IsSend 4 (forward_timer sys codes messages net) 7 out v)
answer_forwarded_run =
    answer_forwarded sys codes messages sent send-IsSend 4 5 (rd []) new_pkg full replied reply app
      replied-IsPackage (record { used = omega arith; small = omega arith }) refl refl (omega arith)

answer_refused_run :
    until_wait (forward sys codes messages (rd []) new_pkg (io_timeout, full)) app ≡ returns 0 app
answer_refused_run =
    answer_refused sys codes messages (rd []) new_pkg io_timeout full app (inl (λ h. cc))
