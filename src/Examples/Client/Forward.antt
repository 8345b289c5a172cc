-- ===== src/Examples/Client/Forward.antt =====
-- test1/main1.cpp: what becomes of the answer that `tcpsendrecv` gives.
use cpp_coroutine.Common.{
  ℕ, ◌≡◌, ◌≢◌, ◌<◌, refl, ap, sym, ◌∙◌, List, length, take, none, some, ◌⊎◌, inl, inr,
  length-take_of_le,
}
use cpp_coroutine.Common.Int.{pos}
use cpp_coroutine.Util.{IoResult, io_ok}
use cpp_coroutine.Util.MemData.{MemData, IsValid, content, size}
use cpp_coroutine.Util.Timer.{TimerMs, timer_ms, set_timeout}
use cpp_coroutine.CoroutineMgr.{ReqData}
use cpp_coroutine.HeadPkg.{Head, Protobuf, HeadPkg, decode}
use cpp_coroutine.EventMgr.Call.{ret, ◌>>=◌, returns, until_wait}
use cpp_coroutine.EventMgr.Send.{SendEnd}
use cpp_coroutine.EventMgr.Send.Loop.{IsSend, Sent}
use cpp_coroutine.EventMgr.Net.{Calls, Net}
use cpp_coroutine.EventMgr.Connect.{net_now, net_send}
use cpp_coroutine.EventMgr.Connect.Request.{sending}
use cpp_coroutine.Examples.{DataRsp, Messages, text, App, body, within}
use cpp_coroutine.Examples.Calls.{after_last, last_send}
use cpp_coroutine.Examples.Packages.{IsPackage, decode_front, numbered}
use cpp_coroutine.Examples.Client.{forward}

module _ {O : Type 0} (sys : Calls O) (pb : Protobuf) (ms : Messages) where
  -- The timer for `tcpsend`.
  abbrev pub forward_timer : Net O → TimerMs
  forward_timer v = set_timeout (timer_ms 0 (net_now sys v)) 100

  forward_step :
      (rd : ReqData) (pkg : HeadPkg) (buf : MemData) (h : Head) (rsp : DataRsp) (w : App O)
      → decode pb buf.bytes (size buf) ≡ some (some h)
      → ms.parse_rsp (text h.body) ≡ some rsp
      → until_wait (forward sys pb ms rd pkg (io_ok, buf)) w
        ≡ until_wait
            (within (sending sys rd.server_socket (forward_timer w.net) (text rsp.msg)) >>= λ z.
              ret 0)
            w
  unfolding forward body until_wait
  forward_step rd pkg buf h rsp w parsed found = rw (parsed, found, until_wait) refl

  -- If `tcpsendrecv` fails, or `Decode` refuses its answer, or the text of the answer is not a
  -- `DataRsp`, the callback returns at once and sends nothing.
  pub answer_refused :
      (rd : ReqData) (pkg : HeadPkg) (r : IoResult) (buf : MemData) (w : App O)
      → (r ≢ io_ok)
        ⊎ ((decode pb buf.bytes (size buf) ≡ some none)
            ⊎ ((h : Head) × (decode pb buf.bytes (size buf) ≡ some (some h))
                × (ms.parse_rsp (text h.body) ≡ none)))
      → until_wait (forward sys pb ms rd pkg (r, buf)) w ≡ returns 0 w
  unfolding forward body until_wait
  answer_refused rd pkg io_ok buf w (inl n) = absurd (n refl)
  answer_refused rd pkg io_ok buf w (inr (inl refused)) = rw (refused, until_wait)
  answer_refused rd pkg io_ok buf w (inr (inr (h, parsed, unknown))) =
      rw (parsed, unknown, until_wait)
  answer_refused rd pkg r buf w any = refl

  -- When `tcpsendrecv` has given a package with an answer that has a text, on a socket that is
  -- not negative and for a `send` that accepts at most what it is given, the client of the program
  -- is sent a prefix of exactly that text; the table and the counter stay. Then the callback
  -- returns 0, or waits for a full socket.
  pub answer_forwarded :
      (sent : Net O → ℕ → List ℕ) (ok : IsSend (net_now sys) (net_send sys) sent) (n id : ℕ)
      (rd : ReqData) (pkg : HeadPkg) (buf : MemData) (src : List ℕ) (rsp : DataRsp) (w : App O)
      → IsPackage pb src id (ms.serialize_rsp rsp)
      → IsValid buf
      → content buf ≡ src
      → rd.server_socket ≡ pos n
      → 0 < length (text rsp.msg)
      → (out : SendEnd) × (v : Net O) × Sent
          (net_now sys)
          (net_send sys)
          sent
          n
          (sent w.net)
          (text rsp.msg)
          out
          v
        × (v.fds ≡ w.net.fds)
        × (until_wait (forward sys pb ms rd pkg (io_ok, buf)) w
            ≡ after_last sys sent ok n (forward_timer w.net) w.id out v)
  unfolding size
  answer_forwarded sent ok n id rd pkg buf src rsp w i v same at more =
      let used : length src ≡ buf.offset =
        ap length (sym same) ∙ length-take_of_le buf.offset buf.bytes v.used in
      let front : take (length src) buf.bytes ≡ src = ap (λ k. take k buf.bytes) used ∙ same in
      let parsed : decode pb buf.bytes (size buf)
          ≡ some (some (numbered pb id (ms.serialize_rsp rsp))) =
        ap (decode pb buf.bytes) (sym used)
        ∙ decode_front pb src buf.bytes id (ms.serialize_rsp rsp) i front in
      let (out, x, s, kept, e) =
        last_send sys sent ok n (forward_timer w.net) (text rsp.msg) w more in
      (
        out,
        x,
        s,
        kept,
        forward_step rd pkg buf (numbered pb id (ms.serialize_rsp rsp)) rsp w parsed
              (ms.parse_serialize_rsp rsp)
            ∙ (rw at e),
      )
