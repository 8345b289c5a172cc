-- ===== src/Tests/Io.antt =====
-- A socket that takes one byte at a time, and one that has bytes to read.
use std.Path.{fun_ext}
use cpp_coroutine.Common.{
  ◌<◌, ◌^◌, ℕ, ◌+◌, ◌≡◌, ◌≤◌, inl, inr, refl, sym, ap, ◌∙◌, ◌*◌, List, [], ◌∷◌, ◌++◌, some, arith,
  length, take, Bool-cases, subst, ltb, leb, if◌then◌else◌, ◌==◌,
}
use cpp_coroutine.Common.Int.{ℤ, pos, ◌+ℤ◌, ◌*ℤ◌, to_int}
use cpp_coroutine.Util.{IoResult, io_ok}
use cpp_coroutine.Util.MemData.{MemData, IsValid}
use cpp_coroutine.Util.Timer.{Timeval, TimerMs, is_timeout, get_elapsed_time}
use cpp_coroutine.EventMgr.Call.{until_wait}
use cpp_coroutine.HeadPkg.{check, read_u32}
use cpp_coroutine.EventMgr.Send.{SendResult, accepted, SendEnd, returned, tcpsend, send_loop}
use cpp_coroutine.EventMgr.Send.Loop.{IsSend, Sent, after_loop, tcpsend_lem}
use cpp_coroutine.EventMgr.Receive.{RecvResult, received, def_recv_size, tcprecv}
use cpp_coroutine.EventMgr.Receive.Once.{Received, tcprecv_lem}

abbrev Net : Type 0
Net = Timeval × (ℕ → List ℕ)

abbrev now : Net → Timeval
now w = w.0

abbrev sent : Net → ℕ → List ℕ
sent w = w.1

abbrev first_byte : List ℕ → List ℕ
first_byte [] = []
first_byte (b ∷ bs) = b ∷ []

abbrev send : ℕ → List ℕ → Net → SendResult × Net
send server src w = (
  accepted (length (first_byte src)),
  (w.0, λ j. if j == server then w.1 j ++ first_byte src else w.1 j),
)

length-first_byte : (src : List ℕ) → length (first_byte src) ≤ length src
length-first_byte [] = omega arith
length-first_byte (b ∷ bs) = omega arith

take-first_byte : (src : List ℕ) → take (length (first_byte src)) src ≡ first_byte src
take-first_byte [] = refl
take-first_byte (b ∷ bs) = refl

same_count : (a b : ℕ) → accepted a ≡ accepted b → a ≡ b
same_count a b e = cc

here :
    (server : ℕ) (src : List ℕ) (w : Net)
    → (if server == server then w.1 server ++ src else w.1 server) ≡ w.1 server ++ src
here server src w = ground arith

send-IsSend : IsSend now send sent
send-IsSend = record {
  at_most = λ server src w n e.
      omega (arith, length-first_byte src, same_count (length (first_byte src)) n e);
  grows = λ server src w n e.
      here server (first_byte src) w
      ∙ ap (λ l. w.1 server ++ l)
          (sym (take-first_byte src)
            ∙ ap (λ i. take i src) (same_count (length (first_byte src)) n e));
  stays = λ server src w errno e. absurd cc;
  others = λ server src w j n. ground arith;
}

abbrev idle : Net
idle = (record { tv_sec = 1; tv_usec = 0 }, λ j. [])

abbrev timer : TimerMs
timer = record { start = record { tv_sec = 1; tv_usec = 0 }; expire = 100 }

abbrev unchanged : ℕ → Net → Net
unchanged server w = w

three_bytes :
    send_loop now send 3 5 timer (7 ∷ 8 ∷ 9 ∷ []) 0 idle
    ≡ some (returned io_ok, (idle.0, λ j. if j == 5 then 7 ∷ 8 ∷ 9 ∷ [] else []))
unfolding send_loop is_timeout get_elapsed_time ◌+ℤ◌ ◌*ℤ◌
three_bytes = ap (λ o. some (returned io_ok, (idle.0, o))) (fun_ext (λ j. ground arith))

tcpsend_lem_example :
    (out : SendEnd) × (w : Net) × Sent now send sent 5 (λ j. []) (7 ∷ 8 ∷ 9 ∷ []) out w
    × (send_loop now send 4 5 timer (7 ∷ 8 ∷ 9 ∷ []) 0 idle ≡ some (out, w))
    × (until_wait (tcpsend now send unchanged unchanged (pos 5) timer (7 ∷ 8 ∷ 9 ∷ [])) idle
        ≡ after_loop now send sent send-IsSend unchanged unchanged 5 timer out w)
tcpsend_lem_example =
    tcpsend_lem now send sent send-IsSend unchanged unchanged 5 timer (7 ∷ 8 ∷ 9 ∷ []) idle
      (omega arith)

read_u32_total : (bs : List ℕ) → 4 ≤ length bs → (n : ℕ) × (read_u32 bs ≡ some n)
unfolding read_u32
read_u32_total [] h = absurd (omega arith)
read_u32_total (a ∷ []) h = absurd (omega arith)
read_u32_total (a ∷ b ∷ []) h = absurd (omega arith)
read_u32_total (a ∷ b ∷ c ∷ []) h = absurd (omega arith)
read_u32_total (a ∷ b ∷ c ∷ d ∷ rest) h = (((a * 256 + b) * 256 + c) * 256 + d, refl)

check_total :
    (bs : List ℕ) (n : ℕ)
    → def_recv_size ≤ length bs
    → n ≤ length bs
    → (found : ℤ) × (check bs n ≡ some found)
unfolding check
check_total bs n h k = elim (Bool-cases (n == 0)) [
  | inl nothing ↦ (pos 0, rw (nothing, check))
  | inr more ↦
      let (len, e) = read_u32_total bs (omega arith) in
      ((if ltb n len then pos 0 else to_int (len + 4)), rw (more, e, check))
]

-- A package of one byte comes at once.
abbrev recv : ℕ → RecvResult
recv n = received (if leb 5 n then 0 ∷ 0 ∷ 0 ∷ 1 ∷ 42 ∷ [] else [])

same_bytes : (a b : List ℕ) → received a ≡ received b → a ≡ b
same_bytes a b e = cc

recv_fits : (n : ℕ) (bs : List ℕ) → recv n ≡ received bs → (length bs ≤ n) × (length bs < 2 ^ 31)
recv_fits n bs e =
    subst (λ l. (length l ≤ n) × (length l < 2 ^ 31))
      (same_bytes (if leb 5 n then 0 ∷ 0 ∷ 0 ∷ 1 ∷ 42 ∷ [] else []) bs e) (ground arith)

abbrev buffer : MemData
buffer = record { bytes = []; offset = 0 }

buffer-IsValid : IsValid buffer
buffer-IsValid = record { used = omega arith; small = omega arith }

tcprecv_lem_example :
    (r : IoResult) × (e : MemData) × (found : ℤ) × (tcprecv check recv (pos 5) buffer (pos 0)
      ≡ some (r, e, found))
    × IsValid e
    × Received check recv buffer (pos 0) r e found
tcprecv_lem_example =
    tcprecv_lem check recv 5 buffer (pos 0) recv_fits check_total buffer-IsValid (omega arith)
