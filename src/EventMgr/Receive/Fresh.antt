-- ===== src/EventMgr/Receive/Fresh.antt =====
-- lib/eventmgr/EventMgr.h: `tcprecv` into a new buffer, as `DoReadTcp` calls it.
use cpp_coroutine.Common.{
  ℕ, ◌+◌, ◌≡◌, ◌≤◌, ◌<◌, refl, ap, ◌∙◌, List, [], ◌∷◌, Option, some, length, take, arith, leb, true,
  sym, ◌^◌, ◌++◌, if◌then◌else◌,
}
use cpp_coroutine.Common.Int.{ℤ, pos}
use cpp_coroutine.Util.{io_ok, io_remote_close}
use cpp_coroutine.Util.MemData.{MemData, IsValid, content, left_size, expand, empty}
use cpp_coroutine.Util.MemData.Content.{grown, expand-grown, length-grown, content-grown}
use cpp_coroutine.EventMgr.Receive.{RecvResult, received, def_recv_size, tcprecv, after_recv}
use cpp_coroutine.EventMgr.Receive.Once.{
  filled, length-stored, content-filled, after_received, after_closed, into_room, left_size_lem,
}

-- The buffer that `recv` is given.
abbrev pub fresh_buffer : MemData
fresh_buffer = grown empty def_recv_size

empty-IsValid : IsValid empty
unfolding empty
empty-IsValid = record { used = omega arith; small = omega arith }

length-fresh_buffer : length fresh_buffer.bytes ≡ def_recv_size
unfolding empty
length-fresh_buffer = length-grown empty def_recv_size empty-IsValid ∙ omega arith

fresh_buffer-offset : fresh_buffer.offset ≡ 0
unfolding empty
fresh_buffer-offset = refl

fresh_buffer-IsValid : IsValid fresh_buffer
fresh_buffer-IsValid = record {
  used = omega (arith, length-fresh_buffer, fresh_buffer-offset);
  small = omega (arith, length-fresh_buffer);
}

left_size-fresh_buffer : left_size fresh_buffer ≡ def_recv_size
left_size-fresh_buffer = omega (
  arith,
  left_size_lem fresh_buffer fresh_buffer-IsValid,
  length-fresh_buffer,
  fresh_buffer-offset,
)

empty-left_size : leb (left_size empty) def_recv_size ≡ true
unfolding empty left_size
empty-left_size = refl

empty_short :
    (length empty.bytes < def_recv_size + empty.offset) × (def_recv_size + empty.offset < 2 ^ 32)
unfolding empty
empty_short = (omega arith, omega arith)

made :
    (if leb (left_size empty) def_recv_size then expand empty def_recv_size else some empty)
    ≡ some fresh_buffer
made =
    rw empty-left_size (expand-grown empty def_recv_size empty-IsValid empty_short.0 empty_short.1)

empty-content : content empty ≡ []
unfolding empty
empty-content = refl

content-fresh_buffer : content fresh_buffer ≡ []
content-fresh_buffer = content-grown empty def_recv_size empty-IsValid ∙ empty-content

module _ (check : List ℕ → ℕ → Option ℤ) where
  into_fresh :
      (recv : ℕ → RecvResult) (server : ℕ) (got : RecvResult)
      → recv def_recv_size ≡ got
      → tcprecv check recv (pos server) empty (pos 0) ≡ after_recv check fresh_buffer (pos 0) got
  into_fresh recv server got h =
      into_room check recv server empty fresh_buffer (pos 0) made
      ∙ ap (after_recv check fresh_buffer (pos 0)) (ap recv left_size-fresh_buffer ∙ h)

  -- The peer has closed the connection.
  pub tcprecv_closed :
      (recv : ℕ → RecvResult) (server : ℕ)
      → recv def_recv_size ≡ received []
      → tcprecv check recv (pos server) empty (pos 0) ≡ some (io_remote_close, fresh_buffer, pos 0)
  tcprecv_closed recv server h =
      into_fresh recv server (received []) h ∙ after_closed check fresh_buffer (pos 0)

  -- The check finds a package in the bytes that come.
  pub tcprecv_package :
      (recv : ℕ → RecvResult) (server b pkg : ℕ) (bs : List ℕ)
      → recv def_recv_size ≡ received (b ∷ bs)
      → length (b ∷ bs) ≤ def_recv_size
      → ((src : List ℕ)
          → take (length (b ∷ bs)) src ≡ b ∷ bs
          → check src (length (b ∷ bs)) ≡ some (pos pkg))
      → 0 < pkg
      → (e : MemData) × (tcprecv check recv (pos server) empty (pos 0) ≡ some (io_ok, e, pos pkg))
        × (content e ≡ b ∷ bs)
        × (e.offset ≡ length (b ∷ bs))
        × (length (b ∷ bs) ≤ length e.bytes)
        × (length e.bytes < 2 ^ 32)
  tcprecv_package recv server b pkg bs h fits found more =
      let len = length (b ∷ bs) in
      let room : fresh_buffer.offset + len ≤ length fresh_buffer.bytes =
        omega (arith, length-fresh_buffer, fresh_buffer-offset) in
      let at : fresh_buffer.offset + len ≡ len = omega (arith, fresh_buffer-offset) in
      let e : MemData = filled fresh_buffer (b ∷ bs) in
      let same : content e ≡ b ∷ bs =
        content-filled fresh_buffer (b ∷ bs) room ∙ ap (λ l. l ++ (b ∷ bs)) content-fresh_buffer in
      let c : check e.bytes (fresh_buffer.offset + len) ≡ some (pos pkg) =
        ap (check e.bytes) at ∙ found e.bytes (ap (λ n. take n e.bytes) (sym at) ∙ same) in
      (
        e,
        into_fresh recv server (received (b ∷ bs)) h
            ∙ (after_received check fresh_buffer (pos 0) (pos pkg) b bs fresh_buffer-IsValid room
                  (omega arith) c
                ∙ ap (λ r. some (r, e, pos pkg)) (ground arith)),
        same,
        at,
        omega (arith, length-stored fresh_buffer (b ∷ bs) room, length-fresh_buffer),
        omega (arith, length-stored fresh_buffer (b ∷ bs) room, length-fresh_buffer),
      )
