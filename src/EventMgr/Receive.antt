-- ===== src/EventMgr/Receive.antt =====
-- lib/eventmgr/EventMgr.h, `tcprecv`. The call of `recv` and the check of packages are arguments;
-- `none` is an access outside an array.
pub mod Once
pub mod Fresh
use cpp_coroutine.Common.{
  ℕ, ◌+◌, ◌%◌, ◌^◌, ◌||◌, List, Option, none, some, ◌==◌, leb, if◌then◌else◌, length,
}
use cpp_coroutine.Common.Int.{ℤ, pos, negsuc, ltb_ℤ, to_int}
use cpp_coroutine.Util.{IoResult, io_ok, io_err, io_arg_invalid, io_remote_close}
use cpp_coroutine.Util.MemData.{MemData, left_size, expand, update_use, size, memcpy, ◌>>=◌}
use cpp_coroutine.EventMgr.Send.{eintr, eagain}

-- What `recv` does: it stores bytes, none if the peer has closed, or fails with `errno`.
pub data RecvResult : Type 0 where
  received : List ℕ → RecvResult
  failed : ℕ → RecvResult

-- `DEF_RECV_SIZE`
abbrev pub def_recv_size : ℕ
def_recv_size = 1024

module _ (check : List ℕ → ℕ → Option ℤ) where
  -- What follows `recv`, by its result as an `int`; the last component is `pkgsize`. A count that is
  -- negative as an `int` is taken for an error, with an `errno` that `recv` has not set, here 0.
  unfoldable pub after_recv : MemData → ℤ → RecvResult → Option (IoResult × MemData × ℤ)
  unfolding update_use size
  after_recv d pkgsize (failed errno) =
      if errno == eagain || errno == eintr
      then some (io_ok, d, pkgsize)
      else some (io_err, d, pkgsize)
  after_recv d pkgsize (received bs) =
      if length bs % 2 ^ 32 == 0 then some (io_remote_close, d, pkgsize) else (do
        written ← memcpy d.bytes d.offset bs (length bs)
        let e = update_use (record d { bytes = written }) (length bs)
        if ltb_ℤ (to_int (length bs)) (pos 0)
            then some (io_err, record d { bytes = written }, pkgsize)
            else (do
              found ← check e.bytes (size e)
              some (if ltb_ℤ (pos 0) found then io_ok else io_err, e, found)))

  -- `tcprecv`: the body of its loop returns on every branch. `recv` is told the room.
  unfoldable pub tcprecv : (ℕ → RecvResult) → ℤ → MemData → ℤ → Option (IoResult × MemData × ℤ)
  unfolding left_size
  tcprecv recv (negsuc n) d pkgsize = some (io_arg_invalid, d, pkgsize)
  tcprecv recv (pos server) d pkgsize = do
    roomy ← (if leb (left_size d) def_recv_size then expand d def_recv_size else some d)
    after_recv roomy pkgsize (recv (left_size roomy))
