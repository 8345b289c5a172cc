-- ===== src/EventMgr/Udp.antt =====
-- lib/eventmgr/EventMgr.cpp: the calls that are declared and do nothing yet.
use cpp_coroutine.Common.{ℕ, List, Option, some, ltb, if◌then◌else◌}
use cpp_coroutine.Util.{IoResult, io_ok, io_arg_invalid}
use cpp_coroutine.FdKey.{Text}

-- `udpsendrecv`: the result; `dst` and `dstlen` stay as they are, and `none` is a null pointer.
unfoldable pub udpsendrecv : Option Text → ℕ → Option (List ℕ) → Option (List ℕ) → IoResult
udpsendrecv (some ip) port (some src) (some dst) = if ltb port 1000 then io_arg_invalid else io_ok
udpsendrecv _ port _ _ = io_arg_invalid

-- `DoTask`
unfoldable pub do_task : List ℕ → IoResult
do_task task = io_ok
