-- ===== src/DebugString.antt =====
-- `DebugString` of `stReqData` in lib/eventmgr/CoroutineMgr.h and of `stFdData` and `stFdKey` in
-- lib/eventmgr/FdMgr.h, and the lines of `CFdMgr::Dump`.
use cpp_coroutine.Common.{
  ℕ, suc, ◌^◌, ◌≡◌, ◌<◌, List, [], ◌∷◌, ◌++◌, map, ◌==◌, if◌then◌else◌, drop,
}
use Prim.Native.String.{String}
use Prim.Native.Char.{code}
use cpp_coroutine.Common.Int.{ℤ, pos, negsuc}
use cpp_coroutine.Util.MemData.{size, left_size}
use cpp_coroutine.Util.Text.{show, digits}
use cpp_coroutine.Util.Text.Digits.{decimal, decimal-show}
use cpp_coroutine.FdKey.{Text, FdKey, port_type_no}
use cpp_coroutine.FdKey.Order.{plain_key}
use cpp_coroutine.FdMgr.{FdData, FdType, listen, server_conn, other, connect, Table}
use cpp_coroutine.CoroutineMgr.{ReqData}

-- The codes of a literal.
abbrev pub codes : String → Text
codes String.[] = []
codes (String.◌∷◌ c s) = code c ∷ codes s

-- `<<` of an `int`.
abbrev pub show_int : ℤ → Text
show_int (pos n) = show 10 n
show_int (negsuc n) = 45 ∷ show 10 (suc n)

-- `<<` of a `void*`.
abbrev pub show_pointer : ℕ → Text
show_pointer p = if p == 0 then codes "0" else codes "0x" ++ show 16 p

-- The enumerators of `E_FD_TYPE` as numbers.
abbrev pub fd_type_no : FdType → ℕ
fd_type_no listen = 0
fd_type_no server_conn = 1
fd_type_no other = 2
fd_type_no connect = 3

unfoldable pub debug_key : FdKey → Text
unfolding digits
debug_key k =
    codes "ip "
    ++ (k.ip_port.ip
        ++ (codes " port " ++ (show 10 k.ip_port.port ++ (codes " fd " ++ show_int k.socket_fd))))

unfoldable pub debug_data : FdData → Text
unfolding digits
debug_data d =
    codes " port type "
    ++ (show 10 (port_type_no d.port_type)
        ++ (codes " fdtype "
            ++ (show 10 (fd_type_no d.fd_state) ++ (codes " fd " ++ show_int d.fd))))

-- The lines of `Dump`, one for each entry.
unfoldable pub dump : Table FdData → List Text
unfolding debug_key debug_data
dump t = map (λ e. debug_key e.0 ++ (32 ∷ debug_data e.1)) t

unfoldable pub debug_req : ReqData → Text
unfolding digits size left_size
debug_req r =
    codes "ReqData:"
    ++ (10 ∷ codes "recvdata size "
        ++ (show 10 (size r.recvdata)
            ++ (codes " leftsize "
                ++ (show 10 (left_size r.recvdata)
                    ++ (10 ∷ codes "remoteaddr "
                        ++ (show 10 r.remoteaddr.s_addr
                            ++ (32 ∷ show 10 r.remoteaddr.sin_port
                                ++ (10 ∷ codes "id "
                                    ++ (show 10 r.id
                                        ++ (10 ∷ codes "socket "
                                            ++ (show_int r.server_socket
                                                ++ (10 ∷ codes "callback "
                                                    ++ (show_pointer r.m_cb
                                                        ++ (10 ∷ []))))))))))))))

-- The text of the key of a plain descriptor has its number at a fixed place.
pub decimal-debug_key : (n : ℕ) → n < 2 ^ 32 → decimal 0 (drop 14 (debug_key (plain_key n))) ≡ n
unfolding debug_key
decimal-debug_key n h = decimal-show n h
