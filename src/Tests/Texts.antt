-- ===== src/Tests/Texts.antt =====
-- Texts of bytes, of a time and of events.
use cpp_coroutine.Common.{ℕ, ◌+◌, ◌^◌, ◌≡◌, refl, List, [], ◌∷◌, some, arith}
use cpp_coroutine.Common.Int.{pos, negsuc}
use cpp_coroutine.Util.{port_tcp}
use cpp_coroutine.Util.MemData.{size, left_size}
use cpp_coroutine.FdKey.Order.{plain_key}
use cpp_coroutine.FdMgr.{fd_data}
use cpp_coroutine.CoroutineMgr.{req_data}
use cpp_coroutine.DebugString.{codes, debug_key, debug_data, dump, debug_req}
use cpp_coroutine.Util.Text.{Tm, digits, get_ymdhms, dump_hex, print_flags, print_epoll_event}
use cpp_coroutine.Util.Text.Digits.{read_hex, dump_hex_lem}
use cpp_coroutine.Util.Text.Dates.{read_time, read-get_ymdhms}

dump_hex_lem_example :
    (t : List ℕ) × (dump_hex (7 ∷ 171 ∷ 9 ∷ []) 2 ≡ some t) × (read_hex t ≡ 7 ∷ 171 ∷ [])
dump_hex_lem_example =
    dump_hex_lem (7 ∷ 171 ∷ 9 ∷ []) 2 (omega arith) (omega arith, (omega arith, (omega arith, tt)))

-- "0x7 0xab "
dumped : dump_hex (7 ∷ 171 ∷ 9 ∷ []) 2 ≡ some (48 ∷ 120 ∷ 55 ∷ 32 ∷ 48 ∷ 120 ∷ 97 ∷ 98 ∷ 32 ∷ [])
unfolding dump_hex digits
dumped = refl

abbrev noon : ℕ → Tm
noon ts = record { tm_year = 126; tm_mon = 0; tm_mday = 26; tm_hour = 12; tm_min = 5; tm_sec = 0 }

read-get_ymdhms_example : read_time (get_ymdhms noon 3) ≡ some (noon 3)
read-get_ymdhms_example = read-get_ymdhms noon 3 (record {
  year_bound = omega arith;
  mon_bound = omega arith;
  mday_bound = omega arith;
  hour_bound = omega arith;
  min_bound = omega arith;
  sec_bound = omega arith;
})

-- "2026-01-26 12:05:00"
noon_text :
    get_ymdhms noon 3
    ≡ 50 ∷ 48 ∷ 50 ∷ 54 ∷ 45 ∷ 48 ∷ 49 ∷ 45 ∷ 50 ∷ 54 ∷ 32 ∷ 49 ∷ 50 ∷ 58 ∷ 48 ∷ 53 ∷ 58 ∷ 48 ∷ 48
      ∷ []
unfolding get_ymdhms digits
noon_text = refl

-- "EPOLLIN EPOLLET "
printed :
    print_epoll_event (1 + 2 ^ 31)
    ≡ 69 ∷ 80 ∷ 79 ∷ 76 ∷ 76 ∷ 73 ∷ 78 ∷ 32 ∷ 69 ∷ 80 ∷ 79 ∷ 76 ∷ 76 ∷ 69 ∷ 84 ∷ 32 ∷ []
unfolding print_epoll_event print_flags
printed = refl

-- The texts of a key, an entry and a request.
key_text :
    debug_key (record {
      ip_port = record { ip = codes "10.0.0.2"; port = 80; type = port_tcp };
      socket_fd = pos 6;
    })
    ≡ codes "ip 10.0.0.2 port 80 fd 6"
unfolding debug_key digits
key_text = refl

data_text : debug_data (fd_data (negsuc 0)) ≡ codes " port type 1 fdtype 2 fd -1"
unfolding debug_data digits
data_text = refl

dump_text :
    dump ((plain_key 6, fd_data (pos 6)) ∷ [])
    ≡ codes "ip  port 0 fd 6  port type 1 fdtype 2 fd 6" ∷ []
unfolding dump digits
dump_text = refl

req_text :
    debug_req (record req_data { id = 12; m_cb = 255 })
    ≡ codes "ReqData:\nrecvdata size 0 leftsize 0\nremoteaddr 0 0\nid 12\nsocket 0\ncallback 0xff\n"
unfolding debug_req digits size left_size
req_text = refl
