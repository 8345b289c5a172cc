-- ===== src/Tests/Steps.antt =====
-- A client that comes, no timer that is due, the client's request, whose coroutine runs and waits, an
-- answer that ends its wait, one under a number that no call has, another client that leaves, and the
-- end of the coroutine: the states that the main loop goes through.
use cpp_coroutine.Common.{
  ℕ, ◌+◌, ◌≡◌, refl, true, List, [], ◌∷◌, Option, if◌then◌else◌, ◌==◌, none, some,
}
use cpp_coroutine.Common.Int.{ℤ, pos, negsuc}
use cpp_coroutine.OrderedMap
use cpp_coroutine.OrderedMap.{Map, find, after}
use cpp_coroutine.Util.{IoResult, io_ok, io_err, port_tcp, ready, time_expire}
use cpp_coroutine.Util.Timer.{get_ms, timer_ms}
use cpp_coroutine.Util.MemData
use cpp_coroutine.Util.MemData.{left_size, expand, update_use, size, copy}
use cpp_coroutine.ExpireMgr
use cpp_coroutine.ExpireMgr.{next_wait_time}
use cpp_coroutine.ExpireMgr.Spec.{deadline}
use cpp_coroutine.FdMgr
use cpp_coroutine.FdMgr.{
  add_fd, get_fd, insert, insert_from, lower_bound, FdData, fd_data, SockAddr, SendRecv, listen,
  other,
}
use cpp_coroutine.FdMgr.Nodes.{load, store, key_same}
use cpp_coroutine.FdKey.{
  Text, IpPort, key_lt, ip_port_lt, ip_port_eq, ip_port_empty, text_eq, text_lt, fd_empty, fd_eq,
}
use cpp_coroutine.FdKey.Order.{plain_key, conn_key}
use cpp_coroutine.FdMgr.Lookup.{Conns, table}
use cpp_coroutine.CoroutineMgr.{
  create, update, wait_ms, Body, finish, main, Sys, ReqData, req_data, init, initial, schedule_all,
  schedule_from, schedule, switch_to, entry, run, begin_wait, leave, set_ready, destroy,
}
use cpp_coroutine.EventMgr.{run_expired}
use cpp_coroutine.EventMgr.Net.{is_client, is_other_conn, Calls, Net, happened, accepted_from}
use cpp_coroutine.EventMgr.Send.{accepted}
use cpp_coroutine.EventMgr.Receive.{RecvResult, received, tcprecv, after_recv}
use cpp_coroutine.EventMgr.Handlers.{
  reply, unwatch, del_fd, new_req, watch, do_read_tcp, read_done, drained, new_client_req, fill_req,
  callback_of, seq_key,
}
use cpp_coroutine.EventMgr.Dispatch.{net_clock}
use cpp_coroutine.EventMgr.Accepts.{client_data}

abbrev pub peer : SockAddr
peer = record { s_addr = 17; sin_port = 4000 }

-- The client at 4 leaves.
abbrev pub bytes_at : ℤ → RecvResult
bytes_at (pos n) = if n == 4 then received [] else received (42 ∷ [])
bytes_at (negsuc n) = received []

abbrev pub sys : Calls ℕ
sys = record {
  now = λ o. record { tv_sec = o; tv_usec = 0 };
  epoll_wait = λ ms o. (happened [], o + 1);
  epoll_add = λ fd fe o. (true, o);
  epoll_del = λ fd o. (true, o);
  accept = λ fd o. (accepted_from 7 peer, o);
  recv = λ fd room o. (bytes_at fd, o);
  send = λ fd src o. (accepted 0, o);
  socket = λ o. (some 8, o);
  connect = λ n ip port o. (some 111, o);
}

abbrev pub number_at : ℕ → List ℕ → ℕ → Option ℤ
number_at f src n = some (pos n)

-- The number of every answer.
abbrev pub five : ℕ → List ℕ → ℕ → Option ℤ
five f src n = some (pos 5)

abbrev pub callback : ℕ → ReqData → Body (Net ℕ)
callback n rd = wait_ms 500 finish

abbrev pub listener : FdData
listener = record (fd_data (pos 3)) { port_type = port_tcp; check = 1; fd_state = listen }

abbrev pub leaving : FdData
leaving = client_data 4 peer listener

abbrev pub plain : Map FdData
plain = (3, listener) ∷ (4, leaving) ∷ []

abbrev pub call : SendRecv
call = record { id = 1; recv_data = record { bytes = 8 ∷ []; offset = 1 } }

-- A connection to another server.
abbrev pub conn : ℕ → Map SendRecv → FdData
conn n calls = record (fd_data (pos n)) {
  port_type = port_tcp;
  check = 1;
  seq = 2;
  fd_state = other;
  seq_to_coroutine = calls;
}

abbrev pub address : Text → IpPort
address ip = record { ip = ip; port = 80; type = port_tcp }

abbrev pub conns : Conns FdData
conns =
    (address (49 ∷ []), 6, conn 6 ((seq_key (pos 5), call) ∷ []))
    ∷ (address (50 ∷ []), 5, conn 5 [])
    ∷ []

abbrev pub net : Map FdData → Net ℕ
net ps = record { fds = table ps conns; pkgcallback = (1, 7) ∷ []; os = 1 }

abbrev pub first : Sys (Net ℕ)
first = record {
  idtonode = (0, record { coroutine = main; req = req_data; state = ready }) ∷ [];
  active = 0;
  staticid = 0;
  expire = ExpireMgr.empty;
  world = net plain;
}

pub first_made : init (initial 9 (net plain)) ≡ (io_ok, first)
unfolding init initial OrderedMap.put find
first_made = refl

-- The client is in the table.
abbrev pub second : Sys (Net ℕ)
second = record first {
  world = net ((3, listener) ∷ (4, leaving) ∷ (7, client_data 7 peer listener) ∷ []);
}

pub client_came : new_req sys (pos 3) listener first ≡ some (io_ok, second)
unfolding new_req watch add_fd get_fd insert insert_from FdMgr.find lower_bound key_lt ip_port_lt
    ip_port_eq ip_port_empty text_eq text_lt fd_empty fd_eq store key_same
client_came = refl

pub nothing_due : run_expired (net_clock sys) callback second ≡ some (some time_expire, second)
unfolding run_expired next_wait_time ExpireMgr.empty
nothing_due = refl

abbrev pub read_to : Option (IoResult × Sys (Net ℕ)) → Sys (Net ℕ)
read_to none = second
read_to (some (r, t)) = t

abbrev pub third : Sys (Net ℕ)
third = read_to (do_read_tcp sys number_at five (pos 7) (plain_key 7) second)

abbrev pub ran : Option (Sys (Net ℕ)) → Sys (Net ℕ)
ran none = second
ran (some t) = t

abbrev pub fourth : Sys (Net ℕ)
fourth = ran (schedule_all (net_clock sys) callback 4 third)

abbrev pub fifth : Sys (Net ℕ)
fifth = read_to (do_read_tcp sys number_at five (pos 6) (conn_key (address (49 ∷ [])) 6) fourth)

abbrev pub sixth : Sys (Net ℕ)
sixth = read_to (do_read_tcp sys number_at five (pos 5) (conn_key (address (50 ∷ [])) 5) fifth)

abbrev pub seventh : Sys (Net ℕ)
seventh = read_to (do_read_tcp sys number_at five (pos 4) (plain_key 4) sixth)

abbrev pub eighth : Sys (Net ℕ)
eighth = ran (schedule_all (net_clock sys) callback 4 seventh)

-- The client's request, its coroutine's first run, the answer to it, one that nobody waits for, the
-- other client's end, and the coroutine's second run, with what holds before them.
pub went :
    (do_read_tcp sys number_at five (pos 7) (plain_key 7) second ≡ some (io_ok, third))
    × (schedule_all (net_clock sys) callback 4 third ≡ some fourth)
    × (do_read_tcp sys number_at five (pos 6) (conn_key (address (49 ∷ [])) 6) fourth
        ≡ some (io_ok, fifth))
    × (do_read_tcp sys number_at five (pos 5) (conn_key (address (50 ∷ [])) 5) fifth
        ≡ some (io_err, sixth))
    × (do_read_tcp sys number_at five (pos 4) (plain_key 4) sixth ≡ some (io_err, seventh))
    × (schedule_all (net_clock sys) callback 4 seventh ≡ some eighth)
    × (load (plain_key 7) second.world.fds ≡ some (client_data 7 peer listener))
    × (find 1 second.world.pkgcallback ≡ some 7)
    × (load (conn_key (address (49 ∷ [])) 6) fourth.world.fds
        ≡ some (conn 6 ((seq_key (pos 5), call) ∷ [])))
    × (find (seq_key (pos 5)) ((seq_key (pos 5), call) ∷ []) ≡ some call)
    × (deadline fourth.expire 1 ≡ some 1500)
    × (load (conn_key (address (50 ∷ [])) 5) fifth.world.fds ≡ some (conn 5 []))
    × (load (plain_key 4) sixth.world.fds ≡ some leaving)
    × (deadline sixth.expire 4 ≡ none)
    × (third.staticid ≡ 1)
    × (seventh.staticid ≡ 1)
unfolding do_read_tcp read_done drained MemData.empty load store key_same tcprecv left_size expand
    after_recv update_use size new_client_req fill_req create callback_of find copy MemData.remove
    update OrderedMap.put key_lt ip_port_lt ip_port_eq ip_port_empty text_eq text_lt fd_empty fd_eq
    schedule_all schedule_from schedule switch_to entry run begin_wait leave after ExpireMgr.set
    ExpireMgr.add ExpireMgr.del ExpireMgr.drop_id OrderedMap.erase ExpireMgr.empty destroy is_client
    is_other_conn reply set_ready MemData.clear unwatch del_fd FdMgr.destroy FdMgr.erase lower_bound
    get_ms timer_ms
went =
    (refl, refl, refl, refl, refl, refl, refl, refl, refl, refl, refl, refl, refl, refl, refl, refl)
