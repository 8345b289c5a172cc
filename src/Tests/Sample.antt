-- ===== src/Tests/Sample.antt =====
-- A system on which all calls succeed but `connect`, a table with a socket that listens, a client
-- and a connection to another server, and a coroutine that waits for an answer.
use cpp_coroutine.Common.{
  if◌then◌else◌, ◌==◌, ℕ, zero, suc, ◌≡◌, ◌≢◌, ◌≤◌, refl, ap, sym, ◌∙◌, take, true, List, [], ◌∷◌,
  ◌++◌, Option, none, some, length, arith,
}
use cpp_coroutine.Common.Int.{ℤ, pos}
use cpp_coroutine.OrderedMap.{Map, find, IsSorted}
use cpp_coroutine.Util.{port_tcp, ready, wait}
use cpp_coroutine.Util.MemData
use cpp_coroutine.Util.MemData.{content, MemData, size}
use cpp_coroutine.ExpireMgr.{ExpireMgr, IsLinked, listed}
use cpp_coroutine.ExpireMgr.Spec.{deadline}
use cpp_coroutine.FdKey.{
  Text, IpPort, ip_port_empty, ip_port_eq, ip_port_lt, text_eq, text_lt, key_lt, fd_eq, fd_empty,
}
use cpp_coroutine.FdKey.Order.{plain_key, conn_key}
use cpp_coroutine.FdMgr.{
  FdData, fd_data, SendRecv, SockAddr, listen, other, ip_port_key, lower_bound,
}
use cpp_coroutine.FdMgr.Lookup.{Conns, table, IsOrdered}
use cpp_coroutine.FdMgr.Nodes.{find_node, load, key_same}
use cpp_coroutine.CoroutineMgr.{
  Body, finish, wait_ms, Saved, paused, main, Context, Sys, ReqData, req_data,
}
use cpp_coroutine.CoroutineMgr.Invariant.{IsNode, IsValid, IsNode-same}
use cpp_coroutine.CoroutineMgr.Start.{Issued}
use cpp_coroutine.EventMgr.Send.{accepted}
use cpp_coroutine.EventMgr.Send.Loop.{IsSend}
use cpp_coroutine.EventMgr.Connect.{net_now, net_send}
use cpp_coroutine.EventMgr.Receive.{received}
use cpp_coroutine.EventMgr.Net.{Calls, Net, happened, accepted_from, can_read}
use cpp_coroutine.EventMgr.Handlers.{seq_key}
use cpp_coroutine.EventMgr.Accepts.{client_data}

-- The system keeps what was sent on each descriptor.
abbrev pub Os : Type 0
Os = ℕ → List ℕ

abbrev pub sends : ℕ → List ℕ → Os → Os
sends fd src o j = if j == fd then o j ++ src else o j

abbrev pub peer : SockAddr
peer = record { s_addr = 17; sin_port = 4000 }

abbrev pub first_byte : List ℕ → List ℕ
first_byte [] = []
first_byte (b ∷ bs) = b ∷ []

abbrev pub sys : Calls Os
sys = record {
  now = λ o. record { tv_sec = 1; tv_usec = 0 };
  epoll_wait = λ ms o. (happened [], o);
  epoll_add = λ fd fe o. (true, o);
  epoll_del = λ fd o. (true, o);
  accept = λ fd o. (accepted_from 7 peer, o);
  recv = λ fd room o. (received (9 ∷ 42 ∷ []), o);
  send = λ fd src o. (accepted (length (first_byte src)), sends fd (first_byte src) o);
  socket = λ o. (some 8, o);
  connect = λ n ip port o. (some 111, o);
}

-- Whatever bytes have come are a package, and its number is 5.
abbrev pub check_at : ℕ → List ℕ → ℕ → Option ℤ
check_at f src n = some (pos n)

abbrev pub seq_at : ℕ → List ℕ → ℕ → Option ℤ
seq_at f src n = some (pos 5)

abbrev pub server : Text
server = 49 ∷ 48 ∷ []

abbrev pub elsewhere : Text
elsewhere = 49 ∷ 49 ∷ []

abbrev pub address : Text → IpPort
address ip = record { ip = ip; port = 80; type = port_tcp }

abbrev pub listener : FdData
listener = record (fd_data (pos 3)) { port_type = port_tcp; check = 1; fd_state = listen }

abbrev pub client : FdData
client = client_data 4 peer listener

abbrev pub call : SendRecv
call = record { id = 1; recv_data = record { bytes = 8 ∷ []; offset = 1 } }

abbrev pub conn : FdData
conn = record (fd_data (pos 6)) {
  port_type = port_tcp;
  check = 1;
  seq = 2;
  fd_state = other;
  seq_to_coroutine = (seq_key (pos 5), call) ∷ [];
}

abbrev pub plain : Map FdData
plain = (3, listener) ∷ (4, client) ∷ []

abbrev pub conns : Conns FdData
conns = (address server, 6, conn) ∷ []

abbrev pub net : Net Os
net = record { fds = table plain conns; pkgcallback = (1, 7) ∷ []; os = λ j. [] }

-- Every request waits once.
abbrev pub callback : ℕ → ReqData → Body (Net Os)
callback n rd = wait_ms 500 finish

abbrev pub buffer : MemData
buffer = record { bytes = []; offset = 0 }

abbrev pub timers : ExpireMgr
timers = record { expire_to_id = (1500, (1, tt) ∷ []) ∷ []; id_to_expire = (1, 1500) ∷ [] }

abbrev pub node : Saved (Net Os) → ℕ → Context (Net Os)
node at id = record { coroutine = at; req = record req_data { id = id; m_cb = 7 }; state = ready }

-- Node 1 waits until second 1.5.
abbrev pub sample : Sys (Net Os)
sample = record {
  idtonode = (0, node main 0) ∷ (1, record (node (paused finish) 1) { state = wait }) ∷ [];
  active = 0;
  staticid = 1;
  expire = timers;
  world = net;
}

pub timers-IsLinked : IsLinked timers
unfolding find listed
timers-IsLinked = record {
  ids_sorted = (omega arith, tt);
  expires_sorted = (omega arith, tt);
  full_sets = (((λ h. cc), (omega arith, tt)), tt);
  linked = λ id expire. ground arith;
}

pub sample-nodes : (k : ℕ) → k ≢ 0 → IsNode k (find k sample.idtonode) (deadline timers k)
unfolding find
sample-nodes zero n = absurd (n refl)
sample-nodes (suc zero) n = (refl, tt)
sample-nodes (suc (suc k)) n =
    IsNode-same (suc (suc k)) _ none _ none (ground arith) (ground arith) refl

pub sample-IsValid : IsValid sample
unfolding find
sample-IsValid = record {
  sorted = (omega arith, (omega arith, tt));
  linked = timers-IsLinked;
  at_main = refl;
  main_node = (node main 0, refl, refl, refl);
  main_timer = refl;
  nodes = sample-nodes;
}

pub sample-Issued : Issued sample
unfolding find
sample-Issued = record { room = omega arith; issued = λ k c e. ground arith }

pub plain-IsSorted : IsSorted plain
plain-IsSorted = (omega arith, (omega arith, tt))

pub conns-IsOrdered : IsOrdered conns
unfolding ip_port_empty text_eq
conns-IsOrdered = (refl, tt)

pub client_found : find 4 plain ≡ some client
unfolding find
client_found = refl

pub listener_found : find 3 plain ≡ some listener
unfolding find
listener_found = refl

pub client_loaded : load (plain_key 4) net.fds ≡ some client
unfolding load key_same ip_port_eq text_eq fd_eq
client_loaded = refl

pub conn_loaded : load (conn_key (address server) 6) net.fds ≡ some conn
unfolding load key_same ip_port_eq text_eq fd_eq
conn_loaded = refl

pub conn_found :
    find_node (ip_port_key server 80 port_tcp) net.fds ≡ some (conn_key (address server) 6)
unfolding find_node lower_bound key_lt ip_port_lt ip_port_eq text_eq text_lt ip_port_empty fd_empty
    fd_eq
conn_found = refl

pub callback_set : find 1 net.pkgcallback ≡ some 7
unfolding find
callback_set = refl

pub readable : can_read 1 ≡ true
unfolding can_read
readable = refl

pub call_found : find (seq_key (pos 5)) conn.seq_to_coroutine ≡ some call
unfolding find
call_found = refl

pub call-IsValid : MemData.IsValid call.recv_data
call-IsValid = record { used = omega arith; small = omega arith }

pub one_timer : deadline timers 1 ≡ some 1500
unfolding find
one_timer = refl

length-first_byte : (src : List ℕ) → length (first_byte src) ≤ length src
length-first_byte [] = omega arith
length-first_byte (b ∷ bs) = omega arith

take-first_byte : (src : List ℕ) → take (length (first_byte src)) src ≡ first_byte src
take-first_byte [] = refl
take-first_byte (b ∷ bs) = refl

same_count : (a b : ℕ) → accepted a ≡ accepted b → a ≡ b
same_count a b e = cc

abbrev pub sent : Net Os → ℕ → List ℕ
sent w = w.os

here : (fd : ℕ) (src : List ℕ) (o : Os) → sends fd src o fd ≡ o fd ++ src
here fd src o = ground arith

pub send-IsSend : IsSend (net_now sys) (net_send sys) sent
send-IsSend = record {
  at_most = λ server src w n e.
      omega (arith, length-first_byte src, same_count (length (first_byte src)) n e);
  grows = λ server src w n e.
      here server (first_byte src) w.os
      ∙ ap (λ l. w.os server ++ l)
          (sym (take-first_byte src)
            ∙ ap (λ i. take i src) (same_count (length (first_byte src)) n e));
  stays = λ server src w errno e. absurd cc;
  others = λ server src w j n. ground arith;
}
