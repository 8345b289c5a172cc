-- ===== src/Tests/Events.antt =====
-- Events on the sample: a round of the main loop, answers, new clients and sockets that are closed.
use cpp_coroutine.Common.{ℕ, ◌≡◌, ◌≢◌, ◌↔◌, inl, refl, true, [], ◌∷◌, none, some, arith}
use cpp_coroutine.Common.Int.{pos}
use cpp_coroutine.OrderedMap
use cpp_coroutine.OrderedMap.{Map, find, IsSorted}
use cpp_coroutine.Util.{io_ok, wait, fd_read_write}
use cpp_coroutine.Util.MemData
use cpp_coroutine.Util.MemData.{content, MemData}
use cpp_coroutine.Util.Timer.{timer_ms, get_ms}
use cpp_coroutine.ExpireMgr.Spec.{deadline}
use cpp_coroutine.FdKey.Order.{conn_key}
use cpp_coroutine.FdMgr.Lookup.{table}
use cpp_coroutine.CoroutineMgr.{Context, Sys, schedule_all}
use cpp_coroutine.CoroutineMgr.Invariant.{IsValid}
use cpp_coroutine.EventMgr.Call.{returns, until_wait}
use cpp_coroutine.EventMgr.Net.{
  Calls, Net, happened, can_read, can_write, convert, register_package,
}
use cpp_coroutine.EventMgr.Handlers.{unwatch, do_read_tcp, new_req, del_fd, seq_key}
use cpp_coroutine.EventMgr.Dispatch.{dispatch_event, net_clock, run_once, main_loop}
use cpp_coroutine.EventMgr.Hidden.{accept_hides}
use cpp_coroutine.EventMgr.Rounds.{IsRound, main_loop_quiet}
use cpp_coroutine.EventMgr.Rounds.Served.{IsEarly, request_served}
use cpp_coroutine.EventMgr.Requests.{HasRequest}
use cpp_coroutine.EventMgr.Replies.{HasAnswer}
use cpp_coroutine.EventMgr.Exchange.{answer_returned}
use cpp_coroutine.EventMgr.Accepts.{client_data, new_req_accepts}
use cpp_coroutine.EventMgr.Closing.{del_fd-IsValid_iff}
use cpp_coroutine.EventMgr.Connect.{take_answer}
use cpp_coroutine.Tests.Sample.{
  Os, peer, sys, check_at, seq_at, server, address, listener, client, call, conn, plain, conns, net,
  callback, buffer, timers, sample, sample-IsValid, sample-Issued, plain-IsSorted, conns-IsOrdered,
  client_found, listener_found, conn_loaded, callback_set, readable, call_found, call-IsValid,
  one_timer,
}

-- The package callback was registered.
registered : register_package 1 7 (record net { pkgcallback = [] }) ≡ (io_ok, net)
unfolding register_package OrderedMap.put
registered = refl

-- A socket that is watched for both can be read and written.
both_ways : (can_read (convert fd_read_write) ≡ true) × (can_write (convert fd_read_write) ≡ true)
unfolding can_read can_write convert
both_ways = (refl, refl)

-- The client at 4 can be read.
abbrev busy : Calls Os
busy = record sys { epoll_wait = λ ms o. (happened (record { events = 1; fd = pos 4 } ∷ []), o) }

sample-IsEarly : IsEarly busy callback sample
unfolding find get_ms timer_ms
sample-IsEarly j e h = ground arith

request_served_example :
    (t u : Sys (Net Os)) × (run_once busy check_at seq_at callback sample ≡ some (io_ok, t))
    × HasRequest sample t (9 ∷ 42 ∷ []) (pos 4) peer 7
    × (schedule_all (net_clock busy) callback 8 t ≡ some u)
    × IsRound 8 u
    × ((j : ℕ) (c : Context (Net Os)) → j ≢ 0 → find j u.idtonode ≡ some c → c.state ≡ wait)
request_served_example =
    request_served busy callback check_at seq_at 8 4 1 9 2 7 (42 ∷ []) sample client peer plain
      conns sample-IsValid sample-Issued (omega arith) (omega arith) sample-IsEarly (λ ms. refl)
      plain-IsSorted refl client_found refl refl refl (λ h. omega arith) callback_set
      (λ h. omega arith) readable (λ ms. refl) (omega arith) (λ src h. refl) (omega arith)
      (omega arith)

main_loop_quiet_example :
    (t : Sys (Net Os)) × (main_loop sys check_at seq_at callback 8 3 sample ≡ some t)
    × IsRound 8 t
    × ((j : ℕ) (c : Context (Net Os)) → j ≢ 0 → find j t.idtonode ≡ some c → c.state ≡ wait)
main_loop_quiet_example =
    main_loop_quiet sys callback check_at seq_at 8 2 sample (λ ms o. inl refl)
      (record { valid = sample-IsValid; issued = sample-Issued; enough = omega arith })

answer_returned_example :
    (t : Sys (Net Os)) × (do_read_tcp sys check_at seq_at
        (pos 6)
        (conn_key (address server) 6)
        sample
      ≡ some (io_ok, t))
    × HasAnswer sys check_at seq_at sample t net.os
        (conn_key (address server) 6)
        (seq_key (pos 5))
        1
        (9 ∷ 42 ∷ [])
    × ((got : MemData) × (w : Net Os) × (until_wait
            (take_answer sys (pos 6) (pos 5) (conn_key (address server) 6) buffer)
            t.world
          ≡ returns (io_ok, got) w)
        × (content got ≡ 9 ∷ 42 ∷ [])
        × MemData.IsValid got)
answer_returned_example =
    answer_returned sys check_at seq_at 6 9 2 1500 (42 ∷ []) (conn_key (address server) 6) sample
      conn (pos 5) (pos 6) call buffer sample-IsValid conn_loaded refl (λ h. omega arith)
      (λ h. omega arith) refl (omega arith) (λ src h. (refl, refl)) (omega arith) call_found
      call-IsValid one_timer

six_absent : find 6 plain ≡ none
unfolding find
six_absent = refl

seven_absent : find 7 plain ≡ none
unfolding find
seven_absent = refl

new_req_accepts_example :
    (t : Sys (Net Os)) × (new_req sys (pos 3) listener sample ≡ some (io_ok, t))
    × (t.world.fds ≡ table (OrderedMap.put 7 (client_data 7 peer listener) plain) conns)
    × (t.idtonode ≡ sample.idtonode)
    × (t.active ≡ 0)
    × (t.staticid ≡ 1)
    × (t.expire ≡ timers)
    × (t.world.pkgcallback ≡ net.pkgcallback)
new_req_accepts_example =
    new_req_accepts sys 3 7 peer listener listener sample plain conns plain-IsSorted conns-IsOrdered
      refl listener_found refl refl seven_absent ((λ h. omega arith), tt)

accept_hides_example :
    (t : Sys (Net Os)) × (new_req sys (pos 3) listener sample ≡ some (io_ok, t))
    × (dispatch_event sys check_at seq_at (record { events = 1; fd = pos 6 }) t
        ≡ some (unwatch sys (pos 6) t))
accept_hides_example =
    accept_hides sys check_at seq_at 3 7 6 1 peer listener listener sample plain conns
      plain-IsSorted conns-IsOrdered refl listener_found refl refl seven_absent
      ((λ h. omega arith), tt) six_absent (omega arith)

del_fd-IsValid_iff_example : IsValid (del_fd sys (pos 1) sample) ↔ (deadline timers 1 ≡ none)
del_fd-IsValid_iff_example = del_fd-IsValid_iff sys 1 sample sample-IsValid (omega arith)
