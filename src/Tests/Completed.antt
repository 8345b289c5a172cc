-- ===== src/Tests/Completed.antt =====
-- A request to test2 from its coroutine to its answer, on a system whose clock goes on.
use cpp_coroutine.Common.{
  ℕ, zero, suc, ◌≤◌, ◌<◌, ◌+◌, ◌%◌, ◌^◌, ◌≡◌, ◌≢◌, refl, List, [], ◌∷◌, none, some, length, arith,
}
use cpp_coroutine.OrderedMap
use cpp_coroutine.OrderedMap.{find}
use cpp_coroutine.Util.{ready, wait}
use cpp_coroutine.Util.MemData.{size}
use cpp_coroutine.Util.Timer.{get_ms, timer_ms}
use cpp_coroutine.Util.Text.{get_ymdhms}
use cpp_coroutine.ExpireMgr.{listed, set, del, add, drop_id}
use cpp_coroutine.ExpireMgr.Spec.{deadline, clock as ms_of, IsFirst}
use cpp_coroutine.CoroutineMgr.{
  Body, finish, fresh, paused, main, Sys, ReqData, req_data, switch_to, entry, run, begin_wait,
  leave, update,
}
use cpp_coroutine.CoroutineMgr.Invariant.{IsNode, IsValid, IsNode-same}
use cpp_coroutine.CoroutineMgr.Slices.{Returned}
use cpp_coroutine.HeadPkg.{Head, decode, read_u32}
use cpp_coroutine.EventMgr.{run_expired}
use cpp_coroutine.EventMgr.Call.{Call, NoFault, as_body}
use cpp_coroutine.EventMgr.Send.{SendEnd}
use cpp_coroutine.EventMgr.Send.Loop.{IsSend, Sent}
use cpp_coroutine.EventMgr.Net.{Calls, Net}
use cpp_coroutine.EventMgr.Connect.{net_now, net_send}
use cpp_coroutine.Examples.{App, body, new_pkg}
use cpp_coroutine.Examples.Packages.{IsPackage, numbered, next_id}
use cpp_coroutine.Examples.Server
use cpp_coroutine.Examples.Server.Answers.{answer_text}
use cpp_coroutine.Examples.Server.Scheduled.{
  process-NoFault, app_clock, Answered, request_completed,
}
use cpp_coroutine.Tests.Sample.{Os, sends, sys, net, sent, send-IsSend}
use cpp_coroutine.Tests.Codes.{codes, messages}
use cpp_coroutine.Tests.Programs.{rd, asked, noon, question}

-- A second passes with each byte that is sent on descriptor 99.
abbrev ticking : Calls Os
ticking = record sys { now = λ o. record { tv_sec = length (o 99); tv_usec = 0 } }

ticking-IsSend : IsSend (net_now ticking) (net_send ticking) sent
ticking-IsSend = record {
  at_most = send-IsSend.at_most;
  grows = send-IsSend.grows;
  stays = send-IsSend.stays;
  others = send-IsSend.others;
}

abbrev req : ReqData
req = record (rd asked) { id = 1; m_cb = 7 }

abbrev head : Head
head = record { seq = some 5; body = some (2 ∷ 3 ∷ []) }

parsed : decode codes req.recvdata.bytes (size req.recvdata) ≡ some (some head)
unfolding decode size read_u32
parsed = refl

abbrev callback : ℕ → ReqData → Body (App Os)
callback cb r =
    as_body (Server.process ticking codes messages noon (some req))
      (process-NoFault ticking codes messages noon sent ticking-IsSend req (some head) parsed)
      (λ r. finish)

abbrev start : Sys (App Os)
start = record {
  idtonode =
      (0, record { coroutine = main; req = req_data; state = ready })
      ∷ (1, record { coroutine = fresh; req = req; state = ready })
      ∷ [];
  active = 0;
  staticid = 1;
  expire = record { expire_to_id = []; id_to_expire = [] };
  world = record { net = net; id = 7 };
}

abbrev rest : Call (App Os) ℕ
rest = Server.respond ticking codes messages noon req (record new_pkg { head = head }) question

no_fault : NoFault rest
unfolding Server.process decode size read_u32 body
no_fault = process-NoFault ticking codes messages noon sent ticking-IsSend req (some head) parsed

abbrev waiting : Sys (App Os)
waiting = record start {
  idtonode =
      (0, record { coroutine = main; req = req_data; state = ready })
      ∷ (
        1,
        record {
          coroutine = paused (as_body rest no_fault (λ r. finish));
          req = req;
          state = wait;
        },
      )
      ∷ [];
  expire = record { expire_to_id = (10000, (1, tt) ∷ []) ∷ []; id_to_expire = (1, 10000) ∷ [] };
}

scheduled : switch_to (app_clock ticking) callback 1 start ≡ some waiting
unfolding switch_to entry run begin_wait leave update as_body no_fault find OrderedMap.put set add
    del drop_id get_ms timer_ms Server.process decode size read_u32 body
scheduled = refl

-- Ten seconds later, and another package has been numbered.
abbrev due : Sys (App Os)
due = record waiting {
  world = record {
    net = record net { os = sends 99 (0 ∷ 0 ∷ 0 ∷ 0 ∷ 0 ∷ 0 ∷ 0 ∷ 0 ∷ 0 ∷ 0 ∷ []) net.os };
    id = 8;
  };
}

start-nodes : (k : ℕ) → k ≢ 0 → IsNode k (find k start.idtonode) (deadline start.expire k)
unfolding find
start-nodes zero n = absurd (n refl)
start-nodes (suc zero) n = (refl, λ h. omega arith)
start-nodes (suc (suc k)) n = IsNode-same (suc (suc k)) _ none _ none (ground arith) refl refl

start-IsValid : IsValid start
unfolding find listed
start-IsValid = record {
  sorted = (omega arith, (omega arith, tt));
  linked = record {
    ids_sorted = tt;
    expires_sorted = tt;
    full_sets = tt;
    linked = λ id expire. ground arith;
  };
  at_main = refl;
  main_node = (record { coroutine = main; req = req_data; state = ready }, refl, refl, refl);
  main_timer = refl;
  nodes = start-nodes;
}

due-nodes : (k : ℕ) → k ≢ 0 → IsNode k (find k due.idtonode) (deadline due.expire k)
unfolding find
due-nodes zero n = absurd (n refl)
due-nodes (suc zero) n = (refl, tt)
due-nodes (suc (suc k)) n =
    IsNode-same (suc (suc k)) _ none _ none (ground arith) (ground arith) refl

due-IsValid : IsValid due
unfolding find listed
due-IsValid = record {
  sorted = (omega arith, (omega arith, tt));
  linked = record {
    ids_sorted = (omega arith, tt);
    expires_sorted = (omega arith, tt);
    full_sets = (((λ h. cc), (omega arith, tt)), tt);
    linked = λ id expire. ground arith;
  };
  at_main = refl;
  main_node = (record { coroutine = main; req = req_data; state = ready }, refl, refl, refl);
  main_timer = refl;
  nodes = due-nodes;
}

due-IsFirst : IsFirst due.expire 1 10000
unfolding find
due-IsFirst = (refl, λ j x e. ground arith)

due_reached : 10000 ≤ ms_of (app_clock ticking due.world)
unfolding get_ms timer_ms
due_reached = omega arith

new_found : find 1 start.idtonode ≡ some (record { coroutine = fresh; req = req; state = ready })
unfolding find
new_found = refl

short :
    length (
        codes.serialize (
          numbered codes
            (next_id codes 8)
            (answer_text ticking codes messages noon question due.world.net)))
      + 4
    < 2 ^ 31
unfolding get_ymdhms
short = omega arith

request_completed_example :
    (waiting.world ≡ start.world)
    × (deadline waiting.expire 1 ≡ some ((ms_of (app_clock ticking start.world) + 10000) % 2 ^ 64))
    × ((v : Sys (App Os)) × (run_expired (app_clock ticking) callback due ≡ some (none, v))
        × Returned 1 due v
        × ((src : List ℕ) × (out : SendEnd) × (x : Net Os) × IsPackage codes src
              (next_id codes 8)
              (answer_text ticking codes messages noon question due.world.net)
            × Sent (net_now ticking) (net_send ticking) sent 4 (sent due.world.net) src out x
            × (x.fds ≡ due.world.net.fds)
            × Answered ticking 1 4 (next_id codes 8) out x v))
request_completed_example =
    request_completed ticking codes messages noon sent ticking-IsSend callback 1 4 10000 start
      waiting due (record { coroutine = fresh; req = req; state = ready }) head question
      start-IsValid (omega arith) new_found refl refl parsed refl refl refl scheduled due-IsValid
      refl due-IsFirst due_reached short
