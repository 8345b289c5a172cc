-- ===== src/Tests/Scheduler.antt =====
-- A table of four nodes, and the scheduler and the timers on it.
use cpp_coroutine.Common.{ℕ, zero, suc, ◌+◌, ◌≡◌, ◌≢◌, refl, [], ◌∷◌, Option, none, some, arith}
use cpp_coroutine.OrderedMap
use cpp_coroutine.OrderedMap.{Map, IdSet, find, after}
use cpp_coroutine.Util.{io_ok, io_err, ready, wait, end}
use cpp_coroutine.Util.Timer.{Timeval, get_ms, timer_ms}
use cpp_coroutine.ExpireMgr.{ExpireMgr, IsLinked, listed, del, drop_id, add, set, next_wait_time}
use cpp_coroutine.ExpireMgr.Links.{del-IsLinked, set-IsLinked}
use cpp_coroutine.ExpireMgr.Spec.{deadline, deadline-set-del, Next, next_wait_time-Next}
use cpp_coroutine.CoroutineMgr.{
  Body, finish, act, wait_ms, Saved, fresh, paused, stopped, main, Context, Sys, ReqData, req_data,
  switch_to, schedule_all, schedule_from, entry, run, begin_wait, leave, update, destroy, set_ready,
  initial, init,
}
use cpp_coroutine.CoroutineMgr.Invariant.{
  IsNode, IsValid, IsNode-same, waits_of_deadline, set_ready-IsValid,
}
use cpp_coroutine.CoroutineMgr.Slices.{Returned, switch_to-Returned}
use cpp_coroutine.CoroutineMgr.Rounds.{schedule_all_lem}
use cpp_coroutine.CoroutineMgr.Rounds.Sweep.{Below}
use cpp_coroutine.CoroutineMgr.Start.{Issued, init_lem, requested, requested_lem}
use cpp_coroutine.EventMgr.{run_expired}
use cpp_coroutine.EventMgr.Wake.{Woken, run_expired_lem}

-- The shared state is the time.
abbrev clock : Timeval → Timeval
clock t = t

abbrev later : Timeval → Timeval
later t = record t { tv_sec = t.tv_sec + 1 }

abbrev callback : ℕ → ReqData → Body Timeval
callback n rd = act later (λ t. wait_ms 500 (act later (λ u. finish)))

abbrev request : ℕ → ReqData
request id = record req_data { id = id; m_cb = 7 }

abbrev node : Saved Timeval → ℕ → Context Timeval
node at id = record { coroutine = at; req = request id; state = ready }

abbrev rest : Body Timeval
rest = act later (λ t. finish)

abbrev timers : ExpireMgr
timers = record { expire_to_id = (1500, (2, tt) ∷ []) ∷ []; id_to_expire = (2, 1500) ∷ [] }

-- Node 1 is new, node 2 waits for second 1.5, node 3 has ended.
abbrev sample : ℕ → Sys Timeval
sample sec = record {
  idtonode =
      (0, node main 0)
      ∷ (1, node fresh 1)
      ∷ (2, record (node (paused rest) 2) { state = wait })
      ∷ (3, record (node stopped 3) { state = end })
      ∷ [];
  active = 0;
  staticid = 3;
  expire = timers;
  world = record { tv_sec = sec; tv_usec = 0 };
}

timers-IsLinked : IsLinked timers
unfolding find listed
timers-IsLinked = record {
  ids_sorted = (omega arith, tt);
  expires_sorted = (omega arith, tt);
  full_sets = (((λ h. cc), (omega arith, tt)), tt);
  linked = λ id expire. ground arith;
}

sample-nodes : (sec k : ℕ) → k ≢ 0 → IsNode k (find k (sample sec).idtonode) (deadline timers k)
unfolding find
sample-nodes sec zero n = absurd (n refl)
sample-nodes sec (suc zero) n = (refl, λ h. omega arith)
sample-nodes sec (suc (suc zero)) n = (refl, tt)
sample-nodes sec (suc (suc (suc zero))) n = (refl, tt)
sample-nodes sec (suc (suc (suc (suc k)))) n =
    IsNode-same (suc (suc (suc (suc k)))) _ none _ none (ground arith) (ground arith) refl

sample-IsValid : (sec : ℕ) → IsValid (sample sec)
unfolding find
sample-IsValid sec = record {
  sorted = (omega arith, (omega arith, (omega arith, (omega arith, tt))));
  linked = timers-IsLinked;
  at_main = refl;
  main_node = (node main 0, refl, refl, refl);
  main_timer = refl;
  nodes = sample-nodes sec;
}

sample-Below : (sec : ℕ) → Below 4 (sample sec)
unfolding find
sample-Below sec j c e = ground arith

sample-Issued : (sec : ℕ) → Issued (sample sec)
unfolding find
sample-Issued sec = record { room = omega arith; issued = λ k c e. ground arith }

found_two : deadline timers 2 ≡ some 1500
unfolding find
found_two = refl

schedule_all_lem_example :
    (t : Sys Timeval) × (schedule_all clock callback 8 (sample 1) ≡ some t)
    × IsValid t
    × ((j : ℕ) (c : Context Timeval) → j ≢ 0 → find j t.idtonode ≡ some c → c.state ≡ wait)
    × ((j : ℕ) (c : Context Timeval)
        → find j (sample 1).idtonode ≡ some c
        → c.state ≡ wait
        → find j t.idtonode ≡ some c)
    × ((j : ℕ) (c : Context Timeval)
        → find j t.idtonode ≡ some c
        → (d : Context Timeval) × (find j (sample 1).idtonode ≡ some d))
    × (t.staticid ≡ 3)
schedule_all_lem_example =
    schedule_all_lem clock callback 4 8 (sample 1) (sample-IsValid 1) (sample-Below 1) (omega arith)

-- The new node runs into its wait, the one that has ended goes.
round :
    schedule_all clock callback 8 (sample 1)
    ≡ some (record (sample 2) {
      idtonode =
          (0, node main 0)
          ∷ (1, record (node (paused rest) 1) { state = wait })
          ∷ (2, record (node (paused rest) 2) { state = wait })
          ∷ [];
      expire = record {
        expire_to_id = (1500, (2, tt) ∷ []) ∷ (2500, (1, tt) ∷ []) ∷ [];
        id_to_expire = (1, 2500) ∷ (2, 1500) ∷ [];
      };
    })
unfolding schedule_all schedule_from switch_to entry run begin_wait leave update destroy find after
    OrderedMap.erase OrderedMap.put set add del drop_id get_ms timer_ms
round = refl

run_expired_lem_example :
    (r : Option ℕ) × (t : Sys Timeval) × (run_expired clock callback (sample 2) ≡ some (r, t))
    × IsValid t
    × Woken clock callback (sample 2) r t
run_expired_lem_example = run_expired_lem clock callback (sample 2) (sample-IsValid 2)

one_found : find 1 (sample 1).idtonode ≡ some (node fresh 1)
unfolding find
one_found = refl

switch_to-Returned_example :
    (t : Sys Timeval) × (switch_to clock callback 1 (sample 1) ≡ some t) × Returned 1 (sample 1) t
switch_to-Returned_example =
    switch_to-Returned clock callback 1 (sample 1) (node fresh 1) (sample-IsValid 1) (omega arith)
      one_found refl

next_wait_time-Next_example :
    Next timers 2000 (next_wait_time timers (record { tv_sec = 2; tv_usec = 0 }))
unfolding get_ms timer_ms
next_wait_time-Next_example =
    next_wait_time-Next timers (record { tv_sec = 2; tv_usec = 0 }) timers-IsLinked

set-IsLinked_example : IsLinked (set timers (record { tv_sec = 2; tv_usec = 0 }) 500 2)
set-IsLinked_example =
    set-IsLinked timers (record { tv_sec = 2; tv_usec = 0 }) 500 2 timers-IsLinked

del-IsLinked_run : IsLinked (del timers 2)
del-IsLinked_run = del-IsLinked timers 2 timers-IsLinked

deadline-set-del_example :
    (deadline (set timers (record { tv_sec = 2; tv_usec = 0 }) 500 2) 2 ≡ some 2500)
    × (deadline (del timers 2) 2 ≡ none)
unfolding get_ms timer_ms
deadline-set-del_example =
    deadline-set-del timers (record { tv_sec = 2; tv_usec = 0 }) 500 2 2 timers-IsLinked

initialized :
    (t : Sys Timeval) × (init (initial 9 (record { tv_sec = 2; tv_usec = 0 })) ≡ (io_ok, t))
    × IsValid t
    × Issued t
    × (t.staticid ≡ 0)
    × (init t ≡ (io_err, t))
initialized = init_lem 9 (record { tv_sec = 2; tv_usec = 0 })

requested_lem_run :
    (t : Sys Timeval) × (requested (sample 1) (request 0) ≡ some t)
    × IsValid t
    × Issued t
    × (find 4 (sample 1).idtonode ≡ none)
    × (find 4 t.idtonode ≡ some (node fresh 4))
    × ((j : ℕ) → j ≢ 4 → find j t.idtonode ≡ find j (sample 1).idtonode)
    × (t.world ≡ (sample 1).world)
    × (t.staticid ≡ 4)
requested_lem_run =
    requested_lem (sample 1) (request 0) (sample-IsValid 1) (sample-Issued 1) (omega arith)
      (λ h. omega arith)

set_ready-IsValid_run :
    (t : Sys Timeval) × (set_ready (sample 1) 2 ≡ some t)
    × IsValid t
    × (deadline t.expire 2 ≡ none)
    × ((j : ℕ) → j ≢ 2 → find j t.idtonode ≡ find j (sample 1).idtonode)
    × ((c : Context Timeval) × (b : Body Timeval) × (find 2 t.idtonode ≡ some c)
        × (c.state ≡ ready)
        × (c.coroutine ≡ paused b))
    × (t.world ≡ (sample 1).world)
    × (t.staticid ≡ 3)
set_ready-IsValid_run = set_ready-IsValid (sample 1) 2 1500 (sample-IsValid 1) found_two

waits_of_deadline_example :
    (c : Context Timeval) × (b : Body Timeval) × (find 2 (sample 1).idtonode ≡ some c)
    × (c.state ≡ wait)
    × (c.coroutine ≡ paused b)
    × (c.req.id ≡ 2)
waits_of_deadline_example = waits_of_deadline (sample 1) 2 1500 (sample-IsValid 1) found_two
