-- ===== src/EventMgr/Rounds.antt =====
-- The main loop of test2/main2.cpp over lib/eventmgr/EventMgr.h and CoroutineMgr.h: rounds of
-- `RunOnce` and `ScheduleAll`.
pub mod Served
use native.Mathlib.Decide.{ℕ_discrete}
use cpp_coroutine.Common.{
  ℕ, zero, suc, ◌+◌, ◌*◌, ◌^◌, ◌≡◌, ◌≢◌, ◌≤◌, ◌<◌, ◌⊎◌, inl, inr, refl, ap, sym, ◌∙◌, subst, List,
  [], ◌∷◌, Option, none, some, Option-cases, arith,
}
use cpp_coroutine.Common.Int.{ℤ, pos, to_int}
use cpp_coroutine.OrderedMap.{find}
use cpp_coroutine.Util.{IoResult, io_ok, io_err, wait}
use cpp_coroutine.CoroutineMgr.{Body, Context, ReqData, Sys, schedule_all, ◌>>=◌}
use cpp_coroutine.CoroutineMgr.Invariant.{IsValid, waits_of_deadline}
use cpp_coroutine.CoroutineMgr.Start.{Issued}
use cpp_coroutine.CoroutineMgr.Rounds.{schedule_all_lem}
use cpp_coroutine.EventMgr.{run_expired}
use cpp_coroutine.EventMgr.Wake.{Woken, run_expired_lem}
use cpp_coroutine.EventMgr.Net.{Calls, Net, EpollResult, happened, wait_failed}
use cpp_coroutine.EventMgr.Dispatch.{net_clock, wait_events, dispatch, run_once, main_loop}
use cpp_coroutine.EventMgr.Requests.{world-IsValid, world-Issued}

module _ {W : Type 0} where
  -- No id is given out and no node is new.
  pub Issued-kept :
      (s t : Sys W)
      → Issued s
      → ((j : ℕ) (c : Context W)
          → find j t.idtonode ≡ some c
          → (d : Context W) × (find j s.idtonode ≡ some d))
      → t.staticid ≡ s.staticid
      → Issued t
  Issued-kept s t i old ids = record {
    room = omega (arith, i.room, ids);
    issued = λ k c e. let (d, at) = old k c e in omega (arith, i.issued k d at, ids);
  }

  -- A state of the main loop between two rounds, with fuel for the rounds.
  pub record IsRound (fuel : ℕ) (s : Sys W) : Type 0 where
    pub valid : IsValid s
    pub issued : Issued s
    pub enough : 2 * (s.staticid + 1) ≤ fuel

module _ {O : Type 0} (sys : Calls O) (callback : ℕ → ReqData → Body (Net O)) where
  pub expired-IsRound :
      (fuel : ℕ) (s t : Sys (Net O)) (r : Option ℕ)
      → IsRound fuel s
      → IsValid t
      → Woken (net_clock sys) callback s r t
      → IsRound fuel t
  expired-IsRound fuel s t r i v (inl (_, _, e)) = subst (IsRound fuel) (sym e) i
  expired-IsRound fuel s t r i v (inr (id, x, first, inl (_, _, e))) =
      subst (IsRound fuel) (sym e) i
  expired-IsRound fuel s t r i v (inr (id, x, first, inr (_, _, others, _, ids))) =
      let (c, b, at, _, _, _) = waits_of_deadline s id x i.valid first.0 in
      record {
        valid = v;
        issued =
            Issued-kept s t i.issued
              (λ j d e. elim (ℕ_discrete j id) [
                | yes q ↦ (c, ap (λ k. find k s.idtonode) q ∙ at)
                | no n ↦ (d, sym (others j n) ∙ e)
              ])
              ids;
        enough = omega (arith, i.enough, ids);
      }

  -- `ScheduleAll` with enough fuel ends with all coroutines waiting.
  pub schedule_all-IsRound :
      (fuel : ℕ) (s : Sys (Net O))
      → IsRound fuel s
      → (t : Sys (Net O)) × (schedule_all (net_clock sys) callback fuel s ≡ some t)
        × IsRound fuel t
        × ((j : ℕ) (c : Context (Net O)) → j ≢ 0 → find j t.idtonode ≡ some c → c.state ≡ wait)
  schedule_all-IsRound fuel s i =
      let (t, e, v, idle, _, old, ids) =
        schedule_all_lem (net_clock sys) callback (s.staticid + 1) fuel s i.valid
          (λ j c h. omega (arith, i.issued.issued j c h)) i.enough in
      (
        t,
        e,
        record {
          valid = v;
          issued = Issued-kept s t i.issued old ids;
          enough = omega (arith, i.enough, ids);
        },
        idle,
      )

  -- No event happens.
  abbrev pub IsQuiet : Type 0
  IsQuiet =
      (ms : ℤ) (o : O)
      → ((sys.epoll_wait ms o).0 ≡ happened []) ⊎ ((sys.epoll_wait ms o).0 ≡ wait_failed)

  module _ (check_at seq_at : ℕ → List ℕ → ℕ → Option ℤ) where
    wait_events-IsRound :
        (fuel ms : ℕ) (s : Sys (Net O))
        → IsQuiet
        → IsRound fuel s
        → (r : IoResult) × (t : Sys (Net O)) × (wait_events sys check_at seq_at ms s ≡ some (r, t))
          × IsRound fuel t
    unfolding wait_events dispatch
    wait_events-IsRound fuel ms s quiet i =
        let u : Sys (Net O) = record s {
          world = record (s.world) { os = (sys.epoll_wait (to_int ms) s.world.os).1 };
        } in
        let j : IsRound fuel u = record {
          valid = world-IsValid u.world s i.valid;
          issued = world-Issued u.world s i.issued;
          enough = i.enough;
        } in
        elim (quiet (to_int ms) s.world.os) [
          | inl e ↦ (io_ok, u, rw (e, wait_events, dispatch, ◌>>=◌), j)
          | inr e ↦ (io_err, u, rw (e, wait_events), j)
        ]

    run_once-IsRound :
        (fuel : ℕ) (s : Sys (Net O))
        → IsQuiet
        → IsRound fuel s
        → (r : IoResult) × (t : Sys (Net O)) × (run_once sys check_at seq_at callback s
            ≡ some (r, t))
          × IsRound fuel t
    unfolding run_once
    run_once-IsRound fuel s quiet i =
        let (o, t, e, v, w) = run_expired_lem (net_clock sys) callback s i.valid in
        let j : IsRound fuel t = expired-IsRound fuel s t o i v w in
        elim (Option-cases o) [
          | inl n ↦ (io_ok, t, rw (e, n, run_once, ◌>>=◌), j)
          | inr (ms, n) ↦
              let (r, u, went, k) = wait_events-IsRound fuel ms t quiet j in
              (r, u, rw (e, n, run_once, ◌>>=◌) went, k)
        ]

    main_loop_step :
        (fuel n : ℕ) (s t u : Sys (Net O)) (r : IoResult)
        → run_once sys check_at seq_at callback s ≡ some (r, t)
        → schedule_all (net_clock sys) callback fuel t ≡ some u
        → main_loop sys check_at seq_at callback fuel (suc n) s
          ≡ main_loop sys check_at seq_at callback fuel n u
    unfolding main_loop
    main_loop_step fuel n s t u r a b = rw (a, b, main_loop, ◌>>=◌)

    -- From a valid state with all ids up to `staticid` given out, on a system where `epoll_wait`
    -- brings no event or fails, any number of rounds of the main loop, at least one, ends without
    -- a fault in such a state, with the same fuel for each `ScheduleAll`, at least twice the
    -- number of ids; after the last round every node but 0 is waiting.
    pub main_loop_quiet :
        (fuel n : ℕ) (s : Sys (Net O))
        → IsQuiet
        → IsRound fuel s
        → (t : Sys (Net O)) × (main_loop sys check_at seq_at callback fuel (suc n) s ≡ some t)
          × IsRound fuel t
          × ((j : ℕ) (c : Context (Net O)) → j ≢ 0 → find j t.idtonode ≡ some c → c.state ≡ wait)
    unfolding main_loop
    main_loop_quiet fuel zero s quiet i =
        let (r, t, e, j) = run_once-IsRound fuel s quiet i in
        let (u, went, k, idle) = schedule_all-IsRound fuel t j in
        (u, main_loop_step fuel 0 s t u r e went, k, idle)
    main_loop_quiet fuel (suc n) s quiet i =
        let (r, t, e, j) = run_once-IsRound fuel s quiet i in
        let (u, went, k, _) = schedule_all-IsRound fuel t j in
        let (x, more, l, done) = main_loop_quiet fuel n u quiet k in
        (x, main_loop_step fuel (suc n) s t u r e went ∙ more, l, done)
