-- ===== src/EventMgr/Wake.antt =====
-- lib/eventmgr/EventMgr.h: the timer part of `RunOnce` and the scheduler.
use cpp_coroutine.Common.{
  ℕ, ◌-◌, ◌≡◌, ◌≢◌, ◌<◌, ◌≤◌, ◌⊎◌, inl, inr, refl, ◌∙◌, Option, none, some, arith,
}
use cpp_coroutine.OrderedMap.{find}
use cpp_coroutine.Util.{wait, end, time_expire}
use cpp_coroutine.Util.Timer.{Timeval}
use cpp_coroutine.ExpireMgr.{next_wait_time}
use cpp_coroutine.ExpireMgr.Spec.{deadline, clock as ms_of, IsFirst, next_wait_time-Next}
use cpp_coroutine.CoroutineMgr.{Body, Context, ReqData, Sys, set_ready, schedule, switch_to}
use cpp_coroutine.CoroutineMgr.Invariant.{IsValid, set_ready-IsValid, ne-zero_of_deadline}
use cpp_coroutine.CoroutineMgr.Slices.{switch_to-Returned}
use cpp_coroutine.EventMgr.{run_expired}

module _ {W : Type 0} (clock : W → Timeval) (callback : ℕ → ReqData → Body W) where
  pub schedule_found :
      (k : ℕ) (s : Sys W) (c : Context W)
      → find k s.idtonode ≡ some c
      → schedule clock callback k s ≡ switch_to clock callback k s
  unfolding schedule
  schedule_found k s c h = rw (h, schedule)

  pub run_due :
      (s t u : Sys W) (id : ℕ)
      → id ≢ 0
      → next_wait_time s.expire (clock s.world) ≡ (0, id)
      → set_ready s id ≡ some t
      → schedule clock callback id t ≡ some u
      → run_expired clock callback s ≡ some (none, u)
  unfolding run_expired
  run_due s t u id n a b c = ground arith

  -- The three ends of the timer part of a round.
  abbrev pub Woken : Sys W → Option ℕ → Sys W → Type 0
  Woken s r t =
      (((j : ℕ) → deadline s.expire j ≡ none) × (r ≡ some time_expire) × (t ≡ s))
      ⊎ ((id e : ℕ) × IsFirst s.expire id e
          × (((ms_of (clock s.world) < e) × (r ≡ some (e - ms_of (clock s.world))) × (t ≡ s))
              ⊎ ((e ≤ ms_of (clock s.world))
                  × (r ≡ none)
                  × ((j : ℕ) → j ≢ id → find j t.idtonode ≡ find j s.idtonode)
                  × ((c : Context W) × (find id t.idtonode ≡ some c)
                      × ((c.state ≡ wait) ⊎ (c.state ≡ end)))
                  × (t.staticid ≡ s.staticid))))

  -- From a valid state the timer part of `RunOnce` ends without a fault in a valid state. With no
  -- timer it goes on to wait for `TIME_EXPIRE`, with the first deadline ahead it waits for the
  -- difference, and both change nothing; with the first deadline reached it runs that coroutine,
  -- which then waits or has ended, no other node changes, and no id is given out.
  pub run_expired_lem :
      (s : Sys W)
      → IsValid s
      → (r : Option ℕ) × (t : Sys W) × (run_expired clock callback s ≡ some (r, t))
        × IsValid t
        × Woken s r t
  unfolding run_expired
  run_expired_lem s v = elim (next_wait_time-Next s.expire (clock s.world) v.linked) [
    | inl (none_at, e) ↦ (some time_expire, s, rw e, v, inl (none_at, refl, refl))
    | inr (id, x, first, inl (early, e)) ↦
        (some (x - ms_of (clock s.world)), s, rw e, v, inr (id, x, first, inl (early, refl, refl)))
    | inr (id, x, first, inr (due, e)) ↦
        let nz : id ≢ 0 = ne-zero_of_deadline s id x v first.0 in
        let (t, set, vt, _, same, (c, b, at, st, _), _, ids) = set_ready-IsValid s id x v first.0 in
        let (u, went, r) = switch_to-Returned clock callback id t c vt nz at st in
        (
          none,
          u,
          run_due s t u id nz e set (schedule_found id t c at ∙ went),
          r.valid,
          inr (
            id,
            x,
            first,
            inr (due, refl, (λ j n. r.others j n ∙ same j n), r.settled, r.ids ∙ ids),
          ),
        )
  ]
