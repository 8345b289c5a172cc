-- ===== src/EventMgr/Call/Bodies.antt =====
-- Calls that do not fault as bodies of coroutines: the scheduler runs one as `until_wait` does.
use cpp_coroutine.Common.{ℕ, ◌≡◌, ◌≢◌, ◌≤◌, inl, inr, refl, ap, sym, subst, ◌∙◌, none, some, arith}
use cpp_coroutine.OrderedMap.{find}
use cpp_coroutine.Util.{ready}
use cpp_coroutine.Util.Timer.{Timeval}
use cpp_coroutine.ExpireMgr.{ExpireMgr, next_wait_time}
use cpp_coroutine.ExpireMgr.Spec.{deadline, clock as ms_of, IsFirst, next_wait_time-Next}
use cpp_coroutine.CoroutineMgr.{
  Body, finish, wait_ms, paused, Context, Sys, ReqData, run, switch_to,
}
use cpp_coroutine.CoroutineMgr.Invariant.{
  IsValid, IsOpen, set_ready-IsValid, set_ready-keeps, ne-zero_of_deadline,
}
use cpp_coroutine.CoroutineMgr.Slices.{Returned, again, world-IsOpen}
use cpp_coroutine.CoroutineMgr.Slices.Ends.{
  Ended, Waits, GoesOn, run_finish, run_wait, switch_to-run,
}
use cpp_coroutine.EventMgr.{run_expired}
use cpp_coroutine.EventMgr.Wake.{run_due, schedule_found}
use cpp_coroutine.EventMgr.Call.{
  Call, ret, fault, step, sleep, Pause, returns, faulted, waits, until_wait, NoFault, as_body,
}

world-Returned :
    {W : Type 0} (k : ℕ) (w : W) (s t : Sys W)
    → Returned k (record s { world = w }) t
    → Returned k s t
world-Returned k w s t r = record {
  valid = r.valid;
  others = r.others;
  settled = r.settled;
  ids = r.ids;
}

wakes : ℕ → ℕ × ℕ
wakes i = (0, i)

-- Of two first deadlines both are the same.
first_unique :
    (m : ExpireMgr) (k id due x : ℕ) → IsFirst m k due → IsFirst m id x → (k ≡ id) × (due ≡ x)
first_unique m k id due x a b = grind (arith, a.1 id x b.0, b.1 k due a.0)

-- The first deadline is the one that `NextWaitTime` finds.
next_of_first :
    {W : Type 0} (now : Timeval) (s : Sys W) (k due : ℕ)
    → IsValid s
    → IsFirst s.expire k due
    → due ≤ ms_of now
    → next_wait_time s.expire now ≡ (0, k)
unfolding wakes
next_of_first now s k due v first over = elim (next_wait_time-Next s.expire now v.linked) [
  | inl (none_at, e) ↦ absurd (cc (none_at k, first.0))
  | inr (id, x, first', r) ↦
      let (same, at) = first_unique s.expire k id due x first first' in
      elim r [ inl (early, e) ↦ absurd (omega arith) | inr (late, e) ↦ e ∙ ap wakes (sym same) ]
]

module _ {W A : Type 0} where
  -- The rest of a call does not fault either.
  abbrev pub Goes : Pause W A → Type 0
  Goes (returns a v) = Unit
  Goes faulted = ⊥
  Goes (waits ms rest v) = NoFault rest

  pub until_wait-Goes : (c : Call W A) (w : W) → NoFault c → Goes (until_wait c w)
  unfolding until_wait
  until_wait-Goes (ret a) w n = tt
  until_wait-Goes fault w n = elim n [ ]
  until_wait-Goes (step f k) w n = until_wait-Goes (k w) (f w) (n w)
  until_wait-Goes (sleep ms c) w n = n

  -- What the scheduler goes on with.
  abbrev pub rest_of : (p : Pause W A) → Goes p → (A → Body W) → Body W
  rest_of (returns a v) n k = k a
  rest_of faulted n k = finish
  rest_of (waits ms rest v) n k = wait_ms ms (as_body rest n k)

  -- The shared data that a call leaves, `d` after a fault.
  abbrev pub shared_after : Pause W A → W → W
  shared_after (returns a v) d = v
  shared_after faulted d = d
  shared_after (waits ms rest v) d = v

  module _ (clock : W → Timeval) where
    -- The scheduler runs a call as `until_wait` does, and goes on with what is left.
    run-as_body :
        (c : Call W A) (n : NoFault c) (k : A → Body W) (s : Sys W) (d : W)
        → run clock (as_body c n k) s
          ≡ run clock
              (rest_of (until_wait c s.world) (until_wait-Goes c s.world n) k)
              (record s { world = shared_after (until_wait c s.world) d })
    unfolding run as_body until_wait until_wait-Goes
    run-as_body (ret a) n k s d = refl
    run-as_body fault n k s d = elim n [ ]
    run-as_body (step f g) n k s d =
        run-as_body (g s.world) (n s.world) k (record s { world = f s.world }) d
    run-as_body (sleep ms c) n k s d = refl

    -- How the coroutine `k` stands after a part of a call that is its whole callback: ended, or
    -- waiting with the rest of the call, and with the shared data that the call left.
    abbrev pub Left : ℕ → (p : Pause W A) → Goes p → Sys W → Type 0
    Left k (returns a v) n t = Ended k v t
    Left k faulted n t = ⊥
    Left k (waits ms rest v) n t = Waits clock k ms (as_body rest n (λ a. finish)) v t

    run_rest :
        (k : ℕ) (p : Pause W A) (n : Goes p) (s : Sys W)
        → IsOpen k s
        → s.active ≡ k
        → deadline s.expire k ≡ none
        → (t : Sys W) × (run clock
              (rest_of p n (λ a. finish))
              (record s { world = shared_after p s.world })
            ≡ some t)
          × Returned k s t
          × Left k p n t
    run_rest k (returns a v) n s o at d =
        let (t, e, r, l) =
          run_finish clock k (record s { world = v }) (world-IsOpen k v s o) at d in
        (t, e, world-Returned k v s t r, l)
    run_rest k faulted n s o at d = elim n [ ]
    run_rest k (waits ms rest v) n s o at d =
        let (t, e, r, l) =
          run_wait clock ms (as_body rest n (λ a. finish)) k (record s { world = v })
            (world-IsOpen k v s o) at d in
        (t, e, world-Returned k v s t r, l)

    -- The coroutine that runs goes on with the call.
    run_part :
        (k : ℕ) (c : Call W A) (n : NoFault c) (s : Sys W)
        → IsOpen k s
        → s.active ≡ k
        → deadline s.expire k ≡ none
        → (t : Sys W) × (run clock (as_body c n (λ a. finish)) s ≡ some t)
          × Returned k s t
          × Left k (until_wait c s.world) (until_wait-Goes c s.world n) t
    run_part k c n s o at d =
        let (t, e, r, l) =
          run_rest k (until_wait c s.world) (until_wait-Goes c s.world n) s o at d in
        (t, run-as_body c n (λ a. finish) s s.world ∙ e, r, l)

    module _ (callback : ℕ → ReqData → Body W) where
      -- `Schedule` of a ready node whose callback stands before the call.
      pub switch_to_part :
          (k : ℕ) (s : Sys W) (x : Context W) (c : Call W A) (n : NoFault c)
          → IsValid s
          → k ≢ 0
          → find k s.idtonode ≡ some x
          → x.state ≡ ready
          → GoesOn clock callback x (as_body c n (λ a. finish))
          → (t : Sys W) × (switch_to clock callback k s ≡ some t)
            × Returned k s t
            × Left k (until_wait c s.world) (until_wait-Goes c s.world n) t
      switch_to_part k s x c n v nz at st goes =
          let (same, o, d) = switch_to-run clock callback k s x _ v nz at st goes in
          let (t, e, r, l) = run_part k c n (record s { active = k }) o refl d in
          (t, same ∙ e, again k s t r, l)

      -- `RunOnce` when the first deadline is reached and its coroutine stands before the call.
      pub run_expired_part :
          (k due : ℕ) (s : Sys W) (x : Context W) (c : Call W A) (n : NoFault c)
          → IsValid s
          → IsFirst s.expire k due
          → due ≤ ms_of (clock s.world)
          → find k s.idtonode ≡ some x
          → x.coroutine ≡ paused (as_body c n (λ a. finish))
          → (t : Sys W) × (run_expired clock callback s ≡ some (none, t))
            × Returned k s t
            × Left k (until_wait c s.world) (until_wait-Goes c s.world n) t
      run_expired_part k due s x c n v first over at stands =
          let nz : k ≢ 0 = ne-zero_of_deadline s k due v first.0 in
          let (u, set, vu, _, same, _, kept, ids) = set_ready-IsValid s k due v first.0 in
          let here = set_ready-keeps s u k x at set in
          let (t, e, r, l) =
            switch_to_part k u (record x { state = ready }) c n vu nz here refl (inr stands) in
          (
            t,
            run_due clock callback s u t k nz (next_of_first (clock s.world) s k due v first over)
                set (schedule_found clock callback k u (record x { state = ready }) here ∙ e),
            record {
              valid = r.valid;
              others = λ j m. r.others j m ∙ same j m;
              settled = r.settled;
              ids = r.ids ∙ ids;
            },
            subst (λ w. Left k (until_wait c w) (until_wait-Goes c w n) t) kept l,
          )
