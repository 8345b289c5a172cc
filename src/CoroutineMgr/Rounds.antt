-- ===== src/CoroutineMgr/Rounds.antt =====
-- lib/eventmgr/CoroutineMgr.h: one round of `ScheduleAll`.
pub mod Sweep
pub mod Steps
use native.Mathlib.Decide.{ℕ_discrete, dec_lt}
use cpp_coroutine.Common.{
  ℕ, zero, suc, ◌+◌, ◌-◌, ◌*◌, ◌≤◌, ◌<◌, ◌≡◌, ◌≢◌, ◌⊎◌, inl, inr, refl, subst, sym, ap, ◌∙◌, [],
  ◌∷◌, Option, none, some, arith,
}
use cpp_coroutine.OrderedMap.{Map, find, erase, after, IsSorted}
use cpp_coroutine.OrderedMap.Laws.{find_below, find-erase, erase-IsSorted, IsNext, after-IsNext}
use cpp_coroutine.Util.{NodeState, ready, wait, end}
use cpp_coroutine.Util.Timer.{Timeval}
use cpp_coroutine.ExpireMgr.Spec.{deadline}
use cpp_coroutine.CoroutineMgr.{
  Body, Saved, fresh, paused, stopped, main, Context, Sys, ReqData, destroy, switch_to,
  schedule_from, schedule_all, first_id,
}
use cpp_coroutine.CoroutineMgr.Invariant.{IsShape, IsNode, IsValid, IsNode-same}
use cpp_coroutine.CoroutineMgr.Slices.{switch_to-Returned}
use cpp_coroutine.CoroutineMgr.Rounds.Sweep.{
  NodeState-cases, some_ℕ, At, Swept, Below, Swept-step, timer_of_end, destroy-IsValid, next-At,
  At-same, state_of, Fuel, Fuel-less,
}
use cpp_coroutine.CoroutineMgr.Rounds.Steps.{step_main, step_wait, step_end, step_ready, step_done}

module _ {W : Type 0} where
  module _ (clock : W → Timeval) (callback : ℕ → ReqData → Body W) where
    abbrev Sweeps : ℕ → ℕ → Type 0
    Sweeps bound fuel =
        (lo : ℕ) (o : Option ℕ) (s : Sys W)
        → IsValid s
        → Below bound s
        → At lo o s.idtonode
        → Fuel bound fuel o s
        → (t : Sys W) × (schedule_from clock callback fuel o s ≡ some t) × Swept lo s t

    -- From a node that is as it should be the round goes on with the next one.
    advance :
        (bound fuel lo k : ℕ) (s u : Sys W)
        → Sweeps bound fuel
        → IsValid s
        → At lo (some k) s.idtonode
        → 2 * (bound - k) ≤ suc fuel + 1
        → k < bound
        → IsValid u
        → Below bound u
        → ((j : ℕ) → j ≢ k → find j u.idtonode ≡ find j s.idtonode)
        → ((c : Context W) → k ≢ 0 → find k u.idtonode ≡ some c → c.state ≡ wait)
        → ((c : Context W)
            → find k s.idtonode ≡ some c
            → c.state ≡ wait
            → find k u.idtonode ≡ some c)
        → u.staticid ≡ s.staticid
        → (t : Sys W) × (schedule_from clock callback fuel (after k s.idtonode) u ≡ some t)
          × Swept lo s t
    advance bound fuel lo k s u ih v (le, found, gap) f lt vu bu others at_k kept_k given =
        let at : At (suc k) (after k s.idtonode) u.idtonode =
          At-same (suc k) (after k s.idtonode) s.idtonode u.idtonode (λ j h. others j (omega arith))
            (next-At k (after k s.idtonode) s.idtonode (after-IsNext k s.idtonode v.sorted)) in
        let (t, e, w) =
          ih (suc k) (after k s.idtonode) u vu bu at
            (λ j q. inl (cost j (subst (λ o. At (suc k) o u.idtonode) q at))) in
        (t, e, Swept-step lo k s u t le gap others at_k kept_k found given w)
      where
        cost : (j : ℕ) → At (suc k) (some j) u.idtonode → 2 * (bound - j) ≤ fuel
        cost j a = omega (arith, a.0)

    round_end :
        (bound fuel lo k : ℕ) (s : Sys W) (c : Context W)
        → Sweeps bound fuel
        → IsValid s
        → Below bound s
        → At lo (some k) s.idtonode
        → 2 * (bound - k) ≤ suc fuel + 1
        → k ≢ 0
        → find k s.idtonode ≡ some c
        → c.state ≡ end
        → (t : Sys W) × (schedule_from clock callback (suc fuel) (some k) s ≡ some t) × Swept lo s t
    round_end bound fuel lo k s c ih v b at less n found st =
        let u : Sys W = record s { idtonode = erase k s.idtonode } in
        let (gone, vu) = destroy-IsValid k s c v n found st in
        let others : (j : ℕ) → j ≢ k → find j u.idtonode ≡ find j s.idtonode =
          λ j q. ground (arith, find-erase j k s.idtonode v.sorted) in
        let missing : find k u.idtonode ≡ none =
          ground (arith, find-erase k k s.idtonode v.sorted) in
        let (t, e, w) =
          advance bound fuel lo k s u ih v at less (b k c found) vu
            (λ j d e. elim (ℕ_discrete j k) [
              | yes q ↦ subst (λ i. i < bound) (sym q) (b k c found)
              | no q ↦ b j d (sym (others j q) ∙ e)
            ])
            others (λ d _ e. absurd (cc (missing, e)))
            (λ d e w. absurd (cc (state_of found e st, w))) refl in
        (
          t,
          step_end clock callback fuel k s c found n st
              ∙ (ap (schedule_from clock callback fuel (after k s.idtonode)) gone ∙ e),
          w,
        )

    round_ready :
        (bound fuel lo k : ℕ) (s : Sys W) (c : Context W)
        → Sweeps bound fuel
        → IsValid s
        → Below bound s
        → At lo (some k) s.idtonode
        → Fuel bound (suc fuel) (some k) s
        → k ≢ 0
        → find k s.idtonode ≡ some c
        → c.state ≡ ready
        → (t : Sys W) × (schedule_from clock callback (suc fuel) (some k) s ≡ some t) × Swept lo s t
    round_ready bound fuel lo k s c ih v b (le, _, gap) f n found st =
        let (u, went, r) = switch_to-Returned clock callback k s c v n found st in
        let (d, at_d, settled) = r.settled in
        let (t, e, w) =
          ih lo (some k) u r.valid
            (λ j x e. elim (ℕ_discrete j k) [
              | yes q ↦ subst (λ i. i < bound) (sym q) (b k c found)
              | no q ↦ b j x (sym (r.others j q) ∙ e)
            ])
            (le, (d, at_d), λ i h l. r.others i (omega arith) ∙ gap i h l)
            (λ j q. inr (
              subst
                (λ i.
                  (2 * (bound - i) ≤ fuel + 1)
                  × ((x : Context W) → find i u.idtonode ≡ some x → x.state ≢ ready))
                (some_ℕ q) (enough (f k refl), not_ready u d at_d settled))) in
        (
          t,
          step_ready clock callback fuel k s u c found n st went ∙ e,
          record {
            valid = w.valid;
            below = λ j h. w.below j h ∙ r.others j (omega arith);
            waiting = w.waiting;
            kept = λ j x e at_wait. elim (ℕ_discrete j k) [
              | yes q ↦
                  absurd (cc (state_of found (ap (λ i. find i s.idtonode) (sym q) ∙ e) st, at_wait))
              | no q ↦ w.kept j x (r.others j q ∙ e) at_wait
            ];
            old = λ j x e. elim (ℕ_discrete j k) [
              | yes q ↦ (c, ap (λ i. find i s.idtonode) q ∙ found)
              | no q ↦ let (y, at) = w.old j x e in (y, sym (r.others j q) ∙ at)
            ];
            ids = w.ids ∙ r.ids;
          },
        )
      where
        enough :
            (2 * (bound - k) ≤ suc fuel)
              ⊎ ((2 * (bound - k) ≤ suc fuel + 1)
                  × ((x : Context W) → find k s.idtonode ≡ some x → x.state ≢ ready))
            → 2 * (bound - k) ≤ fuel + 1
        enough (inl h) = omega arith
        enough (inr h) = absurd (h.1 c found st)

        not_ready :
            (u : Sys W) (d : Context W)
            → find k u.idtonode ≡ some d
            → (d.state ≡ wait) ⊎ (d.state ≡ end)
            → (x : Context W) → find k u.idtonode ≡ some x
            → x.state ≢ ready
        not_ready u d at_d (inl h) x e r = cc (state_of at_d e h, r)
        not_ready u d at_d (inr h) x e r = cc (state_of at_d e h, r)

    schedule_from-Swept : (bound fuel : ℕ) → Sweeps bound fuel
    schedule_from-Swept bound fuel lo none s v b at f = (
      s,
      step_done clock callback fuel s,
      record {
        valid = v;
        below = λ j h. refl;
        waiting = λ j c h z e. absurd (cc (at j h, e));
        kept = λ j c e st. e;
        old = λ j c e. (c, e);
        ids = refl;
      },
    )
    schedule_from-Swept bound zero lo (some k) s v b (le, (c, found), gap) f =
        absurd (omega (arith, Fuel-less bound zero k s f, b k c found))
    schedule_from-Swept bound (suc fuel) lo (some k) s v b at f =
        let (le, (c, found), gap) = at in
        let lt : k < bound = b k c found in
        let less : 2 * (bound - k) ≤ suc fuel + 1 = Fuel-less bound (suc fuel) k s f in
        let ih : Sweeps bound fuel = schedule_from-Swept bound fuel in
        elim (ℕ_discrete k 0) [
          | yes z ↦
              let (t, e, w) =
                advance bound fuel lo k s s ih v at less lt v b (λ j n. refl) (λ d n. absurd (n z))
                  (λ d e st. e) refl in
              (t, step_main clock callback fuel k s c found z ∙ e, w)
          | no n ↦ elim (NodeState-cases c.state) [
            | inl st ↦ round_ready bound fuel lo k s c ih v b at f n found st
            | inr (inl st) ↦
                let (t, e, w) =
                  advance bound fuel lo k s s ih v at less lt v b (λ j n. refl)
                    (λ d _ e. state_of found e st) (λ d e st. e) refl in
                (t, step_wait clock callback fuel k s c found n st ∙ e, w)
            | inr (inr st) ↦ round_end bound fuel lo k s c ih v b at less n found st
          ]
        ]

    first-At : (m : Map (Context W)) → IsSorted m → At 0 (first_id m) m
    unfolding find
    first-At [] s = λ i h. refl
    first-At ((k, c) ∷ m) s =
        (omega arith, (c, ground arith), λ i h l. ground (arith, find_below i (suc k) m s.1))

    -- A round of `ScheduleAll` from a valid state, the ids below `bound` and the fuel at least
    -- twice that, ends without a fault in a valid state; then every node but 0 is waiting, each
    -- node that was waiting before is as it was, and no node and no id is new.
    pub schedule_all_lem :
        (bound fuel : ℕ) (s : Sys W)
        → IsValid s
        → Below bound s
        → 2 * bound ≤ fuel
        → (t : Sys W) × (schedule_all clock callback fuel s ≡ some t)
          × IsValid t
          × ((j : ℕ) (c : Context W) → j ≢ 0 → find j t.idtonode ≡ some c → c.state ≡ wait)
          × ((j : ℕ) (c : Context W)
              → find j s.idtonode ≡ some c
              → c.state ≡ wait
              → find j t.idtonode ≡ some c)
          × ((j : ℕ) (c : Context W)
              → find j t.idtonode ≡ some c
              → (d : Context W) × (find j s.idtonode ≡ some d))
          × (t.staticid ≡ s.staticid)
    unfolding schedule_all
    schedule_all_lem bound fuel s v b f =
        let (t, e, w) =
          schedule_from-Swept bound fuel 0 (first_id s.idtonode) s v b
            (first-At s.idtonode v.sorted) (λ k q. inl (omega arith)) in
        (t, e, w.valid, λ j c z h. w.waiting j c (omega arith) z h, w.kept, w.old, w.ids)
