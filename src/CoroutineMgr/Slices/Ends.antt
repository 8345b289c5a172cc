-- ===== src/CoroutineMgr/Slices/Ends.antt =====
-- lib/eventmgr/CoroutineMgr.h: what a part of a coroutine leaves in its node, its timer and the
-- shared data.
use cpp_coroutine.Common.{
  ℕ, ◌+◌, ◌%◌, ◌^◌, ◌≡◌, ◌≢◌, ◌⊎◌, inl, inr, refl, ap, sym, subst, ◌∙◌, none, some, arith,
}
use cpp_coroutine.OrderedMap.{find, put}
use cpp_coroutine.OrderedMap.Laws.{find-put}
use cpp_coroutine.Util.{ready, wait, end}
use cpp_coroutine.Util.Timer.{Timeval}
use cpp_coroutine.ExpireMgr
use cpp_coroutine.ExpireMgr.{ExpireMgr}
use cpp_coroutine.ExpireMgr.Links.{find-set}
use cpp_coroutine.ExpireMgr.Spec.{deadline, clock as ms_of}
use cpp_coroutine.CoroutineMgr.{
  Body, finish, wait_ms, fresh, paused, stopped, Context, Sys, ReqData, leave, run, switch_to,
  ◌>>=◌,
}
use cpp_coroutine.CoroutineMgr.Invariant.{IsOpen, IsValid, IsOpen-of_valid, IsNode, IsShape}
use cpp_coroutine.CoroutineMgr.Slices.{
  Returned, run-Returned, update_active, at_main, after_end, after_wait, begin_wait_lem,
  switch_to_fresh, switch_to_paused, active-IsOpen, shape_of_ready,
}

pub some_inj {ℓ} : {A : Type ℓ} {a b : A} → some a ≡ some b → a ≡ b
some_inj e = cc

module _ {W : Type 0} where
  leave_lem :
      (k : ℕ) (x : Context W) (u : Sys W) (c : Context W)
      → u.active ≡ k
      → find k u.idtonode ≡ some c
      → leave x.coroutine u
        ≡ some (record u {
          idtonode = put k (record c { coroutine = x.coroutine }) u.idtonode;
          active = 0;
        })
  unfolding leave
  leave_lem k x u c a h =
      ap (λ r. r >>= λ (v : Sys W). some (record v { active = 0 }))
        (update_active k (λ y. record y { coroutine = x.coroutine }) u c a h)

  -- The callback has ended, and left the shared data as `w`.
  abbrev pub Ended : ℕ → W → Sys W → Type 0
  Ended k w t = (t.world ≡ w) × ((c : Context W) × (find k t.idtonode ≡ some c) × (c.state ≡ end))

  -- The callback waits for so many milliseconds from the time of `w` on, and then goes on with `b`.
  abbrev pub Waits : (W → Timeval) → ℕ → ℕ → Body W → W → Sys W → Type 0
  Waits clock k ms b w t =
      (t.world ≡ w)
      × ((c : Context W) × (find k t.idtonode ≡ some c)
          × (c.state ≡ wait)
          × (c.coroutine ≡ paused b))
      × (deadline t.expire k ≡ some ((ms_of (clock w) + ms) % 2 ^ 64))

  module _ (clock : W → Timeval) where
    pub run_finish :
        (k : ℕ) (s : Sys W)
        → IsOpen k s
        → s.active ≡ k
        → deadline s.expire k ≡ none
        → (t : Sys W) × (run clock finish s ≡ some t) × Returned k s t × Ended k s.world t
    unfolding run
    run_finish k s o a d =
        let (c, at, id) = o.self in
        let c' : Context W = record c { state = end } in
        let u : Sys W = record s { idtonode = put k c' s.idtonode } in
        let here : find k u.idtonode ≡ some c' = ground (arith, find-put k k c' s.idtonode) in
        let (t, e, r) = run-Returned clock finish k s o a d in
        let (m, found, _, _) = o.main_node in
        let found' : find 0 u.idtonode ≡ some m =
          ground (arith, find-put 0 k c' s.idtonode, o.not_main) in
        let last : Context W = record c' { coroutine = stopped } in
        let v : Sys W = record u { idtonode = put k last u.idtonode; active = 0 } in
        let e' : run clock finish s ≡ some v =
          ap (λ x. x >>= after_end clock) (update_active k (λ x. record x { state = end }) s c a at)
          ∙ (at_main (find 0 u.idtonode) m none (leave stopped u) found'
              ∙ leave_lem k last u c' a here) in
        let same : t ≡ v = some_inj (sym e ∙ e') in
        (
          v,
          e',
          subst (Returned k s) same r,
          (refl, (last, ground (arith, find-put k k last u.idtonode), refl)),
        )

    pub run_wait :
        (ms : ℕ) (b : Body W) (k : ℕ) (s : Sys W)
        → IsOpen k s
        → s.active ≡ k
        → deadline s.expire k ≡ none
        → (t : Sys W) × (run clock (wait_ms ms b) s ≡ some t)
          × Returned k s t
          × Waits clock k ms b s.world t
    unfolding run
    run_wait ms b k s o a d =
        let (c, at, id) = o.self in
        let c' : Context W = record c { state = wait } in
        let x : ExpireMgr = ExpireMgr.set s.expire (clock s.world) ms k in
        let u : Sys W = record s { idtonode = put k c' s.idtonode; expire = x } in
        let here : find k u.idtonode ≡ some c' = ground (arith, find-put k k c' s.idtonode) in
        let (t, e, r) = run-Returned clock (wait_ms ms b) k s o a d in
        let (m, found, _, _) = o.main_node in
        let found' : find 0 u.idtonode ≡ some m =
          ground (arith, find-put 0 k c' s.idtonode, o.not_main) in
        let last : Context W = record c' { coroutine = paused b } in
        let v : Sys W = record u { idtonode = put k last u.idtonode; active = 0 } in
        let e' : run clock (wait_ms ms b) s ≡ some v =
          ap (λ y. y >>= after_wait clock b) (begin_wait_lem clock k ms s c o a at)
          ∙ (at_main (find 0 u.idtonode) m (run clock b u) (leave (paused b) u) found'
              ∙ leave_lem k last u c' a here) in
        let same : t ≡ v = some_inj (sym e ∙ e') in
        (
          v,
          e',
          subst (Returned k s) same r,
          (
            refl,
            (last, ground (arith, find-put k k last u.idtonode), refl, refl),
            ground (arith, find-set s.expire (clock s.world) ms k k o.linked),
          ),
        )

    module _ (callback : ℕ → ReqData → Body W) where
      -- What a node goes on with when it is switched to.
      abbrev pub GoesOn : Context W → Body W → Type 0
      GoesOn c b =
          ((c.coroutine ≡ fresh) × (callback c.req.m_cb c.req ≡ b)) ⊎ (c.coroutine ≡ paused b)

      -- `Schedule` of a ready node runs the body that it goes on with.
      pub switch_to-run :
          (k : ℕ) (s : Sys W) (c : Context W) (b : Body W)
          → IsValid s
          → k ≢ 0
          → find k s.idtonode ≡ some c
          → c.state ≡ ready
          → GoesOn c b
          → (switch_to clock callback k s ≡ run clock b (record s { active = k }))
            × IsOpen k (record s { active = k })
            × (deadline s.expire k ≡ none)
      switch_to-run k s c b v n h st goes =
          let node : IsNode k (some c) (deadline s.expire k) =
            subst (λ o. IsNode k o (deadline s.expire k)) h (v.nodes k n) in
          let (d, x) =
            shape_of_ready c.coroutine c.req.m_cb (deadline s.expire k)
              (subst (λ y. IsShape c.coroutine y c.req.m_cb (deadline s.expire k)) st node.1) in
          (
            elim goes [
              | inr old ↦ switch_to_paused clock callback k s c b h old
              | inl (new, is) ↦ elim x [
                | inr (b', old) ↦ absurd (cc (new, old))
                | inl (_, set) ↦
                    switch_to_fresh clock callback k s c h new node.0 set
                    ∙ ap (λ (y : Body W). run clock y (record s { active = k })) is
              ]
            ],
            active-IsOpen k s (IsOpen-of_valid s k c v n h),
            d,
          )
