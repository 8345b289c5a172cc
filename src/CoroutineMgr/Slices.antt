-- ===== src/CoroutineMgr/Slices.antt =====
-- lib/eventmgr/CoroutineMgr.h and CoroutineMgr.cpp: the part of a coroutine that one switch runs.
pub mod Ends
use cpp_coroutine.Common.{
  ℕ, ◌+◌, ◌%◌, ◌^◌, ◌≡◌, ◌≢◌, ◌⊎◌, inl, inr, refl, subst, sym, ap, ◌∙◌, Option, none, some, arith,
}
use cpp_coroutine.OrderedMap.{find, put}
use cpp_coroutine.OrderedMap.Laws.{find-put}
use cpp_coroutine.Util.{ready, wait, end}
use cpp_coroutine.Util.Timer.{Timeval, timer_ms, get_ms}
use cpp_coroutine.ExpireMgr
use cpp_coroutine.ExpireMgr.{ExpireMgr, IsLinked}
use cpp_coroutine.ExpireMgr.Links.{set-IsLinked, find-set}
use cpp_coroutine.ExpireMgr.Spec.{deadline}
use cpp_coroutine.CoroutineMgr.{
  Body, finish, act, wait_ms, Saved, fresh, paused, stopped, main, Context, Sys, ReqData, update,
  leave, begin_wait, run, entry, switch_to, ◌>>=◌,
}
use cpp_coroutine.CoroutineMgr.Invariant.{
  IsShape, IsNode, IsValid, IsOpen, put-IsOpen, IsValid-of_open, IsOpen-of_valid,
}

module _ {W : Type 0} where
  -- Control is back in the main loop; the node `k` waits or has ended, and no other has changed.
  pub record Returned (k : ℕ) (s t : Sys W) : Type 0 where
    pub valid : IsValid t
    pub others : (j : ℕ) → j ≢ k → find j t.idtonode ≡ find j s.idtonode
    pub settled :
        (c : Context W) × (find k t.idtonode ≡ some c) × ((c.state ≡ wait) ⊎ (c.state ≡ end))
    pub ids : t.staticid ≡ s.staticid

  update_lem :
      (k : ℕ) (f : Context W → Context W) (s : Sys W) (c : Context W)
      → find k s.idtonode ≡ some c
      → update k f s ≡ some (record s { idtonode = put k (f c) s.idtonode })
  unfolding update
  update_lem k f s c h = rw (h, ◌>>=◌)

  update_active :
      (k : ℕ) (f : Context W → Context W) (s : Sys W) (c : Context W)
      → s.active ≡ k
      → find k s.idtonode ≡ some c
      → update s.active f s ≡ some (record s { idtonode = put k (f c) s.idtonode })
  update_active k f s c a h = ap (λ i. update i f s) a ∙ update_lem k f s c h

  pub world-IsOpen : (k : ℕ) (w : W) (s : Sys W) → IsOpen k s → IsOpen k (record s { world = w })
  world-IsOpen k w s o = record {
    sorted = o.sorted;
    linked = o.linked;
    not_main = o.not_main;
    main_node = o.main_node;
    main_timer = o.main_timer;
    self = o.self;
    others = o.others;
  }

  -- The node `k` is stored as `c` at the switch to the main loop.
  leave-Returned :
      (k : ℕ) (at : Saved W) (s u : Sys W) (c : Context W)
      → IsOpen k u
      → u.active ≡ k
      → find k u.idtonode ≡ some c
      → IsShape at c.state c.req.m_cb (deadline u.expire k)
      → (c.state ≡ wait) ⊎ (c.state ≡ end)
      → ((j : ℕ) → j ≢ k → find j u.idtonode ≡ find j s.idtonode)
      → u.staticid ≡ s.staticid
      → (t : Sys W) × (leave at u ≡ some t) × Returned k s t
  unfolding leave
  leave-Returned k at s u c o a h sh st same given =
      let c' : Context W = record c { coroutine = at } in
      let t : Sys W = record u { idtonode = put k c' u.idtonode; active = 0 } in
      let here : find k t.idtonode ≡ some c' = ground (arith, find-put k k c' u.idtonode) in
      let (d, found, named) = o.self in
      let id : c'.req.id ≡ k = cc in
      let o' : IsOpen k t = put-IsOpen k 0 u c' u.expire o id o.linked (λ j n. refl) in
      (
        t,
        ap (λ r. r >>= λ (v : Sys W). some (record v { active = 0 }))
            (update_active k (λ x. record x { coroutine = at }) u c a h),
        record {
          valid = IsValid-of_open k t c' o' refl here sh;
          others = λ j n. ground (arith, find-put j k c' u.idtonode, same j n);
          settled = (c', here, st);
          ids = given;
        },
      )

  at_main :
      (o : Option (Context W)) (c : Context W) (x y : Option (Sys W))
      → o ≡ some c
      → (elim o as (λ _. Option (Sys W)) [ none ↦ x | some _ ↦ y ]) ≡ y
  at_main o c x y h = rw h

  module _ (clock : W → Timeval) where
    -- `WaitAndSchedule` stores the timer of the running coroutine and marks its node.
    begin_wait_lem :
        (k ms : ℕ) (s : Sys W) (c : Context W)
        → IsOpen k s
        → s.active ≡ k
        → find k s.idtonode ≡ some c
        → begin_wait clock ms s
          ≡ some (record s {
            idtonode = put k (record c { state = wait }) s.idtonode;
            expire = ExpireMgr.set s.expire (clock s.world) ms k;
          })
    unfolding begin_wait
    begin_wait_lem k ms s c o a h =
        let (d, found, named) = o.self in
        let id : c.req.id ≡ k = cc in
        let rest =
          λ (x : Context W). update s.active marked (record s { expire = timed x.req.id }) in
        ap (λ x. x >>= rest) (ap (λ i. find i s.idtonode) a ∙ h)
        ∙ (ap (λ i. update s.active marked (record s { expire = timed i })) id
            ∙ update_active k marked (record s { expire = timed k }) c a h)
      where
        marked : Context W → Context W
        marked x = record x { state = wait }

        timed : ℕ → ExpireMgr
        timed i = ExpireMgr.set s.expire (clock s.world) ms i

    -- What `run` does after the node is marked.
    abbrev after_end : Sys W → Option (Sys W)
    after_end t = elim (find 0 t.idtonode) [ none ↦ none | some _ ↦ leave stopped t ]

    abbrev after_wait : Body W → Sys W → Option (Sys W)
    after_wait b t = elim (find 0 t.idtonode) [ none ↦ run clock b t | some _ ↦ leave (paused b) t ]

    main_found :
        (k : ℕ) (u : Sys W)
        → IsOpen k u
        → (m : Context W) × (find 0 u.idtonode ≡ some m) × (m.coroutine ≡ main)
    main_found k u o = let (m, at, id, st) = o.main_node in (m, at, st)

    pub run-Returned :
        (b : Body W) (k : ℕ) (s : Sys W)
        → IsOpen k s
        → s.active ≡ k
        → deadline s.expire k ≡ none
        → (t : Sys W) × (run clock b s ≡ some t) × Returned k s t
    unfolding run
    run-Returned finish k s o a d =
        let (c, at, id) = o.self in
        let c' : Context W = record c { state = end } in
        let u : Sys W = record s { idtonode = put k c' s.idtonode } in
        let here : find k u.idtonode ≡ some c' = ground (arith, find-put k k c' s.idtonode) in
        let o' : IsOpen k u = put-IsOpen k s.active s c' s.expire o id o.linked (λ j n. refl) in
        let (m, found, rest) = main_found k u o' in
        let (t, e, r) =
          leave-Returned k stopped s u c' o' a here
            (subst (IsShape {W = W} stopped end c.req.m_cb) (sym d) tt) (inr refl)
            (λ j n. ground (arith, find-put j k c' s.idtonode)) refl in
        (
          t,
          ap (λ x. x >>= after_end) (update_active k (λ x. record x { state = end }) s c a at)
              ∙ (at_main (find 0 u.idtonode) m none (leave stopped u) found ∙ e),
          r,
        )
    run-Returned (act f rest) k s o a d =
        let (t, e, r) =
          run-Returned (rest s.world) k (record s { world = f s.world })
            (world-IsOpen k (f s.world) s o) a d in
        (t, e, record { valid = r.valid; others = r.others; settled = r.settled; ids = r.ids })
    run-Returned (wait_ms ms b) k s o a d =
        let (c, at, id) = o.self in
        let c' : Context W = record c { state = wait } in
        let x : ExpireMgr = ExpireMgr.set s.expire (clock s.world) ms k in
        let u : Sys W = record s { idtonode = put k c' s.idtonode; expire = x } in
        let here : find k u.idtonode ≡ some c' = ground (arith, find-put k k c' s.idtonode) in
        let o' : IsOpen k u =
          put-IsOpen k s.active s c' x o id (set-IsLinked s.expire (clock s.world) ms k o.linked)
            (λ j n. ground (arith, find-set s.expire (clock s.world) ms k j o.linked)) in
        let (m, found, rest) = main_found k u o' in
        let due : deadline x k ≡ some ((get_ms (timer_ms 0 (clock s.world)) + ms) % 2 ^ 64) =
          ground (arith, find-set s.expire (clock s.world) ms k k o.linked) in
        let (t, e, r) =
          leave-Returned k (paused b) s u c' o' a here
            (subst (IsShape (paused b) wait c.req.m_cb) (sym due) tt) (inl refl)
            (λ j n. ground (arith, find-put j k c' s.idtonode)) refl in
        (
          t,
          ap (λ y. y >>= after_wait b) (begin_wait_lem k ms s c o a at)
              ∙ (at_main (find 0 u.idtonode) m (run clock b u) (leave (paused b) u) found ∙ e),
          r,
        )

  -- A node that is ready can be switched to.
  shape_of_ready :
      (x : Saved W) (cb : ℕ) (d : Option ℕ)
      → IsShape x ready cb d
      → (d ≡ none) × (((x ≡ fresh) × (cb ≢ 0)) ⊎ ((b : Body W) × (x ≡ paused b)))
  shape_of_ready fresh cb none h = (refl, inl (refl, h))
  shape_of_ready fresh cb (some e) h = elim h [ ]
  shape_of_ready (paused b) cb none h = (refl, inr (b, refl))
  shape_of_ready (paused b) cb (some e) h = elim h [ ]
  shape_of_ready stopped cb none h = elim h [ ]
  shape_of_ready stopped cb (some e) h = elim h [ ]
  shape_of_ready main cb none h = elim h [ ]
  shape_of_ready main cb (some e) h = elim h [ ]

  pub again : (k : ℕ) (s t : Sys W) → Returned k (record s { active = k }) t → Returned k s t
  again k s t r = record { valid = r.valid; others = r.others; settled = r.settled; ids = r.ids }

  active-IsOpen : (k : ℕ) (s : Sys W) → IsOpen k s → IsOpen k (record s { active = k })
  active-IsOpen k s o = record {
    sorted = o.sorted;
    linked = o.linked;
    not_main = o.not_main;
    main_node = o.main_node;
    main_timer = o.main_timer;
    self = o.self;
    others = o.others;
  }

  module _ (clock : W → Timeval) (callback : ℕ → ReqData → Body W) where
    switch_to_paused :
        (k : ℕ) (s : Sys W) (c : Context W) (b : Body W)
        → find k s.idtonode ≡ some c
        → c.coroutine ≡ paused b
        → switch_to clock callback k s ≡ run clock b (record s { active = k })
    unfolding switch_to
    switch_to_paused k s c b h e = ground arith

    switch_to_fresh :
        (k : ℕ) (s : Sys W) (c : Context W)
        → find k s.idtonode ≡ some c
        → c.coroutine ≡ fresh
        → c.req.id ≡ k
        → c.req.m_cb ≢ 0
        → switch_to clock callback k s
          ≡ run clock (callback c.req.m_cb c.req) (record s { active = k })
    unfolding switch_to entry
    switch_to_fresh k s c h e id set = ground arith

    -- In a valid state, `Schedule` of a node other than 0 that is ready comes back to the main
    -- loop without a fault, in a valid state in which this node waits or has ended, all others
    -- are as before, and no id is given out.
    pub switch_to-Returned :
        (k : ℕ) (s : Sys W) (c : Context W)
        → IsValid s
        → k ≢ 0
        → find k s.idtonode ≡ some c
        → c.state ≡ ready
        → (t : Sys W) × (switch_to clock callback k s ≡ some t) × Returned k s t
    switch_to-Returned k s c v n h st =
        let node : IsNode k (some c) (deadline s.expire k) =
          subst (λ o. IsNode k o (deadline s.expire k)) h (v.nodes k n) in
        let (d, x) =
          shape_of_ready c.coroutine c.req.m_cb (deadline s.expire k)
            (subst (λ y. IsShape c.coroutine y c.req.m_cb (deadline s.expire k)) st node.1) in
        let u : Sys W = record s { active = k } in
        let o : IsOpen k u = active-IsOpen k s (IsOpen-of_valid s k c v n h) in
        elim x [
          | inl (new, set) ↦
              let (t, e, r) = run-Returned clock (callback c.req.m_cb c.req) k u o refl d in
              (t, switch_to_fresh k s c h new node.0 set ∙ e, again k s t r)
          | inr (b, old) ↦
              let (t, e, r) = run-Returned clock b k u o refl d in
              (t, switch_to_paused k s c b h old ∙ e, again k s t r)
        ]
