-- ===== src/CoroutineMgr/Invariant.antt =====
-- lib/eventmgr/CoroutineMgr.h: the invariant of the scheduler between two steps of the main loop,
-- and the operations that need no coroutine to run.
use cpp_coroutine.Common.{ℕ, ◌≡◌, ◌≢◌, refl, subst, sym, ap, ◌∙◌, Option, none, some, arith}
use native.Mathlib.Decide.{ℕ_discrete}
use cpp_coroutine.OrderedMap.{find, put, IsSorted}
use cpp_coroutine.OrderedMap.Laws.{find-put, put-IsSorted}
use cpp_coroutine.Util.{NodeState, ready, wait, end}
use cpp_coroutine.ExpireMgr
use cpp_coroutine.ExpireMgr.{ExpireMgr, IsLinked}
use cpp_coroutine.ExpireMgr.Links.{del-IsLinked, find-del}
use cpp_coroutine.ExpireMgr.Spec.{deadline}
use cpp_coroutine.CoroutineMgr.{
  Body, Saved, fresh, paused, stopped, main, Context, Sys, update, set_ready,
}

module _ {W : Type 0} where
  -- The saved registers, the state and the timer of a node other than 0 agree: a node that is ready
  -- has not begun, with a callback to call, or stands in a wait that is over.
  abbrev pub IsShape : Saved W → NodeState → ℕ → Option ℕ → Type 0
  IsShape fresh ready cb none = cb ≢ 0
  IsShape (paused b) ready cb none = Unit
  IsShape (paused b) wait cb (some e) = Unit
  IsShape stopped end cb none = Unit
  IsShape _ _ _ _ = ⊥

  -- What a key other than 0 reads in the table of nodes and in that of deadlines.
  abbrev pub IsNode : ℕ → Option (Context W) → Option ℕ → Type 0
  IsNode k none d = d ≡ none
  IsNode k (some c) d = (c.req.id ≡ k) × IsShape c.coroutine c.state c.req.m_cb d

  pub record IsValid (s : Sys W) : Type 0 where
    pub sorted : IsSorted s.idtonode
    pub linked : IsLinked s.expire
    pub at_main : s.active ≡ 0
    pub main_node :
        (c : Context W) × (find 0 s.idtonode ≡ some c) × (c.req.id ≡ 0) × (c.coroutine ≡ main)
    pub main_timer : deadline s.expire 0 ≡ none
    pub nodes : (k : ℕ) → k ≢ 0 → IsNode k (find k s.idtonode) (deadline s.expire k)

  shape_of_timer :
      (x : Saved W) (st : NodeState) (cb e : ℕ)
      → IsShape x st cb (some e)
      → (b : Body W) × (x ≡ paused b) × (st ≡ wait)
  shape_of_timer (paused b) wait cb e h = (b, refl, refl)
  shape_of_timer (paused b) ready cb e h = elim h [ ]
  shape_of_timer (paused b) end cb e h = elim h [ ]
  shape_of_timer fresh ready cb e h = elim h [ ]
  shape_of_timer fresh wait cb e h = elim h [ ]
  shape_of_timer fresh end cb e h = elim h [ ]
  shape_of_timer stopped ready cb e h = elim h [ ]
  shape_of_timer stopped wait cb e h = elim h [ ]
  shape_of_timer stopped end cb e h = elim h [ ]
  shape_of_timer main ready cb e h = elim h [ ]
  shape_of_timer main wait cb e h = elim h [ ]
  shape_of_timer main end cb e h = elim h [ ]

  node_of_timer :
      (k e : ℕ) (o : Option (Context W))
      → IsNode k o (some e)
      → (c : Context W) × (b : Body W) × (o ≡ some c)
        × (c.state ≡ wait)
        × (c.coroutine ≡ paused b)
        × (c.req.id ≡ k)
  node_of_timer k e none h = cc
  node_of_timer k e (some c) h =
      let (b, at, st) = shape_of_timer c.coroutine c.state c.req.m_cb e h.1 in
      (c, b, refl, st, at, h.0)

  pub ne-zero_of_deadline : (s : Sys W) (k e : ℕ) → IsValid s → deadline s.expire k ≡ some e → k ≢ 0
  ne-zero_of_deadline s k e v h z = cc (v.main_timer, ap (deadline s.expire) z)

  -- In a valid state an id that has a timer is a node that waits, with the place saved at which
  -- it goes on, and under its own id.
  pub waits_of_deadline :
      (s : Sys W) (k e : ℕ)
      → IsValid s
      → deadline s.expire k ≡ some e
      → (c : Context W) × (b : Body W) × (find k s.idtonode ≡ some c)
        × (c.state ≡ wait)
        × (c.coroutine ≡ paused b)
        × (c.req.id ≡ k)
  waits_of_deadline s k e v h =
      node_of_timer k e _
        (subst (IsNode k (find k s.idtonode)) h (v.nodes k (ne-zero_of_deadline s k e v h)))

  pub IsNode-same :
      (k : ℕ) (o p : Option (Context W)) (d f : Option ℕ)
      → o ≡ p
      → d ≡ f
      → IsNode k p f
      → IsNode k o d
  IsNode-same k o p d f a b h = rw (a, b) h

  pub IsShape-same :
      (x y : Saved W) (st : NodeState) (cb : ℕ) (d f : Option ℕ)
      → x ≡ y
      → d ≡ f
      → IsShape y st cb f
      → IsShape x st cb d
  IsShape-same x y st cb d f a b h = rw (a, b) h

  some_unique : {o : Option (Context W)} {c d : Context W} → o ≡ some c → o ≡ some d → c ≡ d
  some_unique a b = cc

  -- The invariant while the coroutine `k` runs or its node is changed: nothing is said of what is
  -- saved in its node.
  pub record IsOpen (k : ℕ) (s : Sys W) : Type 0 where
    pub sorted : IsSorted s.idtonode
    pub linked : IsLinked s.expire
    pub not_main : k ≢ 0
    pub main_node :
        (c : Context W) × (find 0 s.idtonode ≡ some c) × (c.req.id ≡ 0) × (c.coroutine ≡ main)
    pub main_timer : deadline s.expire 0 ≡ none
    pub self : (c : Context W) × (find k s.idtonode ≡ some c) × (c.req.id ≡ k)
    pub others : (j : ℕ) → j ≢ 0 → j ≢ k → IsNode j (find j s.idtonode) (deadline s.expire j)

  pub IsOpen-of_valid :
      (s : Sys W) (k : ℕ) (c : Context W)
      → IsValid s
      → k ≢ 0
      → find k s.idtonode ≡ some c
      → IsOpen k s
  IsOpen-of_valid s k c v n h = record {
    sorted = v.sorted;
    linked = v.linked;
    not_main = n;
    main_node = v.main_node;
    main_timer = v.main_timer;
    self = (c, h, (subst (λ o. IsNode k o (deadline s.expire k)) h (v.nodes k n)).0);
    others = λ j z _. v.nodes j z;
  }

  -- A new content of the node `k`, and a change of its timer.
  pub put-IsOpen :
      (k a : ℕ) (s : Sys W) (c : Context W) (x : ExpireMgr)
      → IsOpen k s
      → c.req.id ≡ k
      → IsLinked x
      → ((j : ℕ) → j ≢ k → deadline x j ≡ deadline s.expire j)
      → IsOpen k (record s { idtonode = put k c s.idtonode; expire = x; active = a })
  put-IsOpen k a s c x o e l same = record {
    sorted = put-IsSorted k c s.idtonode o.sorted;
    linked = l;
    not_main = o.not_main;
    main_node =
        let (d, at, named, saved) = o.main_node in
        (d, ground (arith, find-put 0 k c s.idtonode, o.not_main), named, saved);
    main_timer = same 0 (λ z. o.not_main (sym z)) ∙ o.main_timer;
    self = (c, ground (arith, find-put k k c s.idtonode), e);
    others = λ j z n.
        IsNode-same j _ _ _ _ (ground (arith, find-put j k c s.idtonode)) (same j n)
          (o.others j z n);
  }

  -- Back in the main loop with a node `k` as it should be.
  pub IsValid-of_open :
      (k : ℕ) (s : Sys W) (c : Context W)
      → IsOpen k s
      → s.active ≡ 0
      → find k s.idtonode ≡ some c
      → IsShape c.coroutine c.state c.req.m_cb (deadline s.expire k)
      → IsValid s
  IsValid-of_open k s c o a h sh =
      let (d, at, id) = o.self in
      let named : c.req.id ≡ k = sym (ap (λ (x : Context W). x.req.id) (some_unique at h)) ∙ id in
      record {
        sorted = o.sorted;
        linked = o.linked;
        at_main = a;
        main_node = o.main_node;
        main_timer = o.main_timer;
        nodes = λ j z. elim (ℕ_discrete j k) [
          | yes e ↦
              subst (λ i. IsNode i (find i s.idtonode) (deadline s.expire i)) (sym e)
                (subst (λ p. IsNode k p (deadline s.expire k)) (sym h) (named, sh))
          | no n ↦ o.others j z n
        ];
      }

  -- In a valid state `SetReady` of an id that has a timer keeps the state valid: the timer is
  -- gone, the node is ready with its place kept, and the other nodes, the shared data and the ids
  -- given out stay.
  pub set_ready-IsValid :
      (s : Sys W) (k e : ℕ)
      → IsValid s
      → deadline s.expire k ≡ some e
      → (t : Sys W) × (set_ready s k ≡ some t)
        × IsValid t
        × (deadline t.expire k ≡ none)
        × ((j : ℕ) → j ≢ k → find j t.idtonode ≡ find j s.idtonode)
        × ((c : Context W) × (b : Body W) × (find k t.idtonode ≡ some c)
            × (c.state ≡ ready)
            × (c.coroutine ≡ paused b))
        × (t.world ≡ s.world)
        × (t.staticid ≡ s.staticid)
  unfolding set_ready update
  set_ready-IsValid s k e v h =
      let (c, b, at, st, saved, named) = waits_of_deadline s k e v h in
      let nz = ne-zero_of_deadline s k e v h in
      let c' : Context W = record c { state = ready } in
      let t : Sys W = record s {
        idtonode = put k c' s.idtonode;
        expire = ExpireMgr.del s.expire k;
      } in
      let gone : deadline t.expire k ≡ none = ground (arith, find-del s.expire k k v.linked) in
      let here : find k t.idtonode ≡ some c' = ground (arith, find-put k k c' s.idtonode) in
      let o : IsOpen k t =
        put-IsOpen k s.active s c' (ExpireMgr.del s.expire k) (IsOpen-of_valid s k c v nz at) named
          (del-IsLinked s.expire k v.linked)
          (λ j n. ground (arith, find-del s.expire k j v.linked)) in
      (
        t,
        rw (at, set_ready),
        IsValid-of_open k t c' o v.at_main here (
            IsShape-same c'.coroutine (paused b) ready c.req.m_cb (deadline t.expire k) none saved
              gone tt),
        gone,
        (λ j n. ground (arith, find-put j k c' s.idtonode)),
        (c', b, here, refl, saved),
        refl,
        refl,
      )

-- `SetReady` changes no more of the node than its state.
pub set_ready-keeps :
    {W : Type 0} (s t : Sys W) (k : ℕ) (x : Context W)
    → find k s.idtonode ≡ some x
    → set_ready s k ≡ some t
    → find k t.idtonode ≡ some (record x { state = ready })
unfolding set_ready update
set_ready-keeps s t k x at e = ground (arith, find-put k k (record x { state = ready }) s.idtonode)
