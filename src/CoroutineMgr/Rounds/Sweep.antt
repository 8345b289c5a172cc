-- ===== src/CoroutineMgr/Rounds/Sweep.antt =====
-- lib/eventmgr/CoroutineMgr.h: the nodes that the iterator of `ScheduleAll` has not passed.
use native.Mathlib.Decide.{ℕ_discrete, dec_lt}
use cpp_coroutine.Common.{
  ℕ, suc, ◌+◌, ◌-◌, ◌*◌, ◌≤◌, ◌<◌, ◌≡◌, ◌≢◌, ◌⊎◌, inl, inr, refl, subst, sym, ap, ◌∙◌, Option, none,
  some, arith,
}
use cpp_coroutine.OrderedMap.{Map, find, erase}
use cpp_coroutine.OrderedMap.Laws.{find-erase, erase-IsSorted, IsNext}
use cpp_coroutine.Util.{NodeState, ready, wait, end}
use cpp_coroutine.ExpireMgr.Spec.{deadline}
use cpp_coroutine.CoroutineMgr.{Saved, fresh, paused, stopped, main, Context, Sys, destroy}
use cpp_coroutine.CoroutineMgr.Invariant.{IsShape, IsNode, IsValid, IsNode-same}

pub NodeState-cases : (st : NodeState) → (st ≡ ready) ⊎ ((st ≡ wait) ⊎ (st ≡ end))
NodeState-cases ready = inl refl
NodeState-cases wait = inr (inl refl)
NodeState-cases end = inr (inr refl)

pub some_ℕ : {a b : ℕ} → some a ≡ some b → a ≡ b
some_ℕ q = cc

module _ {W : Type 0} where
  -- An iterator that has passed the keys below the bound.
  abbrev pub At : ℕ → Option ℕ → Map (Context W) → Type 0
  At lo none m = (i : ℕ) → lo ≤ i → find i m ≡ none
  At lo (some k) m =
      (lo ≤ k)
      × ((c : Context W) × (find k m ≡ some c))
      × ((i : ℕ) → lo ≤ i → i < k → find i m ≡ none)

  -- What the rest of a round does to the nodes from the bound on.
  pub record Swept (lo : ℕ) (s t : Sys W) : Type 0 where
    pub valid : IsValid t
    pub below : (j : ℕ) → j < lo → find j t.idtonode ≡ find j s.idtonode
    pub waiting :
        (j : ℕ) (c : Context W) → lo ≤ j → j ≢ 0 → find j t.idtonode ≡ some c → c.state ≡ wait
    pub kept :
        (j : ℕ) (c : Context W)
        → find j s.idtonode ≡ some c
        → c.state ≡ wait
        → find j t.idtonode ≡ some c
    pub old :
        (j : ℕ) (c : Context W)
        → find j t.idtonode ≡ some c
        → (d : Context W) × (find j s.idtonode ≡ some d)
    pub ids : t.staticid ≡ s.staticid

  abbrev pub Below : ℕ → Sys W → Type 0
  Below bound s = (j : ℕ) (c : Context W) → find j s.idtonode ≡ some c → j < bound

  -- The round goes on behind the node `k`, which is as it should be.
  pub Swept-step :
      (lo k : ℕ) (s u t : Sys W)
      → lo ≤ k
      → ((i : ℕ) → lo ≤ i → i < k → find i s.idtonode ≡ none)
      → ((j : ℕ) → j ≢ k → find j u.idtonode ≡ find j s.idtonode)
      → ((c : Context W) → k ≢ 0 → find k u.idtonode ≡ some c → c.state ≡ wait)
      → ((c : Context W) → find k s.idtonode ≡ some c → c.state ≡ wait → find k u.idtonode ≡ some c)
      → ((c : Context W) × (find k s.idtonode ≡ some c))
      → u.staticid ≡ s.staticid
      → Swept (suc k) u t
      → Swept lo s t
  Swept-step lo k s u t le gap others at_k kept_k known given w = record {
    valid = w.valid;
    below = λ j h. w.below j (omega arith) ∙ others j (omega arith);
    waiting = λ j c h z e. elim (dec_lt k j) [
      | yes p ↦ w.waiting j c p z e
      | no p ↦ elim (ℕ_discrete j k) [
        | yes q ↦
            at_k c (λ r. z (q ∙ r))
              (sym (w.below k (omega arith)) ∙ (ap (λ i. find i t.idtonode) (sym q) ∙ e))
        | no q ↦ absurd (cc (gap j h (omega arith), w.below j (omega arith), others j q, e))
      ]
    ];
    kept = λ j c e st. elim (ℕ_discrete j k) [
      | yes q ↦
          w.kept j c
            (ap (λ i. find i u.idtonode) q ∙ kept_k c (ap (λ i. find i s.idtonode) (sym q) ∙ e) st)
            st
      | no q ↦ w.kept j c (others j q ∙ e) st
    ];
    old = λ j c e. elim (ℕ_discrete j k) [
      | yes q ↦ subst (λ i. (d : Context W) × (find i s.idtonode ≡ some d)) (sym q) known
      | no q ↦ let (d, at) = w.old j c e in (d, sym (others j q) ∙ at)
    ];
    ids = w.ids ∙ given;
  }

  pub timer_of_end : (x : Saved W) (cb : ℕ) (d : Option ℕ) → IsShape x end cb d → d ≡ none
  timer_of_end x cb none h = refl
  timer_of_end fresh cb (some e) h = elim h [ ]
  timer_of_end (paused b) cb (some e) h = elim h [ ]
  timer_of_end stopped cb (some e) h = elim h [ ]
  timer_of_end main cb (some e) h = elim h [ ]

  -- A node that has ended is taken out.
  pub destroy-IsValid :
      (k : ℕ) (s : Sys W) (c : Context W)
      → IsValid s
      → k ≢ 0
      → find k s.idtonode ≡ some c
      → c.state ≡ end
      → ((destroy s c.req.id).1 ≡ record s { idtonode = erase k s.idtonode })
        × IsValid (record s { idtonode = erase k s.idtonode })
  unfolding destroy
  destroy-IsValid k s c v n h st =
      let node : IsNode k (some c) (deadline s.expire k) =
        subst (λ o. IsNode k o (deadline s.expire k)) h (v.nodes k n) in
      let idle : deadline s.expire k ≡ none =
        timer_of_end c.coroutine c.req.m_cb _
          (subst (λ y. IsShape c.coroutine y c.req.m_cb (deadline s.expire k)) st node.1) in
      let (m, at, id, saved) = v.main_node in
      (
        ap (λ i. (destroy s i).1) node.0 ∙ rw (h, destroy),
        record {
          sorted = erase-IsSorted k s.idtonode v.sorted;
          linked = v.linked;
          at_main = v.at_main;
          main_node = (m, ground (arith, find-erase 0 k s.idtonode v.sorted), id, saved);
          main_timer = v.main_timer;
          nodes = λ j z. elim (ℕ_discrete j k) [
            | yes q ↦
                IsNode-same j _ none _ none (ground (arith, find-erase j k s.idtonode v.sorted))
                  (ap (deadline s.expire) q ∙ idle) refl
            | no q ↦
                IsNode-same j _ _ _ _ (ground (arith, find-erase j k s.idtonode v.sorted)) refl
                  (v.nodes j z)
          ];
        },
      )

  pub next-At : (k : ℕ) (r : Option ℕ) (m : Map (Context W)) → IsNext k r m → At (suc k) r m
  next-At k none m n = n
  next-At k (some j) m n = n

  pub At-same :
      (lo : ℕ) (r : Option ℕ) (m p : Map (Context W))
      → ((j : ℕ) → lo ≤ j → find j p ≡ find j m)
      → At lo r m
      → At lo r p
  At-same lo none m p e a = λ i h. e i h ∙ a i h
  At-same lo (some k) m p e (le, (c, at), gap) = (le, (c, e k le ∙ at), λ i h l. e i h ∙ gap i h l)

  pub state_of :
      {o : Option (Context W)} {c d : Context W} {st : NodeState}
      → o ≡ some c
      → o ≡ some d
      → c.state ≡ st
      → d.state ≡ st
  state_of {c} {d} a b h = let same : c ≡ d = cc in ap (λ (x : Context W). x.state) (sym same) ∙ h

  -- The fuel that a node at the iterator still needs.
  abbrev pub Fuel : ℕ → ℕ → Option ℕ → Sys W → Type 0
  Fuel bound fuel o s =
      (k : ℕ)
      → o ≡ some k
      → (2 * (bound - k) ≤ fuel)
        ⊎ ((2 * (bound - k) ≤ fuel + 1)
            × ((c : Context W) → find k s.idtonode ≡ some c → c.state ≢ ready))

  pub Fuel-less :
      (bound fuel k : ℕ) (s : Sys W) → Fuel bound fuel (some k) s → 2 * (bound - k) ≤ fuel + 1
  Fuel-less bound fuel k s f = elim (f k refl) [ inl h ↦ omega arith | inr h ↦ h.0 ]
