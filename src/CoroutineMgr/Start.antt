-- ===== src/CoroutineMgr/Start.antt =====
-- lib/eventmgr/CoroutineMgr.h: how the table starts and grows, by `Init` and `Create`.
use native.Mathlib.Decide.{ℕ_discrete}
use cpp_coroutine.Common.{
  ℕ, ◌+◌, ◌%◌, ◌^◌, ◌≡◌, ◌≢◌, ◌<◌, ◌≤◌, refl, subst, sym, ap, ◌∙◌, [], ◌∷◌, Option, none, some,
  arith,
}
use cpp_coroutine.OrderedMap.{Map, find, put}
use cpp_coroutine.OrderedMap.Laws.{find-put, put-IsSorted}
use cpp_coroutine.Util.{io_ok, io_err, ready}
use cpp_coroutine.ExpireMgr
use cpp_coroutine.ExpireMgr.Links.{empty-IsLinked}
use cpp_coroutine.ExpireMgr.Spec.{deadline}
use cpp_coroutine.CoroutineMgr.{
  Context, Sys, ReqData, req_data, initial, fresh, main, create, init, node_at, update,
}
use cpp_coroutine.CoroutineMgr.Invariant.{IsNode, IsValid, IsNode-same}

no_deadline : (j : ℕ) → deadline ExpireMgr.empty j ≡ none
unfolding ExpireMgr.empty find
no_deadline j = refl

module _ {W : Type 0} where
  -- The state that `Init` leaves.
  abbrev pub started : W → Sys W
  started w = record {
    idtonode = (0, record { coroutine = main; req = req_data; state = ready }) ∷ [];
    active = 0;
    staticid = 0;
    expire = ExpireMgr.empty;
    world = w;
  }

  pub started-IsValid : (w : W) → IsValid (started w)
  unfolding find
  started-IsValid w = record {
    sorted = (omega arith, tt);
    linked = empty-IsLinked;
    at_main = refl;
    main_node = (record { coroutine = main; req = req_data; state = ready }, refl, refl, refl);
    main_timer = no_deadline 0;
    nodes = λ k n. IsNode-same k _ none _ none (ground arith) (no_deadline k) refl;
  }

  -- The ids given out so far.
  pub record Issued (s : Sys W) : Type 0 where
    pub room : s.staticid < 2 ^ 32
    pub issued : (k : ℕ) (c : Context W) → find k s.idtonode ≡ some c → k ≤ s.staticid

  pub init-started : (garbage : ℕ) (w : W) → init (initial garbage w) ≡ (io_ok, started w)
  unfolding init initial put find
  init-started garbage w = refl

  pub started-Issued : (w : W) → Issued (started w)
  unfolding find
  started-Issued w = record { room = omega arith; issued = λ k c e. ground arith }

  -- `Init` on the fresh manager, whatever `m_active` holds, succeeds in a valid state with the
  -- caller as node 0; a second `Init` is refused and changes nothing.
  pub init_lem :
      (garbage : ℕ) (w : W)
      → (t : Sys W) × (init (initial garbage w) ≡ (io_ok, t))
        × IsValid t
        × Issued t
        × (t.staticid ≡ 0)
        × (init t ≡ (io_err, t))
  unfolding init initial put find
  init_lem garbage w = (started w, refl, started-IsValid w, started-Issued w, refl, refl)

  -- The state after `Create`, where the new id is not in use.
  abbrev pub created : Sys W → ℕ → Sys W
  created s id = record s {
    idtonode =
        put id (record { coroutine = fresh; req = record req_data { id = id }; state = ready })
          s.idtonode;
    staticid = id;
  }

  pub create-created :
      (s : Sys W)
      → s.staticid + 1 < 2 ^ 32
      → find (s.staticid + 1) s.idtonode ≡ none
      → create s ≡ created s (s.staticid + 1)
  unfolding create
  create-created s room free =
      let e : (s.staticid + 1) % 2 ^ 32 ≡ s.staticid + 1 = omega arith in
      ap at e ∙ rw (free, node_at)
    where
      at : ℕ → Sys W
      at id =
          let c = node_at id s.idtonode in
          record s {
            idtonode = put id (record c { req = record (c.req) { id = id } }) s.idtonode;
            staticid = id;
          }

  -- `Create` and the assignments to the request of the new node.
  abbrev pub requested : Sys W → ReqData → Option (Sys W)
  requested s req =
      let t = create s in update t.staticid (λ c. record c { req = record req { id = c.req.id } }) t

  -- From a valid state in which all ids up to `staticid` are given out and fewer than 2^32,
  -- `Create` and the request of a callback that is set keep both: the new node is ready under the
  -- next id, which was free and is now the last one given out, and the other nodes and the shared
  -- data stay.
  pub requested_lem :
      (s : Sys W) (req : ReqData)
      → IsValid s
      → Issued s
      → s.staticid + 1 < 2 ^ 32
      → req.m_cb ≢ 0
      → let id = s.staticid + 1 in
        (t : Sys W) × (requested s req ≡ some t)
        × IsValid t
        × Issued t
        × (find id s.idtonode ≡ none)
        × (find id t.idtonode
            ≡ some (record { coroutine = fresh; req = record req { id = id }; state = ready }))
        × ((j : ℕ) → j ≢ id → find j t.idtonode ≡ find j s.idtonode)
        × (t.world ≡ s.world)
        × (t.staticid ≡ s.staticid + 1)
  unfolding update
  requested_lem s req v i room set =
      let id : ℕ = s.staticid + 1 in
      let free : find id s.idtonode ≡ none = unused (find id s.idtonode) refl in
      let c : Context W = record {
        coroutine = fresh;
        req = record req_data { id = id };
        state = ready;
      } in
      let d : Context W = record {
        coroutine = fresh;
        req = record req { id = id };
        state = ready;
      } in
      let m : Map (Context W) = put id d (put id c s.idtonode) in
      let t : Sys W = record s { idtonode = m; staticid = id } in
      let here : find id m ≡ some d = ground (arith, find-put id id d (put id c s.idtonode)) in
      let others : (j : ℕ) → j ≢ id → find j m ≡ find j s.idtonode =
        λ j n. ground (arith, find-put j id d (put id c s.idtonode), find-put j id c s.idtonode) in
      let idle : deadline s.expire id ≡ none =
        subst (λ o. IsNode id o (deadline s.expire id)) free (v.nodes id (omega arith)) in
      let (n, at, named, saved) = v.main_node in
      (
        t,
        rw (create-created s room free, find-put id id c s.idtonode) (ground arith),
        record {
          sorted = put-IsSorted id d (put id c s.idtonode) (put-IsSorted id c s.idtonode v.sorted);
          linked = v.linked;
          at_main = v.at_main;
          main_node = (n, others 0 (omega arith) ∙ at, named, saved);
          main_timer = v.main_timer;
          nodes = λ j z. elim (ℕ_discrete j id) [
            | yes q ↦
                subst (λ k. IsNode k (find k m) (deadline s.expire k)) (sym q)
                  (IsNode-same id (find id m) (some d) (deadline s.expire id) none here idle
                    (refl, set))
            | no q ↦ IsNode-same j _ _ _ _ (others j q) refl (v.nodes j z)
          ];
        },
        record {
          room = room;
          issued = λ k x e. elim (ℕ_discrete k id) [
            | yes q ↦ omega arith
            | no q ↦ omega (arith, i.issued k x (sym (others k q) ∙ e))
          ];
        },
        free,
        here,
        others,
        refl,
        refl,
      )
    where
      unused :
          (o : Option (Context W))
          → find (s.staticid + 1) s.idtonode ≡ o
          → find (s.staticid + 1) s.idtonode ≡ none
      unused none e = e
      unused (some c) e = absurd (omega (arith, i.issued (s.staticid + 1) c e))
