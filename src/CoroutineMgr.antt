-- ===== src/CoroutineMgr.antt =====
-- lib/eventmgr/CoroutineMgr.h and CoroutineMgr.cpp: the table of coroutines and the scheduler. What
-- a callback does is a `Body`; its code, at the address that `m_cb` holds, is an argument, and so is
-- the clock. `none` is a fault: a null or dangling pointer that is used, or a coroutine that returns
-- into nothing.
pub mod Invariant
pub mod Slices
pub mod Rounds
pub mod Start
use cpp_coroutine.Common.{
  ℕ, zero, suc, ◌+◌, ◌-◌, ◌%◌, ◌^◌, true, false, List, [], ◌∷◌, Option, none, some, ◌==◌,
  if◌then◌else◌,
}
use cpp_coroutine.Common.Int.{ℤ, pos}
use cpp_coroutine.OrderedMap
use cpp_coroutine.OrderedMap.{Map, find, put, after}
use cpp_coroutine.Util.{IoResult, io_ok, io_err, NodeState, ready, wait, end}
use cpp_coroutine.Util.Timer.{Timeval}
use cpp_coroutine.Util.MemData.{MemData}
use cpp_coroutine.ExpireMgr
use cpp_coroutine.ExpireMgr.{ExpireMgr}
use cpp_coroutine.FdMgr.{SockAddr}

-- `stReqData`; `m_cb` is the address of the callback, 0 for `NULL`.
pub record ReqData : Type 0 where
  pub recvdata : MemData
  pub remoteaddr : SockAddr
  pub id : ℕ
  pub server_socket : ℤ
  pub m_cb : ℕ

-- The constructor of `stReqData`.
abbrev pub req_data : ReqData
req_data = record {
  recvdata = record { bytes = []; offset = 0 };
  remoteaddr = record { s_addr = 0; sin_port = 0 };
  id = 0;
  server_socket = pos 0;
  m_cb = 0;
}

-- The rest of a callback: it returns, works on what the program shares and goes on by what it
-- found, or calls `WaitAndSchedule` and goes on when it is resumed.
pub data Body (W : Type 0) : Type 0 where
  finish : Body W
  act : (W → W) → (W → Body W) → Body W
  wait_ms : ℕ → Body W → Body W

-- Where the saved registers of a context lead: to `Entry`, into a wait, behind the end of `Entry`,
-- or into the main loop, whose context is stored while another one runs.
pub data Saved (W : Type 0) : Type 0 where
  fresh : Saved W
  paused : Body W → Saved W
  stopped : Saved W
  main : Saved W

-- `CoroutineContext`; the methods of `m_timer` have no caller.
pub record Context (W : Type 0) : Type 0 where
  pub coroutine : Saved W
  pub req : ReqData
  pub state : NodeState

-- `CoroutineMgr` with `CExpireMgr` and what the callbacks share. `active` is the key of the node
-- that `m_active` points to, and any number before `Init`.
pub record Sys (W : Type 0) : Type 0 where
  pub idtonode : Map (Context W)
  pub active : ℕ
  pub staticid : ℕ
  pub expire : ExpireMgr
  pub world : W

infixl 5 ◌>>=◌
abbrev pub ◌>>=◌ {ℓ κ} : {A : Type ℓ} {B : Type κ} → Option A → (A → Option B) → Option B
none >>= f = none
some a >>= f = f a

module _ {W : Type 0} where
  -- The manager before `Init`; `m_active` holds any value.
  unfoldable pub initial : ℕ → W → Sys W
  unfolding ExpireMgr.empty
  initial garbage w = record {
    idtonode = [];
    active = garbage;
    staticid = 2 ^ 32 - 1;
    expire = ExpireMgr.empty;
    world = w;
  }

  -- The constructor of `CoroutineContext`.
  abbrev pub context : Context W
  context = record { coroutine = fresh; req = req_data; state = ready }

  -- The node of `m_idtonode[id]`.
  abbrev pub node_at : ℕ → Map (Context W) → Context W
  node_at id m = elim (find id m) [ none ↦ context | some c ↦ c ]

  -- `Create`: the id of the new node is the new `staticid`, and wraps.
  unfoldable pub create : Sys W → Sys W
  create s =
      let id = (s.staticid + 1) % 2 ^ 32 in
      let c = node_at id s.idtonode in
      record s {
        idtonode = put id (record c { req = record (c.req) { id = id } }) s.idtonode;
        staticid = id;
      }

  -- `Destroy`
  unfoldable pub destroy : Sys W → ℕ → IoResult × Sys W
  destroy s id = elim (find id s.idtonode) [
    | none ↦ (io_err, s)
    | some _ ↦ (io_ok, record s { idtonode = OrderedMap.erase id s.idtonode })
  ]

  -- A change of the node that a pointer names by its key.
  unfoldable pub update : ℕ → (Context W → Context W) → Sys W → Option (Sys W)
  update id f s = do c ← find id s.idtonode; some (record s { idtonode = put id (f c) s.idtonode })

  -- `SetReady`
  unfoldable pub set_ready : Sys W → ℕ → Option (Sys W)
  set_ready s id = do
    t ← update id (λ c. record c { state = ready }) s
    some (record t { expire = ExpireMgr.del t.expire id })

  -- `Init`; the switch of a context to itself returns at once. The context of the new node becomes
  -- that of the caller.
  unfoldable pub init : Sys W → IoResult × Sys W
  unfolding create
  init s = elim s.idtonode [
    | [] ↦
        let t = create s in
        let c = node_at t.staticid t.idtonode in
        if t.staticid == 0
        then (
          io_ok,
          record t {
            idtonode = put t.staticid (record c { coroutine = main }) t.idtonode;
            active = t.staticid;
          },
        )
        else (io_err, t)
    | _ ∷ _ ↦ (io_err, s)
  ]

  -- The switch of `Schedule()` back to the main loop: the registers of the active coroutine are
  -- stored, and node 0 becomes active.
  unfoldable pub leave : Saved W → Sys W → Option (Sys W)
  leave at s = do
    t ← update s.active (λ c. record c { coroutine = at }) s
    some (record t { active = 0 })

  -- `begin()`
  abbrev pub first_id : Map (Context W) → Option ℕ
  first_id [] = none
  first_id ((k, c) ∷ m) = some k

  module _ (clock : W → Timeval) where
    -- `WaitAndSchedule` up to its `Schedule`.
    unfoldable pub begin_wait : ℕ → Sys W → Option (Sys W)
    begin_wait ms s = do
      c ← find s.active s.idtonode
      update s.active (λ c. record c { state = wait })
          (record s { expire = ExpireMgr.set s.expire (clock s.world) ms c.req.id })

    -- A coroutine runs until control is back in the main loop. At the end of the callback `Entry`
    -- marks the node and schedules; with no node 0 `Schedule` returns to its caller.
    unfoldable pub run : Body W → Sys W → Option (Sys W)
    run finish s = do
      t ← update s.active (λ c. record c { state = end }) s
      elim (find 0 t.idtonode) [ none ↦ none | some _ ↦ leave stopped t ]
    run (act f k) s = run (k s.world) (record s { world = f s.world })
    run (wait_ms ms b) s = do
      t ← begin_wait ms s
      elim (find 0 t.idtonode) [ none ↦ run b t | some _ ↦ leave (paused b) t ]

    module _ (callback : ℕ → ReqData → Body W) where
      -- `Entry`, with the address of the request of a node.
      unfoldable pub entry : ReqData → Sys W → Option (Sys W)
      entry rd s = do
        _ ← find rd.id s.idtonode
        if rd.m_cb == 0 then none else run (callback rd.m_cb rd) (record s { active = rd.id })

      -- `Schedule(CoroutineContext&)` as the main loop calls it, up to its return.
      unfoldable pub switch_to : ℕ → Sys W → Option (Sys W)
      switch_to id s = do
        c ← find id s.idtonode
        let t = record s { active = id }
        elim c.coroutine [
          | fresh ↦ entry c.req t
          | paused b ↦ run b t
          | stopped ↦ none
          | main ↦ some t
        ]

      -- `Schedule(uint32_t)`: an id that is not in the table is passed over.
      unfoldable pub schedule : ℕ → Sys W → Option (Sys W)
      schedule id s = elim (find id s.idtonode) [ none ↦ some s | some _ ↦ switch_to id s ]

      -- The loop of `ScheduleAll` at an iterator, `none` for `end()`. With no fuel left it gives
      -- `none` too.
      unfoldable pub schedule_from : ℕ → Option ℕ → Sys W → Option (Sys W)
      schedule_from fuel none s = some s
      schedule_from zero (some k) s = none
      schedule_from (suc fuel) (some k) s = elim (find k s.idtonode) [
        | none ↦ none
        | some c ↦ elim (k == 0) [
          | true ↦ schedule_from fuel (after k s.idtonode) s
          | false ↦ elim c.state [
            | ready ↦ elim (switch_to k s) [ none ↦ none | some t ↦ schedule_from fuel (some k) t ]
            | end ↦ schedule_from fuel (after k s.idtonode) (destroy s c.req.id).1
            | wait ↦ schedule_from fuel (after k s.idtonode) s
          ]
        ]
      ]

      -- `ScheduleAll`
      unfoldable pub schedule_all : ℕ → Sys W → Option (Sys W)
      schedule_all fuel s = schedule_from fuel (first_id s.idtonode) s
