-- ===== src/ExpireMgr.antt =====
-- lib/eventmgr/ExpireMgr.h, `CExpireMgr`: the coroutines that wait, by deadline and by id. The two
-- maps are kept side by side. The time that `CTimerMS().GetMs()` reads is an argument.
pub mod Links
pub mod Spec
use cpp_coroutine.Common.{
  ℕ, ◌+◌, ◌-◌, ◌%◌, ◌^◌, ◌≡◌, ◌≢◌, ◌↔◌, Bool, true, false, ltb, if◌then◌else◌, List, [], ◌∷◌,
  Option, none, some,
}
use cpp_coroutine.OrderedMap.{Map, IdSet, find, put, erase, IsSorted, All}
use cpp_coroutine.Util.{time_expire}
use cpp_coroutine.Util.Timer.{Timeval, timer_ms, get_ms}

pub record ExpireMgr : Type 0 where
  pub expire_to_id : Map IdSet
  pub id_to_expire : Map ℕ

unfoldable pub empty : ExpireMgr
empty = record { expire_to_id = []; id_to_expire = [] }

-- `it2->second.erase(it3)`, and the entry of the deadline goes with its last id.
unfoldable pub drop_id : ℕ → ℕ → IdSet → Map IdSet → Map IdSet
drop_id id expire ids m = elim (erase id ids) [
  | [] ↦ erase expire m
  | x ∷ rest ↦ put expire (x ∷ rest) m
]

-- `Del`. Each of the three lookups that fails ends the call with nothing changed.
unfoldable pub del : ExpireMgr → ℕ → ExpireMgr
unfolding drop_id
del m id = elim (find id m.id_to_expire) [
  | none ↦ m
  | some expire ↦ elim (find expire m.expire_to_id) [
    | none ↦ m
    | some ids ↦ elim (find id ids) [
      | none ↦ m
      | some _ ↦ record {
        expire_to_id = drop_id id expire ids m.expire_to_id;
        id_to_expire = erase id m.id_to_expire;
      }
    ]
  ]
]

-- `m_expire_to_id[expire]`: a set that is not there is made.
abbrev pub ids_at : ℕ → Map IdSet → IdSet
ids_at expire m = elim (find expire m) [ none ↦ [] | some ids ↦ ids ]

unfoldable pub add : ExpireMgr → ℕ → ℕ → ExpireMgr
add m id expire = record {
  expire_to_id = put expire (put id tt (ids_at expire m.expire_to_id)) m.expire_to_id;
  id_to_expire = put id expire m.id_to_expire;
}

-- `Set`, the call of the clock given `now`.
unfoldable pub set : ExpireMgr → Timeval → ℕ → ℕ → ExpireMgr
set m now expire id = add (del m id) id ((get_ms (timer_ms 0 now) + expire) % 2 ^ 64)

-- `NextWaitTime`: the two results are the values left in `ms` and `id`.
unfoldable pub next_wait_time : ExpireMgr → Timeval → ℕ × ℕ
next_wait_time m now = elim m.expire_to_id [
  | [] ↦ (time_expire, 0)
  | (first, ids) ∷ rest ↦
      if ltb (get_ms (timer_ms 0 now)) first
      then (first - get_ms (timer_ms 0 now), 0)
      else elim ids [ [] ↦ (0, 0) | (id, _) ∷ _ ↦ (0, id) ]
]

-- Whether the set of a deadline holds an id.
unfoldable pub listed : ℕ → ℕ → Map IdSet → Bool
listed expire id m = elim (find id (ids_at expire m)) [ none ↦ false | some _ ↦ true ]

-- A set of the map is sorted and not empty.
abbrev pub IsFull : ℕ → IdSet → Type 0
IsFull expire ids = (ids ≢ []) × IsSorted ids

-- The two maps say the same.
pub record IsLinked (m : ExpireMgr) : Type 0 where
  pub ids_sorted : IsSorted m.id_to_expire
  pub expires_sorted : IsSorted m.expire_to_id
  pub full_sets : All IsFull m.expire_to_id
  pub linked :
      (id expire : ℕ)
      → (find id m.id_to_expire ≡ some expire) ↔ (listed expire id m.expire_to_id ≡ true)
