-- ===== src/ExpireMgr/Spec.antt =====
-- lib/eventmgr/ExpireMgr.h seen from outside: a partial map from ids to deadlines, and its earliest
-- entry.
use cpp_coroutine.Common.{
  ℕ, suc, ◌-◌, ◌+◌, ◌%◌, ◌^◌, ◌≤◌, ◌<◌, ◌≡◌, ◌⊎◌, inl, inr, ◌≢◌, true, [], ◌∷◌, Option, none, some,
  ◌==◌, arith, refl, subst, if◌then◌else◌, Bool-cases, Option-cases,
}
use cpp_coroutine.OrderedMap.{Map, IdSet, find, IsSorted, All}
use cpp_coroutine.OrderedMap.Laws.{find_below}
use cpp_coroutine.Util.{time_expire}
use cpp_coroutine.Util.Timer.{Timeval, timer_ms, get_ms}
use cpp_coroutine.ExpireMgr.{ExpireMgr, IsLinked, IsFull, listed, del, set, next_wait_time}
use cpp_coroutine.ExpireMgr.Links.{listed-find, find-del, find-set}

-- The deadline of an id.
abbrev pub deadline : ExpireMgr → ℕ → Option ℕ
deadline m id = find id m.id_to_expire

-- The time that `NextWaitTime` reads.
abbrev pub clock : Timeval → ℕ
clock now = get_ms (timer_ms 0 now)

-- On linked maps `Set` and `Del` act on the map from ids to deadlines as an update and a removal
-- of the one entry; the new deadline is the time of the clock and the wait, modulo 2^64.
pub deadline-set-del :
    (m : ExpireMgr) (now : Timeval) (expire id j : ℕ)
    → IsLinked m
    → (deadline (set m now expire id) j
        ≡ (if id == j then some ((clock now + expire) % 2 ^ 64) else deadline m j))
      × (deadline (del m id) j ≡ (if id == j then none else deadline m j))
deadline-set-del m now expire id j l = (find-set m now expire id j l, find-del m id j l)

head-le {ℓ} :
    {V : Type ℓ} (k j : ℕ) (v : V) (m : Map V)
    → IsSorted ((k, v) ∷ m)
    → {w : V} → find j ((k, v) ∷ m) ≡ some w
    → k ≤ j
unfolding find
head-le k j v m s h = ground (arith, find_below j (suc k) m s.1)

-- No id has an earlier deadline; among those with the same one, none is smaller.
abbrev pub IsFirst : ExpireMgr → ℕ → ℕ → Type 0
IsFirst m id e =
    (deadline m id ≡ some e) × ((j x : ℕ) → deadline m j ≡ some x → (e < x) ⊎ ((e ≡ x) × (id ≤ j)))

-- The three answers of `NextWaitTime`.
abbrev pub Next : ExpireMgr → ℕ → ℕ × ℕ → Type 0
Next m now r =
    (((j : ℕ) → deadline m j ≡ none) × (r ≡ (time_expire, 0)))
    ⊎ ((id e : ℕ) × IsFirst m id e
        × (((now < e) × (r ≡ (e - now, 0))) ⊎ ((e ≤ now) × (r ≡ (0, id)))))

listed_head :
    (e id : ℕ) (ids : IdSet) (rest : Map IdSet) → listed e id ((e, (id, tt) ∷ ids) ∷ rest) ≡ true
unfolding listed find
listed_head e id ids rest = ground arith

find-head {ℓ} :
    {V : Type ℓ} (a b : ℕ) (v w : V) (m : Map V)
    → find b ((a, v) ∷ m) ≡ some w
    → (a == b) ≡ true
    → w ≡ v
unfolding find
find-head a b v w m h same = ground arith

not-listed-nil : (x j : ℕ) → listed x j [] ≢ true
unfolding listed find
not-listed-nil x j h = cc

-- What is listed comes no earlier than the head of the map.
listed-first :
    (e id j x : ℕ) (ids : IdSet) (rest : Map IdSet)
    → IsSorted ((e, (id, tt) ∷ ids) ∷ rest)
    → IsSorted ((id, tt) ∷ ids)
    → listed x j ((e, (id, tt) ∷ ids) ∷ rest) ≡ true
    → (e < x) ⊎ ((e ≡ x) × (id ≤ j))
listed-first e id j x ids rest s si h =
    let (found, at_x, at_j) = listed-find x j ((e, (id, tt) ∷ ids) ∷ rest) h in
    elim (Bool-cases (e == x)) [
      | inl same ↦ inr (
        ground arith,
        head-le id j tt ids si (
            subst (λ l. find j l ≡ some tt) (find-head e x ((id, tt) ∷ ids) found rest at_x same)
              at_j),
      )
      | inr other ↦ inl (ground (arith, head-le e x ((id, tt) ∷ ids) rest s at_x))
    ]

-- On linked maps `NextWaitTime` answers by the earliest deadline: with none it gives
-- `TIME_EXPIRE`, with one ahead the time that is left, and with one that is reached the smallest
-- id that has it.
pub next_wait_time-Next :
    (m : ExpireMgr) (t : Timeval) → IsLinked m → Next m (clock t) (next_wait_time m t)
unfolding next_wait_time
next_wait_time-Next m t l = go m.expire_to_id refl
  where
    go : (x : Map IdSet) → m.expire_to_id ≡ x → Next m (clock t) (next_wait_time m t)
    go [] h =
        rw (h, next_wait_time)
          (inl (
            λ j. elim (Option-cases (deadline m j)) [
              | inl e ↦ e
              | inr (x, e) ↦
                  absurd
                    (not-listed-nil x j (subst (λ y. listed x j y ≡ true) h ((l.linked j x).0 e)))
            ],
            refl,
          ))
    go ((e, []) ∷ rest) h = absurd ((subst (All IsFull) h l.full_sets).0.0 refl)
    go ((e, (id, u) ∷ ids) ∷ rest) h =
        rw (h, next_wait_time)
          (inr (
            id,
            e,
            (
              (l.linked id e).1 (rw h (listed_head e id ids rest)),
              λ j x d.
                  listed-first e id j x ids rest (subst IsSorted h l.expires_sorted)
                    (subst (All IsFull) h l.full_sets).0.1
                    (subst (λ y. listed x j y ≡ true) h ((l.linked j x).0 d)),
            ),
            ground arith,
          ))
