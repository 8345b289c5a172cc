-- ===== src/ExpireMgr/Links.antt =====
-- lib/eventmgr/ExpireMgr.h: `Del`, `Add` and `Set` on the two maps of `CExpireMgr`.
use cpp_coroutine.Common.{
  ℕ, ◌+◌, ◌%◌, ◌^◌, ◌≡◌, ◌≢◌, true, false, if◌then◌else◌, [], ◌∷◌, none, some, ◌==◌, arith, refl,
  subst, Option-cases, inl, inr,
}
use cpp_coroutine.OrderedMap.{Map, IdSet, find, put, erase, IsSorted, All}
use cpp_coroutine.OrderedMap.Laws.{
  find-put, find-erase, put-IsSorted, erase-IsSorted, All-put, All-erase, All-find, put-ne-nil,
}
use cpp_coroutine.Util.Timer.{Timeval, timer_ms, get_ms}
use cpp_coroutine.ExpireMgr.{
  ExpireMgr, IsLinked, IsFull, listed, ids_at, drop_id, del, add, set, empty,
}

-- Putting an id into the set of a deadline.
listed-add :
    (e id e' id' : ℕ) (m : Map IdSet)
    → listed e' id' (put e (put id tt (ids_at e m)) m)
      ≡ (if e == e' then (if id == id' then true else listed e' id' m) else listed e' id' m)
unfolding listed
listed-add e id e' id' m =
    ground (arith, find-put e' e (put id tt (ids_at e m)) m, find-put id' id tt (ids_at e m))

listed-drop_id :
    (e id e' id' : ℕ) (ids : IdSet) (m : Map IdSet)
    → IsSorted m
    → IsSorted ids
    → find e m ≡ some ids
    → listed e' id' (drop_id id e ids m)
      ≡ (if e == e' then (if id == id' then false else listed e' id' m) else listed e' id' m)
unfolding listed drop_id
listed-drop_id e id e' id' ids m sm si h =
    ground (arith, find-put e' e (erase id ids) m, find-erase id' id ids si, find-erase e' e m sm)

-- What a listed id shows.
pub listed-find :
    (e id : ℕ) (m : Map IdSet)
    → listed e id m ≡ true
    → (ids : IdSet) × (find e m ≡ some ids) × (find id ids ≡ some tt)
unfolding listed find
listed-find e id m h = elim (Option-cases (find e m)) [
  | inl none_e ↦ absurd (ground arith)
  | inr (ids, some_e) ↦ (ids, some_e, ground arith)
]

-- On linked maps the lookups of `Del` succeed or fail together.
pub data Deleted (m : ExpireMgr) (id : ℕ) : ExpireMgr → Type 0 where
  absent : find id m.id_to_expire ≡ none → Deleted m id m
  present :
      (expire : ℕ) (ids : IdSet)
      → find id m.id_to_expire ≡ some expire
      → find expire m.expire_to_id ≡ some ids
      → Deleted m id (record {
        expire_to_id = drop_id id expire ids m.expire_to_id;
        id_to_expire = erase id m.id_to_expire;
      })

del-Deleted : (m : ExpireMgr) (id : ℕ) → IsLinked m → Deleted m id (del m id)
unfolding del listed
del-Deleted m id l = elim (Option-cases (find id m.id_to_expire)) [
  | inl e ↦ rw (e, del) (absent e)
  | inr (x, e) ↦
      let (ids, e2, e3) = listed-find x id m.expire_to_id ((l.linked id x).0 e) in
      rw (e, e2, e3, del) (present x ids e e2)
]

drop_id_cases {ℓ} :
    (P : Map IdSet → Type ℓ) (id e : ℕ) (ids : IdSet) (m : Map IdSet)
    → P (erase e m)
    → ((rest : IdSet) → rest ≢ [] → erase id ids ≡ rest → P (put e rest m))
    → P (drop_id id e ids m)
unfolding drop_id
drop_id_cases P id e ids m gone kept = go (erase id ids) refl
  where
    go : (l : IdSet) → erase id ids ≡ l → P (drop_id id e ids m)
    go [] h = rw (h, drop_id) gone
    go (x ∷ rest) h = rw (h, drop_id) (kept (x ∷ rest) (λ p. cc) h)

drop_id-IsSorted :
    (id e : ℕ) (ids : IdSet) (m : Map IdSet) → IsSorted m → IsSorted (drop_id id e ids m)
drop_id-IsSorted id e ids m s =
    drop_id_cases IsSorted id e ids m (erase-IsSorted e m s) (λ rest _ _. put-IsSorted e rest m s)

drop_id-IsFull :
    (id e : ℕ) (ids : IdSet) (m : Map IdSet)
    → IsSorted ids
    → All IsFull m
    → All IsFull (drop_id id e ids m)
drop_id-IsFull id e ids m s f =
    drop_id_cases (All IsFull) id e ids m (All-erase IsFull e m f)
      (λ rest ne h. All-put IsFull e rest m (ne, subst IsSorted h (erase-IsSorted id ids s)) f)

-- `Del` of any id, known or not, keeps the two maps of `CExpireMgr` linked.
pub del-IsLinked : (m : ExpireMgr) (id : ℕ) → IsLinked m → IsLinked (del m id)
del-IsLinked m id l = go (del-Deleted m id l)
  where
    full_set : (x : ℕ) {ids : IdSet} → find x m.expire_to_id ≡ some ids → IsSorted ids
    full_set x e = (All-find IsFull x m.expire_to_id l.full_sets e).1

    go : {n : ExpireMgr} → Deleted m id n → IsLinked n
    go (absent e) = l
    go (present x ids e e2) = record {
      ids_sorted = erase-IsSorted id m.id_to_expire l.ids_sorted;
      expires_sorted = drop_id-IsSorted id x ids m.expire_to_id l.expires_sorted;
      full_sets = drop_id-IsFull id x ids m.expire_to_id (full_set x e2) l.full_sets;
      linked = λ j x'. (
        λ h. ground (
          arith,
          h,
          find-erase j id m.id_to_expire l.ids_sorted,
          listed-drop_id x id x' j ids m.expire_to_id l.expires_sorted (full_set x e2) e2,
          (l.linked j x').0,
        ),
        λ h. ground (
          arith,
          h,
          find-erase j id m.id_to_expire l.ids_sorted,
          listed-drop_id x id x' j ids m.expire_to_id l.expires_sorted (full_set x e2) e2,
          (l.linked j x').1,
        ),
      );
    }

ids_at-IsSorted : (x : ℕ) (m : Map IdSet) → All IsFull m → IsSorted (ids_at x m)
ids_at-IsSorted x m f = elim (Option-cases (find x m)) [
  | inl e ↦ rw (e, ids_at) tt
  | inr (ids, e) ↦ rw (e, ids_at) ((All-find IsFull x m f e).1)
]

-- Adding an id that has no deadline keeps the maps linked.
pub add-IsLinked :
    (m : ExpireMgr) (id expire : ℕ)
    → find id m.id_to_expire ≡ none
    → IsLinked m
    → IsLinked (add m id expire)
unfolding add
add-IsLinked m id x fresh l = record {
  ids_sorted = put-IsSorted id x m.id_to_expire l.ids_sorted;
  expires_sorted = put-IsSorted x _ m.expire_to_id l.expires_sorted;
  full_sets =
      All-put IsFull x _ m.expire_to_id
        (
          put-ne-nil id tt (ids_at x m.expire_to_id),
          put-IsSorted id tt (ids_at x m.expire_to_id)
              (ids_at-IsSorted x m.expire_to_id l.full_sets),
        )
        l.full_sets;
  linked = λ j x'. (
    λ h. ground (
      arith,
      h,
      find-put j id x m.id_to_expire,
      listed-add x id x' j m.expire_to_id,
      (l.linked j x').0,
    ),
    λ h. ground (
      arith,
      h,
      fresh,
      find-put j id x m.id_to_expire,
      listed-add x id x' j m.expire_to_id,
      (l.linked j x').1,
    ),
  );
}

-- What a deletion leaves of the deadlines.
pub find-del :
    (m : ExpireMgr) (id j : ℕ)
    → IsLinked m
    → find j (del m id).id_to_expire ≡ (if id == j then none else find j m.id_to_expire)
find-del m id j l = go (del-Deleted m id l)
  where
    go :
        {n : ExpireMgr}
        → Deleted m id n
        → find j n.id_to_expire ≡ (if id == j then none else find j m.id_to_expire)
    go (absent e) = ground (arith, e)
    go (present x ids e e2) = find-erase j id m.id_to_expire l.ids_sorted

-- `Set` keeps the two maps of `CExpireMgr` linked: sorted, with no empty set, and with the same
-- pairs.
pub set-IsLinked :
    (m : ExpireMgr) (now : Timeval) (expire id : ℕ) → IsLinked m → IsLinked (set m now expire id)
unfolding set
set-IsLinked m now expire id l =
    add-IsLinked (del m id) id _ (ground (arith, find-del m id id l)) (del-IsLinked m id l)

pub find-set :
    (m : ExpireMgr) (now : Timeval) (expire id j : ℕ)
    → IsLinked m
    → find j (set m now expire id).id_to_expire ≡ (
        if id == j
        then some ((get_ms (timer_ms 0 now) + expire) % 2 ^ 64)
        else find j m.id_to_expire)
unfolding set add
find-set m now expire id j l = ground (
  arith,
  find-put j id ((get_ms (timer_ms 0 now) + expire) % 2 ^ 64) (del m id).id_to_expire,
  find-del m id j l,
)

pub empty-IsLinked : IsLinked empty
unfolding empty listed find
empty-IsLinked = record {
  ids_sorted = tt;
  expires_sorted = tt;
  full_sets = tt;
  linked = λ id x. (λ h. cc, λ h. cc);
}
