-- ===== src/FdMgr/Plain.antt =====
-- lib/eventmgr/FdMgr.h: pointers to the entries that were added with no address.
use cpp_coroutine.Common.{ℕ, suc, ◌≡◌, refl, [], ◌∷◌, none, some, arith, ◌==◌, if◌then◌else◌}
use cpp_coroutine.Common.Int.{pos}
use cpp_coroutine.OrderedMap
use cpp_coroutine.OrderedMap.{Map, From, IsSorted}
use cpp_coroutine.OrderedMap.Laws.{find_below}
use cpp_coroutine.FdKey.{FdKey, key_lt, ip_port_eq, fd_eq, text_eq}
use cpp_coroutine.FdKey.Order.{plain_key, plain-lt-plain}
use cpp_coroutine.FdMgr.{FdData, Table, lower_bound}
use cpp_coroutine.FdMgr.Lookup.{Conns, table}
use cpp_coroutine.FdMgr.Nodes.{key_same, find_node, load, store, node_of}

same_plain : (j k : ℕ) → key_same (plain_key j) (plain_key k) ≡ (j == k)
unfolding key_same ip_port_eq fd_eq text_eq
same_plain j k = refl

module _ {V : Type 0} where
  load_step :
      (k j : FdKey) (v : V) (m : Table V)
      → load k ((j, v) ∷ m) ≡ (if key_same j k then some v else load k m)
  unfolding load
  load_step k j v m = refl

  store_step :
      (k j : FdKey) (v w : V) (m : Table V)
      → store k v ((j, w) ∷ m) ≡ (if key_same j k then (j, v) ∷ m else (j, w) ∷ store k v m)
  unfolding store
  store_step k j v w m = refl

  find_node_step :
      (k j : FdKey) (v : V) (m : Table V)
      → find_node k ((j, v) ∷ m)
        ≡ (if key_lt j k then find_node k m else if key_lt k j then none else some j)
  unfolding find_node lower_bound
  find_node_step k j v m = ground arith

  pub load-plain :
      (n : ℕ) (v : V) (ps : Map V) (cs : Conns V)
      → OrderedMap.find n ps ≡ some v
      → load (plain_key n) (table ps cs) ≡ some v
  unfolding OrderedMap.find
  load-plain n v [] cs h = cc
  load-plain n v ((j, w) ∷ ps) cs h = ground (
    arith,
    load_step (plain_key n) (plain_key j) w (table ps cs),
    same_plain j n,
    load-plain n v ps cs,
  )

  store-plain-From :
      (lo n : ℕ) (v w : V) (ps : Map V) (cs : Conns V)
      → From lo ps
      → OrderedMap.find n ps ≡ some w
      → store (plain_key n) v (table ps cs) ≡ table (OrderedMap.put n v ps) cs
  unfolding OrderedMap.find OrderedMap.put
  store-plain-From lo n v w [] cs s h = cc
  store-plain-From lo n v w ((j, x) ∷ ps) cs s h = ground (
    arith,
    store_step (plain_key n) (plain_key j) v x (table ps cs),
    same_plain j n,
    find_below n (suc j) ps s.1,
    store-plain-From (suc j) n v w ps cs s.1,
  )

  pub store-plain :
      (n : ℕ) (v w : V) (ps : Map V) (cs : Conns V)
      → IsSorted ps
      → OrderedMap.find n ps ≡ some w
      → store (plain_key n) v (table ps cs) ≡ table (OrderedMap.put n v ps) cs
  store-plain n v w ps cs s h = store-plain-From 0 n v w ps cs s h

  node_of-plain-From :
      (lo n : ℕ) (v : V) (ps : Map V) (cs : Conns V)
      → From lo ps
      → OrderedMap.find n ps ≡ some v
      → find_node (plain_key n) (table ps cs) ≡ some (plain_key n)
  unfolding OrderedMap.find
  node_of-plain-From lo n v [] cs s h = cc
  node_of-plain-From lo n v ((j, w) ∷ ps) cs s h = ground (
    arith,
    find_node_step (plain_key n) (plain_key j) w (table ps cs),
    plain-lt-plain j n,
    plain-lt-plain n j,
    find_below n (suc j) ps s.1,
    node_of-plain-From (suc j) n v ps cs s.1,
  )

pub put-put {ℓ} :
    {V : Type ℓ} (n : ℕ) (v w : V) (m : Map V)
    → OrderedMap.put n v (OrderedMap.put n w m) ≡ OrderedMap.put n v m
unfolding OrderedMap.put
put-put n v w [] = ground arith
put-put n v w ((j, x) ∷ m) = ground (arith, put-put n v w m)

pub node_of-plain :
    (n : ℕ) (v : FdData) (ps : Map FdData) (cs : Conns FdData)
    → IsSorted ps
    → OrderedMap.find n ps ≡ some v
    → node_of (pos n) (table ps cs) ≡ some (plain_key n)
unfolding node_of
node_of-plain n v ps cs s h = node_of-plain-From 0 n v ps cs s h
