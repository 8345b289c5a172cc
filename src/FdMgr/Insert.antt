-- ===== src/FdMgr/Insert.antt =====
-- lib/eventmgr/FdMgr.h: `insert` of an entry of either kind into the descriptor table.
use mathlib.Core.Option
use cpp_coroutine.Common.{
  ℕ, suc, ◌≡◌, ◌≢◌, refl, Bool, true, false, [], ◌∷◌, none, some, if◌then◌else◌, arith,
}
use cpp_coroutine.OrderedMap
use cpp_coroutine.OrderedMap.{Map, From, IsSorted}
use cpp_coroutine.FdKey.{IpPort, FdKey, key_lt, ip_port_lt, ip_port_eq, ip_port_empty}
use cpp_coroutine.FdKey.Order.{
  plain_key, conn_key, plain-lt-plain, plain-lt-conn, conn-lt-plain, conn-lt-conn, ip_port_lt_total,
  eq_of_ip_port_eq,
}
use cpp_coroutine.FdMgr.{Table, insert, insert_from}
use cpp_coroutine.FdMgr.Lookup.{
  Conns, conn_entries, table, After, IsOrdered, find_conn, After-IsOrdered,
}

module _ {V : Type 0} where
  insert_step :
      (before : Bool) (k j : FdKey) (v w : V) (m : Table V)
      → insert_from before k v ((j, w) ∷ m) ≡ (
          if key_lt k j
          then (if before then some ((k, v) ∷ (j, w) ∷ m) else none)
          else Option.map (◌∷◌ (j, w)) (insert_from (key_lt j k) k v m))
  unfolding insert_from
  insert_step before k j v w m = refl

  insert_end : (k : FdKey) (v : V) → insert_from true k v [] ≡ some ((k, v) ∷ [])
  unfolding insert_from
  insert_end k v = refl

  -- No connection has the descriptor.
  abbrev pub FreshFd : ℕ → Conns V → Type 0
  FreshFd f [] = Unit
  FreshFd f ((a, g, w) ∷ cs) = (g ≢ f) × FreshFd f cs

  insert_plain-From :
      (lo f : ℕ) (v : V) (ps : Map V) (cs : Conns V)
      → From lo ps
      → IsOrdered cs
      → OrderedMap.find f ps ≡ none
      → FreshFd f cs
      → insert_from true (plain_key f) v (table ps cs) ≡ some (table (OrderedMap.put f v ps) cs)
  unfolding OrderedMap.find OrderedMap.put
  insert_plain-From lo f v [] [] s o h n = insert_end (plain_key f) v
  insert_plain-From lo f v [] ((a, g, w) ∷ cs) s o h n = ground (
    arith,
    insert_step true (plain_key f) (conn_key a g) v w (conn_entries cs),
    plain-lt-conn a o.0 f g,
    n.0,
  )
  insert_plain-From lo f v ((j, w) ∷ ps) cs s o h n = ground (
    arith,
    insert_step true (plain_key f) (plain_key j) v w (table ps cs),
    plain-lt-plain f j,
    plain-lt-plain j f,
    insert_plain-From (suc j) f v ps cs s.1 o,
  )

  -- `insert` with a descriptor that is not in the table adds it to the first part.
  pub insert_plain :
      (f : ℕ) (v : V) (ps : Map V) (cs : Conns V)
      → IsSorted ps
      → IsOrdered cs
      → OrderedMap.find f ps ≡ none
      → FreshFd f cs
      → insert (plain_key f) v (table ps cs) ≡ some (table (OrderedMap.put f v ps) cs)
  unfolding insert
  insert_plain f v ps cs s o h n = insert_plain-From 0 f v ps cs s o h n

  abbrev pub insert_conn : IpPort → ℕ → V → Conns V → Conns V
  insert_conn a f v [] = (a, f, v) ∷ []
  insert_conn a f v ((b, g, w) ∷ cs) =
      if ip_port_lt a b then (a, f, v) ∷ (b, g, w) ∷ cs else (b, g, w) ∷ insert_conn a f v cs

  insert_conn_entries :
      (a : IpPort) (f : ℕ) (v : V) (cs : Conns V)
      → ip_port_empty a ≡ false
      → IsOrdered cs
      → FreshFd f cs
      → find_conn a cs ≡ none
      → insert_from true (conn_key a f) v (conn_entries cs)
        ≡ some (conn_entries (insert_conn a f v cs))
  insert_conn_entries a f v [] full o n h = insert_end (conn_key a f) v
  insert_conn_entries a f v ((b, g, w) ∷ cs) full o n h = ground (
    arith,
    insert_step true (conn_key a f) (conn_key b g) v w (conn_entries cs),
    conn-lt-conn a full b o.0 f g,
    conn-lt-conn b o.0 a full g f,
    ip_port_lt_total b a,
    insert_conn_entries a f v cs full (After-IsOrdered b cs o.1) n.1,
  )

  insert_conn_from :
      (a : IpPort) (f : ℕ) (v : V) (ps : Map V) (cs : Conns V)
      → ip_port_empty a ≡ false
      → IsOrdered cs
      → FreshFd f cs
      → find_conn a cs ≡ none
      → OrderedMap.find f ps ≡ none
      → insert_from true (conn_key a f) v (table ps cs) ≡ some (table ps (insert_conn a f v cs))
  unfolding OrderedMap.find
  insert_conn_from a f v [] cs full o n h p = insert_conn_entries a f v cs full o n h
  insert_conn_from a f v ((j, w) ∷ ps) cs full o n h p = ground (
    arith,
    insert_step true (conn_key a f) (plain_key j) v w (table ps cs),
    conn-lt-plain a full j f,
    plain-lt-conn a full j f,
    insert_conn_from a f v ps cs full o n h,
  )

  -- `insert` with an address and a descriptor that are not in the table adds it to the second part.
  pub insert_addr :
      (a : IpPort) (f : ℕ) (v : V) (ps : Map V) (cs : Conns V)
      → ip_port_empty a ≡ false
      → IsOrdered cs
      → FreshFd f cs
      → find_conn a cs ≡ none
      → OrderedMap.find f ps ≡ none
      → insert (conn_key a f) v (table ps cs) ≡ some (table ps (insert_conn a f v cs))
  unfolding insert
  insert_addr a f v ps cs full o n h p = insert_conn_from a f v ps cs full o n h p

  insert_conn-After :
      (a c : IpPort) (f : ℕ) (v : V) (cs : Conns V)
      → ip_port_empty a ≡ false
      → ip_port_lt c a ≡ true
      → find_conn a cs ≡ none
      → After c cs
      → After c (insert_conn a f v cs)
  insert_conn-After a c f v [] full lt h o = (lt, full, tt)
  insert_conn-After a c f v ((b, g, w) ∷ cs) full lt h o =
      ground (arith, ip_port_lt_total b a, insert_conn-After a b f v cs full)

  pub insert_conn-IsOrdered :
      (a : IpPort) (f : ℕ) (v : V) (cs : Conns V)
      → ip_port_empty a ≡ false
      → find_conn a cs ≡ none
      → IsOrdered cs
      → IsOrdered (insert_conn a f v cs)
  insert_conn-IsOrdered a f v [] full h o = (full, tt)
  insert_conn-IsOrdered a f v ((b, g, w) ∷ cs) full h o =
      ground (arith, ip_port_lt_total b a, insert_conn-After a b f v cs full)

  -- What the new entry changes for the lookups by address.
  pub find_conn-insert_conn :
      (a c : IpPort) (f : ℕ) (v : V) (cs : Conns V)
      → find_conn a cs ≡ none
      → find_conn c (insert_conn a f v cs) ≡ (if ip_port_eq a c then some v else find_conn c cs)
  find_conn-insert_conn a c f v [] h = refl
  find_conn-insert_conn a c f v ((b, g, w) ∷ cs) h =
      ground (arith, find_conn-insert_conn a c f v cs, eq_of_ip_port_eq a c, eq_of_ip_port_eq b c)
