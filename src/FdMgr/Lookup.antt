-- ===== src/FdMgr/Lookup.antt =====
-- lib/eventmgr/FdMgr.h: the lookups of the descriptor table. A table is seen as its two parts: the
-- entries with no address, by descriptor, and behind them those of connections, by address.
use cpp_coroutine.Common.{
  ℕ, suc, ◌≡◌, ◌↔◌, ◌<◌, ◌⊎◌, inl, inr, refl, true, false, List, [], ◌∷◌, Option, none, some, ◌==◌,
  ltb, if◌then◌else◌, arith, Bool-cases,
}
use cpp_coroutine.OrderedMap
use cpp_coroutine.OrderedMap.{Map, From, IsSorted}
use cpp_coroutine.OrderedMap.Laws.{find_below}
use cpp_coroutine.FdKey.{FdKey, IpPort, key_lt, ip_port_eq, ip_port_lt, ip_port_empty}
use cpp_coroutine.FdKey.Order.{
  plain_key, conn_key, addr_key, plain-lt-plain, plain-lt-conn, conn-lt-plain, plain-lt-addr,
  conn-lt-addr, addr-lt-conn, ip_port_lt_irrefl, ip_port_lt_trans, ip_port_lt_total,
  eq_of_ip_port_eq,
}
use cpp_coroutine.FdMgr.{Table, find, lower_bound}

abbrev pub Conns {ℓ} : Type ℓ → Type ℓ
Conns V = List (IpPort × ℕ × V)

module _ {ℓ} {V : Type ℓ} where
  abbrev pub conn_entries : Conns V → Table V
  conn_entries [] = []
  conn_entries ((a, g, v) ∷ cs) = (conn_key a g, v) ∷ conn_entries cs

  abbrev pub table : Map V → Conns V → Table V
  table [] cs = conn_entries cs
  table ((f, v) ∷ ps) cs = (plain_key f, v) ∷ table ps cs

  -- The addresses are not empty, rise, and come after the bound.
  abbrev pub After : IpPort → Conns V → Type 0
  After a [] = Unit
  After a ((b, g, v) ∷ cs) = (ip_port_lt a b ≡ true) × (ip_port_empty b ≡ false) × After b cs

  abbrev pub IsOrdered : Conns V → Type 0
  IsOrdered [] = Unit
  IsOrdered ((a, g, v) ∷ cs) = (ip_port_empty a ≡ false) × After a cs

  -- The entry of an address.
  abbrev pub find_conn : IpPort → Conns V → Option V
  find_conn a [] = none
  find_conn a ((b, g, v) ∷ cs) = if ip_port_eq b a then some v else find_conn a cs

  -- All descriptors with no address are below the bound.
  abbrev pub Under : ℕ → Map V → Type 0
  Under f [] = Unit
  Under f ((j, v) ∷ ps) = (j < f) × Under f ps

  -- The first connection has the descriptor.
  abbrev pub Heads : ℕ → V → Conns V → Type ℓ
  Heads f v cs = (a : IpPort) × (rest : Conns V) × (cs ≡ (a, f, v) ∷ rest)

module _ {V : Type 0} where
  pub find_step :
      (k j : FdKey) (v : V) (m : Table V)
      → find k ((j, v) ∷ m) ≡ (if key_lt j k then find k m else if key_lt k j then none else some v)
  unfolding find lower_bound
  find_step k j v m = ground arith

  pub find-nil : (k : FdKey) → find {V = V} k [] ≡ none
  unfolding find lower_bound
  find-nil k = refl

  pub find_fd_plain-From :
      (lo f : ℕ) (ps : Map V) (cs : Conns V) (v : V)
      → From lo ps
      → OrderedMap.find f ps ≡ some v
      → find (plain_key f) (table ps cs) ≡ some v
  unfolding OrderedMap.find
  find_fd_plain-From lo f [] cs v s h = cc
  find_fd_plain-From lo f ((j, w) ∷ ps) cs v s h = ground (
    arith,
    find_step (plain_key f) (plain_key j) w (table ps cs),
    plain-lt-plain j f,
    plain-lt-plain f j,
    find_below f (suc j) ps s.1,
    find_fd_plain-From (suc j) f ps cs v s.1,
  )

  -- The answer when no entry without address has the descriptor.
  abbrev pub first_conn : ℕ → Conns V → Option V
  first_conn f [] = none
  first_conn f ((a, g, v) ∷ cs) = if f == g then some v else none

  abbrev pub answer : ℕ → Map V → Conns V → Option V
  answer f [] cs = first_conn f cs
  answer f ((j, w) ∷ ps) cs = if ltb j f then answer f ps cs else none

  pub find-answer-From :
      (lo f : ℕ) (ps : Map V) (cs : Conns V)
      → From lo ps
      → IsOrdered cs
      → OrderedMap.find f ps ≡ none
      → find (plain_key f) (table ps cs) ≡ answer f ps cs
  unfolding OrderedMap.find
  find-answer-From lo f [] [] s o h = find-nil (plain_key f)
  find-answer-From lo f [] ((a, g, w) ∷ cs) s o h = ground (
    arith,
    find_step (plain_key f) (conn_key a g) w (conn_entries cs),
    conn-lt-plain a o.0 f g,
    plain-lt-conn a o.0 f g,
  )
  find-answer-From lo f ((j, w) ∷ ps) cs s o h = ground (
    arith,
    find_step (plain_key f) (plain_key j) w (table ps cs),
    plain-lt-plain j f,
    plain-lt-plain f j,
    find-answer-From (suc j) f ps cs s.1 o,
  )

  first_conn-Heads : (f : ℕ) (v : V) (cs : Conns V) → (first_conn f cs ≡ some v) ↔ Heads f v cs
  first_conn-Heads f v [] = (λ e. cc, λ e. cc (e.2))
  first_conn-Heads f v ((a, g, w) ∷ cs) = (λ e. (a, cs, ground arith), λ e. ground (arith, e.2))

  pub answer-Heads :
      (f : ℕ) (v : V) (ps : Map V) (cs : Conns V)
      → (answer f ps cs ≡ some v) ↔ (Under f ps × Heads f v cs)
  answer-Heads f v [] cs =
      (λ e. (tt, (first_conn-Heads f v cs).0 e), λ e. (first_conn-Heads f v cs).1 e.1)
  answer-Heads f v ((j, w) ∷ ps) cs = elim (Bool-cases (ltb j f)) [
    | inl lo ↦ (
      λ e. let r = (answer-Heads f v ps cs).0 (ground arith) in ((ground arith, r.0), r.1),
      λ e. rw lo ((answer-Heads f v ps cs).1 (e.0.1, e.1)),
    )
    | inr hi ↦ (λ e. absurd (ground arith), λ e. absurd (ground arith))
  ]

  -- Behind the bound there is no entry for the bound or for what comes before it.
  pub find_conn_before :
      (a b : IpPort) (cs : Conns V)
      → After b cs
      → (ip_port_lt a b ≡ true) ⊎ (a ≡ b)
      → find_conn a cs ≡ none
  find_conn_before a b [] o h = refl
  find_conn_before a b ((c, g, w) ∷ cs) o h =
      let lt : ip_port_lt a c ≡ true = lt_of h in
      ground
        (arith, find_conn_before a c cs o.2 (inl lt), eq_of_ip_port_eq c a, ip_port_lt_irrefl a)
    where
      lt_of : (ip_port_lt a b ≡ true) ⊎ (a ≡ b) → ip_port_lt a c ≡ true
      lt_of (inl l) = ip_port_lt_trans a b c l o.0
      lt_of (inr e) = rw e o.0

  pub After-IsOrdered : (a : IpPort) (cs : Conns V) → After a cs → IsOrdered cs
  After-IsOrdered a [] o = tt
  After-IsOrdered a ((b, g, w) ∷ cs) o = (o.1, o.2)

  find_conn_entries :
      (a : IpPort) (cs : Conns V)
      → ip_port_empty a ≡ false
      → IsOrdered cs
      → find (addr_key a) (conn_entries cs) ≡ find_conn a cs
  find_conn_entries a [] full o = find-nil (addr_key a)
  find_conn_entries a ((b, g, w) ∷ cs) full o = ground (
    arith,
    find_step (addr_key a) (conn_key b g) w (conn_entries cs),
    conn-lt-addr b o.0 a full g,
    addr-lt-conn a full b o.0 g,
    ip_port_lt_irrefl a,
    eq_of_ip_port_eq b a,
    ip_port_lt_total b a,
    find_conn_before a b cs o.1,
    find_conn_entries a cs full (After-IsOrdered b cs o.1),
  )

  -- A lookup by address finds the entry of the address, wherever it stands.
  pub find_addr :
      (a : IpPort) (ps : Map V) (cs : Conns V)
      → ip_port_empty a ≡ false
      → IsOrdered cs
      → find (addr_key a) (table ps cs) ≡ find_conn a cs
  find_addr a [] cs full o = find_conn_entries a cs full o
  find_addr a ((j, w) ∷ ps) cs full o = ground (
    arith,
    find_step (addr_key a) (plain_key j) w (table ps cs),
    plain-lt-addr a full j,
    find_addr a ps cs full o,
  )
