-- ===== src/FdMgr/Pointers.antt =====
-- lib/eventmgr/FdMgr.h: the pointer that a lookup returns leads to the value that it found.
use cpp_coroutine.Common.{
  ◌≡◌, refl, true, false, [], ◌∷◌, none, some, arith, if◌then◌else◌, ◌∙◌, Bool-cases, inl, inr,
}
use cpp_coroutine.Common.Int.{ℤ, pos, negsuc}
use cpp_coroutine.FdKey.{FdKey, key_lt, fd_eq}
use cpp_coroutine.FdKey.Order.{eq_of_ip_port_eq, ip_port_eq_refl}
use cpp_coroutine.FdMgr.{Table, lower_bound, find}
use cpp_coroutine.FdMgr.Nodes.{key_same, find_node, load}

eq_of_fd_eq : (a b : ℤ) → fd_eq a b ≡ true → a ≡ b
unfolding fd_eq
eq_of_fd_eq (pos a) (pos b) h = ground arith
eq_of_fd_eq (negsuc a) (negsuc b) h = ground arith
eq_of_fd_eq (pos a) (negsuc b) h = cc
eq_of_fd_eq (negsuc a) (pos b) h = cc

fd_eq_refl : (a : ℤ) → fd_eq a a ≡ true
unfolding fd_eq
fd_eq_refl (pos a) = ground arith
fd_eq_refl (negsuc a) = ground arith

eq_of_key_same : (a b : FdKey) → key_same a b ≡ true → a ≡ b
unfolding key_same
eq_of_key_same a b h =
    ground (arith, eq_of_ip_port_eq a.ip_port b.ip_port, eq_of_fd_eq a.socket_fd b.socket_fd)

key_same_refl : (k : FdKey) → key_same k k ≡ true
unfolding key_same
key_same_refl k = rw (ip_port_eq_refl k.ip_port, fd_eq_refl k.socket_fd)

module _ {V : Type 0} where
  pub find_node-none : (k : FdKey) (m : Table V) → find k m ≡ none → find_node k m ≡ none
  unfolding find find_node
  find_node-none k m h = ground arith

  find-nil : (k : FdKey) → find {V = V} k [] ≡ none
  unfolding find lower_bound
  find-nil k = refl

  find-step :
      (k j : FdKey) (v : V) (m : Table V)
      → find k ((j, v) ∷ m) ≡ (if key_lt j k then find k m else if key_lt k j then none else some v)
  unfolding find lower_bound
  find-step k j v m = ground arith

  find_node-step :
      (k j : FdKey) (v : V) (m : Table V)
      → find_node k ((j, v) ∷ m)
        ≡ (if key_lt j k then find_node k m else if key_lt k j then none else some j)
  unfolding find_node lower_bound
  find_node-step k j v m = ground arith

  load-step :
      (k j : FdKey) (v : V) (m : Table V)
      → load k ((j, v) ∷ m) ≡ (if key_same j k then some v else load k m)
  unfolding load
  load-step k j v m = refl

  -- The node that is found is not less than the key, so that the search passed no node like it.
  pub load-find_node :
      (k : FdKey) (v : V) (m : Table V)
      → find k m ≡ some v
      → (p : FdKey) × (find_node k m ≡ some p) × (load p m ≡ some v) × (key_lt p k ≡ false)
  load-find_node k v [] h = absurd (cc (find-nil k, h))
  load-find_node k v ((j, w) ∷ m) h = elim (Bool-cases (key_lt j k)) [
    | inl less ↦
        let (p, at, here, no_less) = load-find_node k v m (ground (arith, find-step k j w m)) in
        (
          p,
          find_node-step k j w m ∙ rw (less, at),
          ground (arith, load-step p j w m, eq_of_key_same j p),
          no_less,
        )
    | inr more ↦ elim (Bool-cases (key_lt k j)) [
      | inl after ↦ absurd (ground (arith, find-step k j w m))
      | inr here ↦ (
        j,
        find_node-step k j w m ∙ rw (more, here),
        ground (arith, load-step j j w m, key_same_refl j, find-step k j w m),
        more,
      )
    ]
  ]
