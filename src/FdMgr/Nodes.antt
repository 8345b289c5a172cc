-- ===== src/FdMgr/Nodes.antt =====
-- lib/eventmgr/FdMgr.h: what a pointer `stFdData*` into the table of `CFdMgr` stands for. A node is
-- named by its key, which no other node has; reading and writing through the pointer compare
-- nothing else.
use cpp_coroutine.Common.{Bool, ◌&&◌, [], ◌∷◌, Option, none, some, if◌then◌else◌}
use cpp_coroutine.Common.Int.{ℤ}
use cpp_coroutine.FdKey.{FdKey, key_lt, ip_port_eq, fd_eq}
use cpp_coroutine.FdMgr.{Table, lower_bound, fd_key, FdData}

-- The same node.
unfoldable pub key_same : FdKey → FdKey → Bool
key_same a b = ip_port_eq a.ip_port b.ip_port && fd_eq a.socket_fd b.socket_fd

module _ {ℓ} {V : Type ℓ} where
  -- The node that `find` points to.
  unfoldable pub find_node : FdKey → Table V → Option FdKey
  unfolding lower_bound
  find_node k m = elim (lower_bound k m) [
    | [] ↦ none
    | (j, v) ∷ _ ↦ if key_lt k j then none else some j
  ]

  -- Reading through a pointer; `none` for one that dangles.
  unfoldable pub load : FdKey → Table V → Option V
  unfolding key_same
  load k [] = none
  load k ((j, v) ∷ m) = if key_same j k then some v else load k m

  -- Writing through a pointer.
  unfoldable pub store : FdKey → V → Table V → Table V
  unfolding key_same
  store k v [] = []
  store k v ((j, w) ∷ m) = if key_same j k then (j, v) ∷ m else (j, w) ∷ store k v m

-- The pointer that `Get(fd)` returns.
unfoldable pub node_of : ℤ → Table FdData → Option FdKey
unfolding find_node
node_of fd m = find_node (fd_key fd) m
