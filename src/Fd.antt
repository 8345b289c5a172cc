-- ===== src/Fd.antt =====
-- lib/eventmgr/Fd.h and Fd.cpp: `stFd`, which closes its descriptor, and the objects of `CFd` that
-- share it by `shared_ptr`. `none` is a fault: an object that does not live.
pub mod Counts
pub mod Objects
pub mod Making
pub mod Sequences
pub mod Sockets
pub mod Entries
use cpp_coroutine.Common.{
  ℕ, ◌+◌, ◌-◌, List, [], ◌∷◌, Option, none, some, ◌==◌, if◌then◌else◌, Bool, not,
}
use cpp_coroutine.Common.Int.{ℤ, pos, negsuc, ltb_ℤ}
use cpp_coroutine.OrderedMap
use cpp_coroutine.OrderedMap.{Map}
use cpp_coroutine.CoroutineMgr.{◌>>=◌}

-- An `stFd` with the number of pointers that share it.
pub record Shared : Type 0 where
  pub fd : ℤ
  pub owners : ℕ

-- The live objects of `CFd` with what they point to, the live `stFd`, the address of the next one,
-- and the descriptors for which `close` was called, the last one first.
pub record Handles : Type 0 where
  pub objects : Map ℕ
  pub shared : Map Shared
  pub next : ℕ
  pub closed : List ℕ

-- `~stFd`
unfoldable pub close_fd : ℤ → List ℕ → List ℕ
close_fd (negsuc n) l = l
close_fd (pos n) l = n ∷ l

-- `new stFd(fd)`, with one pointer to it.
unfoldable pub new_fd : ℤ → Handles → Handles
new_fd fd h = record h {
  shared = OrderedMap.put h.next (record { fd = fd; owners = 1 }) h.shared;
  next = h.next + 1;
}

-- One more pointer.
unfoldable pub share : ℕ → Handles → Option Handles
share a h = do
  c ← OrderedMap.find a h.shared
  some (record h { shared = OrderedMap.put a (record c { owners = c.owners + 1 }) h.shared })

-- One pointer less; the last one takes the `stFd` with it.
unfoldable pub release : ℕ → Handles → Option Handles
unfolding close_fd
release a h = do
  c ← OrderedMap.find a h.shared
  some (
      if c.owners == 1
      then record h { shared = OrderedMap.erase a h.shared; closed = close_fd c.fd h.closed }
      else record h { shared = OrderedMap.put a (record c { owners = c.owners - 1 }) h.shared })

-- `CFd(int fd)`; `CFd()` is that with -1.
unfoldable pub construct : ℕ → ℤ → Handles → Handles
unfolding new_fd
construct x fd h = record (new_fd fd h) { objects = OrderedMap.put x h.next h.objects }

-- `CFd(const CFd &obj)`
unfoldable pub copy_construct : ℕ → ℕ → Handles → Option Handles
unfolding share
copy_construct y x h = do
  a ← OrderedMap.find x h.objects
  t ← share a h
  some (record t { objects = OrderedMap.put y a t.objects })

-- `operator=`: the pointer is copied, then the old one released.
unfoldable pub assign : ℕ → ℕ → Handles → Option Handles
unfolding share release
assign y x h = if x == y then some h else (do
  a ← OrderedMap.find x h.objects
  b ← OrderedMap.find y h.objects
  t ← share a h
  release b (record t { objects = OrderedMap.put y a t.objects }))

-- `SetNewfd`
unfoldable pub set_newfd : ℕ → ℤ → Handles → Option Handles
unfolding new_fd release
set_newfd x fd h = do
  b ← OrderedMap.find x h.objects
  release b (record (new_fd fd h) { objects = OrderedMap.put x h.next h.objects })

-- `~CFd`
unfoldable pub destroy : ℕ → Handles → Option Handles
unfolding release
destroy x h = do
  a ← OrderedMap.find x h.objects
  release a (record h { objects = OrderedMap.erase x h.objects })

-- `CFd::Get`
unfoldable pub get : ℕ → Handles → Option ℤ
get x h = do a ← OrderedMap.find x h.objects; c ← OrderedMap.find a h.shared; some c.fd

-- `operator!=`: of two live objects, whether they share no `stFd`.
unfoldable pub differs : ℕ → ℕ → Handles → Option Bool
differs x y h = do
  a ← OrderedMap.find x h.objects
  b ← OrderedMap.find y h.objects
  some (not (a == b))

-- `operator<`, by the descriptors.
unfoldable pub less : ℕ → ℕ → Handles → Option Bool
unfolding get
less x y h = do a ← get x h; b ← get y h; some (ltb_ℤ a b)

-- `empty`
unfoldable pub is_empty : ℕ → Handles → Option Bool
unfolding get
is_empty x h = do a ← get x h; some (ltb_ℤ a (pos 0))
