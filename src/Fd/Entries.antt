-- ===== src/Fd/Entries.antt =====
-- lib/eventmgr/FdMgr.h and EventMgr.h: the objects of `CFd` that `Add` and `Destroy` of the table make and
-- destroy, and those of `NewReq` and `DelFd`. Each object has an address; `node` is that of the member
-- `fd` of the table's entry.
pub mod Owned
pub mod Kept
pub mod Life
pub mod Accepted
use cpp_coroutine.Common.{ℕ, Option, some}
use cpp_coroutine.Common.Int.{pos, negsuc}
use cpp_coroutine.CoroutineMgr.{◌>>=◌}
use cpp_coroutine.Fd
use cpp_coroutine.Fd.{Handles, construct, copy_construct, assign}

-- The objects on the way to the entry: the local `sfd`, and the pair for `insert`.
pub record Temps : Type 0 where
  pub sfd : ℕ
  pub pair : ℕ

-- `Add`, when `insert` finds no entry with the key.
unfoldable pub add_entry : Temps → ℕ → ℕ → Handles → Option Handles
unfolding construct copy_construct assign Fd.destroy
add_entry temps fd node h = do
  a ← assign temps.sfd fd (construct temps.sfd (negsuc 0) h)
  b ← copy_construct temps.pair temps.sfd a
  c ← copy_construct node temps.pair b
  d ← Fd.destroy temps.pair c
  Fd.destroy temps.sfd d

-- `Add(ret)` of `NewReq`: the descriptor goes into an object for the call.
unfoldable pub add_accepted : Temps → ℕ → ℕ → ℕ → Handles → Option Handles
unfolding add_entry construct Fd.destroy
add_accepted temps arg node n h = do
  a ← add_entry temps arg node (construct arg (pos n) h)
  Fd.destroy arg a

-- `Destroy` of the table takes the entry with its object away.
unfoldable pub erase_entry : ℕ → Handles → Option Handles
unfolding Fd.destroy
erase_entry node h = Fd.destroy node h
