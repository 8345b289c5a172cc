-- ===== src/EventMgr/Call/Laws.antt =====
-- Calls in sequence.
use cpp_coroutine.Common.{◌≡◌, refl}
use cpp_coroutine.EventMgr.Call.{
  Call, ret, fault, step, sleep, Pause, returns, faulted, waits, until_wait, ◌>>=◌, NoFault,
}

module _ {W A B : Type 0} where
  -- How a sequence stands after its first part.
  abbrev pub then_do : Pause W A → (A → Call W B) → Pause W B
  then_do (returns a w) f = until_wait (f a) w
  then_do faulted f = faulted
  then_do (waits ms c w) f = waits ms (c >>= f) w

  pub until_wait->>= :
      (c : Call W A) (f : A → Call W B) (w : W)
      → until_wait (c >>= f) w ≡ then_do (until_wait c w) f
  unfolding until_wait
  until_wait->>= (ret a) f w = refl
  until_wait->>= fault f w = refl
  until_wait->>= (step g k) f w = until_wait->>= (k w) f (g w)
  until_wait->>= (sleep ms c) f w = refl

  pub NoFault->>= :
      (c : Call W A) (f : A → Call W B) → NoFault c → ((a : A) → NoFault (f a)) → NoFault (c >>= f)
  NoFault->>= (ret a) f n h = h a
  NoFault->>= fault f n h = n
  NoFault->>= (step g k) f n h = λ w. NoFault->>= (k w) f (n w) h
  NoFault->>= (sleep ms c) f n h = NoFault->>= c f n h
