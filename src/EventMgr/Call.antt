-- ===== src/EventMgr/Call.antt =====
-- A function that a callback calls and that may wait, as those of lib/eventmgr/EventMgr.cpp: a tree
-- of what it does with the shared data and of its calls of `WaitAndSchedule`.
pub mod Laws
pub mod Bodies
use cpp_coroutine.Common.{ℕ, Option, none, some}
use cpp_coroutine.CoroutineMgr.{Body, act, wait_ms}

pub data Call (W : Type 0) (A : Type 0) : Type 0 where
  ret : A → Call W A
  fault : Call W A
  step : (W → W) → (W → Call W A) → Call W A
  sleep : ℕ → Call W A → Call W A

-- Where a call stands when control leaves it: it has returned, or faulted, or waits.
pub data Pause (W : Type 0) (A : Type 0) : Type 0 where
  returns : A → W → Pause W A
  faulted : Pause W A
  waits : ℕ → Call W A → W → Pause W A

infixl 5 ◌>>=◌ ◌>>◌
abbrev pub ◌>>=◌ : {W A B : Type 0} → Call W A → (A → Call W B) → Call W B
ret a >>= f = f a
fault >>= f = fault
step g k >>= f = step g (λ w. k w >>= f)
sleep ms c >>= f = sleep ms (c >>= f)

abbrev pub ◌>>◌ : {W A B : Type 0} → Call W A → Call W B → Call W B
c >> d = c >>= λ _. d

module _ {W : Type 0} where
  -- The shared data.
  abbrev pub shared : Call W W
  shared = step (λ w. w) ret

  abbrev pub change : (W → W) → Call W (Unit {0})
  change f = step f (λ _. ret tt)

  -- A call of the system: a result and the new state.
  abbrev pub ask : {A : Type 0} → (W → A × W) → Call W A
  ask f = step (λ w. (f w).1) (λ w. ret (f w).0)

  -- A value that must be there.
  abbrev pub need : {A : Type 0} → Option A → Call W A
  need none = fault
  need (some a) = ret a

  -- `WaitAndSchedule`
  abbrev pub pause : ℕ → Call W (Unit {0})
  pause ms = sleep ms (ret tt)

  module _ {A : Type 0} where
    -- A call runs until it waits or ends.
    unfoldable pub until_wait : Call W A → W → Pause W A
    until_wait (ret a) w = returns a w
    until_wait fault w = faulted
    until_wait (step f k) w = until_wait (k w) (f w)
    until_wait (sleep ms c) w = waits ms c w

    -- No path of the call faults.
    abbrev pub NoFault : Call W A → Type 0
    NoFault (ret a) = Unit
    NoFault fault = ⊥
    NoFault (step f k) = (w : W) → NoFault (k w)
    NoFault (sleep ms c) = NoFault c

    -- Such a call is a part of a callback.
    unfoldable pub as_body : (c : Call W A) → NoFault c → (A → Body W) → Body W
    as_body (ret a) n k = k a
    as_body fault n k = elim n [ ]
    as_body (step f g) n k = act f (λ w. as_body (g w) (n w) k)
    as_body (sleep ms c) n k = wait_ms ms (as_body c n k)
