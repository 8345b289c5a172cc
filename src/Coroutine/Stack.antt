-- ===== src/Coroutine/Stack.antt =====
-- lib/coroutine/switch.s: `__GetStack__`.
use cpp_coroutine.Common.{ℕ, ◌+◌, ◌≡◌, ◌≢◌, arith}
use cpp_coroutine.Coroutine.{Machine, get_stack}

-- `__GetStack__` returns to its caller with the stack popped and all other registers as they were.
-- With two addresses that are apart from each other and from that of the address to return to, the
-- first has the stack pointer of the call, eight below that of the caller, the second the caller's
-- `rbp`, and no other word changes.
pub get_stack_lem :
    (m : Machine)
    → m.regs.rdi ≢ m.regs.rsi
    → m.regs.rdi ≢ m.regs.rsp
    → m.regs.rsi ≢ m.regs.rsp
    → let t = get_stack m in
      (t.regs ≡ record (m.regs) { rip = m.mem m.regs.rsp; rsp = m.regs.rsp + 8 })
      × (t.mem m.regs.rdi + 8 ≡ t.regs.rsp)
      × (t.mem m.regs.rsi ≡ m.regs.rbp)
      × ((x : ℕ) → x ≢ m.regs.rdi → x ≢ m.regs.rsi → t.mem x ≡ m.mem x)
unfolding get_stack
get_stack_lem m a b c = (ground arith, ground arith, ground arith, λ x p q. ground arith)
