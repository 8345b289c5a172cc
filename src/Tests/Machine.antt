-- ===== src/Tests/Machine.antt =====
-- A machine with two contexts in its memory, and the switch between them.
use cpp_coroutine.Common.{ℕ, ◌+◌, ◌≡◌, ◌≤◌, inl, inr, refl, Option, some, arith}
use cpp_coroutine.Coroutine.{Registers, Memory, Machine, context, switch}
use cpp_coroutine.Coroutine.Switch.{
  returning, enter, switch_back, switch_saves, switch_frame, switch-Apart, switch_self,
}
use cpp_coroutine.Coroutine.Create.{
  create_coroutine, alloc_size, context_size, starting, create_starts,
}

-- The registers hold their numbers, but for the arguments of the call and the stack.
abbrev registers : ℕ → ℕ → ℕ → Registers
registers cur next stack = record {
  rax = 1;
  rbx = 2;
  rcx = 3;
  rdx = 4;
  rsi = next;
  rdi = cur;
  r8 = 8;
  r9 = 9;
  r10 = 10;
  r11 = 11;
  r12 = 12;
  r13 = 13;
  r14 = 14;
  r15 = 15;
  rbp = 16;
  rsp = stack;
  rip = 17;
}

-- Every word of the memory holds its address.
abbrev first : Machine
first = record { regs = registers 1000 2000 5000; mem = λ a. a }

abbrev second : Machine
second = record { regs = registers 2000 1000 7000; mem = (switch first).mem }

switch_back_example : (switch second).regs ≡ enter (returning first)
switch_back_example = switch_back first second refl (inr (omega arith)) (λ a lo hi. refl)

switch_saves_run : context (switch first).mem 1000 ≡ returning first
switch_saves_run = switch_saves first

switch_frame_run : (switch first).mem 1136 ≡ 1136
switch_frame_run = switch_frame first 1136 (inr (omega arith))

first_entered : (switch first).regs ≡ enter (context (λ a. a) 2000)
first_entered = switch-Apart first (inl (omega arith))

abbrev alone : Machine
alone = record first { regs = registers 1000 1000 5000 }

alone_returns : (switch alone).regs ≡ enter (returning alone)
alone_returns = switch_self alone refl

abbrev calloc : ℕ → Option ℕ
calloc n = some 4096

abbrev made : Memory
made = (create_coroutine calloc 102400 77 99 (λ a. a)).1

abbrev starter : Machine
starter = record { regs = registers 1000 4096 5000; mem = made }

create_starts_example :
    ((create_coroutine calloc 102400 77 99 (λ a. a)).0 ≡ some 4096)
    × ((switch starter).regs ≡ enter (starting 77 99 106496))
    × (4096 + context_size ≤ 106496)
    × (106496 + context_size ≡ 4096 + alloc_size 102400)
create_starts_example =
    create_starts calloc 102400 77 99 4096 (λ a. a) starter refl (omega arith) (omega arith) refl
      (inl (omega arith)) (λ a lo hi. refl)
