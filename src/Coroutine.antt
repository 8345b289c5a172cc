-- ===== src/Coroutine.antt =====
-- lib/coroutine/coroutine.h and switch.s: the registers, the saved context, and the instructions
-- that `__SwitchCoroutine__` and `__GetStack__` use. Memory is read and written in aligned words of eight bytes, at
-- their byte addresses.
pub mod Switch
pub mod Create
pub mod Stack
use cpp_coroutine.Common.{ℕ, ◌+◌, ◌-◌, List, [], ◌∷◌, ◌==◌, if◌then◌else◌}

pub data Reg : Type 0 where
  rax rbx rcx rdx rsi rdi r8 r9 r10 r11 r12 r13 r14 r15 rbp rsp : Reg

-- `stRegister`, as the processor holds it.
pub record Registers : Type 0 where
  pub rax : ℕ
  pub rbx : ℕ
  pub rcx : ℕ
  pub rdx : ℕ
  pub rsi : ℕ
  pub rdi : ℕ
  pub r8 : ℕ
  pub r9 : ℕ
  pub r10 : ℕ
  pub r11 : ℕ
  pub r12 : ℕ
  pub r13 : ℕ
  pub r14 : ℕ
  pub r15 : ℕ
  pub rbp : ℕ
  pub rsp : ℕ
  pub rip : ℕ

abbrev pub Memory : Type 0
Memory = ℕ → ℕ

pub record Machine : Type 0 where
  pub regs : Registers
  pub mem : Memory

abbrev pub write : ℕ → ℕ → Memory → Memory
write a v mem x = if a == x then v else mem x

abbrev pub get : Reg → Registers → ℕ
get Reg.rax r = r.rax
get Reg.rbx r = r.rbx
get Reg.rcx r = r.rcx
get Reg.rdx r = r.rdx
get Reg.rsi r = r.rsi
get Reg.rdi r = r.rdi
get Reg.r8 r = r.r8
get Reg.r9 r = r.r9
get Reg.r10 r = r.r10
get Reg.r11 r = r.r11
get Reg.r12 r = r.r12
get Reg.r13 r = r.r13
get Reg.r14 r = r.r14
get Reg.r15 r = r.r15
get Reg.rbp r = r.rbp
get Reg.rsp r = r.rsp

abbrev pub set : Reg → ℕ → Registers → Registers
set Reg.rax v r = record r { rax = v }
set Reg.rbx v r = record r { rbx = v }
set Reg.rcx v r = record r { rcx = v }
set Reg.rdx v r = record r { rdx = v }
set Reg.rsi v r = record r { rsi = v }
set Reg.rdi v r = record r { rdi = v }
set Reg.r8 v r = record r { r8 = v }
set Reg.r9 v r = record r { r9 = v }
set Reg.r10 v r = record r { r10 = v }
set Reg.r11 v r = record r { r11 = v }
set Reg.r12 v r = record r { r12 = v }
set Reg.r13 v r = record r { r13 = v }
set Reg.r14 v r = record r { r14 = v }
set Reg.r15 v r = record r { r15 = v }
set Reg.rbp v r = record r { rbp = v }
set Reg.rsp v r = record r { rsp = v }

-- The forms of instruction in the routines; the operand on the right is the destination.
pub data Instr : Type 0 where
  mov : Reg → Reg → Instr
  add : ℕ → Reg → Instr
  push : Reg → Instr
  push_at : Reg → Instr
  pop : Reg → Instr
  load : ℕ → Reg → Reg → Instr
  jmp : Reg → Instr
  store : Reg → Reg → Instr
  return : Instr

-- One instruction. Addresses do not wrap; `pop %rsp` leaves the word that it read.
unfoldable pub exec : Instr → Machine → Machine
exec (mov s d) m = record m { regs = set d (get s m.regs) m.regs }
exec (add n d) m = record m { regs = set d (get d m.regs + n) m.regs }
exec (push s) m = record {
  regs = record (m.regs) { rsp = m.regs.rsp - 8 };
  mem = write (m.regs.rsp - 8) (get s m.regs) m.mem;
}
exec (push_at s) m = record {
  regs = record (m.regs) { rsp = m.regs.rsp - 8 };
  mem = write (m.regs.rsp - 8) (m.mem (get s m.regs)) m.mem;
}
exec (pop d) m = record m {
  regs = set d (m.mem m.regs.rsp) (record (m.regs) { rsp = m.regs.rsp + 8 });
}
exec (load n s d) m = record m { regs = set d (m.mem (get s m.regs + n)) m.regs }
exec (jmp s) m = record m { regs = record (m.regs) { rip = get s m.regs } }
exec (store s d) m = record m { mem = write (get d m.regs) (get s m.regs) m.mem }
exec return m = record m { regs = record (m.regs) { rip = m.mem m.regs.rsp; rsp = m.regs.rsp + 8 } }

unfoldable pub run : List Instr → Machine → Machine
run [] m = m
run (i ∷ is) m = run is (exec i m)

-- `__SwitchCoroutine__` up to the last `push`: the context of the caller is stored.
abbrev pub save_code : List Instr
save_code =
    mov Reg.rsp Reg.rax
    ∷ mov Reg.rdi Reg.rsp
    ∷ add 136 Reg.rsp
    ∷ push_at Reg.rax
    ∷ add 8 Reg.rax
    ∷ push Reg.rax
    ∷ push Reg.rbp
    ∷ push Reg.r15
    ∷ push Reg.r14
    ∷ push Reg.r13
    ∷ push Reg.r12
    ∷ push Reg.r11
    ∷ push Reg.r10
    ∷ push Reg.r9
    ∷ push Reg.r8
    ∷ push Reg.rdi
    ∷ push Reg.rsi
    ∷ push Reg.rdx
    ∷ push Reg.rcx
    ∷ push Reg.rbx
    ∷ push Reg.rax
    ∷ []

-- The rest: the context of the next coroutine is loaded.
abbrev pub load_code : List Instr
load_code =
    mov Reg.rsi Reg.rsp
    ∷ pop Reg.rax
    ∷ pop Reg.rbx
    ∷ pop Reg.rcx
    ∷ pop Reg.rdx
    ∷ pop Reg.rsi
    ∷ pop Reg.rdi
    ∷ pop Reg.r8
    ∷ pop Reg.r9
    ∷ pop Reg.r10
    ∷ pop Reg.r11
    ∷ pop Reg.r12
    ∷ pop Reg.r13
    ∷ pop Reg.r14
    ∷ pop Reg.r15
    ∷ pop Reg.rbp
    ∷ load 8 Reg.rsp Reg.rax
    ∷ pop Reg.rsp
    ∷ jmp Reg.rax
    ∷ []

-- `__SwitchCoroutine__(cur, next)`: the arguments stand in `rdi` and `rsi`, the address to return to
-- on the stack.
unfoldable pub switch : Machine → Machine
switch m = run load_code (run save_code m)

-- `__GetStack__(rsp, rbp)`
unfoldable pub get_stack : Machine → Machine
unfolding exec run
get_stack = run (store Reg.rsp Reg.rdi ∷ store Reg.rbp Reg.rsi ∷ return ∷ [])

-- `cpu_register` of the context at an address: the fields at their offsets.
abbrev pub context : Memory → ℕ → Registers
context mem c = record {
  rax = mem c;
  rbx = mem (c + 8);
  rcx = mem (c + 16);
  rdx = mem (c + 24);
  rsi = mem (c + 32);
  rdi = mem (c + 40);
  r8 = mem (c + 48);
  r9 = mem (c + 56);
  r10 = mem (c + 64);
  r11 = mem (c + 72);
  r12 = mem (c + 80);
  r13 = mem (c + 88);
  r14 = mem (c + 96);
  r15 = mem (c + 104);
  rbp = mem (c + 112);
  rsp = mem (c + 120);
  rip = mem (c + 128);
}
