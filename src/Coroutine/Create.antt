-- ===== src/Coroutine/Create.antt =====
-- lib/coroutine/coroutine.c: the block that holds a context and its stack. `calloc` is an argument:
-- the address of the zeroed block of a size, or nothing.
use cpp_coroutine.Common.{
  ℕ, ◌+◌, ◌*◌, ◌-◌, ◌%◌, ◌^◌, ◌≤◌, ◌<◌, ◌≡◌, ◌∙◌, ap, sym, subst, ◌&&◌, Option, none, some, ◌==◌,
  ltb, leb, if◌then◌else◌, arith,
}
use cpp_coroutine.Coroutine.{Registers, Machine, Memory, context, switch, write}
use cpp_coroutine.Coroutine.Switch.{
  Apart, Agree, enter, switch-Apart, context-Agree, context-values,
}

-- `g_stack_size` at the start of the program, and `SetStackSize`.
abbrev pub default_stack_size : ℕ
default_stack_size = 100 * 1024

unfoldable pub set_stack_size : ℕ → ℕ → ℕ
set_stack_size size g_stack_size = size

-- `DeleteCoroutine`; `free` is an argument.
unfoldable pub delete_coroutine : {M : Type 0} → (ℕ → M → M) → ℕ → M → M
delete_coroutine free ptr m = free ptr m

-- `sizeof(struct stContext)`
abbrev pub context_size : ℕ
context_size = 152

-- `int size`, as `calloc` takes it: a negative number becomes a huge `size_t`.
unfoldable pub alloc_size : ℕ → ℕ
alloc_size g_stack_size =
    let size = (g_stack_size + context_size) % 2 ^ 32 in
    if ltb size (2 ^ 31) then size else size + 2 ^ 64 - 2 ^ 32

-- The zeroed block.
abbrev pub zeroed : ℕ → ℕ → Memory → Memory
zeroed c size mem a = if leb c a && ltb a (c + size) then 0 else mem a

-- `CreateCoroutine`: the assignments in the order of the code; `arg` stands behind the registers.
unfoldable pub create_coroutine : (ℕ → Option ℕ) → ℕ → ℕ → ℕ → Memory → Option ℕ × Memory
create_coroutine calloc g_stack_size entry arg mem = elim (calloc (alloc_size g_stack_size)) [
  | none ↦ (none, mem)
  | some c ↦ (
    some c,
    write (c + 120) (c + g_stack_size) (
        write (c + 112) 0 (
          write (c + 40) arg (
            write (c + 128) entry (write (c + 136) arg (zeroed c (alloc_size g_stack_size) mem))))),
  )
]

-- The registers with which a new coroutine starts.
abbrev pub starting : ℕ → ℕ → ℕ → Registers
starting entry arg top = record {
  rax = 0;
  rbx = 0;
  rcx = 0;
  rdx = 0;
  rsi = 0;
  rdi = arg;
  r8 = 0;
  r9 = 0;
  r10 = 0;
  r11 = 0;
  r12 = 0;
  r13 = 0;
  r14 = 0;
  r15 = 0;
  rbp = 0;
  rsp = top;
  rip = entry;
}

-- The words that `CreateCoroutine` leaves, by their offsets.
abbrev created_words : ℕ → ℕ → ℕ → ℕ → ℕ
created_words entry arg top k =
    if k == 120 then top else if k == 40 then arg else if k == 128 then entry else 0

created_read :
    (calloc : ℕ → Option ℕ) (g entry arg c k : ℕ) (mem : Memory)
    → calloc (alloc_size g) ≡ some c
    → g + context_size < 2 ^ 31
    → k < 136
    → (create_coroutine calloc g entry arg mem).1 (c + k) ≡ created_words entry arg (c + g) k
unfolding create_coroutine alloc_size
created_read calloc g entry arg c k mem e h l = ground arith

created_context :
    (calloc : ℕ → Option ℕ) (g entry arg c : ℕ) (mem : Memory)
    → calloc (alloc_size g) ≡ some c
    → g + context_size < 2 ^ 31
    → context (create_coroutine calloc g entry arg mem).1 c ≡ starting entry arg (c + g)
created_context calloc g entry arg c mem e h =
    context-values c (create_coroutine calloc g entry arg mem).1 (created_words entry arg (c + g))
      (λ k l. created_read calloc g entry arg c k mem e h l)

-- `CreateCoroutine` with a block from `calloc`, a stack size of at least `sizeof(stContext)` and
-- a sum below 2^31 gives a context of which the first switch, from a context apart from it and
-- with its words unchanged, jumps to the entry with the argument in `rdi`, all other registers 0
-- but `rax`, and a stack pointer behind the context and `sizeof(stContext)` before the end of the
-- block.
pub create_starts :
    (calloc : ℕ → Option ℕ) (g entry arg c : ℕ) (mem : Memory) (m : Machine)
    → calloc (alloc_size g) ≡ some c
    → context_size ≤ g
    → g + context_size < 2 ^ 31
    → m.regs.rsi ≡ c
    → Apart m.regs.rdi c
    → Agree c m.mem (create_coroutine calloc g entry arg mem).1
    → ((create_coroutine calloc g entry arg mem).0 ≡ some c)
      × ((switch m).regs ≡ enter (starting entry arg (c + g)))
      × (c + context_size ≤ c + g)
      × (c + g + context_size ≡ c + alloc_size g)
unfolding create_coroutine alloc_size
create_starts calloc g entry arg c mem m e room h to far same = (
  ground arith,
  switch-Apart m (subst (Apart m.regs.rdi) (sym to) far)
      ∙ ap enter (
          ap (context m.mem) to
          ∙ (context-Agree c _ _ same ∙ created_context calloc g entry arg c mem e h)),
  omega arith,
  ground arith,
)
