-- ===== src/Coroutine/Switch.antt =====
-- lib/coroutine/switch.s: the words that a switch stores and those that it loads.
use native.Mathlib.Nat.{add-zero}
use cpp_coroutine.Common.{
  ℕ, zero, suc, ◌+◌, ◌-◌, ◌*◌, ◌≤◌, ◌<◌, ◌≡◌, ◌⊎◌, refl, ap, ap₂, ◌∙◌, sym, inl, inr, List, [], ◌∷◌,
  length, get_or, arith,
}
use cpp_coroutine.Coroutine.{
  Registers, Machine, Memory, context, run, save_code, load_code, switch, exec, write,
}

-- The stack after pushing words, from the address above it on.
push_all : List ℕ → ℕ → Memory → Memory
push_all [] top mem = mem
push_all (v ∷ vs) top mem = push_all vs (top - 8) (write (top - 8) v mem)

-- Pushing writes below the top.
push_all_above :
    (vs : List ℕ) (top : ℕ) (mem : Memory) (a : ℕ)
    → 8 * length vs ≤ top
    → top ≤ a
    → push_all vs top mem a ≡ mem a
unfolding push_all
push_all_above [] top mem a h k = refl
push_all_above (v ∷ vs) top mem a h k =
    push_all_above vs (top - 8) (write (top - 8) v mem) a (omega arith) (omega arith) ∙ ground arith

-- ... and above where it ends.
push_all_below :
    (vs : List ℕ) (top : ℕ) (mem : Memory) (a : ℕ)
    → a + 8 * length vs < top
    → push_all vs top mem a ≡ mem a
unfolding push_all
push_all_below [] top mem a h = refl
push_all_below (v ∷ vs) top mem a h =
    push_all_below vs (top - 8) (write (top - 8) v mem) a (omega arith) ∙ ground arith

-- Words from an address up, the last one first.
abbrev words : ℕ → ℕ → Memory → List ℕ
words zero c mem = []
words (suc n) c mem = mem (c + 8 * n) ∷ words n c mem

words-push_all :
    (vs : List ℕ) (c : ℕ) (mem : Memory)
    → words (length vs) c (push_all vs (c + 8 * length vs) mem) ≡ vs
unfolding push_all
words-push_all [] c mem = refl
words-push_all (v ∷ vs) c mem =
    let e : c + 8 * suc (length vs) - 8 ≡ c + 8 * length vs = omega arith in
    rw e (
      rw
        (
          push_all_above vs (c + 8 * length vs) (write (c + 8 * length vs) v mem)
              (c + 8 * length vs) (omega arith) (omega arith),
          words-push_all vs c (write (c + 8 * length vs) v mem),
        )
        (ground arith))

-- A context as the words of `stRegister`, `rip` first.
abbrev pub regs_of : List ℕ → Registers
regs_of l = record {
  rip = get_or l 0 0;
  rsp = get_or l 1 0;
  rbp = get_or l 2 0;
  r15 = get_or l 3 0;
  r14 = get_or l 4 0;
  r13 = get_or l 5 0;
  r12 = get_or l 6 0;
  r11 = get_or l 7 0;
  r10 = get_or l 8 0;
  r9 = get_or l 9 0;
  r8 = get_or l 10 0;
  rdi = get_or l 11 0;
  rsi = get_or l 12 0;
  rdx = get_or l 13 0;
  rcx = get_or l 14 0;
  rbx = get_or l 15 0;
  rax = get_or l 16 0;
}

context-words : (mem : Memory) (c : ℕ) → context mem c ≡ regs_of (words 17 c mem)
context-words mem c = rw add-zero

-- The words of a context given by their offsets.
abbrev pub values : ℕ → (ℕ → ℕ) → List ℕ
values zero f = []
values (suc n) f = f (8 * n) ∷ values n f

words-values :
    (n c : ℕ) (mem : Memory) (f : ℕ → ℕ)
    → n ≤ 17
    → ((k : ℕ) → k < 136 → mem (c + k) ≡ f k)
    → words n c mem ≡ values n f
words-values zero c mem f k h = refl
words-values (suc n) c mem f k h =
    ap₂ ◌∷◌ (h (8 * n) (omega arith)) (words-values n c mem f (omega arith) h)

pub context-values :
    (c : ℕ) (mem : Memory) (f : ℕ → ℕ)
    → ((k : ℕ) → k < 136 → mem (c + k) ≡ f k)
    → context mem c ≡ regs_of (values 17 f)
context-values c mem f h =
    context-words mem c ∙ ap regs_of (words-values 17 c mem f (omega arith) h)

-- The registers that a caller finds when `__SwitchCoroutine__` returns to it.
abbrev pub returning : Machine → Registers
returning m = record (m.regs) { rax = m.regs.rsp + 8; rsp = m.regs.rsp + 8; rip = m.mem m.regs.rsp }

-- The jump goes through `rax`.
abbrev pub enter : Registers → Registers
enter r = record r { rax = r.rip }

abbrev saved_words : Machine → List ℕ
saved_words m =
    let r = m.regs in
    m.mem r.rsp
    ∷ (r.rsp + 8)
    ∷ r.rbp
    ∷ r.r15
    ∷ r.r14
    ∷ r.r13
    ∷ r.r12
    ∷ r.r11
    ∷ r.r10
    ∷ r.r9
    ∷ r.r8
    ∷ r.rdi
    ∷ r.rsi
    ∷ r.rdx
    ∷ r.rcx
    ∷ r.rbx
    ∷ (r.rsp + 8)
    ∷ []

save_mem : (m : Machine) → (run save_code m).mem ≡ push_all (saved_words m) (m.regs.rdi + 136) m.mem
unfolding run exec push_all
save_mem m = refl

save_context : (m : Machine) → context (run save_code m).mem m.regs.rdi ≡ returning m
save_context m =
    context-words (run save_code m).mem m.regs.rdi
    ∙ rw (save_mem m) (ap regs_of (words-push_all (saved_words m) m.regs.rdi m.mem))

load_regs : (m : Machine) → (run load_code m).regs ≡ enter (context m.mem m.regs.rsi)
unfolding run exec
load_regs m = ground arith

-- Two contexts that share no word.
abbrev pub Apart : ℕ → ℕ → Type 0
Apart a b = (a + 136 ≤ b) ⊎ (b + 136 ≤ a)

load_mem : (m : Machine) → (run load_code m).mem ≡ m.mem
unfolding run exec
load_mem m = refl

save_rsi : (m : Machine) → (run save_code m).regs.rsi ≡ m.regs.rsi
unfolding run exec
save_rsi m = refl

switch_mem : (m : Machine) → (switch m).mem ≡ (run save_code m).mem
unfolding switch
switch_mem m = load_mem (run save_code m)

-- `__SwitchCoroutine__` writes nothing outside the 136 bytes of registers of the caller's
-- context.
pub switch_frame :
    (m : Machine) (a : ℕ) → (a < m.regs.rdi) ⊎ (m.regs.rdi + 136 ≤ a) → (switch m).mem a ≡ m.mem a
switch_frame m a (inl h) =
    rw (switch_mem m, save_mem m)
      (push_all_below (saved_words m) (m.regs.rdi + 136) m.mem a (omega arith))
switch_frame m a (inr h) =
    rw (switch_mem m, save_mem m)
      (push_all_above (saved_words m) (m.regs.rdi + 136) m.mem a (omega arith) h)

-- After `__SwitchCoroutine__` the context of the caller holds its registers as they stand when
-- the call returns, whichever the next context is.
pub switch_saves : (m : Machine) → context (switch m).mem m.regs.rdi ≡ returning m
switch_saves m = rw (switch_mem m) (save_context m)

-- The registers come from the context of the next coroutine, after the caller's is stored.
pub switch_enters : (m : Machine) → (switch m).regs ≡ enter (context (switch m).mem m.regs.rsi)
unfolding switch
switch_enters m = load_regs (run save_code m) ∙ rw (load_mem (run save_code m), save_rsi m)

-- Two memories that agree on a context.
abbrev pub Agree : ℕ → Memory → Memory → Type 0
Agree c p q = (a : ℕ) → c ≤ a → a < c + 136 → p a ≡ q a

words-Agree : (n c : ℕ) (p q : Memory) → n ≤ 17 → Agree c p q → words n c p ≡ words n c q
words-Agree zero c p q k h = refl
words-Agree (suc n) c p q k h =
    ap₂ ◌∷◌ (h (c + 8 * n) (omega arith) (omega arith)) (words-Agree n c p q (omega arith) h)

pub context-Agree : (c : ℕ) (p q : Memory) → Agree c p q → context p c ≡ context q c
context-Agree c p q h =
    context-words p c
    ∙ (ap regs_of (words-Agree 17 c p q (omega arith) h) ∙ sym (context-words q c))

switch_frame-Apart : (m : Machine) (c : ℕ) → Apart m.regs.rdi c → Agree c (switch m).mem m.mem
switch_frame-Apart m c (inl h) a lo hi = switch_frame m a (inr (omega arith))
switch_frame-Apart m c (inr h) a lo hi = switch_frame m a (inl (omega arith))

-- A switch to a context that shares no byte of registers with the caller's enters the next one as
-- it was stored.
pub switch-Apart :
    (m : Machine) → Apart m.regs.rdi m.regs.rsi → (switch m).regs ≡ enter (context m.mem m.regs.rsi)
switch-Apart m far =
    switch_enters m ∙ ap enter (context-Agree m.regs.rsi _ _ (switch_frame-Apart m m.regs.rsi far))

-- After a call of `__SwitchCoroutine__` from a context, a later switch to that context, from one
-- apart from it and with the stored words unchanged meanwhile, returns from the first call: all
-- registers are the caller's, the stack is popped, and only `rax` holds the return address.
pub switch_back :
    (m later : Machine)
    → later.regs.rsi ≡ m.regs.rdi
    → Apart later.regs.rdi m.regs.rdi
    → Agree m.regs.rdi later.mem (switch m).mem
    → (switch later).regs ≡ enter (returning m)
switch_back m later e far same =
    switch_enters later
    ∙ (ap (λ c. enter (context (switch later).mem c)) e
        ∙ ap enter (
            context-Agree m.regs.rdi _ _ (switch_frame-Apart later m.regs.rdi far)
            ∙ (context-Agree m.regs.rdi _ _ same ∙ switch_saves m)))

-- A switch of a context to itself, as `Init` makes it, returns at once with the registers of the
-- caller.
pub switch_self : (m : Machine) → m.regs.rsi ≡ m.regs.rdi → (switch m).regs ≡ enter (returning m)
switch_self m e =
    switch_enters m ∙ (ap (λ c. enter (context (switch m).mem c)) e ∙ ap enter (switch_saves m))
