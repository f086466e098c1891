-- ===== src/Context/First.antt =====
-- context.cpp and swap_context.S: the first switch to a context that `AsmContext::initialize` has made.
use fiber_lib.Prelude.{
  ℕ, ◌+◌, ◌*◌, ◌%◌, ◌^◌, ◌≤◌, ◌<◌, ◌≡◌, ◌≢◌, refl, sym, ap, subst, ◌∙◌, ◌⊎◌, inl, inr, Bool, true,
  ◌==◌, if_true, if_false, Bool-cases, some, List, arith, not,
}
use fiber_lib.Context.Asm.{
  AsmContext, HeapCall, Coctx, first_regs, stack_top, prepare, start_asm, coctx_make,
}
use fiber_lib.Context.Swap.{Cpu, target, save, restore, coctx_swap, switch_to}
use fiber_lib.Context.Switch.{save-outside, return-rip, return-rsp}

-- An object and the memory behind a call of `initialize` that succeeds.
record IsReady (trampoline size : ℕ) (memory : ℕ → ℕ) (a : AsmContext) (memory' : ℕ → ℕ)
    : Type 0 where
  has_stack : a.stack ≢ 0
  same_size : a.stack_size ≡ size
  as_made :
      (a.context, memory')
      ≡ coctx_make
          (record { regs = a.context.regs; ss_size = size; ss_sp = a.stack })
          trampoline
          0
          0
          memory

prepare-IsReady :
    (trampoline : ℕ) (a : AsmContext) (memory : ℕ → ℕ)
    → a.stack ≢ 0
    → IsReady trampoline a.stack_size memory
        (prepare trampoline a memory).0
        (prepare trampoline a memory).1
unfolding coctx_make
prepare-IsReady trampoline a memory d = record { has_stack = d; same_size = refl; as_made = refl }

start_asm-IsReady :
    (trampoline block : ℕ) (a : AsmContext) (memory : ℕ → ℕ) (calls : List HeapCall)
    → let r = start_asm trampoline block a memory calls in
      r.0 ≡ true → IsReady trampoline a.stack_size memory r.1 r.2
unfolding start_asm
start_asm-IsReady trampoline block a memory calls =
    let P : Bool × AsmContext × (ℕ → ℕ) × List HeapCall → Type 0 =
      λ r. r.0 ≡ true → IsReady trampoline a.stack_size memory r.1 r.2 in
    elim (Bool-cases (not (a.stack == 0))) [
      | inl c ↦
          subst P (sym (if_true _ _ c))
            (λ e. prepare-IsReady trampoline a memory (ground (arith, c)))
      | inr c ↦ subst P (sym (if_false _ _ c)) (elim (Bool-cases (block == 0)) [
        | inl d ↦ subst P (sym (if_true _ _ d)) (λ e. absurd (ground (arith, e)))
        | inr d ↦ subst P (sym (if_false _ _ d)) (λ e.
            prepare-IsReady trampoline (record a { stack = block }) memory (ground (arith, d)))
      ])
    ]

-- The place for the return address is in the stack and 16-aligned.
top_bounds :
    (sp size : ℕ)
    → 24 ≤ size
    → sp + size < 2 ^ 64
    → (sp < stack_top sp size) × (stack_top sp size + 8 ≤ sp + size) × (stack_top sp size % 16 ≡ 0)
top_bounds sp size f g = ground (arith, f, g)

-- The switch to a context whose registers are as `coctx_make` leaves them.
switched :
    (trampoline sp size : ℕ) (c : Cpu)
    → trampoline ≢ 0
    → 24 ≤ size
    → sp + size < 2 ^ 64
    → c.rdi + 112 ≤ 2 ^ 64
    → c.rsi + 112 ≤ 2 ^ 64
    → (c.rsi + 112 ≤ c.rdi) ⊎ (c.rdi + 112 ≤ c.rsi)
    → ((k : ℕ)
        → k < 14
        → c.memory (c.rsi + 8 * k) ≡ first_regs (stack_top sp size) trampoline 0 0 k)
    → (q : Cpu) × (switch_to true c ≡ some q)
      × (q.rip ≡ trampoline)
      × (q.rsp % 16 ≡ 8)
      × (sp < q.rsp)
      × (q.rsp ≤ sp + size)
      × (q.rdi ≡ 0)
unfolding switch_to save
switched trampoline sp size c z large fits f g o held =
    let read : (k : ℕ)
        → k < 14
        → (save c).memory ((c.rsi + 8 * k) % 2 ^ 64)
          ≡ first_regs (stack_top sp size) trampoline 0 0 k =
      λ k l.
        ap (save c).memory (ground (arith, g, l))
        ∙ save-outside c (c.rsi + 8 * k) f (ground (arith, o, l))
        ∙ held k l in
    let q = coctx_swap c in
    let (low, high, aligned) = top_bounds sp size large fits in
    let at : q.rsp ≡ stack_top sp size + 8 =
      return-rsp (restore (save c))
      ∙ ap (λ x. (x + 8) % 2 ^ 64) (read 13 (ground arith))
      ∙ ground (arith, high, fits) in
    (
      q,
      if_false {b = target 72 c == 0} _ _ (ground (arith, g, held 9 (ground arith), z)),
      return-rip (restore (save c)) ∙ read 9 (ground arith),
      ground (arith, at, aligned, high, fits),
      ground (arith, at, low),
      ground (arith, at, high),
      read 7 (ground arith),
    )

-- `initialize` succeeds on an object whose stack has 24 bytes or more, and the address of the trampoline is
-- not null. A processor saves to a context that does not overlap that of the object, which holds the
-- registers that `initialize` gave it, and switches to it; the stack and the contexts do not reach past
-- 2^64. Then the switch is done, and the processor is at the start of `fiber_trampoline`, on the
-- stack of the object, aligned as a function expects it, with a null argument.
pub start_asm-switch_to :
    (trampoline block : ℕ) (a : AsmContext) (memory : ℕ → ℕ) (calls : List HeapCall) (c : Cpu)
    → let r = start_asm trampoline block a memory calls in
      r.0 ≡ true
      → trampoline ≢ 0
      → 24 ≤ a.stack_size
      → r.1.stack + a.stack_size < 2 ^ 64
      → c.rdi + 112 ≤ 2 ^ 64
      → c.rsi + 112 ≤ 2 ^ 64
      → (c.rsi + 112 ≤ c.rdi) ⊎ (c.rdi + 112 ≤ c.rsi)
      → ((k : ℕ) → k < 14 → c.memory (c.rsi + 8 * k) ≡ r.1.context.regs k)
      → (q : Cpu) × (switch_to true c ≡ some q)
        × (q.rip ≡ trampoline)
        × (q.rsp % 16 ≡ 8)
        × (r.1.stack < q.rsp)
        × (q.rsp ≤ r.1.stack + a.stack_size)
        × (q.rdi ≡ 0)
unfolding coctx_make
start_asm-switch_to trampoline block a memory calls c e z large fits f g o held =
    let r = start_asm trampoline block a memory calls in
    let w = start_asm-IsReady trampoline block a memory calls e in
    switched trampoline r.1.stack a.stack_size c z large fits f g o
      (λ k l. held k l ∙ ap {A = Coctx × (ℕ → ℕ)} (λ p. p.0.regs k) w.as_made)
