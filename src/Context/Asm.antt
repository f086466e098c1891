-- ===== src/Context/Asm.antt =====
-- context.cpp and include/context.h, `AsmContext` and `coctx_make` of x86-64. `memory` has a word of 8
-- bytes at each address; the context with its registers is a C++ object of its own, outside of it, until
-- Swap gives it an address. What malloc answers is an argument, and 0 is a null pointer.
use fiber_lib.Prelude.{
  ℕ, ◌+◌, ◌-◌, ◌%◌, ◌^◌, Bool, true, false, not, ◌==◌, if◌then◌else◌, List, [], ◌∷◌, ◌++◌, update,
}

-- The places of `regs`.
abbrev pub k_rdi : ℕ
k_rdi = 7

abbrev pub k_rsi : ℕ
k_rsi = 8

abbrev pub k_ret_addr : ℕ
k_ret_addr = 9

abbrev pub k_rsp : ℕ
k_rsp = 13

pub record Coctx : Type 0 where
  pub regs : ℕ → ℕ
  pub ss_size : ℕ
  pub ss_sp : ℕ

pub record AsmContext : Type 0 where
  pub stack_size : ℕ
  pub stack : ℕ
  pub context : Coctx

-- The calls of the allocator; the first argument of `mallocs` is the answer.
pub data HeapCall : Type 0 where
  mallocs : (block size : ℕ) → HeapCall
  frees : (block : ℕ) → HeapCall

-- `coctx_init`, and the member initialisers of `coctx_t`.
abbrev pub coctx_init : Coctx
coctx_init = record { regs = λ r. 0; ss_size = 0; ss_sp = 0 }

-- `sp & -16`.
abbrev pub align16 : ℕ → ℕ
align16 sp = sp - sp % 16

-- The last place for a return address in a stack.
abbrev pub stack_top : ℕ → ℕ → ℕ
stack_top sp size = align16 ((sp + size + (2 ^ 64 - 8)) % 2 ^ 64)

abbrev pub first_regs : ℕ → ℕ → ℕ → ℕ → ℕ → ℕ
first_regs sp pfn s s1 =
    update (update (update (update (λ r. 0) k_rsp sp) k_ret_addr pfn) k_rdi s) k_rsi s1

-- The context and the memory behind it.
unfoldable pub coctx_make : Coctx → ℕ → ℕ → ℕ → (ℕ → ℕ) → Coctx × (ℕ → ℕ)
coctx_make ctx pfn s s1 memory =
    let sp = stack_top ctx.ss_sp ctx.ss_size in
    (record ctx { regs = first_regs sp pfn s s1 }, update memory sp pfn)

-- The constructor.
abbrev pub new_asm : ℕ → AsmContext
new_asm size = record { stack_size = size; stack = 0; context = coctx_init }

-- The destructor: the stack that is left, and the calls.
unfoldable pub free_stack : AsmContext → List HeapCall → AsmContext × List HeapCall
free_stack a calls =
    if a.stack == 0 then (a, calls) else (record a { stack = 0 }, calls ++ frees a.stack ∷ [])

-- What `initialize` does on its stack; `trampoline` is the address of `fiber_trampoline`.
abbrev pub prepare : ℕ → AsmContext → (ℕ → ℕ) → AsmContext × (ℕ → ℕ)
prepare trampoline a memory =
    let sp = stack_top a.stack a.stack_size in
    (
      record a {
        context = record {
          regs =
              update (update (update (update (λ r. 0) k_rsp sp) k_ret_addr trampoline) k_rdi 0)
                k_rsi 0;
          ss_size = a.stack_size;
          ss_sp = a.stack;
        };
      },
      update memory sp trampoline,
    )

-- `block` is what malloc answers; `false` is the exception.
unfoldable pub start_asm :
    ℕ → ℕ → AsmContext → (ℕ → ℕ) → List HeapCall → Bool × AsmContext × (ℕ → ℕ) × List HeapCall
start_asm trampoline block a memory calls =
    if not (a.stack == 0)
    then (true, (prepare trampoline a memory).0, (prepare trampoline a memory).1, calls)
    else if block == 0
    then (false, a, memory, calls ++ mallocs block a.stack_size ∷ [])
    else (
      true,
      (prepare trampoline (record a { stack = block }) memory).0,
      (prepare trampoline (record a { stack = block }) memory).1,
      calls ++ mallocs block a.stack_size ∷ [],
    )
