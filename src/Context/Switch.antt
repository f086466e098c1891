-- ===== src/Context/Switch.antt =====
-- swap_context.S and context.cpp: a switch away and back, and the first switch to a context.
use fiber_lib.Prelude.{ℕ, ◌+◌, ◌%◌, ◌^◌, ◌≤◌, ◌<◌, ◌≡◌, refl, ap, ◌∙◌, ◌⊎◌, arith}
use fiber_lib.Context.Swap.{Cpu, target, save, restore, return_into, coctx_swap}

-- A word outside the 112 bytes of `curr` stays.
pub save-outside :
    (c : Cpu) (a : ℕ)
    → c.rdi + 112 ≤ 2 ^ 64
    → (a < c.rdi) ⊎ (c.rdi + 112 ≤ a)
    → (save c).memory a ≡ c.memory a
unfolding save
save-outside c a f o = ground (arith, f, o)

-- The words that a switch back reads.
save-words :
    (c : Cpu)
    → c.rdi + 112 ≤ 2 ^ 64
    → (c.rsp < c.rdi) ⊎ (c.rdi + 112 ≤ c.rsp)
    → ((save c).memory (c.rdi + 104) ≡ c.rsp)
      × ((save c).memory (c.rdi + 96) ≡ c.rbx)
      × ((save c).memory (c.rdi + 72) ≡ c.memory c.rsp)
      × ((save c).memory (c.rdi + 48) ≡ c.rbp)
      × ((save c).memory (c.rdi + 24) ≡ c.r12)
      × ((save c).memory (c.rdi + 16) ≡ c.r13)
      × ((save c).memory (c.rdi + 8) ≡ c.r14)
      × ((save c).memory (c.rdi + 0) ≡ c.r15)
unfolding save
save-words c f o = (
  ground (arith, f),
  ground (arith, f),
  ground (arith, f, o),
  ground (arith, f),
  ground (arith, f),
  ground (arith, f),
  ground (arith, f),
  ground (arith, f),
)

-- `ret` behind the push goes to the address that was pushed, and leaves the stack as before.
pub return-rip : (c : Cpu) → (return_into c).rip ≡ target 72 c
return-rip c = ground arith

pub return-rsp : (c : Cpu) → (return_into c).rsp ≡ (c.rsp + 8) % 2 ^ 64
return-rsp c = ground arith

-- What a switch back reads is what the switch away has saved.
read_back :
    (c d : Cpu) (offset : ℕ)
    → c.rdi + 112 ≤ 2 ^ 64
    → d.rdi + 112 ≤ 2 ^ 64
    → d.rsi ≡ c.rdi
    → (c.rdi + 112 ≤ d.rdi) ⊎ (d.rdi + 112 ≤ c.rdi)
    → ((a : ℕ) → c.rdi ≤ a → a < c.rdi + 112 → d.memory a ≡ (save c).memory a)
    → offset ≤ 104
    → (save d).memory ((d.rsi + offset) % 2 ^ 64) ≡ (save c).memory (c.rdi + offset)
read_back c d offset f g e o intact l =
    ap (save d).memory (ground (arith, f, e, l))
    ∙ save-outside d (c.rdi + offset) g (ground (arith, o, l))
    ∙ intact (c.rdi + offset) (ground arith) (ground (arith, l))

-- A processor in the state `c` switches from its context to another one; its return address is not in that
-- context. Later one in the state `d` switches back to that context: its words are as they were saved,
-- and the context that `d` saves to does not overlap it. Neither context reaches past 2^64. Then it goes on behind the call that left, on the same stack, with the registers that
-- a callee keeps as they were at that call; `coctx_swap` returns 0.
pub coctx_swap-coctx_swap :
    (c d : Cpu)
    → c.rdi + 112 ≤ 2 ^ 64
    → d.rdi + 112 ≤ 2 ^ 64
    → (c.rsp < c.rdi) ⊎ (c.rdi + 112 ≤ c.rsp)
    → d.rsi ≡ c.rdi
    → (c.rdi + 112 ≤ d.rdi) ⊎ (d.rdi + 112 ≤ c.rdi)
    → ((a : ℕ) → c.rdi ≤ a → a < c.rdi + 112 → d.memory a ≡ (save c).memory a)
    → let r = coctx_swap d in
      (r.rip ≡ c.memory c.rsp)
      × (r.rsp ≡ (c.rsp + 8) % 2 ^ 64)
      × (r.rbx ≡ c.rbx)
      × (r.rbp ≡ c.rbp)
      × (r.r12 ≡ c.r12)
      × (r.r13 ≡ c.r13)
      × (r.r14 ≡ c.r14)
      × (r.r15 ≡ c.r15)
      × (r.rax ≡ 0)
unfolding save
coctx_swap-coctx_swap c d f g out e o intact =
    let back = λ (offset : ℕ) (l : offset ≤ 104). read_back c d offset f g e o intact l in
    let (sp, bx, ret, bp, w12, w13, w14, w15) = save-words c f out in
    (
      return-rip (restore (save d)) ∙ back 72 (ground arith) ∙ ret,
      return-rsp (restore (save d)) ∙ ap (λ x. (x + 8) % 2 ^ 64) (back 104 (ground arith) ∙ sp),
      back 96 (ground arith) ∙ bx,
      back 48 (ground arith) ∙ bp,
      back 24 (ground arith) ∙ w12,
      back 16 (ground arith) ∙ w13,
      back 8 (ground arith) ∙ w14,
      back 0 (ground arith) ∙ w15,
      refl,
    )
