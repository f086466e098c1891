-- ===== src/Context/Tests.antt =====
-- Pages of 4096 bytes. The first mmap fails, the second one answers 1048576.
use fiber_lib.Prelude.{
  ℕ, ◌+◌, ◌-◌, ◌^◌, ◌%◌, ◌*◌, ◌/◌, ap, Bool, ◌<◌, ◌≤◌, ◌≡◌, refl, inl, inr, true, false, [], ◌∷◌,
  ◌++◌, List, arith, some, none, if◌then◌else◌, ◌==◌,
}
use fiber_lib.Context.{
  UContext, KernelCall, mprotect_failed, unmaps, destroy, initialize, made_context, map_failed,
}
use fiber_lib.Context.Life.{Attempt, attempts, live}
use fiber_lib.Context.Kept.{life-IsBalanced}
use fiber_lib.Context.Faults.{refused_retry}
use fiber_lib.Context.Asm.{AsmContext, HeapCall, new_asm, start_asm}
use fiber_lib.Context.Swap.{Cpu, save, coctx_swap, switch_to}
use fiber_lib.Context.Switch.{coctx_swap-coctx_swap}
use fiber_lib.Context.First.{start_asm-switch_to}

abbrev tries : List Attempt
tries =
    record { func = 5; base = map_failed; allowed = true }
    ∷ record { func = 5; base = 1048576; allowed = true }
    ∷ record { func = 6; base = 9; allowed = true }
    ∷ []

abbrev elsewhere : List (ℕ × ℕ)
elsewhere = (77, 4096) ∷ []

abbrev lived : UContext × List KernelCall
lived = attempts 4096 tries (made_context 4096 77 true 10000).1 []

life-IsBalanced_example :
    (live elsewhere (destroy (lived).0 (lived).1) ≡ elsewhere)
    × ((func : ℕ)
        → (lived).0.entry ≡ some func
        → (live elsewhere (lived).1 ≡ ((lived).0.mapping_base, (lived).0.total_size) ∷ elsewhere)
          × ((lived).0.ss_sp ≡ (lived).0.mapping_base + 4096)
          × ((lived).0.ss_sp + (lived).0.ss_size ≡ (lived).0.mapping_base + (lived).0.total_size)
          × (10000 ≤ (lived).0.ss_size))
life-IsBalanced_example =
    life-IsBalanced 4096 77 10000 elsewhere (record { func = 5; base = map_failed; allowed = true })
      (record { func = 5; base = 1048576; allowed = true }
        ∷ record { func = 6; base = 9; allowed = true }
        ∷ [])
      (ground arith) (ground arith) ((λ e. ground (arith, e)), tt)
      (
        ground arith,
        (λ d. absurd (d refl)),
        refl,
        (ground arith, (λ d. ground arith), refl, (ground arith, (λ d. ground arith), refl, tt)),
      )

lived-entry : (lived).0.entry ≡ some 6
unfolding attempts initialize made_context
lived-entry = refl

lived-stack : (lived).0.ss_sp ≡ 1052672
unfolding attempts initialize made_context
lived-stack = refl

abbrev new_one : ℕ → UContext
new_one size = (made_context 4096 0 true size).1

refused_retry_example :
    let first = initialize 4096 5 1048576 false (new_one 10000) [] in
    let second = initialize 4096 6 9 false first.1 first.2 in
    (first.0 ≡ some mprotect_failed)
    × (second.0 ≡ none)
    × (second.1.ss_sp ≡ 1048576 + 4096)
    × (live elsewhere second.2 ≡ elsewhere)
    × (destroy second.1 second.2 ≡ second.2 ++ unmaps 1048576 (new_one 10000).total_size ∷ [])
unfolding made_context
refused_retry_example =
    refused_retry 4096 5 1048576 6 9 false (new_one 10000) elsewhere refl (ground arith)
      (ground arith)

abbrev other_one : UContext
other_one = record (new_one 20000) { mapping_base = 1048576; stack = 1052672 }

abbrev zeros : Cpu
zeros = record {
  rax = 0;
  rbx = 3;
  rcx = 0;
  rdx = 0;
  rsi = 2000;
  rdi = 1000;
  rbp = 4;
  rsp = 5000;
  r8 = 0;
  r9 = 0;
  r12 = 12;
  r13 = 13;
  r14 = 14;
  r15 = 15;
  rip = 0;
  memory = λ a. if a == 2104 then 7000 else a;
}

abbrev back : Cpu
back = record (coctx_swap zeros) { rdi = 2000; rsi = 1000 }

coctx_swap-coctx_swap_example :
    let r = coctx_swap back in
    (r.rip ≡ (zeros).memory 5000)
    × (r.rsp ≡ (5000 + 8) % 2 ^ 64)
    × (r.rbx ≡ 3)
    × (r.rbp ≡ 4)
    × (r.r12 ≡ 12)
    × (r.r13 ≡ 13)
    × (r.r14 ≡ 14)
    × (r.r15 ≡ 15)
    × (r.rax ≡ 0)
unfolding save
coctx_swap-coctx_swap_example =
    coctx_swap-coctx_swap zeros back (ground arith) (ground arith) (inr (ground arith)) refl
      (inl (ground arith)) (λ a l h. ground (arith, l, h))

abbrev started : Bool × AsmContext × (ℕ → ℕ) × List HeapCall
started = start_asm 400000 65536 (new_asm 4096) (λ a. 0) []

abbrev starting : Cpu
starting = record zeros { memory = λ a. (started).1.context.regs ((a - 2000) / 8) }

start_asm-switch_to_example :
    (q : Cpu) × (switch_to true starting ≡ some q)
    × (q.rip ≡ 400000)
    × (q.rsp % 16 ≡ 8)
    × ((started).1.stack < q.rsp)
    × (q.rsp ≤ (started).1.stack + 4096)
    × (q.rdi ≡ 0)
unfolding start_asm
start_asm-switch_to_example =
    start_asm-switch_to 400000 65536 (new_asm 4096) (λ a. 0) [] starting refl
      (λ e. ground (arith, e)) (ground arith) (ground arith) (ground arith) (ground arith)
      (inr (ground arith))
      (λ k l.
        ap ((started).1.context.regs) {x = ((starting).rsi + 8 * k - 2000) / 8} {y = k}
          (omega arith))

starting-rsp : (coctx_swap starting).rsp ≡ 69624
unfolding start_asm save
starting-rsp = refl
