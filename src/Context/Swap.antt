-- ===== src/Context/Swap.antt =====
-- swap_context.S, `coctx_swap` of x86-64, by which `AsmContext::switchTo` of context.cpp switches: the
-- registers of the processor, and a memory with a word of 8 bytes at each address. Addresses are those of
-- words that do not overlap.
use fiber_lib.Prelude.{
  ℕ, ◌+◌, ◌-◌, ◌%◌, ◌^◌, Bool, true, false, ◌==◌, if◌then◌else◌, update, Option, none, some,
}

pub record Cpu : Type 0 where
  pub rax : ℕ
  pub rbx : ℕ
  pub rcx : ℕ
  pub rdx : ℕ
  pub rsi : ℕ
  pub rdi : ℕ
  pub rbp : ℕ
  pub rsp : ℕ
  pub r8 : ℕ
  pub r9 : ℕ
  pub r12 : ℕ
  pub r13 : ℕ
  pub r14 : ℕ
  pub r15 : ℕ
  pub rip : ℕ
  pub memory : ℕ → ℕ

-- The word at an offset from `curr`, which `rdi` points to, is written; that from `target` is read.
abbrev pub keep : ℕ → ℕ → Cpu → Cpu
keep offset x c = record c { memory = update c.memory ((c.rdi + offset) % 2 ^ 64) x }

abbrev pub target : ℕ → Cpu → ℕ
target offset c = c.memory ((c.rsi + offset) % 2 ^ 64)

-- The first half: the registers go into `curr`.
unfoldable pub save : Cpu → Cpu
save c =
    let c1 : Cpu = keep 104 c.rsp (record c { rax = c.rsp }) in
    let c2 : Cpu = keep 80 c.rdx (keep 88 c.rcx (keep 96 c.rbx c1)) in
    let c3 : Cpu = keep 72 (c2.memory c2.rax) (record c2 { rax = c2.memory c2.rax }) in
    let c4 : Cpu = keep 48 c.rbp (keep 56 c.rdi (keep 64 c.rsi c3)) in
    let c5 : Cpu = keep 24 c.r12 (keep 32 c.r9 (keep 40 c.r8 c4)) in
    let c6 : Cpu = keep 0 c.r15 (keep 8 c.r14 (keep 16 c.r13 c5)) in record c6 { rax = 0 }

-- The second half: the registers come from `target`.
abbrev pub restore : Cpu → Cpu
restore c = record c {
  rbp = target 48 c;
  rsp = target 104 c;
  r15 = target 0 c;
  r14 = target 8 c;
  r13 = target 16 c;
  r12 = target 24 c;
  r9 = target 32 c;
  r8 = target 40 c;
  rdi = target 56 c;
  rdx = target 80 c;
  rcx = target 88 c;
  rbx = target 96 c;
}

-- The end: the return address of `target` goes onto its stack, and `ret` takes it.
abbrev pub return_into : Cpu → Cpu
return_into c =
    let up = (c.rsp + 8) % 2 ^ 64 in
    let slot = (up + (2 ^ 64 - 8)) % 2 ^ 64 in
    let memory = update c.memory slot (target 72 c) in
    record c {
      rsi = memory ((c.rsi + 64) % 2 ^ 64);
      memory = memory;
      rip = memory slot;
      rsp = (slot + 8) % 2 ^ 64;
    }

abbrev pub coctx_swap : Cpu → Cpu
coctx_swap c = return_into (restore (save c))

-- `AsmContext::switchTo`: `rdi` points to its own context and `rsi` to the other one. The argument says
-- whether the other object is an AsmContext; `none` is the failed assertion.
unfoldable pub switch_to : Bool → Cpu → Option Cpu
switch_to false c = some c
switch_to true c = if target 72 c == 0 then none else some (coctx_swap c)
