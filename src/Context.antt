-- ===== src/Context.antt =====
-- context.cpp and include/context.h, `UContext`: a context of ucontext.h on a stack with a guard page. What
-- mmap, mprotect and getcontext answer are arguments, and the object's calls of the kernel are a log. A
-- null pointer is 0; the page size is a power of two.
pub mod Life
pub mod Kept
pub mod Faults
pub mod Asm
pub mod Swap
pub mod Switch
pub mod First
pub mod Tests
use fiber_lib.Prelude.{
  ℕ, ◌+◌, ◌-◌, ◌%◌, ◌^◌, Bool, true, false, not, ◌||◌, ◌==◌, if◌then◌else◌, Option, none, some,
  List, [], ◌∷◌, ◌++◌,
}

-- `total_size` and `mapping_base` are the fields of these names; `ss_sp`, `ss_size` and `entry` are what
-- `makecontext` finds in `context_.uc_stack` and gets as its function.
pub record UContext : Type 0 where
  pub stack_size : ℕ
  pub stack : ℕ
  pub total_size : ℕ
  pub mapping_base : ℕ
  pub ss_sp : ℕ
  pub ss_size : ℕ
  pub entry : Option ℕ

-- The calls of the kernel; the first argument of `maps` is what mmap answers.
pub data KernelCall : Type 0 where
  maps : (base size : ℕ) → KernelCall
  protects : (at size : ℕ) → KernelCall
  unmaps : (base size : ℕ) → KernelCall

pub data Thrown : Type 0 where
  getcontext_failed : Thrown
  mmap_failed : Thrown
  mprotect_failed : Thrown

abbrev pub map_failed : ℕ
map_failed = 2 ^ 64 - 1

-- `x & ~(page - 1)`.
abbrev pub page_floor : ℕ → ℕ → ℕ
page_floor page x = x - x % page

abbrev pub align_to_page : ℕ → ℕ → ℕ
align_to_page page size = page_floor page ((size + page + (2 ^ 64 - 1)) % 2 ^ 64)

-- The constructor; `left` is what the memory of `mapping_base_` held before.
unfoldable pub made_context : ℕ → ℕ → Bool → ℕ → Option Thrown × UContext
made_context page left answers size = (
  if answers then none else some getcontext_failed,
  record {
    stack_size = align_to_page page size;
    stack = 0;
    total_size = (align_to_page page size + page) % 2 ^ 64;
    mapping_base = left;
    ss_sp = 0;
    ss_size = 0;
    entry = none;
  },
)

-- The destructor.
unfoldable pub destroy : UContext → List KernelCall → List KernelCall
destroy u log = if u.mapping_base == 0 then log else log ++ unmaps u.mapping_base u.total_size ∷ []

-- The end of `initialize`.
abbrev pub make : ℕ → UContext → UContext
make func u = record u { ss_sp = u.stack; ss_size = u.stack_size; entry = some func }

abbrev pub mapped : ℕ → ℕ → UContext → UContext
mapped page base u = record u { mapping_base = base; stack = (base + page) % 2 ^ 64 }

-- `func` is the argument; mmap answers `base` and mprotect succeeds if `allowed` is true.
unfoldable pub initialize :
    ℕ → ℕ → ℕ → Bool → UContext → List KernelCall → Option Thrown × UContext × List KernelCall
initialize page func base allowed u log =
    if not ((u.stack == 0) || (u.mapping_base == 0))
    then (none, make func u, log)
    else if base == map_failed
    then (some mmap_failed, record u { mapping_base = base }, log ++ maps base u.total_size ∷ [])
    else if allowed
    then (
      none,
      make func (mapped page base u),
      log ++ maps base u.total_size ∷ protects ((base + page) % 2 ^ 64) u.stack_size ∷ [],
    )
    else (
      some mprotect_failed,
      mapped page base u,
      log
          ++ maps base u.total_size
            ∷ protects ((base + page) % 2 ^ 64) u.stack_size
            ∷ unmaps base u.total_size
            ∷ [],
    )

-- The move assignment from another object: the two objects, and the log.
unfoldable pub assign :
    UContext → UContext → List KernelCall → UContext × UContext × List KernelCall
unfolding destroy
assign u other log = (
  record u {
    mapping_base = other.mapping_base;
    stack = other.stack;
    stack_size = other.stack_size;
  },
  record other { mapping_base = 0; stack = 0; stack_size = 0 },
  destroy u log,
)
