-- ===== src/Fiber.antt =====
-- fiber.cpp and include/fiber.h: the states of the fibers of one thread, and which of them runs.
-- A fiber is its number. The thread's `current_fiber_` and `main_fiber_` and the fields `state_` and
-- `parent_fiber_` of its fibers are the state; the switch of the stacks (context.cpp) is where an
-- operation ends. `none` is a failed assertion, or the use of a null parent.
pub mod Spec
pub mod Refine
pub mod Tests
use fiber_lib.Prelude.{
  ℕ, Bool, true, false, Option, none, some, List, [], ◌∷◌, if◌then◌else◌, update,
}

pub data FiberState : Type 0 where
  ready : FiberState
  running : FiberState
  suspended : FiberState
  blocked : FiberState
  done : FiberState

abbrev pub is_done : FiberState → Bool
is_done done = true
is_done _ = false

pub record Thread : Type 0 where
  pub main : ℕ
  pub current : Option ℕ
  pub state : ℕ → FiberState
  pub parent : ℕ → Option ℕ

-- `GetCurrentFiberPtr()`, or else the main fiber.
abbrev pub caller : Option ℕ → ℕ → ℕ
caller none main = main
caller (some c) main = c

unfoldable pub resume : ℕ → Thread → Thread
resume f t = if is_done (t.state f) then t else record t {
  current = some f;
  state = update t.state f running;
  parent = update t.parent f (some (caller t.current t.main));
}

-- `yield_internal` of fiber `c`, with its parent.
unfoldable pub yield_internal : ℕ → Option ℕ → Thread → Option Thread
yield_internal c none t = none
yield_internal c (some p) t = some (record t {
  current = some p;
  state = update t.state p running;
  parent = update t.parent c none;
})

-- `yield` and `block_yield` mark the current fiber, unless it is done; `fiberEntry` marks it as done.
abbrev pub marked : FiberState → ℕ → Thread → Thread
marked s c t = record t { state = update t.state c (if is_done (t.state c) then done else s) }

unfoldable pub leave : FiberState → Option ℕ → Thread → Option Thread
unfolding yield_internal
leave s none t = none
leave s (some c) t = yield_internal c (t.parent c) (marked s c t)

pub data Event : Type 0 where
  resumes : ℕ → Event
  yields : Event
  blocks : Event
  returns : Event  -- the end of `fiberEntry`

unfoldable pub step : Event → Thread → Option Thread
unfolding resume leave
step (resumes f) t = some (resume f t)
step yields t = leave suspended t.current t
step blocks t = leave blocked t.current t
step returns t = leave done t.current t

unfoldable pub run_on : List Event → Option Thread → Option Thread
unfolding step
run_on [] o = o
run_on (e ∷ es) none = none
run_on (e ∷ es) (some t) = run_on es (step e t)
