-- ===== src/Fiber/Spec.antt =====
-- What a thread promises: its active fibers are a stack. The fiber on top runs, and hands back to
-- the one below it.
use fiber_lib.Prelude.{ℕ, Option, none, some, List, [], ◌∷◌, ◌==◌, if◌then◌else◌, update, count}
use fiber_lib.Fiber.{
  FiberState, running, suspended, blocked, done, is_done, Event, resumes, yields, blocks, returns,
}

pub record Stack : Type 0 where
  pub fibers : List ℕ
  pub states : ℕ → FiberState

-- A resumed fiber that is already on the stack is outside the promise, and so is an empty stack.
abbrev pub push : ℕ → List ℕ → (ℕ → FiberState) → Option Stack
push f [] states = none
push f (c ∷ cs) states =
    if is_done (states f)
    then some (record { fibers = c ∷ cs; states = states })
    else if count f (c ∷ cs) == 0
    then some (record { fibers = f ∷ c ∷ cs; states = update states f running })
    else none

abbrev pub pop : FiberState → List ℕ → (ℕ → FiberState) → Option Stack
pop s [] states = none
pop s (c ∷ []) states = none
pop s (c ∷ p ∷ ps) states = some (record {
  fibers = p ∷ ps;
  states = update (update states c (if is_done (states c) then done else s)) p running;
})

abbrev pub spec_step : Event → Stack → Option Stack
spec_step (resumes f) b = push f b.fibers b.states
spec_step yields b = pop suspended b.fibers b.states
spec_step blocks b = pop blocked b.fibers b.states
spec_step returns b = pop done b.fibers b.states

abbrev pub spec_run : List Event → Option Stack → Option Stack
spec_run [] o = o
spec_run (e ∷ es) none = none
spec_run (e ∷ es) (some b) = spec_run es (spec_step e b)
