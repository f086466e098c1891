-- ===== src/Fiber/Tests.antt =====
-- Three fibers on one thread, of which 0 is the main fiber.
use fiber_lib.Prelude.{◌≡◌, refl, none, some, List, [], ◌∷◌}
use fiber_lib.Fiber.{ready, Thread, Event, resumes, yields, blocks, returns, step}
use fiber_lib.Fiber.Spec.{Stack, spec_run}
use fiber_lib.Fiber.Refine.{Reaches, run_on_refines}

abbrev at_start : Thread
at_start = record { main = 0; current = some 0; state = λ i. ready; parent = λ i. none }

abbrev main_only : Stack
main_only = record { fibers = 0 ∷ []; states = λ i. ready }

-- Fiber 1 resumes fiber 2, which blocks, and returns.
abbrev script : List Event
script = resumes 1 ∷ resumes 2 ∷ blocks ∷ returns ∷ resumes 1 ∷ resumes 2 ∷ []

abbrev at_end : Stack
at_end = elim (spec_run script (some main_only)) [ none ↦ main_only | some b ↦ b ]

main_cannot_yield : step yields at_start ≡ none
unfolding step
main_cannot_yield = refl

run_on_refines_example : Reaches script at_start at_end
run_on_refines_example =
    run_on_refines script at_start main_only at_end
      (record { current_is = refl; states_are = refl; chain = (refl, refl, tt) }) refl
