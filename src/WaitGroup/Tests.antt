-- ===== src/WaitGroup/Tests.antt =====
-- A group with two tasks to go, and the fibers 4 and 5 waiting; the fibers woken are listed, latest
-- first.
use fiber_lib.Prelude.{ℕ, ◌-◌, ◌≡◌, ◌^◌, refl, some, List, [], ◌∷◌, arith}
use fiber_lib.WaitQueue
use fiber_lib.WaitGroup.{WaitGroup, GroupCall, adds, dones, waits, changed, new_group, add}
use fiber_lib.WaitGroup.Laws.{IsSettled, run, run-IsSettled}

abbrev schedule : ℕ → List ℕ → List ℕ
schedule f woken = f ∷ woken

abbrev two_tasks : WaitGroup
two_tasks = record { counter = 2; waiters = 4 ∷ 5 ∷ [] }

abbrev script : List GroupCall
script = adds 2 ∷ waits (some 4) ∷ dones ∷ adds (2 ^ 32 - 3) ∷ dones ∷ []

run-script : run schedule script new_group [] ≡ (new_group, 4 ∷ [])
unfolding run add fiber_lib.WaitGroup.call fiber_lib.WaitQueue.wait fiber_lib.WaitQueue.notify_all
run-script = refl

run-IsSettled_example : IsSettled (run schedule script new_group []).0
run-IsSettled_example =
    run-IsSettled schedule script 0 new_group []
      (omega arith, omega arith, (omega arith, (omega arith, omega arith, (omega arith, tt))))
      (omega arith) (record { small = omega arith; nobody = λ e. refl })
