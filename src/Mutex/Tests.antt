-- ===== src/Mutex/Tests.antt =====
-- Two fibers on one mutex.
use fiber_lib.Prelude.{ℕ, ◌≡◌, ◌≢◌, refl, arith, true, false, List, [], ◌∷◌}
use fiber_lib.Mutex.{Turn, goes, tries, run, new_mutex, parked, outside}
use fiber_lib.Mutex.Inv.{Inv, run-Inv}
use fiber_lib.Mutex.Wakeup.{Served, run-Served, crossing, run-crossing}

-- Fiber 1 holds, fiber 2 parks and is woken.
abbrev script : List Turn
script = goes 1 ∷ goes 1 ∷ tries 2 ∷ goes 2 ∷ goes 2 ∷ goes 2 ∷ goes 1 ∷ goes 1 ∷ goes 2 ∷ []

run-script : (run false script new_mutex).locked ≡ true
unfolding run
run-script = refl

run-Inv_example : Inv (run false script new_mutex)
run-Inv_example = run-Inv false script tt

run-Served_example : Served (run true script new_mutex)
run-Served_example = run-Served script tt

run-crossing_example :
    let m = run false (crossing 1 2) new_mutex in
    (m.locked ≡ false)
    × (m.waiters ≡ 1 ∷ [])
    × (m.pc 1 ≡ parked)
    × ((k : ℕ) → k ≢ 1 → m.pc k ≡ outside)
run-crossing_example = run-crossing 1 2 (λ e. omega arith)
