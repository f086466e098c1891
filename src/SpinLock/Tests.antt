-- ===== src/SpinLock/Tests.antt =====
-- Two threads take the lock one after the other.
use fiber_lib.Prelude.{ℕ, ◌≡◌, refl, false, List, [], ◌∷◌, arith}
use fiber_lib.SpinLock.{
  Phase, away, inside, SpinLock, Turn, goes, tries, try_lock, move, try_outside, turn, run,
}
use fiber_lib.SpinLock.Inv.{IsExclusive, run-IsExclusive}

abbrev all_away : ℕ → Phase
all_away i = away

abbrev new_lock : SpinLock
new_lock = record { lock = false; phase = all_away }

new_lock-IsExclusive : IsExclusive new_lock
new_lock-IsExclusive = record {
  set = λ i e. absurd (ground (arith, e));
  alone = λ i j e f. absurd (ground (arith, e));
  owner = λ e. absurd (ground (arith, e));
}

abbrev turns : List Turn
turns = tries 1 ∷ goes 2 ∷ goes 2 ∷ goes 1 ∷ goes 2 ∷ goes 1 ∷ goes 1 ∷ []

run-turns : (run turns new_lock).phase 2 ≡ inside
unfolding run turn move try_outside try_lock
run-turns = refl

run-IsExclusive_example : IsExclusive (run turns new_lock)
run-IsExclusive_example = run-IsExclusive turns new_lock new_lock-IsExclusive
