-- ===== src/Condition/Tests.antt =====
-- Fiber 1 holds the mutex and waits; fiber 2 notifies.
use fiber_lib.Prelude.{ℕ, ◌≡◌, refl, Bool, true, false, List, [], ◌∷◌, arith}
use fiber_lib.Mutex.{new_mutex, turn, move, try_acquire, park, wake, release}
use fiber_lib.Mutex.Inv.{new_mutex-Inv}
use fiber_lib.Condition.{
  Spot, calm, entering, asleep, Deadline, Condition, puts, new_deadline, begin_wait, unlock_on,
  lock_on, wake_up, advance, notify_one, notify_all, expire, Step, waits, advances, notifies_one,
  notifies_all, expires, step, run,
}
use fiber_lib.Condition.Inv.{IsSound}
use fiber_lib.Condition.Sleep.{run-IsSound}
use fiber_lib.Condition.Missed.{missed}

abbrev all_calm : ℕ → Spot
all_calm i = calm

abbrev no_deadline : ℕ → Deadline
no_deadline i = new_deadline false

abbrev no_result : ℕ → Bool
no_result i = true

abbrev new_condition : Condition
new_condition = record {
  mutex = new_mutex;
  waiters = [];
  spot = all_calm;
  deadline = no_deadline;
  result = no_result;
}

new_condition-IsSound : IsSound new_condition
new_condition-IsSound = record {
  exclusive = new_mutex-Inv;
  places = λ i. refl;
  sleeping = λ i. refl;
  harmless = λ i p a. absurd (ground (arith, a));
}

-- Fiber 1 locks, begins a timed wait and unlocks, its timer expires, and it goes on to its return.
abbrev history : List Step
history =
    advances 1
    ∷ advances 1
    ∷ waits 1 true
    ∷ advances 1
    ∷ advances 1
    ∷ advances 1
    ∷ expires 1
    ∷ advances 1
    ∷ advances 1
    ∷ advances 1
    ∷ notifies_all
    ∷ []

run-IsSound_example : IsSound (run false history new_condition)
run-IsSound_example = run-IsSound false history new_condition new_condition-IsSound

history-result : (run false history new_condition).result 1 ≡ false
unfolding run step advance begin_wait unlock_on lock_on wake_up notify_one notify_all expire turn
    move try_acquire park wake release
history-result = refl

-- Fiber 1 has unlocked the mutex and is on its way to the queue.
abbrev on_the_way : Condition
on_the_way = puts 1 (entering false) new_condition

missed_example :
    (run false (notifies_one ∷ advances 1 ∷ advances 2 ∷ waits 2 false ∷ []) on_the_way).spot 1
    ≡ asleep false
missed_example = missed false 1 false (advances 2 ∷ waits 2 false ∷ []) on_the_way refl refl tt
