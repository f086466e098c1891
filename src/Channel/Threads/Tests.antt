-- ===== src/Channel/Threads/Tests.antt =====
-- A channel of two values. Thread 0 pops; 1 and 2 push.
use fiber_lib.Prelude.{
  ℕ, suc, zero, ◌≡◌, ◌<◌, ◌++◌, refl, false, List, [], ◌∷◌, arith, none, set, length,
}
use fiber_lib.Channel.{Channel, make_channel, next_index, try_push, try_pop}
use fiber_lib.Channel.Ring.{Holds}
use fiber_lib.Channel.Threads.{
  Turn, idle, pushes, pops, advances, turn, run, advance, fill, take, start_push, start_pop,
  at_rest, Shared,
}
use fiber_lib.Channel.Threads.Fifo.{run-InOrder}
use fiber_lib.Channel.Threads.Stuck.{two_pushers-stuck}

abbrev goes : ℕ → ℕ → List (Turn ℕ)
goes zero i = []
goes (suc k) i = advances i false ∷ goes k i

-- The pop starts after the first exchange and before the tail is stored, and finds nothing; the next one
-- takes the first value while the second one goes in.
abbrev crossing : List (Turn ℕ)
crossing =
    pushes 1 7 ∷ goes 2 1
    ++ pops 0 ∷ goes 1 0
    ++ goes 1 1
    ++ pushes 1 8 ∷ pops 0 ∷ goes 2 0
    ++ goes 2 1
    ++ goes 1 0
    ++ goes 1 1

abbrev crossed : Shared ℕ
crossed = run crossing (at_rest (make_channel 2))

run-InOrder_example :
    (xs : List ℕ) × ((crossed).popped ++ xs ≡ (crossed).pushed)
    × (length xs < (crossed).ring.cap)
    × ((crossed).places 1 ≡ idle → (crossed).places 0 ≡ idle → Holds (crossed).ring xs)
run-InOrder_example =
    run-InOrder 1 0 2 crossing (λ e. ground (arith, e)) (ground arith)
      (refl, (refl, (refl, (refl, tt))))

crossed-popped : (crossed).popped ≡ 7 ∷ []
unfolding run turn advance fill take start_push start_pop make_channel
crossed-popped = refl

crossed-pushed : (crossed).pushed ≡ 7 ∷ 8 ∷ []
unfolding run turn advance fill take start_push start_pop make_channel
crossed-pushed = refl

-- Thread 1 finds room; thread 2 pushes two values, and thread 0 takes both.
abbrev overtaking : List (Turn ℕ)
overtaking =
    pushes 1 7 ∷ goes 1 1
    ++ pushes 2 8 ∷ goes 3 2
    ++ pops 0 ∷ goes 3 0
    ++ pushes 2 9 ∷ goes 3 2
    ++ pops 0 ∷ goes 3 0

abbrev overtaken : Shared ℕ
overtaken = run overtaking (at_rest (make_channel 2))

abbrev set_back : Channel ℕ
set_back = (run (advances 1 false ∷ advances 1 false ∷ []) overtaken).ring

two_pushers-stuck_example :
    (try_push (λ x. x) false 5 set_back ≡ (false, 5, set_back))
    × (try_pop set_back
        ≡ (none, record (set_back) { buffer = set (set_back).buffer (set_back).head none }))
unfolding run turn advance fill take start_push start_pop make_channel next_index
two_pushers-stuck_example =
    two_pushers-stuck overtaken 1 7 0 (λ x. x) false 5 refl refl refl (λ e. ground (arith, e))
      (λ e. ground (arith, e)) refl
