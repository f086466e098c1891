-- ===== src/LinkedList/Threads/Tests.antt =====
-- A list whose dummy node is 64. Threads 1 and 2 push at the same time, thread 0 pops.
use fiber_lib.Prelude.{
  ℕ, suc, zero, ◌≡◌, ◌++◌, refl, false, List, [], ◌∷◌, update, arith, some, none,
}
use fiber_lib.FreeList.{Handle}
use fiber_lib.LinkedList.Threads.{
  Turn, pushes, pops, advances, turn, run, new_list, advance, start_push, start_pop, try_link,
  decide, try_move, Shared, idle, built,
}
use fiber_lib.LinkedList.Threads.Chain.{Linked, contents}
use fiber_lib.LinkedList.Threads.Inv.{in_hand, IsUnseen}
use fiber_lib.LinkedList.Threads.Fifo.{Unseen, run-Fifo, run-Empty}

abbrev goes : ℕ → ℕ → List Turn
goes zero i = []
goes (suc k) i = advances i false ∷ goes k i

-- Both threads see the same tail; the first one links its node, the second one starts again.
abbrev two_pushes : List Turn
two_pushes =
    pushes 1 128 7 ∷ pushes 2 192 8 ∷ goes 3 1
    ++ goes 3 2
    ++ goes 1 1
    ++ goes 1 2
    ++ goes 2 1
    ++ goes 4 2

abbrev one_pop : List Turn
one_pop = two_pushes ++ pops 0 ∷ goes 6 0

abbrev one_list : Shared
one_list = run one_pop (new_list 64 none)

all_idle-IsUnseen : (n : ℕ) → IsUnseen (λ i. idle) n
all_idle-IsUnseen n j = ((λ e. ground (arith, e)), (λ e. ground (arith, e)))

one_built-IsUnseen : (i m v n : ℕ) → IsUnseen (update (λ k. idle) i (built m v)) n
one_built-IsUnseen i m v n j = ((λ e. ground (arith, e)), (λ e. ground (arith, e)))

-- The exchange on the head is made, and the content is not yet read.
seven_in_hand : in_hand (one_list).nodes ((one_list).places 0) ≡ some 7 ∷ []
unfolding run turn advance start_push start_pop try_link decide try_move
seven_in_hand = refl

-- The tail lags behind the first value, so the pop of the second one starts its loop twice.
abbrev drained : List Turn
drained = two_pushes ++ pops 0 ∷ goes 8 0 ++ pops 0 ∷ goes 13 0 ++ pops 0 ∷ goes 2 0

abbrev empty_list : Shared
empty_list = run drained (new_list 64 none)

abbrev eighth : Handle
eighth = record { ptr = 192; tag = 2 }

drained-Unseen : Unseen drained (new_list 64 none)
unfolding turn advance start_push start_pop try_link decide try_move
drained-Unseen = (all_idle-IsUnseen 128, (one_built-IsUnseen 1 128 7 192, tt))

run-Empty_example : (empty_list).popped ≡ (empty_list).pushed
unfolding run turn advance start_push start_pop try_link decide try_move
run-Empty_example =
    run-Empty 0 64 none drained eighth eighth (λ e. ground (arith, e)) (refl, (refl, (refl, tt)))
      drained-Unseen refl refl

both_popped : (empty_list).popped ≡ some 7 ∷ some 8 ∷ []
unfolding run turn advance start_push start_pop try_link decide try_move
both_popped = refl

-- A push and a pop, and a push in the node that the pop has destroyed.
abbrev reuse : List Turn
reuse = pushes 1 128 7 ∷ goes 7 1 ++ pops 0 ∷ goes 8 0 ++ pushes 1 64 9 ∷ goes 7 1

abbrev reused : Shared
reused = run reuse (new_list 64 none)

reused-pushed : (reused).pushed ≡ some 7 ∷ some 9 ∷ []
unfolding run turn advance start_push start_pop try_link decide try_move
reused-pushed = refl

reused-popped : (reused).popped ≡ some 7 ∷ []
unfolding run turn advance start_push start_pop try_link decide try_move
reused-popped = refl

reuse-Unseen : Unseen reuse (new_list 64 none)
unfolding turn advance start_push start_pop try_link decide try_move
reuse-Unseen =
    (all_idle-IsUnseen 128, ((λ j. ((λ e. ground (arith, e)), (λ e. ground (arith, e)))), tt))

run-Fifo_example :
    (ns : List ℕ) × Linked (reused).nodes (reused).head.ptr ns
    × ((reused).popped ++ in_hand (reused).nodes ((reused).places 0) ++ contents (reused).nodes ns
        ≡ (reused).pushed)
run-Fifo_example = run-Fifo 0 64 none reuse (λ e. ground (arith, e)) (refl, tt) reuse-Unseen
