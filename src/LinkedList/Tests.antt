-- ===== src/LinkedList/Tests.antt =====
-- A queue with a dummy node 64 and the value 7 in node 128, whose tail still lags behind.
use fiber_lib.Prelude.{ℕ, ◌≡◌, refl, inr, true, false, [], ◌∷◌, arith, Option, some, none}
use fiber_lib.LinkedList.{
  Node, Queue, null_handle, new_queue, construct, link_node, push_back, pop_front, empty, push_loop,
}
use fiber_lib.LinkedList.Refine.{
  Holds, Pushed, Popped, new_queue-Holds, push_back_lem, pop_front_lem,
}

abbrev no_nodes : ℕ → Node
no_nodes n = record { data_of = 0; next = null_handle }

abbrev lagging : Queue
lagging = link_node 128 (construct 128 7 (new_queue 64 no_nodes))

lagging-Holds : Holds lagging (128 ∷ []) (7 ∷ [])
lagging-Holds = record {
  linked = (refl, (λ e. ground (arith, e)), refl);
  once = λ a. ground arith;
  content = refl;
  tail_at = inr refl;
  sized = refl;
}

push_back_lem_example :
    Pushed (128 ∷ 192 ∷ []) (7 ∷ 8 ∷ []) (push_back 9 (true ∷ false ∷ true ∷ []) 192 8 lagging)
push_back_lem_example =
    push_back_lem 9 (true ∷ false ∷ true ∷ []) 192 8 lagging (128 ∷ []) (7 ∷ []) lagging-Holds
      (λ e. ground (arith, e)) refl (ground arith)

pop_front_lem_example : Popped (7 ∷ []) (pop_front 9 (true ∷ false ∷ true ∷ []) lagging)
pop_front_lem_example =
    pop_front_lem 9 (true ∷ false ∷ true ∷ []) lagging (128 ∷ []) (7 ∷ []) lagging-Holds
      (ground arith)

-- A push and a pop on a new queue.
abbrev popped_value : Option (Option ℕ × Queue) → Option ℕ
popped_value none = none
popped_value (some (o, q)) = o

abbrev pop_pushed : Option Queue → Option ℕ
pop_pushed none = none
pop_pushed (some q) = popped_value (pop_front 2 [] q)

pop-push : pop_pushed (push_back 2 [] 128 7 (new_queue 64 no_nodes)) ≡ some 7
unfolding push_back push_loop pop_front
pop-push = refl

new-Holds : Holds (new_queue 64 no_nodes) [] []
new-Holds = new_queue-Holds 64 no_nodes

-- `empty` looks at the pointers alone, and takes a queue with a lagging tail for empty.
empty-lagging : empty lagging ≡ true
empty-lagging = refl
