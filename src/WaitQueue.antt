-- ===== src/WaitQueue.antt =====
-- wait_queue.cpp and include/wait_queue.h: the queue of blocked fibers under every primitive.
-- A fiber is its number and the queue is the list of its fibers, oldest first, which is what the
-- lock-free list below it keeps while no other thread is inside. What
-- `Scheduler::scheduleImmediate` does to the rest of the program is the parameter `schedule`, on a
-- state `S` that the queue only passes on.
pub mod Laws
pub mod Tests
use fiber_lib.Prelude.{ℕ, suc, Bool, true, false, Option, none, some, List, [], ◌∷◌, ◌++◌}

-- `wait` with the number of the current fiber, if there is one: the queue in which the fiber is
-- blocked, or the `std::runtime_error` of a call outside a fiber.
pub data Wait : Type 0 where
  blocked : List ℕ → Wait
  outside_fiber : Wait

unfoldable pub push_back : List ℕ → ℕ → List ℕ
push_back q f = q ++ f ∷ []

unfoldable pub pop_front : List ℕ → Option ℕ × List ℕ
pop_front [] = (none, [])
pop_front (f ∷ q) = (some f, q)

unfoldable pub wait : Option ℕ → List ℕ → Wait
unfolding push_back
wait none q = outside_fiber
wait (some f) q = blocked (push_back q f)

module _ {S : Type 0} (schedule : ℕ → S → S) where
  notify_front : Option ℕ × List ℕ → S → Bool × List ℕ × S
  notify_front (none, q) s = (false, q, s)
  notify_front (some f, q) s = (true, q, schedule f s)

  unfoldable pub notify_one : List ℕ → S → Bool × List ℕ × S
  unfolding notify_front pop_front
  notify_one q s = notify_front (pop_front q) s

  -- The loop of `notify_all`, with its count so far.
  notify_from : ℕ → List ℕ → S → ℕ × List ℕ × S
  notify_from n [] s = (n, [], s)
  notify_from n (f ∷ q) s = notify_from (suc n) q (schedule f s)

  unfoldable pub notify_all : List ℕ → S → ℕ × List ℕ × S
  unfolding notify_from
  notify_all q s = notify_from 0 q s
