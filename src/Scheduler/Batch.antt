-- ===== src/Scheduler/Batch.antt =====
-- fiber_consumer.cpp, `processTask`: the loop on the thread of one consumer. What the fibers do is
-- given by a script for each of them, which has for every run the calls it makes and the state in
-- which it leaves; a fiber whose script is over returns. The loop has fuel.
use fiber_lib.Prelude.{ℕ, zero, suc, ◌+◌, Option, none, some, List, [], ◌∷◌, map, length, update}
use fiber_lib.Fiber.{FiberState, done}
use fiber_lib.Scheduler.{Pool, Checked, fine, across_thread, done_again, then_do, end_turn}
use fiber_lib.Scheduler.Affinity.{Event, goes, wakes, takes, step, run}

-- `go` with a feature id, or `scheduleImmediate` with a fiber.
pub data Act : Type 0 where
  launch : ℕ → Act
  wake : ℕ → Act

abbrev pub act_event : Act → Event
act_event (launch feature) = goes feature
act_event (wake f) = wakes f

pub record Slice : Type 0 where
  pub acts : List Act
  pub leaves_as : FiberState

abbrev pub Scripts : Type 0
Scripts = ℕ → List Slice

abbrev pub first_slice : List Slice → Slice
first_slice [] = record { acts = []; leaves_as = done }
first_slice (x ∷ xs) = x

abbrev pub later_slices : List Slice → List Slice
later_slices [] = []
later_slices (x ∷ xs) = xs

-- What the fiber on the thread does, if there is one, and what is left of the scripts.
abbrev pub slice_of : Option ℕ → Scripts → Slice
slice_of none s = first_slice []
slice_of (some f) s = first_slice (s f)

abbrev pub scripts_after : Option ℕ → Scripts → Scripts
scripts_after none s = s
scripts_after (some f) s = update s f (later_slices (s f))

abbrev pub leave_turn : ℕ → FiberState → Scripts → Pool → Pool × Scripts
leave_turn i s t p = (end_turn i s (p.consumers i).current p, t)

abbrev pub run_slice : ℕ → Option ℕ → Scripts → Pool → Checked (Pool × Scripts)
run_slice i o s p =
    then_do (run (map act_event (slice_of o s).acts) (fine p))
      λ p'. fine (leave_turn i (slice_of o s).leaves_as (scripts_after o s) p')

-- One turn of the loop.
unfoldable pub turn : ℕ → Scripts → Pool → Checked (Pool × Scripts)
unfolding step run
turn i s p = then_do (step (takes i) p) λ p'. run_slice i (p'.consumers i).current s p'

-- What follows a turn, with the rest of the loop as an argument.
abbrev pub after_turn :
    (Scripts → Pool → Option (Checked (Pool × Scripts)))
    → Checked (Pool × Scripts)
    → Option (Checked (Pool × Scripts))
after_turn next (fine (p, s)) = next s p
after_turn next across_thread = some across_thread
after_turn next done_again = some done_again

-- The loop ends at an empty queue.
abbrev pub while_task :
    (Scripts → Pool → Option (Checked (Pool × Scripts)))
    → List ℕ
    → ℕ
    → Scripts
    → Pool
    → Option (Checked (Pool × Scripts))
while_task next [] i s p = some (fine (p, s))
while_task next (f ∷ q) i s p = after_turn next (turn i s p)

-- `none` is that the fuel is used up.
unfoldable pub process_task : (fuel : ℕ) → ℕ → Scripts → Pool → Option (Checked (Pool × Scripts))
process_task zero i s p = none
process_task (suc n) i s p =
    while_task (λ s' p'. process_task n i s' p') (p.consumers i).queue i s p

-- The calls and the runs that a script still has.
abbrev pub weight : List Slice → ℕ
weight [] = 0
weight (x ∷ xs) = 1 + length x.acts + weight xs

-- Those of the fibers below a number.
abbrev pub total : ℕ → Scripts → ℕ
total zero s = 0
total (suc n) s = weight (s n) + total n s
