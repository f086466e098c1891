-- ===== src/Scheduler/Tests.antt =====
-- Two consumers and three fibers: fibers 1 and 3 are on consumer 1, and fiber 2 is on consumer 0.
use fiber_lib.Prelude.{ℕ, ◌≡◌, refl, false, none, Option, List, [], ◌∷◌, if◌then◌else◌, ◌==◌, arith}
use fiber_lib.Fiber.{FiberState, ready, suspended, blocked, done}
use fiber_lib.Scheduler.{Pool, fine, init, created, begin, push_task, go, start_consumer}
use fiber_lib.Scheduler.Bound.{IsBound, Within, init-IsBound}
use fiber_lib.Scheduler.Affinity.{goes, wakes, takes, leaves, Event, step, run, run-Within}
use fiber_lib.Scheduler.Batch.{Scripts, launch, process_task}
use fiber_lib.Scheduler.Loop.{IsReady, Drained, process_task-Drained}
use fiber_lib.Scheduler.Stop.{Stopping, stop}
use fiber_lib.Scheduler.Left.{EndsStopped, stop-Stopped}

abbrev no_consumer : ℕ → Option ℕ
no_consumer f = none

abbrev no_trace : ℕ → ℕ
no_trace f = 0

abbrev all_ready : ℕ → FiberState
all_ready f = ready

abbrev stopped : Pool
stopped = record {
  on = false;
  count = 0;
  consumers = start_consumer;
  consumer_id = no_consumer;
  trace_id = no_trace;
  state = all_ready;
  last_id = 0;
}

abbrev at_first : Pool
at_first = init 2 stopped

at_first-IsBound : IsBound at_first
at_first-IsBound = init-IsBound 2 stopped (λ f. refl)

abbrev history : List Event
history =
    goes 0
    ∷ goes 0
    ∷ takes 1
    ∷ takes 0
    ∷ wakes 2
    ∷ leaves 0 suspended
    ∷ leaves 1 blocked
    ∷ goes 0
    ∷ wakes 1
    ∷ takes 0
    ∷ []

run-Within_example : Within at_first (run history (fine at_first))
run-Within_example = run-Within history at_first at_first-IsBound

-- Fiber 1 is at work on the thread of consumer 1, and calls `go`.
abbrev working : Pool
working = begin 1 1 (created 1 0 at_first)

abbrev worker : ℕ
worker = 1

working-IsBound : IsBound working
working-IsBound = record {
  ids = λ i l. ground arith;
  queued = λ i f l c. absurd (ground (arith, c));
  assigned = λ f i e. ground (arith, e);
  at_work = λ i f l e. ground (arith, e);
}

run_one : (feature : ℕ) (p : Pool) → run (goes feature ∷ []) (fine p) ≡ go feature p
unfolding run step
run_one feature p = refl

-- Fiber 1 wakes nobody and suspends once, then starts fiber 2 and returns.
abbrev scripts : Scripts
scripts f =
    if f == 1
    then record { acts = []; leaves_as = suspended }
      ∷ record { acts = launch 0 ∷ []; leaves_as = done }
      ∷ []
    else []

abbrev queued_one : Pool
queued_one = push_task 1 1 (created 1 0 at_first)

queued_one-IsReady : IsReady 2 1 scripts queued_one
queued_one-IsReady = record {
  covered = λ f l. ground arith;
  bound = record {
    ids = λ i l. ground arith;
    queued = λ i f l c. ground (arith, c);
    assigned = λ f i e. absurd (ground (arith, e));
    at_work = λ i f l e. absurd (ground (arith, e));
  };
  inside = omega arith;
  idle = refl;
}

process_task-Drained_example : Drained 2 1 (process_task 9 1 scripts queued_one)
process_task-Drained_example =
    process_task-Drained 2 1 9 scripts queued_one queued_one-IsReady (ground arith)

abbrev stopping : Stopping
stopping = record { resumed = []; scripts = scripts; pool = queued_one }

stop-Stopped_example : EndsStopped stopping (stop 5 none stopping)
stop-Stopped_example = stop-Stopped 5 stopping refl (λ j. ground arith)
