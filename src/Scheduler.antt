-- ===== src/Scheduler.antt =====
-- scheduler.cpp, fiber_consumer.cpp and `Fiber::go` in fiber.cpp: the consumers with their queues, and
-- which consumer runs a fiber. `FiberConsumer` is the record `Consumer` and the vector `consumers_` is
-- the function `consumers` below `count`. A queue is a list of fibers (lockfree_linked_list.h), and
-- an event of a consumer is one turn of the loop in `processTask`, cut where the fiber runs. What a
-- fiber does while it runs are calls of `go` and of `scheduleImmediate`, any number of them, between
-- those of the fibers on the other threads.
pub mod Bound
pub mod Affinity
pub mod Batch
pub mod Growth
pub mod Loop
pub mod Stop
pub mod Left
pub mod Tests
use fiber_lib.Prelude.{
  ℕ, ◌+◌, ◌%◌, ◌^◌, Bool, true, false, not, Option, none, some, List, [], ◌∷◌, ◌++◌, ◌==◌, ltb,
  if◌then◌else◌, update,
}
use fiber_lib.Fiber.{FiberState, ready, running, suspended, blocked, done, is_done}

pub record Consumer : Type 0 where
  pub id : ℕ
  pub on : Bool  -- `running_`
  pub queue : List ℕ
  pub current : Option ℕ  -- the fiber that its thread runs

pub record Pool : Type 0 where
  pub on : Bool  -- `state_ == RUNNING`
  pub count : ℕ
  pub consumers : ℕ → Consumer
  pub consumer_id : ℕ → Option ℕ  -- of the fibers, as are the next two
  pub trace_id : ℕ → ℕ
  pub state : ℕ → FiberState
  pub last_id : ℕ  -- `fiber_id_counter`

-- A result, or the assertion that failed: "Fiber scheduled across thread!" with that on the ids of
-- the consumers, and "Scheduling a DONE fiber!".
pub data Checked (A : Type 0) : Type 0 where
  fine : A → Checked A
  across_thread : Checked A
  done_again : Checked A

abbrev pub then_do : {A B : Type 0} → Checked A → (A → Checked B) → Checked B
then_do (fine x) f = f x
then_do across_thread f = across_thread
then_do done_again f = done_again

abbrev pub new_consumer : ℕ → Bool → Consumer
new_consumer i b = record { id = i; on = b; queue = []; current = none }

-- `startConsumers`: the first one has its own `running_`, the others are started.
abbrev pub start_consumer : ℕ → Consumer
start_consumer i = new_consumer i true

abbrev pub start_consumers : ℕ → Pool → Pool
start_consumers n p = record p { count = if ltb 0 n then n else 1; consumers = start_consumer }

-- `init` of a scheduler that is stopped.
abbrev pub init : ℕ → Pool → Pool
init n p = start_consumers n (record p { on = true })

-- The test of the assertions on `GetConsumerId()`.
abbrev pub may_run : Option ℕ → ℕ → Bool
may_run none i = true
may_run (some j) i = j == i

abbrev pub push_task : ℕ → ℕ → Pool → Pool
push_task f i p = record p {
  consumers =
      update p.consumers i (record (p.consumers i) { queue = (p.consumers i).queue ++ f ∷ [] });
}

-- `FiberConsumer::schedule`.
unfoldable pub schedule : ℕ → ℕ → Pool → Checked Pool
schedule f i p =
    if not (p.consumers i).on
    then fine p
    else if may_run (p.consumer_id f) (p.consumers i).id
    then fine (push_task f i p)
    else across_thread

abbrev pub select_consumer : ℕ → Pool → Option ℕ
select_consumer trace p = if p.count == 0 then none else some (trace % p.count)

-- "No consumer to select, fiber lost".
unfoldable pub schedule_selected : ℕ → Option ℕ → Pool → Checked Pool
unfolding schedule
schedule_selected f none p = fine p
schedule_selected f (some i) p = schedule f i p

unfoldable pub schedule_to : ℕ → Option ℕ → Pool → Checked Pool
unfolding schedule schedule_selected
schedule_to f none p = schedule_selected f (select_consumer (p.trace_id f) p) p
schedule_to f (some j) p = if (p.consumers j).id == j then schedule f j p else across_thread

unfoldable pub schedule_immediate : ℕ → Pool → Checked Pool
unfolding schedule_to
schedule_immediate f p =
    if p.on
    then (if is_done (p.state f) then done_again else schedule_to f (p.consumer_id f) p)
    else fine p

-- The fiber that `Fiber::go` makes.
abbrev pub created : ℕ → ℕ → Pool → Pool
created f feature p = record p {
  last_id = f;
  state = update p.state f ready;
  consumer_id = update p.consumer_id f none;
  trace_id = update p.trace_id f ((f + feature) % 2 ^ 64);
}

unfoldable pub go : ℕ → Pool → Checked Pool
unfolding schedule_immediate
go feature p = schedule_immediate (p.last_id + 1) (created (p.last_id + 1) feature p)

-- `SetConsumerId` and `resume`, which does nothing for a fiber that is done.
abbrev pub begin : ℕ → ℕ → Pool → Pool
begin f i p = record p {
  consumer_id = update p.consumer_id f (some (p.consumers i).id);
  state = update p.state f (if is_done (p.state f) then done else running);
  consumers =
      update p.consumers i
        (record (p.consumers i) { current = if is_done (p.state f) then none else some f });
}

unfoldable pub take_front : ℕ → List ℕ → Pool → Checked Pool
take_front i [] p = fine p
take_front i (f ∷ q) p =
    if may_run (p.consumer_id f) (p.consumers i).id
    then fine (
        begin f i
          (record p { consumers = update p.consumers i (record (p.consumers i) { queue = q }) }))
    else across_thread

-- A turn of `processTask` up to the run of its fiber.
unfoldable pub pop_task : ℕ → Pool → Checked Pool
unfolding take_front
pop_task i p = take_front i (p.consumers i).queue p

-- The end of the turn, with the state in which the fiber has left its run.
abbrev pub requeued : ℕ → ℕ → FiberState → Pool → Pool
requeued f i suspended p = push_task f i p
requeued f i _ p = p

unfoldable pub end_turn : ℕ → FiberState → Option ℕ → Pool → Pool
end_turn i s none p = p
end_turn i s (some f) p = requeued f i s (record p {
  state = update p.state f s;
  consumers = update p.consumers i (record (p.consumers i) { current = none });
})

-- `getThreadLocalConsumer`, from the fiber that a thread runs.
abbrev pub thread_local_consumer : Option ℕ → Pool → Option ℕ
thread_local_consumer none p = none
thread_local_consumer (some f) p = p.consumer_id f
