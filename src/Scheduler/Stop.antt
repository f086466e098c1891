-- ===== src/Scheduler/Stop.antt =====
-- scheduler.cpp, `stop`: the consumers are stopped one by one, and each fiber in their queues is
-- resumed by the thread that stops them. The other threads do nothing meanwhile. The thread that calls
-- is a consumer's (its number) or another one (`none`).
use fiber_lib.Prelude.{
  ℕ, zero, suc, ◌+◌, false, Option, none, some, List, [], ◌∷◌, ◌++◌, ◌==◌, if◌then◌else◌, update,
  map,
}
use fiber_lib.Fiber.{running, is_done}
use fiber_lib.Scheduler.{Pool, Checked, fine, across_thread, done_again, then_do}
use fiber_lib.Scheduler.Affinity.{run}
use fiber_lib.Scheduler.Batch.{act_event, Slice, Scripts, first_slice, later_slices}

-- The calls of `resume` that are over, by their fibers, with the scripts and the pool.
pub record Stopping : Type 0 where
  pub resumed : List ℕ
  pub scripts : Scripts
  pub pool : Pool

abbrev pub ran_to : ℕ → Slice → Stopping → Pool → Stopping
ran_to f x t p = record t {
  resumed = t.resumed ++ f ∷ [];
  scripts = update t.scripts f (later_slices (t.scripts f));
  pool = record p { state = update p.state f x.leaves_as };
}

-- `resume` on the thread that stops the scheduler: a fiber that is done stays as it is, another one runs
-- to the end of its slice.
unfoldable pub resume_left : ℕ → Stopping → Checked Stopping
unfolding run
resume_left f t =
    if is_done (t.pool.state f)
    then fine (record t { resumed = t.resumed ++ f ∷ [] })
    else then_do
        (run (map act_event (first_slice (t.scripts f)).acts)
          (fine (record t.pool { state = update t.pool.state f running })))
        λ p. fine (ran_to f (first_slice (t.scripts f)) t p)

abbrev pub popped : ℕ → List ℕ → Stopping → Stopping
popped i q t = record t {
  pool = record t.pool {
    consumers = update t.pool.consumers i (record (t.pool.consumers i) { queue = q });
  };
}

abbrev pub next_left :
    (Stopping → Option (Checked Stopping)) → Checked Stopping → Option (Checked Stopping)
next_left next (fine t) = next t
next_left next across_thread = some across_thread
next_left next done_again = some done_again

abbrev pub while_left :
    (Stopping → Option (Checked Stopping)) → ℕ → List ℕ → Stopping → Option (Checked Stopping)
while_left next i [] t = some (fine t)
while_left next i (f ∷ q) t = next_left next (resume_left f (popped i q t))

-- The loop at the end of `FiberConsumer::stop`; `none` is that the fuel is used up.
unfoldable pub drain : (fuel : ℕ) → ℕ → Stopping → Option (Checked Stopping)
drain zero i t = none
drain (suc n) i t = while_left (λ t'. drain n i t') i (t.pool.consumers i).queue t

abbrev pub turned_off : ℕ → Stopping → Stopping
turned_off i t = record t {
  pool = record t.pool {
    consumers = update t.pool.consumers i (record (t.pool.consumers i) { on = false });
  };
}

-- `thread_.join()`: on its own thread it throws, and the call does not return, which is `none` too.
abbrev pub joined : (self : Option ℕ) → ℕ → Option (Checked Stopping) → Option (Checked Stopping)
joined none i after = after
joined (some j) i after = if j == i then none else after

-- `FiberConsumer::stop`.
unfoldable pub stop_consumer :
    (fuel : ℕ) → (self : Option ℕ) → ℕ → Stopping → Option (Checked Stopping)
unfolding drain
stop_consumer fuel self i t =
    if (t.pool.consumers i).on then joined self i (drain fuel i (turned_off i t)) else some (fine t)

-- The loop of `stopConsumers` over `n` consumers from `i` on.
abbrev pub then_next :
    (Stopping → Option (Checked Stopping)) → Option (Checked Stopping) → Option (Checked Stopping)
then_next next none = none
then_next next (some c) = next_left next c

unfoldable pub stop_from :
    (fuel : ℕ) → (self : Option ℕ) → ℕ → ℕ → Stopping → Option (Checked Stopping)
unfolding stop_consumer
stop_from fuel self zero i t = some (fine t)
stop_from fuel self (suc n) i t =
    then_next (λ t'. stop_from fuel self n (i + 1) t') (stop_consumer fuel self i t)

abbrev pub cleared : Stopping → Option (Checked Stopping)
cleared t = some (fine (record t { pool = record t.pool { count = 0 } }))

-- `Scheduler::stop`.
unfoldable pub stop : (fuel : ℕ) → (self : Option ℕ) → Stopping → Option (Checked Stopping)
unfolding stop_from
stop fuel self t =
    if t.pool.on
    then then_next cleared
        (stop_from fuel self t.pool.count 0 (record t { pool = record t.pool { on = false } }))
    else some (fine t)
