-- ===== src/Condition.antt =====
-- `FiberCondition` of include/sync.h and sync.cpp: a mutex, the fibers that sleep until they are
-- notified, and the timers of `wait_for`. A step is one atomic access of one fiber: the calls of `lock`
-- and `unlock` are the turns of the mutex (Mutex). The lock that a fiber passes is always the one of
-- this mutex.
pub mod Inv
pub mod Sleep
pub mod Missed
pub mod Tests
use fiber_lib.Prelude.{ℕ, Bool, true, false, not, ◌&&◌, List, [], ◌∷◌, if◌then◌else◌, update}
use fiber_lib.WaitQueue.{push_back}
use fiber_lib.Mutex.{Mutex, Pc, outside, trying, parking, parked, holding, waking, Turn, goes, turn}

-- Where a fiber is in `wait`, or in `wait_for` if `timed`.
pub data Spot : Type 0 where
  calm : Spot  -- in no call of the condition
  leaving : (timed : Bool) → Spot  -- in `lock.unlock()`
  entering : (timed : Bool) → Spot  -- before `waiters_->wait()`
  asleep : (timed : Bool) → Spot
  woken : (timed : Bool) → Spot  -- behind `waiters_->wait()`
  relocking : (result : Bool) → Spot  -- in `lock.lock()`, before the return of a result

-- The timer of a call of `wait_for`, with `timeout_state` and `notified_state`.
pub record Deadline : Type 0 where
  pub armed : Bool
  pub timed_out : Bool
  pub notified : Bool

pub record Condition : Type 0 where
  pub mutex : Mutex
  pub waiters : List ℕ
  pub spot : ℕ → Spot
  pub deadline : ℕ → Deadline
  pub result : ℕ → Bool  -- of the last call of each fiber

abbrev pub puts : ℕ → Spot → Condition → Condition
puts i p c = record c { spot = update c.spot i p }

abbrev pub is_outside : Pc → Bool
is_outside outside = true
is_outside _ = false

abbrev pub is_holding : Pc → Bool
is_holding holding = true
is_holding _ = false

abbrev pub new_deadline : Bool → Deadline
new_deadline timed = record { armed = timed; timed_out = false; notified = false }

-- The start of `wait` or `wait_for`; without the lock it throws.
unfoldable pub begin_wait : ℕ → Bool → Spot → Condition → Condition
begin_wait i timed calm c =
    if is_holding (c.mutex.pc i)
    then puts i (leaving timed) (record c { deadline = update c.deadline i (new_deadline timed) })
    else c
begin_wait i timed _ c = c

-- The next access of `lock.unlock()` or of `lock.lock()`.
abbrev pub after_turn : ℕ → Mutex → Condition → Condition
after_turn i m c = record c { mutex = m }

unfoldable pub unlock_on : ℕ → Bool → Mutex → Condition → Condition
unlock_on i timed m c =
    if is_outside (m.pc i) then puts i (entering timed) (after_turn i m c) else after_turn i m c

unfoldable pub lock_on : ℕ → Bool → Mutex → Condition → Condition
lock_on i result m c =
    if is_holding (m.pc i)
    then puts i calm (record c { mutex = m; result = update c.result i result })
    else after_turn i m c

-- `notified_state->exchange(true)` and `cancel`, and the read of `timeout_state`.
unfoldable pub wake_up : ℕ → Bool → Condition → Condition
wake_up i false c = puts i (relocking true) c
wake_up i true c = puts i (relocking (not (c.deadline i).timed_out)) (record c {
  deadline = update c.deadline i (record (c.deadline i) {
    armed = if (c.deadline i).notified then (c.deadline i).armed else false;
    notified = true;
  });
})

-- The next access of fiber `i`: outside of the calls, of `lock` or `unlock` of the mutex.
unfoldable pub advance : Bool → ℕ → Spot → Condition → Condition
unfolding unlock_on lock_on wake_up push_back
advance whole i calm c = after_turn i (turn whole (goes i) c.mutex) c
advance whole i (leaving timed) c = unlock_on i timed (turn whole (goes i) c.mutex) c
advance whole i (entering timed) c =
    puts i (asleep timed) (record c { waiters = push_back c.waiters i })
advance whole i (asleep timed) c = c
advance whole i (woken timed) c = wake_up i timed c
advance whole i (relocking result) c = lock_on i result (turn whole (goes i) c.mutex) c

abbrev pub roused : Spot → Spot
roused (asleep timed) = woken timed
roused p = p

-- `notify_one` on the queue, and `notify_all`.
unfoldable pub notify_one : List ℕ → Condition → Condition
notify_one [] c = c
notify_one (f ∷ q) c = puts f (roused (c.spot f)) (record c { waiters = q })

unfoldable pub notify_all : List ℕ → Condition → Condition
unfolding notify_one
notify_all [] c = c
notify_all (f ∷ q) c = notify_all q (notify_one (f ∷ q) c)

-- The callback of the timer of fiber `i`.
unfoldable pub expire : ℕ → Condition → Condition
unfolding notify_one
expire i c =
    let d = c.deadline i in
    let c' = record c {
      deadline = update c.deadline i (record { armed = false; timed_out = true; notified = true });
    } in
    if not d.armed then c else if d.notified then c' else notify_one c'.waiters c'

pub data Step : Type 0 where
  waits : ℕ → (timed : Bool) → Step
  advances : ℕ → Step
  notifies_one : Step
  notifies_all : Step
  expires : ℕ → Step

unfoldable pub step : Bool → Step → Condition → Condition
unfolding begin_wait advance notify_one notify_all expire
step whole (waits i timed) c = begin_wait i timed (c.spot i) c
step whole (advances i) c = advance whole i (c.spot i) c
step whole notifies_one c = notify_one c.waiters c
step whole notifies_all c = notify_all c.waiters c
step whole (expires i) c = expire i c

unfoldable pub run : Bool → List Step → Condition → Condition
unfolding step
run whole [] c = c
run whole (e ∷ es) c = run whole es (step whole e c)
