-- ===== src/Timer.antt =====
-- timer.cpp and include/timer.h: the timing wheel of a consumer.
-- A timer is a number, the address of its `TimerNode`; `nodes` is the memory of the nodes, so a
-- cancellation is seen wherever the timer is queued. A callback is a number too (`none` is an empty
-- `std::function`); what the callbacks do to the wheel is the parameter `effects`, and `calls` lists
-- the timers whose callbacks have run, latest first. A callback that throws is logged and dropped,
-- so it is one with fewer effects. Times are nanoseconds of the steady clock, an argument of `tick`.
pub mod Tick
pub mod Touch
pub mod Others
pub mod Due
pub mod Passes
pub mod OnTime
pub mod Place
pub mod Added
pub mod Repeat
pub mod Period
pub mod Tests
use fiber_lib.Prelude.{
  update, ℕ, zero, suc, ◌+◌, ◌-◌, ◌*◌, ◌/◌, ◌%◌, ◌^◌, Bool, true, false, ◌&&◌, not, Option, none,
  some, List, [], ◌∷◌, ◌++◌, ◌==◌, ltb, if◌then◌else◌, get_or, set, replicate,
}

pub record TimerNode : Type 0 where
  pub timeout : ℕ  -- the 64 bits of an `int64_t` of milliseconds
  pub rotations : ℕ
  pub callback : Option ℕ
  pub repeat : Bool
  pub canceled : Bool

pub record Wheel : Type 0 where
  pub slots : ℕ
  pub interval : ℕ  -- `tick_interval_` in milliseconds
  pub buckets : List (List ℕ)  -- `wheel_`
  pub current : ℕ
  pub pending : List ℕ
  pub running : Bool
  pub last_tick : ℕ
  pub nodes : ℕ → TimerNode
  pub next_node : ℕ  -- the next address that `make_shared` gives out
  pub calls : List ℕ

-- What a callback does to the wheel.
pub data Effect : Type 0 where
  adds : (ms : ℕ) → (callback : Option ℕ) → (repeat : Bool) → Effect
  cancels : ℕ → Effect

abbrev pub modify {ℓ} : {A : Type ℓ} → (ℕ → A) → ℕ → (A → A) → ℕ → A
modify f i g = update f i (g (f i))

unfoldable pub new_wheel : ℕ → ℕ → ℕ → (ℕ → TimerNode) → Wheel
new_wheel slots interval now memory = record {
  slots = slots;
  interval = interval;
  buckets = replicate slots [];
  current = 0;
  pending = [];
  running = true;
  last_tick = now;
  nodes = memory;
  next_node = 0;
  calls = [];
}

-- `timeout.count() / tick_interval_.count()` is a signed division, then taken as `uint64_t`.
abbrev pub signed_ticks : ℕ → ℕ → ℕ
signed_ticks timeout interval =
    if ltb timeout (2 ^ 63)
    then timeout / interval
    else (2 ^ 64 - (2 ^ 64 - timeout) / interval) % 2 ^ 64

-- At least one tick.
abbrev pub at_least_one : ℕ → ℕ
at_least_one t = if t == 0 then 1 else t

unfoldable pub timer_ticks : Wheel → ℕ → ℕ
timer_ticks w i = at_least_one (signed_ticks (w.nodes i).timeout w.interval)

abbrev pub new_node : Wheel → ℕ → Option ℕ → Bool → TimerNode
new_node w ms callback repeat = record {
  timeout = ms;
  rotations = at_least_one (ms / w.interval) / w.slots;
  callback = callback;
  repeat = repeat;
  canceled = false;
}

-- `addTimer`: the timer, or `nullptr` once the wheel is stopped.
unfoldable pub add_timer : ℕ → Option ℕ → Bool → Wheel → Option ℕ × Wheel
add_timer ms callback repeat w =
    if w.running
    then (
      some w.next_node,
      record w {
        nodes = update w.nodes w.next_node (new_node w ms callback repeat);
        next_node = suc w.next_node;
        pending = w.pending ++ w.next_node ∷ [];
      },
    )
    else (none, w)

unfoldable pub cancel : Option ℕ → Wheel → Wheel
cancel none w = w
cancel (some i) w = record w { nodes = modify w.nodes i (λ n. record n { canceled = true }) }

unfoldable pub refresh : Option ℕ → Wheel → Option ℕ × Wheel
unfolding add_timer cancel
refresh none w = (none, w)
refresh (some i) w =
    if (w.nodes i).canceled
    then (none, w)
    else add_timer (w.nodes i).timeout (w.nodes i).callback (w.nodes i).repeat (cancel (some i) w)

abbrev pub stop : Wheel → Wheel
stop w = record w { running = false }

-- `getNextTimeOutMs`
unfoldable pub next_timeout_ms : ℕ → Wheel → ℕ
next_timeout_ms now w = w.interval - (now - w.last_tick) / 10 ^ 6

module _ (effects : ℕ → List Effect) where
  pub apply : Effect → Wheel → Wheel
  unfolding add_timer cancel
  apply (adds ms callback repeat) w = (add_timer ms callback repeat w).1
  apply (cancels i) w = cancel (some i) w

  unfoldable pub apply_all : List Effect → Wheel → Wheel
  unfolding apply
  apply_all [] w = w
  apply_all (e ∷ es) w = apply_all es (apply e w)

  -- `if (timer->callback) timer->callback();`
  pub run_callback : ℕ → Option ℕ → Wheel → Wheel
  run_callback i none w = w
  run_callback i (some f) w = apply_all (effects f) (record w { calls = i ∷ w.calls })

  unfoldable pub fire : ℕ → Wheel → Wheel
  unfolding run_callback
  fire i w = run_callback i (w.nodes i).callback w

  unfoldable pub trigger_now : Option ℕ → Wheel → Wheel
  unfolding fire cancel
  trigger_now none w = w
  trigger_now (some i) w = fire i (cancel (some i) w)
