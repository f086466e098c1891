-- ===== src/Mutex.antt =====
-- `FiberMutex` of include/sync.h and sync.cpp: its flag, its wait queue, and the fibers that use it.
-- A turn is one atomic access of one fiber, so a list of turns is an interleaving of fibers on any
-- number of consumers. With `whole`, a fiber that has failed to take the flag blocks in the same
-- turn, as it does when all fibers of the mutex share a consumer.
pub mod Inv
pub mod Wakeup
pub mod Tests
use fiber_lib.Prelude.{ℕ, Bool, true, false, List, [], ◌∷◌, ◌++◌, if◌then◌else◌, update}
use fiber_lib.WaitQueue.{push_back}

-- Where a fiber stands.
pub data Pc : Type 0 where
  outside : Pc
  trying : Pc  -- before the exchange of `try_acquire_lock`, in the loop of `lock`
  parking : Pc  -- before `waiters_->wait()`
  parked : Pc
  holding : Pc
  waking : Pc  -- in `unlock`, before `notify_one`

pub record Mutex : Type 0 where
  pub locked : Bool
  pub waiters : List ℕ
  pub pc : ℕ → Pc

-- What a fiber does next. `goes` is the next access of a call of `lock`, or of `unlock` by the fiber
-- that holds the mutex; a parked fiber does nothing.
pub data Turn : Type 0 where
  goes : ℕ → Turn
  tries : ℕ → Turn  -- a call of `try_lock` from outside
  unlocks : ℕ → Turn  -- a call of `unlock` from outside

abbrev pub new_mutex : Mutex
new_mutex = record { locked = false; waiters = []; pc = λ i. outside }

abbrev pub stands : ℕ → Pc → Mutex → Mutex
stands i p m = record m { pc = update m.pc i p }

-- `try_acquire_lock` of fiber `i`, which stands at `p` if it fails.
unfoldable pub try_acquire : ℕ → Mutex → Mutex → Mutex
try_acquire i failed m =
    if m.locked then failed else record m { locked = true; pc = update m.pc i holding }

unfoldable pub park : ℕ → Mutex → Mutex
unfolding push_back
park i m = record m { waiters = push_back m.waiters i; pc = update m.pc i parked }

-- `waiters_->notify_one()`, and the end of `unlock`.
unfoldable pub wake : ℕ → List ℕ → Mutex → Mutex
wake i [] m = stands i outside m
wake i (f ∷ q) m = stands i outside (stands f trying (record m { waiters = q }))

-- `locked_.exchange(false)` in `unlock`.
unfoldable pub release : ℕ → Mutex → Mutex
release i m = record m { locked = false; pc = update m.pc i waking }

unfoldable pub move : Bool → ℕ → Pc → Mutex → Mutex
unfolding try_acquire park wake release
move whole i outside m = stands i trying m
move whole i trying m = try_acquire i (if whole then park i m else stands i parking m) m
move whole i parking m = park i m
move whole i parked m = m
move whole i holding m = release i m
move whole i waking m = wake i m.waiters m

-- `unlock` throws if the mutex is not locked.
unfoldable pub misuse : ℕ → Pc → Mutex → Mutex
unfolding release
misuse i outside m = if m.locked then release i m else m
misuse i _ m = m

unfoldable pub try_lock : ℕ → Pc → Mutex → Mutex
unfolding try_acquire
try_lock i outside m = try_acquire i m m
try_lock i _ m = m

unfoldable pub turn : Bool → Turn → Mutex → Mutex
unfolding move misuse try_lock
turn whole (goes i) m = move whole i (m.pc i) m
turn whole (tries i) m = try_lock i (m.pc i) m
turn whole (unlocks i) m = misuse i (m.pc i) m

unfoldable pub run : Bool → List Turn → Mutex → Mutex
unfolding turn
run whole [] m = m
run whole (t ∷ ts) m = run whole ts (turn whole t m)
