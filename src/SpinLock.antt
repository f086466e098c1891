-- ===== src/SpinLock.antt =====
-- `SpinLock` of include/sync.h: its flag, and where each thread is in `lock`. A step is one exchange
-- of one thread, or the store of `unlock` by the thread that has the lock.
pub mod Inv
pub mod Tests
use fiber_lib.Prelude.{ℕ, ◌+◌, Bool, true, false, List, [], ◌∷◌, ltb, if◌then◌else◌, update}

-- The loops of `lock`, with the number of turns they have made.
pub data Phase : Type 0 where
  away : Phase
  spinning : ℕ → Phase
  yielding : ℕ → Phase
  waiting : Phase
  inside : Phase

pub record SpinLock : Type 0 where
  pub lock : Bool
  pub phase : ℕ → Phase

abbrev pub max_spins : ℕ
max_spins = 50

abbrev pub max_yields : ℕ
max_yields = 10

-- What follows a `try_lock` that has failed.
abbrev pub next_phase : Phase → Phase
next_phase away = away
next_phase (spinning n) = if ltb (n + 1) max_spins then spinning (n + 1) else yielding 0
next_phase (yielding n) = if ltb (n + 1) max_yields then yielding (n + 1) else waiting
next_phase waiting = waiting
next_phase inside = inside

-- `lock_.exchange(true)`; a thread that finds the flag set goes on at `next`.
unfoldable pub try_lock : ℕ → Phase → SpinLock → SpinLock
try_lock i next s = record s {
  lock = true;
  phase = update s.phase i (if s.lock then next else inside);
}

-- The next step of a thread: outside, the start of `lock`; with the lock, `unlock`.
unfoldable pub move : ℕ → Phase → SpinLock → SpinLock
unfolding try_lock
move i away s = record s { phase = update s.phase i (spinning 0) }
move i (spinning n) s = try_lock i (next_phase (spinning n)) s
move i (yielding n) s = try_lock i (next_phase (yielding n)) s
move i waiting s = try_lock i waiting s
move i inside s = record s { lock = false; phase = update s.phase i away }

pub data Turn : Type 0 where
  goes : ℕ → Turn
  tries : ℕ → Turn  -- a call of `try_lock` from outside

unfoldable pub try_outside : ℕ → Phase → SpinLock → SpinLock
unfolding try_lock
try_outside i away s = try_lock i away s
try_outside i _ s = s

unfoldable pub turn : Turn → SpinLock → SpinLock
unfolding move try_outside
turn (goes i) s = move i (s.phase i) s
turn (tries i) s = try_outside i (s.phase i) s

unfoldable pub run : List Turn → SpinLock → SpinLock
unfolding turn
run [] s = s
run (t ∷ ts) s = run ts (turn t s)
