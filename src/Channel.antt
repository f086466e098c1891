-- ===== src/Channel.antt =====
-- include/channel.h, the ring of a channel and the calls that never block.
-- The state is `Channel<T>`; a slot's `T *` is an option, the two wait queues are lists of fibers
-- (WaitQueue). `compare_exchange_weak` may fail although the slot is empty: that choice of the
-- machine is the argument `refused`. What a move leaves in its source is the parameter `moved`.
-- Each call runs as a whole, as it does when all fibers of the channel share a consumer; Threads cuts the
-- calls on the ring into their atomic accesses.
pub mod Ring
pub mod Pop
pub mod Calls
pub mod Spec
pub mod Refine
pub mod History
pub mod Timeout
pub mod Threads
pub mod Tests
use fiber_lib.Prelude.{
  ℕ, ◌+◌, ◌-◌, ◌%◌, ◌^◌, Bool, true, false, ◌&&◌, not, Option, none, some, List, [], ◌==◌, leb,
  if◌then◌else◌, get_or, set, replicate,
}
use fiber_lib.WaitQueue
use fiber_lib.WaitQueue.{notify_one, notify_all}

pub record Channel (A : Type 0) : Type 0 where
  pub cap : ℕ  -- `capacity_`, one more than the channel holds
  pub buffer : List (Option A)
  pub head : ℕ
  pub tail : ℕ
  pub closed : Bool  -- `state_` is CLOSED
  pub send_waiters : List ℕ
  pub recv_waiters : List ℕ

-- `capacity == 0 ? 2 : capacity + 1`, in `size_t`
unfoldable pub ring_size : ℕ → ℕ
ring_size n = if n == 0 then 2 else (n + 1) % 2 ^ 64

module _ {A : Type 0} where
  unfoldable pub make_channel : ℕ → Channel A
  unfolding ring_size
  make_channel n = record {
    cap = ring_size n;
    buffer = replicate (ring_size n) none;
    head = 0;
    tail = 0;
    closed = false;
    send_waiters = [];
    recv_waiters = [];
  }

  -- `(current + 1) % capacity_`, in `size_t`
  unfoldable pub next_index : Channel A → ℕ → ℕ
  next_index c i = (i + 1) % 2 ^ 64 % c.cap

  unfoldable pub is_full : Channel A → Bool
  unfolding next_index
  is_full c = next_index c c.tail == c.head

  unfoldable pub is_empty : Channel A → Bool
  is_empty c = c.head == c.tail

  unfoldable pub size : Channel A → ℕ
  size c =
      if leb c.head c.tail then c.tail - c.head else (c.cap + 2 ^ 64 - c.head + c.tail) % 2 ^ 64

  unfoldable pub capacity : Channel A → ℕ
  capacity c = (c.cap + 2 ^ 64 - 1) % 2 ^ 64

  -- Whether the value went in, what is left in the caller's variable, and the channel. A refused
  -- exchange deletes the new element, into which the value has been moved.
  unfoldable pub try_push : (A → A) → Bool → A → Channel A → Bool × A × Channel A
  unfolding next_index
  try_push moved refused v c =
      if next_index c c.tail == c.head then (false, v, c) else elim (get_or c.buffer c.tail none) [
        | none ↦ if refused then (false, moved v, c) else (
          true,
          moved v,
          record c { buffer = set c.buffer c.tail (some v); tail = next_index c c.tail },
        )
        | some _ ↦ (false, moved v, c)
      ]

  unfoldable pub try_pop : Channel A → Option A × Channel A
  unfolding next_index
  try_pop c = if c.head == c.tail then (none, c) else elim (get_or c.buffer c.head none) [
    | none ↦ (none, record c { buffer = set c.buffer c.head none })
    | some v ↦ (some v, record c { buffer = set c.buffer c.head none; head = next_index c c.head })
  ]
