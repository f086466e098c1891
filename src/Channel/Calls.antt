-- ===== src/Channel/Calls.antt =====
-- include/channel.h, the calls of a channel with the wake-ups that they make.
-- A blocking call is modelled from where it starts, or is woken in its loop, to where it returns or
-- blocks: both stretches make the same checks. The argument `current` is the calling fiber, if
-- there is one, and `schedule` is `Scheduler::scheduleImmediate`.
use fiber_lib.Prelude.{ℕ, Bool, true, false, ◌&&◌, Option, none, some, if◌then◌else◌}
use fiber_lib.WaitQueue.{blocked, outside_fiber, wait, notify_one, notify_all}
use fiber_lib.Channel.{Channel, is_full, is_empty, size, try_push, try_pop}

-- What a caller sees. A sender's variable keeps a value: its own, or what a move left in it.
pub data Reply (A : Type 0) : Type 0 where
  sent : A → Reply A  -- true
  rejected : A → Reply A  -- false
  sender_blocked : A → Reply A
  received : A → Reply A  -- true, and the value
  nothing : Reply A  -- false
  receiver_blocked : Reply A
  threw : Reply A  -- `std::runtime_error`
  closes : Reply A
  measured : ℕ → Bool → Bool → Reply A

pub data Call (A : Type 0) : Type 0 where
  sends : (current : Option ℕ) (refused : Bool) → A → Call A
  recvs : (current : Option ℕ) → Call A
  try_sends : (refused : Bool) → A → Call A
  try_recvs : Call A
  close_calls : Call A
  measures : Call A  -- `size`, `empty` and `full`

abbrev pub Outcome : Type 0 → Type 0 → Type 0
Outcome A S = Reply A × Channel A × S

module _ {A S : Type 0} (schedule : ℕ → S → S) where
  unfoldable pub wake_receiver : Channel A → S → Channel A × S
  wake_receiver c s =
      let (b, q, s') = notify_one schedule c.recv_waiters s in (record c { recv_waiters = q }, s')

  unfoldable pub wake_sender : Channel A → S → Channel A × S
  wake_sender c s =
      let (b, q, s') = notify_one schedule c.send_waiters s in (record c { send_waiters = q }, s')

  -- `send_waiters_->wait()`
  unfoldable pub park_sender : Option ℕ → A → Channel A → S → Outcome A S
  park_sender current v c s = elim (wait current c.send_waiters) [
    | blocked q ↦ (sender_blocked v, record c { send_waiters = q }, s)
    | outside_fiber ↦ (threw, c, s)
  ]

  -- `recv_waiters_->wait()`
  unfoldable pub park_receiver : Option ℕ → Channel A → S → Outcome A S
  park_receiver current c s = elim (wait current c.recv_waiters) [
    | blocked q ↦ (receiver_blocked, record c { recv_waiters = q }, s)
    | outside_fiber ↦ (threw, c, s)
  ]

  -- `if (try_push_lockfree(…)) { recv_waiters_->notify_one(); return true; }`, and what follows.
  pushed_or : (A → Channel A → S → Outcome A S) → Bool × A × Channel A → S → Outcome A S
  pushed_or otherwise (true, v, c) s = let (c', s') = wake_receiver c s in (sent v, c', s')
  pushed_or otherwise (false, v, c) s = otherwise v c s

  -- `if (try_pop_lockfree(value)) { send_waiters_->notify_one(); return true; }`, and what follows.
  popped_or : (Channel A → S → Outcome A S) → Option A × Channel A → S → Outcome A S
  popped_or otherwise (some v, c) s = let (c', s') = wake_sender c s in (received v, c', s')
  popped_or otherwise (none, c) s = otherwise c s

  unfoldable pub send : (A → A) → Option ℕ → Bool → A → Channel A → S → Outcome A S
  unfolding pushed_or wake_receiver park_sender
  send moved current refused v c s =
      if c.closed
      then (rejected v, c, s)
      else pushed_or (park_sender current) (try_push moved refused v c) s

  unfoldable pub recv : Option ℕ → Channel A → S → Outcome A S
  unfolding popped_or wake_sender park_receiver
  recv current c s =
      popped_or
        (λ c s. if c.closed && is_empty c then (nothing, c, s) else park_receiver current c s)
        (try_pop c) s

  unfoldable pub try_send : (A → A) → Bool → A → Channel A → S → Outcome A S
  unfolding pushed_or wake_receiver
  try_send moved refused v c s =
      if c.closed
      then (rejected v, c, s)
      else pushed_or (λ v c s. (rejected v, c, s)) (try_push moved refused v c) s

  unfoldable pub try_recv : Channel A → S → Outcome A S
  unfolding popped_or wake_sender
  try_recv c s = popped_or (λ c s. (nothing, c, s)) (try_pop c) s

  unfoldable pub close : Channel A → S → Channel A × S
  close c s =
      let (n, q, s') = notify_all schedule c.send_waiters s in
      let (m, p, s'') = notify_all schedule c.recv_waiters s' in
      (record c { closed = true; send_waiters = q; recv_waiters = p }, s'')

  unfoldable pub call : (A → A) → Call A → Channel A → S → Outcome A S
  unfolding send recv try_send try_recv close
  call moved (sends current refused v) c s = send moved current refused v c s
  call moved (recvs current) c s = recv current c s
  call moved (try_sends refused v) c s = try_send moved refused v c s
  call moved try_recvs c s = try_recv c s
  call moved close_calls c s = let (c', s') = close c s in (closes, c', s')
  call moved measures c s = (measured (size c) (is_empty c) (is_full c), c, s)
