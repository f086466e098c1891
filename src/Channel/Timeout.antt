-- ===== src/Channel/Timeout.antt =====
-- include/channel.h, `send_timeout` and `recv_timeout`.
-- The two flags that a call shares with its timer's callback, and the `canceled` mark of the timer,
-- are a record. `arm ms` is what `addTimer` does to the rest of the program. A call is cut at each
-- `wait()`: a first stretch, and a turn after each wake-up; `expire_send` and `expire_recv` are the
-- timer's callbacks.
pub mod Laws
use fiber_lib.Prelude.{ℕ, Bool, true, false, ◌&&◌, Option, none, some, ◌==◌, if◌then◌else◌}
use fiber_lib.WaitQueue.{notify_one}
use fiber_lib.Channel.{Channel, is_empty, try_push, try_pop}
use fiber_lib.Channel.Calls.{
  Reply, sent, rejected, received, nothing, threw, wake_receiver, wake_sender, park_sender,
  park_receiver,
}

pub record Deadline : Type 0 where
  pub timed_out : Bool  -- `*timeout_state`
  pub woken : Bool  -- `*woken_state`
  pub canceled : Bool  -- `timer->canceled`

abbrev pub fresh : Deadline
fresh = record { timed_out = false; woken = false; canceled = false }

-- `if (!woken_state->exchange(true)) timer_wheel.cancel(timer);`
unfoldable pub settle : Deadline → Deadline
settle d = record d { woken = true; canceled = if d.woken then d.canceled else true }

abbrev pub TimedOutcome : Type 0 → Type 0 → Type 0
TimedOutcome A S = Reply A × Channel A × S × Deadline

module _ {A S : Type 0} (schedule : ℕ → S → S) where
  with_deadline : Deadline → Reply A × Channel A × S → TimedOutcome A S
  with_deadline d (r, c, s) = (r, c, s, d)

  -- The first stretch tries to push before it looks whether the channel is closed.
  unfoldable pub send_timeout :
      (ℕ → S → S) → (A → A) → Option ℕ → Bool → ℕ → A → Channel A → S → TimedOutcome A S
  unfolding with_deadline wake_receiver park_sender
  send_timeout arm moved current refused ms v c s =
      let (pushed, v', c') = try_push moved refused v c in
      let (c'', s') = wake_receiver schedule c' s in
      if pushed
      then (sent v', c'', s', fresh)
      else if c'.closed
      then (rejected v', c', s, fresh)
      else elim current [
        | none ↦ (threw, c', s, fresh)
        | some f ↦ with_deadline fresh (park_sender schedule (some f) v' c' (arm ms s))
      ]

  unfoldable pub send_timeout_turn :
      (A → A) → Option ℕ → Bool → Deadline → A → Channel A → S → TimedOutcome A S
  unfolding with_deadline wake_receiver park_sender settle
  send_timeout_turn moved current refused d v c s =
      if d.timed_out
      then (rejected v, c, s, d)
      else if c.closed
      then (rejected v, c, s, record d { canceled = true })
      else let (pushed, v', c') = try_push moved refused v c in
        let (c'', s') = wake_receiver schedule c' s in
        if pushed
        then (sent v', c'', s', settle d)
        else with_deadline d (park_sender schedule current v' c' s)

  unfoldable pub recv_timeout : (ℕ → S → S) → Option ℕ → ℕ → Channel A → S → TimedOutcome A S
  unfolding with_deadline wake_sender park_receiver
  recv_timeout arm current ms c s =
      let (out, c') = try_pop c in
      elim out [
        | some v ↦ let (c'', s') = wake_sender schedule c' s in (received v, c'', s', fresh)
        | none ↦
            if c'.closed && is_empty c'
            then (nothing, c', s, fresh)
            else if ms == 0
            then (nothing, c', s, fresh)
            else elim current [
              | none ↦ (threw, c', s, fresh)
              | some f ↦ with_deadline fresh (park_receiver schedule (some f) c' (arm ms s))
            ]
      ]

  unfoldable pub recv_timeout_turn : Option ℕ → Deadline → Channel A → S → TimedOutcome A S
  unfolding with_deadline wake_sender park_receiver settle
  recv_timeout_turn current d c s =
      if d.timed_out
      then (nothing, c, s, d)
      else let (out, c') = try_pop c in
        elim out [
          | some v ↦ let (c'', s') = wake_sender schedule c' s in (received v, c'', s', settle d)
          | none ↦
              if c'.closed && is_empty c'
              then (nothing, c', s, record d { canceled = true })
              else with_deadline d (park_receiver schedule current c' s)
        ]

  -- `timeout_state->store(true); if (!woken_state->exchange(true)) waiters->notify_one();`
  unfoldable pub expire_send : Deadline → Channel A → S → Channel A × S × Deadline
  expire_send d c s =
      if d.woken
      then (c, s, record d { timed_out = true })
      else let (b, q, s') = notify_one schedule c.send_waiters s in
        (record c { send_waiters = q }, s', record d { timed_out = true; woken = true })

  unfoldable pub expire_recv : Deadline → Channel A → S → Channel A × S × Deadline
  expire_recv d c s =
      if d.woken
      then (c, s, record d { timed_out = true })
      else let (b, q, s') = notify_one schedule c.recv_waiters s in
        (record c { recv_waiters = q }, s', record d { timed_out = true; woken = true })
