-- ===== src/Channel/Timeout/Laws.antt =====
-- What a deadline changes: when a timed call gives up, whom its timer wakes, and that a settled
-- timer wakes nobody.
use fiber_lib.Prelude.{
  ℕ, ◌-◌, ◌≡◌, ◌≢◌, ◌⊎◌, Bool, true, false, Option, some, List, [], ◌∷◌, ◌++◌, length, arith,
}
use fiber_lib.WaitQueue.{wait, notify_one}
use fiber_lib.Channel.{Channel, try_push, try_pop}
use fiber_lib.Channel.Ring.{Holds, try_push_full, try_push_room, push_Holds}
use fiber_lib.Channel.Calls.{Reply, sent, rejected, sender_blocked, receiver_blocked, threw, send}
use fiber_lib.Channel.Timeout.{
  Deadline, send_timeout, send_timeout_turn, recv_timeout_turn, expire_send, expire_recv,
}

abbrev pub IsBlocked : {A : Type 0} → Reply A → Type 0
IsBlocked (sender_blocked _) = Unit
IsBlocked receiver_blocked = Unit
IsBlocked threw = Unit
IsBlocked _ = ⊥

module _ {A S : Type 0} (schedule : ℕ → S → S) (arm : ℕ → S → S) (moved : A → A) where
  -- On a closed channel with room, `send` refuses the value and `send_timeout` takes it, for every
  -- timeout: the value is in the ring behind those that were there.
  pub send_timeout_after_close :
      (current : Option ℕ) (ms : ℕ) (v : A) {c : Channel A} {xs : List A} (s : S)
      → Holds c xs
      → c.closed ≡ true
      → length xs ≢ c.cap - 1
      → let (r, c', s', d) = send_timeout schedule arm moved current false ms v c s in
        (send schedule moved current false v c s ≡ (rejected v, c, s))
        × (r ≡ sent (moved v))
        × Holds c' (xs ++ v ∷ [])
  unfolding send_timeout send notify_one
  send_timeout_after_close current ms v {c} {xs} s h e n =
      rw (try_push_room h moved false v n, e) (ground (arith, push_Holds h v))

  -- On an open channel that is full, the timer of a sender that blocks behind the fiber `g` wakes
  -- `g`, when nothing has happened in between: the sender itself stays in the queue.
  pub expire_send_wakes_front :
      (f g ms : ℕ) (q : List ℕ) (refused : Bool) (v : A) {c : Channel A} {xs : List A} (s : S)
      → Holds c xs
      → c.closed ≡ false
      → length xs ≡ c.cap - 1
      → c.send_waiters ≡ g ∷ q
      → let (r, c', s', d) = send_timeout schedule arm moved (some f) refused ms v c s in
        let (c'', s'', d') = expire_send schedule d c' s' in
        (r ≡ sender_blocked v)
        × (c''.send_waiters ≡ q ++ f ∷ [])
        × (s'' ≡ schedule g (arm ms s))
        × (d'.timed_out ≡ true)
  unfolding send_timeout expire_send wait notify_one
  expire_send_wakes_front f g ms q refused v {c} s h e full w =
      rw (try_push_full h moved refused v full, e, w) (ground arith)

  -- The callback has no effect but to mark the time-out.
  abbrev pub IsIdle : Deadline → Channel A → S → Type 0
  IsIdle d c s =
      (expire_send schedule d c s ≡ (c, s, record d { timed_out = true }))
      × (expire_recv schedule d c s ≡ (c, s, record d { timed_out = true }))

  -- When a woken timed send or receive, whose deadline is marked as woken if it has timed out,
  -- returns, its timer wakes nobody any more: the timer is canceled, or its callback finds the
  -- call woken.
  pub turns_settle :
      (current : Option ℕ) (refused : Bool) (d : Deadline) (v : A) (c : Channel A) (s : S)
      → (d.timed_out ≡ true → d.woken ≡ true)
      → (let (r, c', s', d') = send_timeout_turn schedule moved current refused d v c s in
          IsBlocked r ⊎ ((d'.canceled ≡ true) ⊎ IsIdle d' c' s'))
        × (let (r, c', s', d') = recv_timeout_turn schedule current d c s in
            IsBlocked r ⊎ ((d'.canceled ≡ true) ⊎ IsIdle d' c' s'))
  unfolding send_timeout_turn recv_timeout_turn try_push try_pop wait expire_send expire_recv
  turns_settle current refused d v c s h = ground arith
