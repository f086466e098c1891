-- ===== src/Channel/Refine.antt =====
-- Every call of a channel answers, wakes and leaves the queue as the bounded queue does.
use fiber_lib.Prelude.{
  ℕ, ◌-◌, ◌≡◌, Bool, Option, none, List, [], ◌∷◌, ◌==◌, length, arith, inl, inr, Bool-cases,
}
use fiber_lib.WaitQueue.{wait, notify_one, notify_all}
use fiber_lib.WaitQueue.Laws.{notify_all_lem}
use fiber_lib.Channel.{Channel}
use fiber_lib.Channel.Ring.{
  Holds, is_empty_lem, is_full_lem, size_lem, push_Holds, try_push_full, try_push_room,
}
use fiber_lib.Channel.Pop.{try_pop_empty, try_pop_lem, pop_Holds}
use fiber_lib.Channel.Calls.{
  Reply, Call, sends, recvs, try_sends, try_recvs, close_calls, measures, call,
}
use fiber_lib.Channel.Spec.{Bounded, spec_call}

-- The bounded queue that a channel stands for, when its ring holds `xs`.
abbrev pub view : {A : Type 0} → Channel A → List A → Bounded A
view c xs = record {
  items = xs;
  room = c.cap - 1;
  closed = c.closed;
  senders = c.send_waiters;
  receivers = c.recv_waiters;
}

-- The same reply, the same wake-ups, and a ring that holds the new items.
pub record Agrees {A S : Type 0} (r : Reply A × Channel A × S) (q : Reply A × Bounded A × S)
    : Type 0 where
  pub reply : r.0 ≡ q.0
  pub queue : view r.1 q.1.items ≡ q.1
  pub woken : r.2 ≡ q.2
  pub holds : Holds r.1 q.1.items

module _ {A S : Type 0} (schedule : ℕ → S → S) (moved : A → A) where
  send_refines :
      (current : Option ℕ) (refused : Bool) (v : A) {c : Channel A} {xs : List A} (s : S)
      → Holds c xs
      → Agrees
          (call schedule moved (sends current refused v) c s)
          (spec_call schedule moved (sends current refused v) (view c xs) s)
        × Agrees
            (call schedule moved (try_sends refused v) c s)
            (spec_call schedule moved (try_sends refused v) (view c xs) s)
  unfolding call spec_call wait notify_one
  send_refines current refused v {c} {xs} s h = elim (Bool-cases (length xs == c.cap - 1)) [
    | inl full ↦ rw (try_push_full h moved refused v (ground arith), full) (ground arith)
    | inr room ↦
        rw (try_push_room h moved refused v (ground arith), room) (ground (arith, push_Holds h v))
  ]

  recv_refines :
      (current : Option ℕ) {c : Channel A} {xs : List A} (s : S)
      → Holds c xs
      → Agrees
          (call schedule moved (recvs current) c s)
          (spec_call schedule moved (recvs current) (view c xs) s)
        × Agrees
            (call schedule moved try_recvs c s)
            (spec_call schedule moved try_recvs (view c xs) s)
  unfolding call spec_call wait notify_one
  recv_refines current {xs = []} s h = rw (try_pop_empty h, is_empty_lem h) (ground arith)
  recv_refines current {xs = x ∷ xs} s h = rw (try_pop_lem h) (ground (arith, pop_Holds h))

  -- Every call of a channel whose ring holds `xs` answers and wakes fibers as the bounded queue of
  -- `xs` does, and leaves the wait queues, the closed flag and the values of the ring as it does.
  pub call_refines :
      (k : Call A) {c : Channel A} {xs : List A} (s : S)
      → Holds c xs
      → Agrees (call schedule moved k c s) (spec_call schedule moved k (view c xs) s)
  unfolding call spec_call
  call_refines (sends current refused v) s h = (send_refines current refused v s h).0
  call_refines (recvs current) s h = (recv_refines current s h).0
  call_refines (try_sends refused v) s h = (send_refines none refused v s h).1
  call_refines try_recvs s h = (recv_refines none s h).1
  call_refines close_calls {c} s h = ground (
    arith,
    notify_all_lem schedule c.send_waiters s,
    notify_all_lem schedule c.recv_waiters (notify_all schedule c.send_waiters s).2,
  )
  call_refines measures s h = ground (arith, size_lem h, is_empty_lem h, is_full_lem h)
