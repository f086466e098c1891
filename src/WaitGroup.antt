-- ===== src/WaitGroup.antt =====
-- `WaitGroup` of include/sync.h and sync.cpp.
-- The counter is the 32-bit word of an `int`; a word from 2^31 on is negative. Each call runs as a
-- whole, as it does when all fibers of the group share a consumer, from where it starts to where it
-- returns or blocks: a blocked `wait` returns when it is woken. `schedule` is
-- `Scheduler::scheduleImmediate`, `current` is the calling fiber, if there is one.
pub mod Laws
pub mod Tests
use fiber_lib.Prelude.{ℕ, ◌+◌, ◌-◌, ◌%◌, ◌^◌, Bool, Option, List, [], ◌∷◌, ◌==◌, leb, if◌then◌else◌}
use fiber_lib.WaitQueue
use fiber_lib.WaitQueue.{blocked, outside_fiber, notify_all}

pub record WaitGroup : Type 0 where
  pub counter : ℕ
  pub waiters : List ℕ

pub data GroupReply : Type 0 where
  changed : GroupReply
  negative : GroupReply  -- `std::invalid_argument`
  counted : GroupReply  -- `wait` has returned
  waiting : GroupReply
  threw : GroupReply  -- `std::runtime_error` of `WaitQueue::wait`

pub data GroupCall : Type 0 where
  adds : ℕ → GroupCall
  dones : GroupCall
  waits : Option ℕ → GroupCall

abbrev pub new_group : WaitGroup
new_group = record { counter = 0; waiters = [] }

module _ {S : Type 0} (schedule : ℕ → S → S) where
  unfoldable pub notify_waiters_if_done : WaitGroup → S → WaitGroup × S
  notify_waiters_if_done g s =
      let (n, q, s') = notify_all schedule g.waiters s in
      if g.counter == 0 then (record g { waiters = q }, s') else (g, s)

  -- `fetch_add`, the roll-back of a negative count, and the wake-up at 0. An overflow of the sum
  -- is undefined behaviour in the source; the word wraps here.
  unfoldable pub add : ℕ → WaitGroup → S → GroupReply × WaitGroup × S
  unfolding notify_waiters_if_done
  add delta g s =
      let count = (g.counter + delta) % 2 ^ 32 in
      let (g', s') = notify_waiters_if_done (record g { counter = count }) s in
      if leb (2 ^ 31) count
      then (negative, record g { counter = (count + 2 ^ 32 - delta) % 2 ^ 32 }, s)
      else if count == 0
      then (changed, g', s')
      else (changed, record g { counter = count }, s)

  -- `add(-1)`
  unfoldable pub done : WaitGroup → S → GroupReply × WaitGroup × S
  unfolding add
  done g s = add (2 ^ 32 - 1) g s

  unfoldable pub wait : Option ℕ → WaitGroup → S → GroupReply × WaitGroup × S
  wait current g s =
      if g.counter == 0 then (counted, g, s) else elim (WaitQueue.wait current g.waiters) [
        | blocked q ↦ (waiting, record g { waiters = q }, s)
        | outside_fiber ↦ (threw, g, s)
      ]

  unfoldable pub call : GroupCall → WaitGroup → S → GroupReply × WaitGroup × S
  unfolding add done wait
  call (adds delta) g s = add delta g s
  call dones g s = done g s
  call (waits current) g s = wait current g s
