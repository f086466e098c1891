-- ===== src/WaitGroup/Laws.antt =====
-- What each call does to the count, and who is still waiting.
use fiber_lib.Prelude.{
  ℕ, ◌+◌, ◌-◌, ◌%◌, ◌^◌, ◌≡◌, ◌≤◌, ◌<◌, Option, none, some, List, [], ◌∷◌, ◌==◌, leb, ltb,
  if◌then◌else◌, arith,
}
use fiber_lib.WaitQueue
use fiber_lib.WaitQueue.{notify_all}
use fiber_lib.WaitQueue.Laws.{wake_all, notify_all_lem}
use fiber_lib.WaitGroup.{
  WaitGroup, GroupReply, changed, negative, GroupCall, adds, dones, waits, new_group,
  notify_waiters_if_done, add, done, wait, call,
}

-- The count is not negative, and nobody waits at 0.
pub record IsSettled (g : WaitGroup) : Type 0 where
  pub small : g.counter < 2 ^ 31
  pub nobody : g.counter ≡ 0 → g.waiters ≡ []

-- A change of the count, and the word that a caller passes for it.
pub data Change : Type 0 where
  up : ℕ → Change
  down : ℕ → Change

abbrev pub word_of : Change → ℕ
word_of (up k) = k
word_of (down k) = 2 ^ 32 - k

-- What `add` promises of a count `n`: the new count, or none if it would be negative.
abbrev pub new_count : ℕ → Change → Option ℕ
new_count n (up k) = some (n + k)
new_count n (down k) = if leb k n then some (n - k) else none

abbrev pub IsSmall : ℕ → Change → Type 0
IsSmall n (up k) = n + k < 2 ^ 31
IsSmall n (down k) = (0 < k) × (k ≤ 2 ^ 31)

-- By how much a word can raise the count.
abbrev pub rise : ℕ → ℕ
rise delta = if ltb delta (2 ^ 31) then delta else 0

abbrev pub Fits : ℕ → List GroupCall → Type 0
Fits n [] = Unit
Fits n (adds delta ∷ ks) = (delta < 2 ^ 32) × (n + rise delta < 2 ^ 31) × Fits (n + rise delta) ks
Fits n (dones ∷ ks) = (n < 2 ^ 31) × Fits n ks
Fits n (waits _ ∷ ks) = Fits n ks

module _ {S : Type 0} (schedule : ℕ → S → S) where
  -- What `add` does then: at 0 it wakes everybody who waits, oldest first.
  abbrev pub promised : Option ℕ → WaitGroup → S → GroupReply × WaitGroup × S
  promised none g s = (negative, g, s)
  promised (some n) g s =
      if n == 0
      then (changed, new_group, wake_all schedule g.waiters s)
      else (changed, record g { counter = n }, s)

  notify_lem :
      (g : WaitGroup) (s : S)
      → g.counter ≡ 0
      → notify_waiters_if_done schedule g s
        ≡ (record g { waiters = [] }, wake_all schedule g.waiters s)
  unfolding notify_waiters_if_done
  notify_lem g s e = ground (arith, notify_all_lem schedule g.waiters s)

  -- From a count `n < 2^31`, `add` of an increase that keeps it below 2^31, or of a decrease of 1
  -- to 2^31, keeps the count exactly: a count that would be negative is refused and left as it
  -- was, and a count of 0 wakes all fibers that wait, oldest first.
  pub add_lem :
      (c : Change) (g : WaitGroup) (s : S)
      → IsSmall g.counter c
      → g.counter < 2 ^ 31
      → add schedule (word_of c) g s ≡ promised (new_count g.counter c) g s
  unfolding add
  add_lem (up k) g s small h =
      ground (arith, notify_lem (record g { counter = (g.counter + k) % 2 ^ 32 }) s)
  add_lem (down k) g s small h =
      ground (arith, notify_lem (record g { counter = (g.counter + (2 ^ 32 - k)) % 2 ^ 32 }) s)

  add_word-IsSettled :
      (delta n : ℕ) (g : WaitGroup) (s : S)
      → delta < 2 ^ 32
      → n + rise delta < 2 ^ 31
      → g.counter ≤ n
      → IsSettled g
      → let (r, g', s') = add schedule delta g s in IsSettled g' × (g'.counter ≤ n + rise delta)
  unfolding add
  add_word-IsSettled delta n g s d small le h =
      ground (arith, notify_lem (record g { counter = (g.counter + delta) % 2 ^ 32 }) s)

  wait-IsSettled :
      (current : Option ℕ) (g : WaitGroup) (s : S)
      → IsSettled g
      → let (r, g', s') = wait schedule current g s in IsSettled g' × (g'.counter ≡ g.counter)
  unfolding wait fiber_lib.WaitQueue.wait
  wait-IsSettled current g s h = ground (arith, h)

  unfoldable pub run : List GroupCall → WaitGroup → S → WaitGroup × S
  run [] g s = (g, s)
  run (k ∷ ks) g s = let (r, g', s') = call schedule k g s in run ks g' s'

  -- In any history of calls on a group that is settled (its count is not negative, and nobody
  -- waits at 0), and whose positive deltas do not reach 2^31 together with a bound `n` of its
  -- count, the group stays settled.
  pub run-IsSettled :
      (ks : List GroupCall) (n : ℕ) (g : WaitGroup) (s : S)
      → Fits n ks
      → g.counter ≤ n
      → IsSettled g
      → IsSettled (run ks g s).0
  unfolding run call done
  run-IsSettled [] n g s f le h = h
  run-IsSettled (adds d ∷ ks) n g s f le h =
      let (h', le') = add_word-IsSettled d n g s f.0 f.1 le h in
      let (r, g', s') = add schedule d g s in run-IsSettled ks (n + rise d) g' s' f.2 le' h'
  run-IsSettled (dones ∷ ks) n g s f le h =
      let (h', le') =
        add_word-IsSettled (2 ^ 32 - 1) n g s (omega arith) (omega (arith, f.0)) le h in
      let (r, g', s') = done schedule g s in run-IsSettled ks n g' s' f.1 (omega (arith, le')) h'
  run-IsSettled (waits current ∷ ks) n g s f le h =
      let (h', e) = wait-IsSettled current g s h in
      let (r, g', s') = wait schedule current g s in
      run-IsSettled ks n g' s' f (omega (arith, e)) h'
