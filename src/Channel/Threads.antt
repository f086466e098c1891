-- ===== src/Channel/Threads.antt =====
-- include/channel.h: `try_push_lockfree` and `try_pop_lockfree` by several threads, at the grain of atomic
-- accesses. Each turn of a thread is its next access; what it has read so far stands in its place.
-- `pushed` and `popped` have the values in the order of the exchanges on the slots.
pub mod Inv
pub mod Push
pub mod Pop
pub mod Steps
pub mod Fifo
pub mod Stuck
pub mod Tests
use fiber_lib.Prelude.{
  ℕ, ◌+◌, Bool, true, false, Option, none, some, List, [], ◌∷◌, ◌++◌, ◌==◌, if◌then◌else◌, get_or,
  set, update,
}
use fiber_lib.Channel.{Channel, next_index}

-- Where a thread is, named for what it has done last: in `try_push_lockfree` with its value and
-- `current_tail`, or in `try_pop_lockfree` with `current_head`.
pub data Place (A : Type 0) : Type 0 where
  idle : Place A
  saw_tail : (v : A) → (current_tail : ℕ) → Place A
  saw_room : (v : A) → (current_tail : ℕ) → Place A
  filled : (current_tail : ℕ) → Place A
  saw_head : (current_head : ℕ) → Place A
  saw_value : (current_head : ℕ) → Place A
  emptied : (current_head : ℕ) → Place A

pub record Shared (A : Type 0) : Type 0 where
  pub ring : Channel A
  pub places : ℕ → Place A
  pub pushed : List A
  pub popped : List A

pub data Turn (A : Type 0) : Type 0 where
  pushes : (i : ℕ) → (v : A) → Turn A
  pops : (i : ℕ) → Turn A
  advances : (i : ℕ) → (refused : Bool) → Turn A

module _ {A : Type 0} where
  abbrev pub put : ℕ → Place A → Shared A → Shared A
  put i p s = record s { places = update s.places i p }

  -- The exchange on the slot of the tail, which may be refused for no reason.
  unfoldable pub fill : ℕ → Bool → A → ℕ → Option A → Shared A → Shared A
  fill i refused v t none s =
      if refused
      then put i idle s
      else put i (filled t) (record s {
        ring = record (s.ring) { buffer = set s.ring.buffer t (some v) };
        pushed = s.pushed ++ v ∷ [];
      })
  fill i refused v t (some x) s = put i idle s

  -- The exchange on the slot of the head.
  unfoldable pub take : ℕ → ℕ → Option A → Shared A → Shared A
  take i h none s =
      put i idle (record s { ring = record (s.ring) { buffer = set s.ring.buffer h none } })
  take i h (some x) s = put i (emptied h) (record s {
    ring = record (s.ring) { buffer = set s.ring.buffer h none };
    popped = s.popped ++ x ∷ [];
  })

  -- The first access of a push, and of a pop.
  unfoldable pub start_push : ℕ → A → Place A → Shared A → Shared A
  start_push i v idle s = put i (saw_tail v s.ring.tail) s
  start_push i v _ s = s

  unfoldable pub start_pop : ℕ → Place A → Shared A → Shared A
  start_pop i idle s = put i (saw_head s.ring.head) s
  start_pop i _ s = s

  unfoldable pub advance : ℕ → Bool → Place A → Shared A → Shared A
  unfolding fill take next_index
  advance i refused idle s = s
  advance i refused (saw_tail v t) s =
      put i (if next_index s.ring t == s.ring.head then idle else saw_room v t) s
  advance i refused (saw_room v t) s = fill i refused v t (get_or s.ring.buffer t none) s
  advance i refused (filled t) s =
      put i idle (record s { ring = record (s.ring) { tail = next_index s.ring t } })
  advance i refused (saw_head h) s = put i (if h == s.ring.tail then idle else saw_value h) s
  advance i refused (saw_value h) s = take i h (get_or s.ring.buffer h none) s
  advance i refused (emptied h) s =
      put i idle (record s { ring = record (s.ring) { head = next_index s.ring h } })

  unfoldable pub turn : Turn A → Shared A → Shared A
  unfolding start_push start_pop advance
  turn (pushes i v) s = start_push i v (s.places i) s
  turn (pops i) s = start_pop i (s.places i) s
  turn (advances i refused) s = advance i refused (s.places i) s

  unfoldable pub run : List (Turn A) → Shared A → Shared A
  unfolding turn
  run [] s = s
  run (t ∷ ts) s = run ts (turn t s)

  -- No thread is inside.
  abbrev pub at_rest : Channel A → Shared A
  at_rest c = record { ring = c; places = λ i. idle; pushed = []; popped = [] }
