-- ===== src/IoFiber.antt =====
-- io_fiber.cpp: `doIO`, the loop under every call of a file descriptor, and `writev` on it.
-- The kernel and the consumer are scripts: an answer for each system call, and for each time that
-- the fiber has to wait, what `addEvent` says and what wakes the fiber. A call whose scripts are used
-- up is still blocked. The steps that only touch the kernel's table of events, `delEvent` and
-- `setNonBlocking`, have no effect on the values here.
pub mod Laws
pub mod Read
pub mod Recv
pub mod Accept
pub mod Connect
pub mod Tests
use fiber_lib.Prelude.{
  ℕ, ◌+◌, ◌-◌, Bool, true, false, ◌&&◌, not, Option, none, some, List, [], ◌∷◌, ◌++◌, ◌==◌, leb,
  ltb, if◌then◌else◌, length, take, drop, min,
}

-- What a system call returns: a count, or -1 with an `errno` that asks to wait (EAGAIN, EWOULDBLOCK,
-- EINPROGRESS, EALREADY), or -1 with another one.
pub data Result : Type 0 where
  counted : ℕ → Result
  wait_more : Result
  failed : ℕ → Result

-- One wait: whether `addEvent` succeeds, and whether the timer of the call wakes the fiber.
pub record Round : Type 0 where
  pub added : Bool
  pub expires : Bool

pub data IoReply : Type 0 where
  returned : Result → IoReply
  timed_out : IoReply  -- `std::nullopt`, `errno` is ETIMEDOUT
  no_event : IoReply  -- `std::nullopt`
  blocked : IoReply

-- The timer of a call: whether it is canceled, and whether its callback has run.
pub record CallTimer : Type 0 where
  pub canceled : Bool
  pub expired : Bool

-- `timer && !woken_state->exchange(true)`: the callback is the only other writer of that flag.
unfoldable pub finish : Bool → CallTimer → CallTimer
finish armed t = if armed && not t.expired then record t { canceled = true } else t

abbrev pub IoOutcome : Type 0 → Type 0
IoOutcome S = IoReply × CallTimer × S

-- A result that does not ask to wait completes the call.
unfoldable pub conclude : {S : Type 0} → Bool → Result → CallTimer → S → IoOutcome S → IoOutcome S
unfolding finish
conclude armed (counted n) t s waits = (returned (counted n), finish armed t, s)
conclude armed (failed e) t s waits = (returned (failed e), finish armed t, s)
conclude armed wait_more t s waits = waits

module _ {S : Type 0} (op : S → Result × S) (armed : Bool) where
  -- The loop from `op()` on.
  unfoldable pub do_io : List Round → CallTimer → S → IoOutcome S
  unfolding conclude finish
  do_io [] t s =
      let (r, s') = op s in
      conclude armed r t s' (if t.expired then (timed_out, t, s') else (blocked, t, s'))
  do_io (w ∷ ws) t s =
      let (r, s') = op s in
      let rest = do_io ws t s' in
      conclude armed r t s' (
        if t.expired
        then (timed_out, t, s')
        else if not w.added
        then (no_event, finish armed t, s')
        else if armed && w.expires
        then (timed_out, record t { expired = true }, s')
        else rest)

-- The state of `writev`: what is left of the buffers, the bytes counted, the bytes that the kernel
-- has taken so far, and its answers to come. An answer `counted n` takes at most `n` bytes.
pub record Writing (A : Type 0) : Type 0 where
  pub vec : List (List A)
  pub written : ℕ
  pub sent : List A
  pub answers : List Result

abbrev pub flat : {A : Type 0} → List (List A) → List A
flat [] = []
flat (v ∷ vs) = v ++ flat vs

module _ {A : Type 0} where
  -- The loop that moves `iov_base` and `iov_len` on.
  unfoldable pub skip : ℕ → List (List A) → List (List A)
  skip remain [] = []
  skip remain (v ∷ vs) =
      let rest = skip (remain - length v) vs in
      if remain == 0
      then v ∷ vs
      else if leb (length v) remain
      then [] ∷ rest
      else drop remain v ∷ vs

  -- `::writev`, by the kernel's next answer.
  unfoldable pub taken : ℕ → Writing A → ℕ
  taken n w = min n (length (flat w.vec))

  unfoldable pub write_some : ℕ → ℕ → List Result → Writing A → Result × Writing A
  unfolding skip taken
  write_some total_len n rest w =
      let k = taken n w in
      let w' : Writing A = record {
        vec = skip k w.vec;
        written = w.written + k;
        sent = w.sent ++ take k (flat w.vec);
        answers = rest;
      } in
      ((if total_len == w.written + k then counted k else wait_more), w')

  unfoldable pub write_next : ℕ → List Result → Writing A → Result × Writing A
  unfolding write_some
  write_next total_len [] w = (wait_more, w)
  write_next total_len (counted n ∷ rest) w = write_some total_len n rest w
  write_next total_len (wait_more ∷ rest) w = (wait_more, record w { answers = rest })
  write_next total_len (failed e ∷ rest) w = (failed e, record w { answers = rest })

  -- One run of `op`.
  unfoldable pub write_op : ℕ → Writing A → Result × Writing A
  unfolding write_next
  write_op total_len w = write_next total_len w.answers w

  abbrev pub start : List (List A) → List Result → Writing A
  start vec answers = record { vec = vec; written = 0; sent = []; answers = answers }

  -- `writev` on an open descriptor, up to the optional that it returns.
  unfoldable pub writev :
      Bool → List Round → List (List A) → List Result → IoReply × CallTimer × Writing A
  unfolding do_io write_op
  writev armed ws vec answers =
      do_io (write_op (length (flat vec))) armed ws (record { canceled = false; expired = false })
        (start vec answers)

abbrev pub optional_count : {A : Type 0} → IoReply × CallTimer × Writing A → Option ℕ
optional_count (returned _, t, w) = some w.written
optional_count (_, t, w) = none
