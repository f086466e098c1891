-- ===== src/Timer/Tick.antt =====
-- timer.cpp, `tick` and `processPendingTimers`.
use fiber_lib.Prelude.{
  ℕ, zero, suc, ◌+◌, ◌-◌, ◌/◌, ◌%◌, ◌^◌, Bool, true, false, ◌&&◌, not, List, [], ◌∷◌, ◌++◌, ◌==◌,
  ltb, if◌then◌else◌, get_or, set,
}
use fiber_lib.Timer.{Wheel, Effect, modify, timer_ticks, fire}

-- `wheel_[slot].push_back(timer)`
unfoldable pub push_bucket : ℕ → ℕ → Wheel → Wheel
push_bucket slot i w = record w {
  buckets = set w.buckets slot (get_or w.buckets slot [] ++ i ∷ []);
}

abbrev pub with_rotations : ℕ → ℕ → Wheel → Wheel
with_rotations i r w = record w { nodes = modify w.nodes i (λ n. record n { rotations = r }) }

-- `(current_slot_ + ticks) % slots_`, in `size_t`
abbrev pub slot_after : Wheel → ℕ → ℕ
slot_after w ticks = (w.current + ticks) % 2 ^ 64 % w.slots

unfoldable pub place : ℕ → Wheel → Wheel
unfolding push_bucket timer_ticks
place i w =
    if (w.nodes i).canceled
    then w
    else push_bucket (slot_after w (timer_ticks w i)) i
        (with_rotations i (timer_ticks w i / w.slots) w)

-- One round of the loop of `processPendingTimers`, with the timers left in the queue.
unfoldable pub take_pending : List ℕ → Wheel → Wheel
unfolding place
take_pending [] w = w
take_pending (i ∷ is) w = place i (record w { pending = is })

-- The number is `max_batch - processed`. At an empty queue a round changes nothing, as no round.
unfoldable pub process_pending : ℕ → Wheel → Wheel
unfolding take_pending
process_pending zero w = w
process_pending (suc n) w = process_pending n (take_pending w.pending w)

abbrev pub max_batch : ℕ
max_batch = 100

module _ (effects : ℕ → List Effect) where
  -- After its callback: whether the timer stays in the bucket that is being swept, and the wheel.
  unfoldable pub repeat_or_drop : ℕ → Wheel → Bool × Wheel
  unfolding push_bucket timer_ticks
  repeat_or_drop i w =
      let ticks = timer_ticks w i in
      let w' = with_rotations i (ticks / w.slots) w in
      if (w.nodes i).repeat && not (w.nodes i).canceled
      then (if slot_after w ticks == w.current
          then (true, with_rotations i (ticks / w.slots + 1) w)
          else (false, push_bucket (slot_after w ticks) i w'))
      else (false, w)

  unfoldable pub visit : ℕ → Wheel → Bool × Wheel
  unfolding repeat_or_drop
  visit i w =
      if (w.nodes i).canceled
      then (false, w)
      else if ltb 0 (w.nodes i).rotations
      then (true, with_rotations i ((w.nodes i).rotations - 1) w)
      else repeat_or_drop i (fire effects i w)

  -- The loop over the bucket: the timers that stay in it, and the wheel.
  unfoldable pub sweep : List ℕ → Wheel → List ℕ × Wheel
  unfolding visit
  sweep [] w = ([], w)
  sweep (i ∷ is) w =
      let (stays, w') = visit i w in
      let (rest, w'') = sweep is w' in ((if stays then i ∷ rest else rest), w'')

  -- From step 2 of `tick` on.
  unfoldable pub pass : ℕ → Wheel → Wheel
  unfolding sweep
  pass now w =
      let (rest, w') = sweep (get_or w.buckets w.current []) w in
      record w' {
        buckets = set w'.buckets w.current rest;
        current = (w.current + 1) % 2 ^ 64 % w.slots;
        last_tick = now;
      }

  unfoldable pub tick : ℕ → Wheel → Wheel
  unfolding pass process_pending
  tick now w =
      if not w.running
      then w
      else if ltb ((now - w.last_tick) / 10 ^ 6 + 1) w.interval
      then w
      else pass now (process_pending max_batch w)
