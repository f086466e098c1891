-- ===== src/Timer/Others.antt =====
-- Whatever a tick does for the other timers, it spares timer `i`, as long as no callback cancels it.
use native.Mathlib.Nat.{mod-lt}
use fiber_lib.Prelude.{
  ℕ, ◌+◌, ◌%◌, ◌^◌, ◌<◌, ◌≡◌, ◌≢◌, refl, Bool, true, false, ◌&&◌, not, Option, none, some, List, [],
  ◌∷◌, ◌==◌, ltb, if◌then◌else◌, length, count, arith,
}
use fiber_lib.Timer.{TimerNode, Wheel, Effect, timer_ticks, fire, run_callback}
use fiber_lib.Timer.Tick.{
  push_bucket, with_rotations, slot_after, place, repeat_or_drop, visit, sweep,
}
use fiber_lib.Timer.Touch.{
  Touched, Spared, Spared-refl, then-Spared, Spares, called_Spared, apply_all-Spared,
  push_bucket-Spared, with_rotations-Spared,
}

-- The wheel has a bucket for each slot.
pub record Shaped (w : Wheel) : Type 0 where
  pub positive : 0 < w.slots
  pub small : w.slots < 2 ^ 32
  pub wide : length w.buckets ≡ w.slots
  pub inside : w.current < w.slots

pub Shaped-spared :
    {i : ℕ} {w w' : Wheel} {n : TimerNode} {k : ℕ} {f : ℕ → ℕ}
    → Touched i w w' n k f
    → Shaped w
    → Shaped w'
Shaped-spared t s = omega (arith, t.slots_same, t.width, t.current_same)

pub slot_after-lt : (w : Wheel) (ticks : ℕ) → Shaped w → slot_after w ticks < length w.buckets
slot_after-lt w ticks s = rw s.wide (mod-lt ((w.current + ticks) % 2 ^ 64) s.positive)

if_Spared :
    {i : ℕ} {w : Wheel} {B : Type 0} (b : Bool) (x y : B × Wheel)
    → Spared i w x.1
    → Spared i w y.1
    → Spared i w (if b then x else y).1
if_Spared true x y p q = p
if_Spared false x y p q = q

either_Spared :
    {i : ℕ} {w : Wheel} (b : Bool) {x y : Wheel}
    → Spared i w x
    → Spared i w y
    → Spared i w (if b then x else y)
either_Spared true p q = p
either_Spared false p q = q

-- A timer other than `i` goes to its slot with its number of rounds.
move_Spared :
    (i j slot r : ℕ) (w : Wheel)
    → j ≢ i
    → slot < length w.buckets
    → i < w.next_node
    → Spared i w (push_bucket slot j (with_rotations j r w))
move_Spared i j slot r w ne inside k =
    then-Spared (with_rotations-Spared i j r w ne k)
      (push_bucket-Spared i j slot (with_rotations j r w) ne inside k)

module _ (i : ℕ) where
  pub place-Spared :
      (j : ℕ) (w : Wheel) → j ≢ i → Shaped w → i < w.next_node → Spared i w (place j w)
  unfolding place
  place-Spared j w ne s k =
      either_Spared (w.nodes j).canceled (Spared-refl i w k)
        (move_Spared i j _ _ w ne (slot_after-lt w (timer_ticks w j) s) k)

module _ (effects : ℕ → List Effect) (i : ℕ) (spare : (f : ℕ) → Spares i (effects f)) where
  run_callback-Spared :
      (j : ℕ) (o : Option ℕ) (w : Wheel)
      → j ≢ i
      → i < w.next_node
      → Spared i w (run_callback effects j o w)
  unfolding run_callback
  run_callback-Spared j none w ne k = Spared-refl i w k
  run_callback-Spared j (some f) w ne k =
      then-Spared (called_Spared i j w ne k)
        (apply_all-Spared effects i (effects f) (record w { calls = j ∷ w.calls }) (spare f) k)

  fire-Spared : (j : ℕ) (w : Wheel) → j ≢ i → i < w.next_node → Spared i w (fire effects j w)
  unfolding fire
  fire-Spared j w ne k = run_callback-Spared j (w.nodes j).callback w ne k

  repeat_or_drop-Spared :
      (j : ℕ) (w : Wheel)
      → j ≢ i
      → Shaped w
      → i < w.next_node
      → Spared i w (repeat_or_drop effects j w).1
  unfolding repeat_or_drop
  repeat_or_drop-Spared j w ne s k =
      if_Spared ((w.nodes j).repeat && not (w.nodes j).canceled) _ _
        (if_Spared (slot_after w (timer_ticks w j) == w.current) _ _
          (with_rotations-Spared i j _ w ne k)
          (move_Spared i j _ _ w ne (slot_after-lt w (timer_ticks w j) s) k))
        (Spared-refl i w k)

  pub visit-Spared :
      (j : ℕ) (w : Wheel) → j ≢ i → Shaped w → i < w.next_node → Spared i w (visit effects j w).1
  unfolding visit
  visit-Spared j w ne s k =
      let fired = fire-Spared j w ne k in
      if_Spared (w.nodes j).canceled _ _ (Spared-refl i w k) (
        if_Spared (ltb 0 (w.nodes j).rotations) _ _ (with_rotations-Spared i j _ w ne k) (
          then-Spared fired
            (repeat_or_drop-Spared j (fire effects j w) ne (Shaped-spared fired s) fired.known)))

  -- A sweep of a bucket in which timer `i` does not stand.
  pub sweep-Spared :
      (js : List ℕ) (w : Wheel)
      → count i js ≡ 0
      → Shaped w
      → i < w.next_node
      → Spared i w (sweep effects js w).1 × (count i (sweep effects js w).0 ≡ 0)
  unfolding sweep
  sweep-Spared [] w none_there s k = (Spared-refl i w k, refl)
  sweep-Spared (j ∷ js) w none_there s k =
      let one = visit-Spared j w (ground arith) s k in
      let rest =
        sweep-Spared js (visit effects j w).1 (ground arith) (Shaped-spared one s) one.known in
      (then-Spared one rest.0, ground (arith, rest.1))
