-- ===== src/Timer/Tests.antt =====
-- A wheel of four slots of 3 ms. Callback 0 adds a timer, and callback `f + 1` cancels timer 7.
use fiber_lib.Prelude.{
  ℕ, zero, suc, ◌<◌, ◌≡◌, ◌≢◌, ap, refl, true, false, none, some, List, [], ◌∷◌, ◌==◌,
  if◌then◌else◌, get_or-replicate, count, arith,
}
use fiber_lib.Timer.{fire, TimerNode, Wheel, Effect, adds, cancels, new_wheel, add_timer}
use fiber_lib.Timer.Tick.{tick}
use fiber_lib.Timer.Touch.{Spares}
use fiber_lib.Timer.OnTime.{DueIn, AllEffective, ticks}
use fiber_lib.Timer.Added.{Fresh, add_on_time}
use fiber_lib.Timer.Period.{RunsAgain, repeat_period}

unfoldable effects : ℕ → List Effect
effects zero = adds 10 none false ∷ []
effects (suc f) = cancels 7 ∷ []

effects-Spares : (i : ℕ) → i ≢ 7 → (f : ℕ) → Spares i (effects f)
unfolding effects
effects-Spares i h zero = tt
effects-Spares i h (suc f) = ((λ e. omega arith), tt)

abbrev blank : TimerNode
blank = record { timeout = 0; rotations = 0; callback = none; repeat = false; canceled = false }

abbrev wheel : Wheel
wheel = record {
  slots = 4;
  interval = 3;
  buckets = [] ∷ [] ∷ [] ∷ [] ∷ [];
  current = 0;
  pending = [];
  running = true;
  last_tick = 0;
  nodes = λ i. blank;
  next_node = 0;
  calls = [];
}

wheel-new : new_wheel 4 3 0 (λ i. blank) ≡ wheel
unfolding new_wheel
wheel-new = refl

-- The clock after 3, 6, … milliseconds.
abbrev clock : List ℕ
clock = 3000000 ∷ 6000000 ∷ 9000000 ∷ []

added_clock : AllEffective effects clock (add_timer 6 (some 0) false wheel).1
unfolding add_timer tick
added_clock = ((refl, omega arith), ((refl, omega arith), ((refl, omega arith), tt)))

wheel-Fresh : Fresh wheel
wheel-Fresh = record {
  shaped = record {
    positive = omega arith;
    small = omega arith;
    wide = refl;
    inside = omega arith;
  };
  unplaced = λ s. ap (count 0) (get_or-replicate 4 s []);
  unqueued = refl;
}

add_on_time_example : count 0 (ticks effects clock (add_timer 6 (some 0) false wheel).1).calls ≡ 1
add_on_time_example =
    add_on_time effects 6 0 wheel-Fresh clock refl (omega arith) (omega arith)
      (effects-Spares 0 (λ e. omega arith)) added_clock

four_slots : (P : ℕ → Type 0) → P 0 → P 1 → P 2 → P 3 → (i : ℕ) → i < 4 → P i
four_slots P a b c d zero p = a
four_slots P a b c d (suc zero) p = b
four_slots P a b c d (suc (suc zero)) p = c
four_slots P a b c d (suc (suc (suc zero))) p = d
four_slots P a b c d (suc (suc (suc (suc i)))) p = absurd (omega arith)

-- Timer 2 stands one slot ahead, behind timer 3, and has a round to go.
abbrev once : TimerNode
once = record { timeout = 15; rotations = 1; callback = some 1; repeat = false; canceled = false }

abbrev waiting : Wheel
waiting = record wheel {
  buckets = [] ∷ [] ∷ [] ∷ (3 ∷ 2 ∷ []) ∷ [];
  current = 2;
  nodes = λ i. if i == 2 then once else blank;
  next_node = 4;
}

waiting-DueIn : DueIn waiting 2 once 5
waiting-DueIn = record {
  slot = 1;
  rounds = 1;
  near = omega arith;
  sum = refl;
  waits = record {
    shaped = record {
      positive = omega arith;
      small = omega arith;
      wide = refl;
      inside = omega arith;
    };
    node_is = refl;
    live = refl;
    known = omega arith;
    queued = refl;
    places = four_slots _ refl refl refl refl;
  };
}

waiting-clock : AllEffective effects clock waiting
unfolding tick fire
waiting-clock = ((refl, omega arith), ((refl, omega arith), ((refl, omega arith), tt)))

-- A repeating timer of four ticks, as many as there are slots, is due.
abbrev again : TimerNode
again = record { timeout = 12; rotations = 0; callback = some 0; repeat = true; canceled = false }

abbrev due : Wheel
due = record wheel {
  buckets = (0 ∷ []) ∷ [] ∷ [] ∷ [] ∷ [];
  nodes = λ i. if i == 0 then again else blank;
  next_node = 1;
}

due-DueIn : DueIn due 0 again 0
due-DueIn = record {
  slot = 0;
  rounds = 0;
  near = omega arith;
  sum = refl;
  waits = record {
    shaped = record {
      positive = omega arith;
      small = omega arith;
      wide = refl;
      inside = omega arith;
    };
    node_is = refl;
    live = refl;
    known = omega arith;
    queued = refl;
    places = four_slots _ refl refl refl refl;
  };
}

repeat_period_example : RunsAgain (tick effects 3000000 due) 0 again 4 4 0
repeat_period_example =
    repeat_period effects 0 (effects-Spares 0 (λ e. omega arith)) 3000000 0 due-DueIn refl refl
      (omega arith) (refl, omega arith)
