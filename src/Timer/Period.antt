-- ===== src/Timer/Period.antt =====
-- How long a repeating timer waits for its next run.
use native.Mathlib.Nat.{mod-lt, mod-add-div', div-le_self}
use native.Mathlib.Decide.{ℕ_discrete}
use fiber_lib.Prelude.{
  ℕ, zero, suc, ◌+◌, ◌-◌, ◌*◌, ◌/◌, ◌%◌, ◌^◌, ◌<◌, ◌≡◌, ◌∙◌, refl, true, false, some, List, [],
  ◌==◌, if◌then◌else◌, get_or, count, lt→ltb, Bool-cases, inl, inr, arith,
}
use fiber_lib.Timer.{TimerNode, Wheel, Effect, at_least_one}
use fiber_lib.Timer.Tick.{slot_after, process_pending, pass, tick, max_batch}
use fiber_lib.Timer.Touch.{Spares}
use fiber_lib.Timer.Due.{Waiting, settle, sweep_once}
use fiber_lib.Timer.Passes.{at_slot, current_count, ahead, Passed}
use fiber_lib.Timer.OnTime.{DueIn, Effective, tick_lem, ready, Waiting_spared}
use fiber_lib.Timer.Place.{node_ticks, slot_after_lem, same_slot}
use fiber_lib.Timer.Repeat.{visit_stays, visit_moves}

-- One more run than `before`, and the next due time of a timer of `T` ticks.
abbrev pub RunsAgain : Wheel → ℕ → TimerNode → ℕ → ℕ → ℕ → Type 0
RunsAgain w i m slots T before =
    (n : ℕ) × (suc n ≡ (if T % slots == 0 then T + 2 * slots else T))
    × DueIn w i m n
    × (count i w.calls ≡ 1 + before)

module _ (effects : ℕ → List Effect) (i : ℕ) (spare : (f : ℕ) → Spares i (effects f)) (f : ℕ)
    {w : Wheel} {m : TimerNode} (h : Waiting w i m (at_slot 0) 0) (c : m.callback ≡ some f)
    (again : m.repeat ≡ true) (bound : node_ticks w m < 2 ^ 63) where
  abbrev T : ℕ
  T = node_ticks w m

  -- Where a run in the pass leaves the timer.
  pass_stays :
      (now : ℕ)
      → (T % w.slots == 0) ≡ true
      → Passed effects i spare now w m (at_slot (w.slots - 1)) (T / w.slots + 1) 1
  pass_stays now here =
      settle effects i spare now h
        (sweep_once effects i spare (get_or w.buckets w.current []) w true _ 1 (λ s. 0)
          (current_count effects i spare h) h.shaped h.known
          (visit_stays effects i spare f h c again bound here))
        (λ j q. ahead effects i spare j 1 (λ s. 0) h q ∙ ground arith)

  abbrev at_target : ℕ → ℕ
  at_target s = at_slot (slot_after w T) s + 0

  more_at :
      (j : ℕ)
      → (T % w.slots == 0) ≡ false
      → j < w.slots
      → (if suc j == w.slots
          then 0
          else at_target ((w.current + suc j) % w.slots) + at_slot 0 (suc j))
        ≡ at_slot (T % w.slots - 1) j
  more_at j apart q = rw (slot_after_lem w T h.shaped bound) (elim (ℕ_discrete (suc j) w.slots) [
    | yes e ↦ ground (arith, mod-lt T h.shaped.positive)
    | no ne ↦ ground (arith, same_slot w T (suc j) h.shaped (omega arith))
  ])

  pass_moves :
      (now : ℕ)
      → (T % w.slots == 0) ≡ false
      → Passed effects i spare now w m (at_slot (T % w.slots - 1)) (T / w.slots) 1
  pass_moves now apart =
      settle effects i spare now h
        (sweep_once effects i spare (get_or w.buckets w.current []) w false _ 1 at_target
          (current_count effects i spare h) h.shaped h.known
          (visit_moves effects i spare f h c again bound apart))
        (λ j q. ahead effects i spare j 0 at_target h q ∙ more_at j apart q)

  -- The next due time after a run in the pass.
  pass_again :
      (now : ℕ)
      → (n : ℕ) × (suc n ≡ (if T % w.slots == 0 then T + 2 * w.slots else T))
        × DueIn (pass effects now w) i m n
        × (count i (pass effects now w).calls ≡ 1 + count i w.calls)
  pass_again now = elim (Bool-cases (T % w.slots == 0)) [
    | inl here ↦
        let p = pass_stays now here in
        let whole = mod-add-div' T w.slots in
        (
          w.slots - 1 + (T / w.slots + 1) * w.slots,
          rw here (ground (arith, h.shaped)),
          record {
            slot = w.slots - 1;
            rounds = T / w.slots + 1;
            near = omega (arith, p.2, h.shaped);
            sum = rw p.2;
            waits = p.0;
          },
          p.1,
        )
    | inr apart ↦
        let p = pass_moves now apart in
        let whole = mod-add-div' T w.slots in
        let inside = mod-lt T h.shaped.positive in
        (
          T - 1,
          rw apart (ground arith),
          record {
            slot = T % w.slots - 1;
            rounds = T / w.slots;
            near = omega (arith, p.2);
            sum = rw p.2 (ground arith);
            waits = p.0;
          },
          p.1,
        )
  ]

-- The same of a timer that is due, as its slot and rounds are found.
pass_at_zero :
    (effects : ℕ → List Effect) (i : ℕ)
    → ((g : ℕ) → Spares i (effects g))
    → (now f d r : ℕ) {w : Wheel} {m : TimerNode} → d < w.slots
    → 0 ≡ d + r * w.slots
    → Waiting w i m (at_slot d) r
    → m.callback ≡ some f
    → m.repeat ≡ true
    → node_ticks w m < 2 ^ 63
    → RunsAgain (pass effects now w) i m w.slots (node_ticks w m) (count i w.calls)
pass_at_zero effects i spare now f (suc d) r near sum h c again bound = absurd (omega arith)
pass_at_zero effects i spare now f zero (suc r) near sum h c again bound = absurd (omega arith)
pass_at_zero effects i spare now f zero zero near sum h c again bound =
    pass_again effects i spare f h c again bound now

-- In the working tick in which a repeating timer with a callback is due, it runs once, and is due
-- again `T` ticks later, where `T` is the number of whole intervals in its timeout, at least 1,
-- unless `T` is a multiple of the number of slots: then it is due again two rounds of the wheel
-- too late, after `T + 2 * slots` ticks. The timeout is below 2^63 ms and no callback cancels the
-- timer.
pub repeat_period :
    (effects : ℕ → List Effect) (i : ℕ)
    → ((g : ℕ) → Spares i (effects g))
    → (now f : ℕ) {w : Wheel} {m : TimerNode} → DueIn w i m 0
    → m.callback ≡ some f
    → m.repeat ≡ true
    → m.timeout < 2 ^ 63
    → Effective now w
    → RunsAgain
        (tick effects now w)
        i
        m
        w.slots
        (at_least_one (m.timeout / w.interval))
        (count i w.calls)
repeat_period effects i spare now f {w} {m} h c again small work =
    let w1 = process_pending max_batch w in
    let t = ready effects i spare now h.waits in
    let whole : node_ticks w m ≡ at_least_one (m.timeout / w.interval) =
      rw (lt→ltb m.timeout (2 ^ 63) small) refl in
    let same : node_ticks w1 m ≡ at_least_one (m.timeout / w.interval) = rw t.interval_same whole in
    let bound : node_ticks w1 m < 2 ^ 63 =
      rw same (ground (arith, div-le_self m.timeout w.interval)) in
    let p =
      pass_at_zero effects i spare now f h.slot h.rounds (rw t.slots_same h.near)
        (rw t.slots_same h.sum) (Waiting_spared t h.waits) c again bound in
    let period : (if node_ticks w1 m % w1.slots == 0
          then node_ticks w1 m + 2 * w1.slots
          else node_ticks w1 m)
        ≡ (let T = at_least_one (m.timeout / w.interval) in
            if T % w.slots == 0 then T + 2 * w.slots else T) =
      rw (same, t.slots_same) refl in
    rw (tick_lem effects now w work) (p.0, p.1 ∙ period, p.2, p.3 ∙ omega (arith, t.ran))
