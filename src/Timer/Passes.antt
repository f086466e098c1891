-- ===== src/Timer/Passes.antt =====
-- One pass of the wheel, seen from one timer: it comes a slot nearer, goes round once more, or runs.
use native.Mathlib.Nat.{add-zero, mod-eq_of_lt}
use native.Mathlib.Decide.{ℕ_discrete}
use fiber_lib.Prelude.{
  ℕ, suc, ◌+◌, ◌-◌, ◌%◌, ◌<◌, ◌≡◌, ◌∙◌, sym, ap, refl, true, false, some, List, [], ◌∷◌, ◌==◌,
  if◌then◌else◌, get_or, count, lt→ltb, subst, arith,
}
use fiber_lib.Timer.{TimerNode, Wheel, Effect, fire, run_callback}
use fiber_lib.Timer.Tick.{with_rotations, repeat_or_drop, visit, pass}
use fiber_lib.Timer.Touch.{renode, revisit, Touched, then-Spared, Spares, apply_all-Spared, nowhere}
use fiber_lib.Timer.Others.{sweep-Spared}
use fiber_lib.Timer.Due.{Waiting, Visits, sweep_once, settle}

-- A change of the timer's own number of rounds.
pub self_rotations :
    (i r : ℕ) (w : Wheel)
    → i < w.next_node
    → Touched i w (with_rotations i r w) (record (w.nodes i) { rotations = r }) 0 nowhere
self_rotations i r w k = record {
  node_is = ground arith;
  slots_same = refl;
  current_same = refl;
  interval_same = refl;
  width = refl;
  places = λ s. omega arith;
  queued = refl;
  ran = omega arith;
  known = k;
  running_same = refl;
}

-- A run of the timer's own callback.
called_Touched :
    (i : ℕ) (w : Wheel)
    → i < w.next_node
    → Touched i w (record w { calls = i ∷ w.calls }) (w.nodes i) 1 nowhere
called_Touched i w k = record {
  node_is = refl;
  slots_same = refl;
  current_same = refl;
  interval_same = refl;
  width = refl;
  places = λ s. omega arith;
  queued = refl;
  ran = ground arith;
  known = k;
  running_same = refl;
}

drop_lem :
    (effects : ℕ → List Effect) (i : ℕ) (w : Wheel)
    → (w.nodes i).repeat ≡ false
    → repeat_or_drop effects i w ≡ (false, w)
unfolding repeat_or_drop
drop_lem effects i w once = rw once

-- Once, `d` slots ahead.
abbrev pub at_slot : ℕ → ℕ → ℕ
at_slot d j = if j == d then 1 else 0

visit_rotates :
    (effects : ℕ → List Effect) (i : ℕ) (w : Wheel)
    → (w.nodes i).canceled ≡ false
    → 0 < (w.nodes i).rotations
    → visit effects i w ≡ (true, with_rotations i ((w.nodes i).rotations - 1) w)
unfolding visit
visit_rotates effects i w live more = rw (live, lt→ltb _ _ more)

pub visit_fires :
    (effects : ℕ → List Effect) (i : ℕ) (w : Wheel)
    → (w.nodes i).canceled ≡ false
    → (w.nodes i).rotations ≡ 0
    → visit effects i w ≡ repeat_or_drop effects i (fire effects i w)
unfolding visit
visit_fires effects i w live done = rw (live, done)

module _ (effects : ℕ → List Effect) (i : ℕ) (spare : (f : ℕ) → Spares i (effects f)) where
  pub current_count :
      {w : Wheel} {m : TimerNode} {want : ℕ → ℕ} {r : ℕ}
      → Waiting w i m want r
      → count i (get_or w.buckets w.current []) ≡ want 0
  current_count {w} h =
      ap (λ k. count i (get_or w.buckets k [])) (sym (rw add-zero (mod-eq_of_lt h.shaped.inside)))
      ∙ h.places 0 h.shaped.positive

  -- The counts as they stand from the next slot on, with the current slot as the last one.
  pub ahead :
      {w : Wheel} {m : TimerNode} {want : ℕ → ℕ} {r : ℕ} (j c : ℕ) (more : ℕ → ℕ)
      → Waiting w i m want r
      → j < w.slots
      → (if suc j == w.slots
          then c
          else more ((w.current + suc j) % w.slots)
            + count i (get_or w.buckets ((w.current + suc j) % w.slots) []))
        ≡ (if suc j == w.slots then c else more ((w.current + suc j) % w.slots) + want (suc j))
  ahead {w} {want} j c more h p = elim (ℕ_discrete (suc j) w.slots) [
    | yes e ↦ ground arith
    | no ne ↦
        let there = h.places (suc j) (omega arith) in
        ap (λ k. if suc j == w.slots then c else more ((w.current + suc j) % w.slots) + k) there
  ]

  -- What a pass leaves of timer `i`, and how often it ran its callback.
  abbrev pub Passed : ℕ → Wheel → TimerNode → (ℕ → ℕ) → ℕ → ℕ → Type 0
  Passed now w m want r fired =
      Waiting (pass effects now w) i m want r
      × (count i (pass effects now w).calls ≡ fired + count i w.calls)
      × ((pass effects now w).slots ≡ w.slots)

  -- A timer that stands some slots ahead comes a slot nearer.
  pub pass_nearer :
      (now d r : ℕ) {w : Wheel} {m : TimerNode}
      → suc d < w.slots
      → Waiting w i m (at_slot (suc d)) r
      → Passed now w m (at_slot d) r 0
  pass_nearer now d r {w} {m} near h =
      let swept =
        sweep-Spared effects i spare (get_or w.buckets w.current []) w
          (current_count h ∙ ground arith) h.shaped h.known in
      settle effects i spare now h (renode h.node_is swept.0, swept.1)
        (λ j p. ahead j 0 nowhere h p ∙ ground arith)

  visit_round :
      (r : ℕ) {w : Wheel} {m : TimerNode} {want : ℕ → ℕ}
      → Waiting w i m want (suc r)
      → Visits effects i spare w true (record m { rotations = r }) 0 nowhere
  visit_round r {w} {m} h w' t =
      let node : w'.nodes i ≡ record m { rotations = suc r } = t.node_is ∙ h.node_is in
      let step =
        visit_rotates effects i w' (ap (λ n. n.canceled) node ∙ h.live)
          (omega (arith, ap (λ n. n.rotations) node)) in
      let fewer : ℕ → TimerNode = λ k. record m { rotations = k } in
      let less : record (w'.nodes i) { rotations = (w'.nodes i).rotations - 1 } ≡ fewer r =
        ap {B = TimerNode} (λ n. record n { rotations = n.rotations - 1 }) node
        ∙ ap fewer (omega arith) in
      revisit step refl (renode less (self_rotations i ((w'.nodes i).rotations - 1) w' t.known))

  -- A timer whose slot is passed with rounds to go counts one of them off.
  pub pass_round :
      (now r : ℕ) {w : Wheel} {m : TimerNode}
      → Waiting w i m (at_slot 0) (suc r)
      → Passed now w m (at_slot (w.slots - 1)) r 0
  pass_round now r {w} h =
      settle effects i spare now h
        (sweep_once effects i spare (get_or w.buckets w.current []) w true _ 0 nowhere
          (current_count h) h.shaped h.known (visit_round r h))
        (λ j p. ahead j 1 nowhere h p ∙ ground arith)

  -- The run of its callback leaves the timer as it is.
  pub fire-Touched :
      (f : ℕ) (w : Wheel)
      → i < w.next_node
      → (w.nodes i).callback ≡ some f
      → Touched i w (fire effects i w) (w.nodes i) 1 nowhere
  unfolding fire
  fire-Touched f w k e =
      subst (λ o. Touched i w (run_callback effects i o w) (w.nodes i) 1 nowhere) (sym e)
        (then-Spared (called_Touched i w k)
          (apply_all-Spared effects i (effects f) (record w { calls = i ∷ w.calls }) (spare f) k))

  visit_last :
      (f : ℕ) {w : Wheel} {m : TimerNode} {want : ℕ → ℕ}
      → Waiting w i m want 0
      → m.callback ≡ some f
      → m.repeat ≡ false
      → Visits effects i spare w false (record m { rotations = 0 }) 1 nowhere
  visit_last f {w} {m} h c once w' t =
      let node : w'.nodes i ≡ record m { rotations = 0 } = t.node_is ∙ h.node_is in
      let fired = fire-Touched f w' t.known (ap (λ n. n.callback) node ∙ c) in
      let step =
        visit_fires effects i w' (ap (λ n. n.canceled) node ∙ h.live) (ap (λ n. n.rotations) node)
        ∙ drop_lem effects i (fire effects i w')
            (ap (λ n. n.repeat) (fired.node_is ∙ node) ∙ once) in
      revisit step refl (renode node fired)

  -- A timer that is due, and does not repeat, runs and leaves the wheel.
  pub pass_last :
      (now f : ℕ) {w : Wheel} {m : TimerNode}
      → Waiting w i m (at_slot 0) 0
      → m.callback ≡ some f
      → m.repeat ≡ false
      → Passed now w m nowhere 0 1
  pass_last now f {w} h c once =
      settle effects i spare now h
        (sweep_once effects i spare (get_or w.buckets w.current []) w false _ 1 nowhere
          (current_count h) h.shaped h.known (visit_last f h c once))
        (λ j p. ahead j 0 nowhere h p ∙ ground arith)

  -- A timer that has left the wheel does not run again.
  pub pass_gone :
      (now r : ℕ) {w : Wheel} {m : TimerNode} → Waiting w i m nowhere r → Passed now w m nowhere r 0
  pass_gone now r {w} h =
      let swept =
        sweep-Spared effects i spare (get_or w.buckets w.current []) w (current_count h) h.shaped
          h.known in
      settle effects i spare now h (renode h.node_is swept.0, swept.1)
        (λ j p. ahead j 0 nowhere h p ∙ ground arith)
