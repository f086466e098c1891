-- ===== src/Timer/Repeat.antt =====
-- What a run does to a repeating timer: the slot and the rounds it is given (timer.cpp, `tick`).
use native.Mathlib.Nat.{mod-lt}
use fiber_lib.Prelude.{
  ℕ, ◌+◌, ◌/◌, ◌%◌, ◌^◌, ◌<◌, ◌≡◌, ◌∙◌, ap, refl, true, false, some, List, [], ◌∷◌, ◌++◌, ◌==◌,
  length, get_or, length-set, get_or-set, count-append, subst, round_cases, arith,
}
use fiber_lib.Timer.{TimerNode, Wheel, Effect, timer_ticks, signed_ticks, at_least_one, fire}
use fiber_lib.Timer.Tick.{push_bucket, with_rotations, slot_after, repeat_or_drop, visit}
use fiber_lib.Timer.Touch.{Touched, Spared, Spares, nowhere, renode, revisit}
use fiber_lib.Timer.Others.{Shaped, Shaped-spared, slot_after-lt}
use fiber_lib.Timer.Due.{Waiting, Visits}
use fiber_lib.Timer.Passes.{at_slot, self_rotations, visit_fires, fire-Touched}
use fiber_lib.Timer.Place.{node_ticks, slot_after_lem, ticks_lem}

-- One part after another.
compose :
    {i : ℕ} {u v w : Wheel} {n m : TimerNode} {k l : ℕ} {f g : ℕ → ℕ}
    → Touched i u v n k f
    → Touched i v w m l g
    → Touched i u w m (l + k) (λ s. g s + f s)
compose a b = record {
  node_is = b.node_is;
  slots_same = b.slots_same ∙ a.slots_same;
  current_same = b.current_same ∙ a.current_same;
  interval_same = b.interval_same ∙ a.interval_same;
  width = b.width ∙ a.width;
  places = λ s. omega (arith, a.places s, b.places s);
  queued = b.queued ∙ a.queued;
  ran = omega (arith, a.ran, b.ran);
  known = b.known;
  running_same = b.running_same ∙ a.running_same;
}

-- The timer's own push into a bucket.
push_self :
    (i slot : ℕ) (w : Wheel)
    → slot < length w.buckets
    → i < w.next_node
    → Touched i w (push_bucket slot i w) (w.nodes i) 0 (at_slot slot)
unfolding push_bucket
push_self i slot w inside k = record {
  node_is = refl;
  slots_same = refl;
  current_same = refl;
  interval_same = refl;
  width = length-set w.buckets slot (get_or w.buckets slot [] ++ i ∷ []);
  places = λ s. ground (
    arith,
    get_or-set w.buckets slot s (get_or w.buckets slot [] ++ i ∷ []) [] inside,
    count-append i (get_or w.buckets slot []) (i ∷ []),
  );
  queued = refl;
  ran = omega arith;
  known = k;
  running_same = refl;
}

module _ (effects : ℕ → List Effect) (i : ℕ) where
  repeat_moves :
      (w : Wheel)
      → (w.nodes i).repeat ≡ true
      → (w.nodes i).canceled ≡ false
      → (slot_after w (timer_ticks w i) == w.current) ≡ false
      → repeat_or_drop effects i w ≡ (
        false,
        push_bucket
            (slot_after w (timer_ticks w i))
            i
            (with_rotations i (timer_ticks w i / w.slots) w),
      )
  unfolding repeat_or_drop
  repeat_moves w again live apart = rw (again, live, apart)

  repeat_stays :
      (w : Wheel)
      → (w.nodes i).repeat ≡ true
      → (w.nodes i).canceled ≡ false
      → (slot_after w (timer_ticks w i) == w.current) ≡ true
      → repeat_or_drop effects i w ≡ (true, with_rotations i (timer_ticks w i / w.slots + 1) w)
  unfolding repeat_or_drop
  repeat_stays w again live here = rw (again, live, here)

home_iff :
    (w : Wheel) (T : ℕ) → Shaped w → T < 2 ^ 63 → (slot_after w T == w.current) ≡ (T % w.slots == 0)
home_iff w T s bound =
    rw (slot_after_lem w T s bound)
      (ground (arith, mod-lt T s.positive, round_cases w.slots w.current (T % w.slots) s.inside))

module _ (effects : ℕ → List Effect) (i : ℕ) (spare : (f : ℕ) → Spares i (effects f)) (f : ℕ)
    {w : Wheel} {m : TimerNode} (h : Waiting w i m (at_slot 0) 0) (c : m.callback ≡ some f)
    (again : m.repeat ≡ true) (bound : node_ticks w m < 2 ^ 63) where
  abbrev pub T : ℕ
  T = node_ticks w m

  abbrev pub with_rounds : ℕ → TimerNode
  with_rounds r = record m { rotations = r }

  -- The wheel after the callback, with what the code reads off it.
  record Fired (w1 : Wheel) : Type 0 where
    node : w1.nodes i ≡ with_rounds 0
    ticks_are : timer_ticks w1 i ≡ T
    slots_are : w1.slots ≡ w.slots
    current_is : w1.current ≡ w.current
    shape : Shaped w1

  fired_lem :
      (w' : Wheel)
      → Spared i w w'
      → Touched i w' (fire effects i w') (with_rounds 0) 1 nowhere × Fired (fire effects i w')
  fired_lem w' t =
      let node : w'.nodes i ≡ with_rounds 0 = t.node_is ∙ h.node_is in
      let ran =
        renode node (fire-Touched effects i spare f w' t.known (ap (λ n. n.callback) node ∙ c)) in
      (
        ran,
        record {
          node = ran.node_is;
          ticks_are =
              ticks_lem i (fire effects i w') ran.node_is
              ∙ ap (λ k. at_least_one (signed_ticks m.timeout k))
                  (ran.interval_same ∙ t.interval_same);
          slots_are = ran.slots_same ∙ t.slots_same;
          current_is = ran.current_same ∙ t.current_same;
          shape = Shaped-spared ran (Shaped-spared t h.shaped);
        },
      )

  fires_now :
      (w' : Wheel)
      → Spared i w w'
      → visit effects i w' ≡ repeat_or_drop effects i (fire effects i w')
  fires_now w' t =
      let node : w'.nodes i ≡ with_rounds 0 = t.node_is ∙ h.node_is in
      visit_fires effects i w' (ap (λ n. n.canceled) node ∙ h.live) (ap (λ n. n.rotations) node)

  home :
      {w1 : Wheel}
      → Fired w1
      → (slot_after w1 (timer_ticks w1 i) == w1.current) ≡ (T % w.slots == 0)
  home {w1} g = rw (g.ticks_are) (home_iff w1 T g.shape bound ∙ ap (λ s. T % s == 0) g.slots_are)

  -- The node with its new number of rounds, and the slot in which it goes.
  rounds_node :
      {w1 : Wheel} (k r : ℕ)
      → Fired w1
      → k ≡ r
      → record (w1.nodes i) { rotations = k } ≡ with_rounds r
  rounds_node k r g e =
      ap {B = TimerNode} (λ n. record n { rotations = k }) g.node ∙ ap with_rounds e

  rounds_are : {w1 : Wheel} → Fired w1 → timer_ticks w1 i / w1.slots ≡ T / w.slots
  rounds_are g = rw (g.ticks_are, g.slots_are)

  target_is : {w1 : Wheel} → Fired w1 → slot_after w1 (timer_ticks w1 i) ≡ slot_after w T
  target_is g = rw (g.ticks_are, g.current_is, g.slots_are)

  pub visit_moves :
      (T % w.slots == 0) ≡ false
      → Visits effects i spare w false
          (with_rounds (T / w.slots))
          1
          (λ s. at_slot (slot_after w T) s + 0)
  visit_moves apart w' t =
      let (ran, g) = fired_lem w' t in
      let w1 = fire effects i w' in
      let r = timer_ticks w1 i / w1.slots in
      let slot = slot_after w1 (timer_ticks w1 i) in
      let step =
        fires_now w' t
        ∙ repeat_moves effects i w1 (ap (λ n. n.repeat) g.node ∙ again)
            (ap (λ n. n.canceled) g.node ∙ h.live) (home g ∙ apart) in
      let turned = compose ran (self_rotations i r w1 ran.known) in
      let inside = slot_after-lt w1 (timer_ticks w1 i) g.shape in
      let pushed = compose turned (push_self i slot (with_rotations i r w1) inside turned.known) in
      let node = turned.node_is ∙ rounds_node r (T / w.slots) g (rounds_are g) in
      revisit step refl (
        subst
          (λ x.
            Touched i w' (push_bucket slot i (with_rotations i r w1)) (with_rounds (T / w.slots)) 1
              (λ s. at_slot x s + 0))
          (target_is g) (renode node pushed))

  pub visit_stays :
      (T % w.slots == 0) ≡ true
      → Visits effects i spare w true (with_rounds (T / w.slots + 1)) 1 (λ s. 0)
  visit_stays here w' t =
      let (ran, g) = fired_lem w' t in
      let w1 = fire effects i w' in
      let r = timer_ticks w1 i / w1.slots + 1 in
      let step =
        fires_now w' t
        ∙ repeat_stays effects i w1 (ap (λ n. n.repeat) g.node ∙ again)
            (ap (λ n. n.canceled) g.node ∙ h.live) (home g ∙ here) in
      let turned = compose ran (self_rotations i r w1 ran.known) in
      revisit step refl
        (renode (rounds_node r (T / w.slots + 1) g (ap (λ k. k + 1) (rounds_are g))) turned)
