-- ===== src/Timer/Due.antt =====
-- Where a timer stands in the wheel, and what one pass over a slot does to it.
use native.Mathlib.Nat.{mod-lt, mod-add-mod}
use native.Mathlib.Decide.{ℕ_discrete}
use fiber_lib.Prelude.{
  ℕ, suc, ◌+◌, ◌%◌, ◌^◌, ◌<◌, ◌≡◌, ◌∙◌, sym, ap, Bool, false, List, [], ◌∷◌, ◌==◌, if◌then◌else◌,
  length, get_or, length-set, get_or-set, count, round_cases, arith,
}
use fiber_lib.Timer.{TimerNode, Wheel, Effect}
use fiber_lib.Timer.Tick.{visit, sweep, pass}
use fiber_lib.Timer.Touch.{Touched, Spared, Spared-refl, then-Spared, Spared-then, Spares}
use fiber_lib.Timer.Others.{Shaped, Shaped-spared, visit-Spared, sweep-Spared}

-- Timer `i` has the node `m` with `r` rounds to go, waits in no queue, and stands `want j` times in
-- the bucket `j` slots ahead.
pub record Waiting (w : Wheel) (i : ℕ) (m : TimerNode) (want : ℕ → ℕ) (r : ℕ) : Type 0 where
  pub shaped : Shaped w
  pub node_is : w.nodes i ≡ record m { rotations = r }
  pub live : m.canceled ≡ false
  pub known : i < w.next_node
  pub queued : count i w.pending ≡ 0
  pub places :
      (j : ℕ) → j < w.slots → count i (get_or w.buckets ((w.current + j) % w.slots) []) ≡ want j

module _ (effects : ℕ → List Effect) (i : ℕ) (spare : (f : ℕ) → Spares i (effects f)) where
  -- What a visit does to timer `i`, whatever was done before for other timers.
  abbrev pub Visits : Wheel → Bool → TimerNode → ℕ → (ℕ → ℕ) → Type 0
  Visits w stays node fired more =
      (w' : Wheel)
      → Spared i w w'
      → ((visit effects i w').0 ≡ stays) × Touched i w' (visit effects i w').1 node fired more

  pub sweep_once :
      (js : List ℕ) (w : Wheel) (stays : Bool) (node : TimerNode) (fired : ℕ) (more : ℕ → ℕ)
      → count i js ≡ 1
      → Shaped w
      → i < w.next_node
      → Visits w stays node fired more
      → Touched i w (sweep effects js w).1 node fired more
        × (count i (sweep effects js w).0 ≡ (if stays then 1 else 0))
  unfolding sweep
  sweep_once [] w stays node fired more c s k v = absurd (omega arith)
  sweep_once (j ∷ js) w stays node fired more c s k v = elim (ℕ_discrete j i) [
    | yes e ↦
        let now = v w (Spared-refl i w k) in
        let rest =
          sweep-Spared effects i spare js (visit effects i w).1 (ground arith)
            (Shaped-spared now.1 s) now.1.known in
        rw e (then-Spared now.1 rest.0, ground (arith, now.0, rest.1))
    | no ne ↦
        let one = visit-Spared effects i spare j w ne s k in
        let rest =
          sweep_once js (visit effects j w).1 stays node fired more (ground arith)
            (Shaped-spared one s) one.known (λ w' t. v w' (then-Spared one t)) in
        (Spared-then one rest.0, ground (arith, rest.1))
  ]

  -- The slots as they are counted from the next slot on.
  next_slot :
      (w : Wheel) (j : ℕ)
      → Shaped w
      → ((w.current + 1) % 2 ^ 64 % w.slots + j) % w.slots ≡ (w.current + suc j) % w.slots
  next_slot w j s =
      let unwrapped : (w.current + 1) % 2 ^ 64 ≡ w.current + 1 = omega arith in
      rw (unwrapped, mod-add-mod) (ap (λ k. k % w.slots) (omega arith))

  back_iff :
      (w : Wheel) (j : ℕ)
      → Shaped w
      → j < w.slots
      → (w.current == (w.current + suc j) % w.slots) ≡ (suc j == w.slots)
  back_iff w j s h = ground (arith, round_cases w.slots w.current (suc j) s.inside h)

  -- From the sweep to the whole pass.
  pub settle :
      (now : ℕ) {w : Wheel} {m : TimerNode} {r r' fired c : ℕ} {want want' more : ℕ → ℕ}
      → Waiting w i m want r
      → (let (rest, w') = sweep effects (get_or w.buckets w.current []) w in
          Touched i w w' (record m { rotations = r' }) fired more × (count i rest ≡ c))
      → ((j : ℕ)
          → j < w.slots
          → (if suc j == w.slots
              then c
              else more ((w.current + suc j) % w.slots)
                + count i (get_or w.buckets ((w.current + suc j) % w.slots) []))
            ≡ want' j)
      → Waiting (pass effects now w) i m want' r'
        × (count i (pass effects now w).calls ≡ fired + count i w.calls)
        × ((pass effects now w).slots ≡ w.slots)
  unfolding pass
  settle now {w} {c} {more} h (t, e) at =
      let (rest, w') = sweep effects (get_or w.buckets w.current []) w in
      let after = w'.buckets in
      (
        record {
          shaped = record {
            positive = omega (arith, t.slots_same, h.shaped);
            small = omega (arith, t.slots_same, h.shaped);
            wide = length-set after w.current rest ∙ t.width ∙ h.shaped.wide ∙ sym t.slots_same;
            inside = rw t.slots_same (mod-lt ((w.current + 1) % 2 ^ 64) h.shaped.positive);
          };
          node_is = t.node_is;
          live = h.live;
          known = t.known;
          queued = t.queued ∙ h.queued;
          places = λ j hj.
              let near : j < w.slots = rw t.slots_same at hj in
              let slot = (w.current + suc j) % w.slots in
              let inside : w.current < length after = omega (arith, t.width, h.shaped) in
              rw
                (
                  t.slots_same,
                  next_slot w j h.shaped,
                  get_or-set after w.current slot rest [] inside,
                )
                (ground (arith, back_iff w j h.shaped near, at j near, t.places slot, e));
        },
        t.ran,
        t.slots_same,
      )
