-- ===== src/Timer/OnTime.antt =====
-- A timer that does not repeat runs in exactly one tick, the one that its timeout names.
use fiber_lib.Prelude.{
  ℕ, zero, suc, ◌+◌, ◌-◌, ◌*◌, ◌/◌, ◌%◌, ◌^◌, ◌≤◌, ◌<◌, ◌≡◌, ◌≢◌, ◌∙◌, ap, refl, true, false, some,
  List, [], ◌∷◌, ltb, if◌then◌else◌, length, count, arith,
}
use fiber_lib.Timer.{TimerNode, Wheel, Effect}
use fiber_lib.Timer.Tick.{take_pending, process_pending, pass, tick, max_batch}
use fiber_lib.Timer.Touch.{Spared, Spared-refl, then-Spared, Spares, nowhere}
use fiber_lib.Timer.Others.{Shaped, Shaped-spared, place-Spared}
use fiber_lib.Timer.Due.{Waiting}
use fiber_lib.Timer.Passes.{at_slot, pass_nearer, pass_round, pass_last, pass_gone}

-- Timer `i` runs in the tick after the next `n` ticks.
pub record DueIn (w : Wheel) (i : ℕ) (m : TimerNode) (n : ℕ) : Type 0 where
  pub slot : ℕ
  pub rounds : ℕ
  pub near : slot < w.slots
  pub sum : n ≡ slot + rounds * w.slots
  pub waits : Waiting w i m (at_slot slot) rounds

pub Waiting_spared :
    {i : ℕ} {w w' : Wheel} {m : TimerNode} {want : ℕ → ℕ} {r : ℕ}
    → Spared i w w'
    → Waiting w i m want r
    → Waiting w' i m want r
Waiting_spared {i} {w} {w'} t h = record {
  shaped = Shaped-spared t h.shaped;
  node_is = t.node_is ∙ h.node_is;
  live = h.live;
  known = t.known;
  queued = t.queued ∙ h.queued;
  places = λ j p.
      rw (t.slots_same, t.current_same)
        (omega (arith, t.places ((w.current + j) % w.slots), h.places j (rw t.slots_same at p)));
}

-- The pending queue loses another timer.
pub popped_Spared :
    (i j : ℕ) (js : List ℕ) (w : Wheel)
    → w.pending ≡ j ∷ js
    → j ≢ i
    → i < w.next_node
    → Spared i w (record w { pending = js })
popped_Spared i j js w e c k = record {
  node_is = refl;
  slots_same = refl;
  current_same = refl;
  interval_same = refl;
  width = refl;
  places = λ s. omega arith;
  queued = ground (arith, ap (count i) e);
  ran = omega arith;
  known = k;
  running_same = refl;
}

module _ (i : ℕ) where
  take_pending-Spared :
      (ps : List ℕ) (w : Wheel)
      → w.pending ≡ ps
      → count i ps ≡ 0
      → Shaped w
      → i < w.next_node
      → Spared i w (take_pending ps w)
  unfolding take_pending
  take_pending-Spared [] w e c s k = Spared-refl i w k
  take_pending-Spared (j ∷ js) w e c s k =
      let popped = popped_Spared i j js w e (ground arith) k in
      then-Spared popped
        (place-Spared i j (record w { pending = js }) (ground arith) (Shaped-spared popped s) k)

  pub process_pending-Spared :
      (n : ℕ) (w : Wheel)
      → count i w.pending ≡ 0
      → Shaped w
      → i < w.next_node
      → Spared i w (process_pending n w)
  unfolding process_pending
  process_pending-Spared zero w c s k = Spared-refl i w k
  process_pending-Spared (suc n) w c s k =
      let one = take_pending-Spared w.pending w refl c s k in
      then-Spared one (
        process_pending-Spared n (take_pending w.pending w) (one.queued ∙ c) (Shaped-spared one s)
          one.known)

-- A tick does its work: the wheel runs, and the interval, less a tolerance of 1 ms, is over.
abbrev pub Effective : ℕ → Wheel → Type 0
Effective now w = (w.running ≡ true) × (w.interval ≤ (now - w.last_tick) / 10 ^ 6 + 1)

module _ (effects : ℕ → List Effect) where
  unfoldable pub ticks : List ℕ → Wheel → Wheel
  ticks [] w = w
  ticks (t ∷ ts) w = ticks ts (tick effects t w)

  abbrev pub AllEffective : List ℕ → Wheel → Type 0
  AllEffective [] w = Unit
  AllEffective (t ∷ ts) w = Effective t w × AllEffective ts (tick effects t w)

  pub tick_lem :
      (now : ℕ) (w : Wheel)
      → Effective now w
      → tick effects now w ≡ pass effects now (process_pending max_batch w)
  unfolding tick
  tick_lem now w e = ground arith

module _ (effects : ℕ → List Effect) (i : ℕ) (spare : (f : ℕ) → Spares i (effects f)) where
  -- The wheel that the sweep of a tick starts from.
  pub ready :
      (now : ℕ) {w : Wheel} {m : TimerNode} {want : ℕ → ℕ} {r : ℕ}
      → Waiting w i m want r
      → Spared i w (process_pending max_batch w)
  ready now {w} h = process_pending-Spared i max_batch w h.queued h.shaped h.known

  pub pass_due :
      (now n d r : ℕ) {w : Wheel} {m : TimerNode}
      → d < w.slots
      → suc n ≡ d + r * w.slots
      → Waiting w i m (at_slot d) r
      → DueIn (pass effects now w) i m n × (count i (pass effects now w).calls ≡ count i w.calls)
  pass_due now n (suc d) r {w} near sum h =
      let p = pass_nearer effects i spare now d r near h in
      (
        record {
          slot = d;
          rounds = r;
          near = omega (arith, p.2);
          sum = rw p.2 (omega arith);
          waits = p.0;
        },
        omega (arith, p.1),
      )
  pass_due now n zero (suc r) {w} near sum h =
      let p = pass_round effects i spare now r h in
      (
        record {
          slot = w.slots - 1;
          rounds = r;
          near = omega (arith, p.2);
          sum = rw p.2 (omega arith);
          waits = p.0;
        },
        omega (arith, p.1),
      )
  pass_due now n zero zero near sum h = absurd (omega arith)

  -- What one working tick does to a timer that is not due.
  tick_nearer :
      (now n : ℕ) {w : Wheel} {m : TimerNode}
      → DueIn w i m (suc n)
      → Effective now w
      → DueIn (tick effects now w) i m n × (count i (tick effects now w).calls ≡ count i w.calls)
  tick_nearer now n {w} {m} h e =
      let t = ready now h.waits in
      let p =
        pass_due now n h.slot h.rounds (rw t.slots_same h.near) (rw t.slots_same h.sum)
          (Waiting_spared t h.waits) in
      rw (tick_lem effects now w e) (p.0, p.1 ∙ omega (arith, t.ran))

  pass_at_zero :
      (now f d r : ℕ) {w : Wheel} {m : TimerNode}
      → d < w.slots
      → 0 ≡ d + r * w.slots
      → Waiting w i m (at_slot d) r
      → m.callback ≡ some f
      → m.repeat ≡ false
      → Waiting (pass effects now w) i m nowhere 0
        × (count i (pass effects now w).calls ≡ 1 + count i w.calls)
  pass_at_zero now f (suc d) r near sum h c once = absurd (omega arith)
  pass_at_zero now f zero (suc r) near sum h c once = absurd (omega arith)
  pass_at_zero now f zero zero near sum h c once =
      let p = pass_last effects i spare now f h c once in (p.0, p.1)

  -- To one that is due.
  tick_last :
      (now f : ℕ) {w : Wheel} {m : TimerNode}
      → DueIn w i m 0
      → m.callback ≡ some f
      → m.repeat ≡ false
      → Effective now w
      → Waiting (tick effects now w) i m nowhere 0
        × (count i (tick effects now w).calls ≡ 1 + count i w.calls)
  tick_last now f {w} {m} h c once e =
      let t = ready now h.waits in
      let p =
        pass_at_zero now f h.slot h.rounds (rw t.slots_same h.near) (rw t.slots_same h.sum)
          (Waiting_spared t h.waits) c once in
      rw (tick_lem effects now w e) (p.0, p.1 ∙ omega (arith, t.ran))

  -- And to one that has left the wheel.
  tick_gone :
      (now r : ℕ) {w : Wheel} {m : TimerNode}
      → Waiting w i m nowhere r
      → Effective now w
      → Waiting (tick effects now w) i m nowhere r
        × (count i (tick effects now w).calls ≡ count i w.calls)
  tick_gone now r {w} h e =
      let t = ready now h in
      let p = pass_gone effects i spare now r (Waiting_spared t h) in
      rw (tick_lem effects now w e) (p.0, p.1 ∙ omega (arith, t.ran))

  gone_for_good :
      (ts : List ℕ) {w : Wheel} {m : TimerNode} (r : ℕ)
      → Waiting w i m nowhere r
      → AllEffective effects ts w
      → count i (ticks effects ts w).calls ≡ count i w.calls
  unfolding ticks
  gone_for_good [] r h e = refl
  gone_for_good (t ∷ ts) r h e = let p = tick_gone t r h e.0 in gone_for_good ts r p.0 e.1 ∙ p.1

  -- A timer with a callback that does not repeat, that is due after the next `n` working ticks and
  -- that no callback cancels, has run once more after `k` working ticks if `n < k`, and else not.
  pub due_on_time :
      (ts : List ℕ) (n f : ℕ) {w : Wheel} {m : TimerNode}
      → DueIn w i m n
      → m.callback ≡ some f
      → m.repeat ≡ false
      → AllEffective effects ts w
      → count i (ticks effects ts w).calls ≡ (if ltb n (length ts) then 1 else 0) + count i w.calls
  unfolding ticks
  due_on_time [] n f h c once e = ground arith
  due_on_time (t ∷ ts) zero f h c once e =
      let p = tick_last t f h c once e.0 in ground (arith, p.1, gone_for_good ts 0 p.0 e.1)
  due_on_time (t ∷ ts) (suc n) f h c once e =
      let p = tick_nearer t n h e.0 in ground (arith, p.1, due_on_time ts n f p.0 c once e.1)
