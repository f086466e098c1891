-- ===== src/Timer/Added.antt =====
-- From `addTimer` to the tick in which the timer runs.
use native.Mathlib.Nat.{mod-lt, mod-add-div', div-le_self}
use fiber_lib.Prelude.{
  ℕ, zero, suc, ◌+◌, ◌/◌, ◌%◌, ◌^◌, ◌<◌, ◌≡◌, ◌∙◌, sym, ap, refl, true, false, some, List, [], ◌∷◌,
  ◌++◌, ltb, if◌then◌else◌, length, get_or, count, lt→ltb, subst, arith,
}
use fiber_lib.Timer.{TimerNode, Wheel, Effect, at_least_one, new_node, add_timer}
use fiber_lib.Timer.Tick.{pass, max_batch}
use fiber_lib.Timer.Touch.{Spares}
use fiber_lib.Timer.Others.{Shaped}
use fiber_lib.Timer.Due.{Waiting}
use fiber_lib.Timer.Passes.{at_slot}
use fiber_lib.Timer.OnTime.{ticks, pass_due, tick_lem, AllEffective, due_on_time}
use fiber_lib.Timer.Place.{Unplaced, node_ticks, process_picks}

-- No timer has the next address yet.
pub record Fresh (w : Wheel) : Type 0 where
  pub shaped : Shaped w
  pub unplaced : (s : ℕ) → count w.next_node (get_or w.buckets s []) ≡ 0
  pub unqueued : count w.next_node w.pending ≡ 0

-- The wheel after `addTimer`.
module _ (ms f : ℕ) {w : Wheel} (fresh : Fresh w) (on : w.running ≡ true) where
  abbrev added : Wheel
  added = (add_timer ms (some f) false w).1

  added-Unplaced : Unplaced added w.next_node (new_node w ms (some f) false)
  unfolding add_timer
  added-Unplaced = rw on (record {
    shaped = omega (arith, fresh.shaped);
    node_is = ground arith;
    live = refl;
    known = omega arith;
    nowhere_yet = fresh.unplaced;
  })

  added_parts :
      (added.pending ≡ w.pending ++ w.next_node ∷ [])
      × (added.slots ≡ w.slots)
      × (added.interval ≡ w.interval)
      × (added.calls ≡ w.calls)
  unfolding add_timer
  added_parts = rw on (refl, refl, refl, refl)

-- Ticks from a wheel that has just placed the timer and is about to sweep.
placed_on_time :
    (effects : ℕ → List Effect) (i : ℕ)
    → ((g : ℕ) → Spares i (effects g))
    → (t : ℕ) (ts : List ℕ) (T f : ℕ) {w : Wheel} {m : TimerNode} → 0 < T
    → Waiting w i m (at_slot (T % w.slots)) (T / w.slots)
    → m.callback ≡ some f
    → m.repeat ≡ false
    → AllEffective effects ts (pass effects t w)
    → count i (ticks effects ts (pass effects t w)).calls
      ≡ (if ltb T (suc (length ts)) then 1 else 0) + count i w.calls
placed_on_time effects i spare t ts zero f pos h c once work = absurd (omega arith)
placed_on_time effects i spare t ts (suc n) f {w} pos h c once work =
    let p =
      pass_due effects i spare t n (suc n % w.slots) (suc n / w.slots)
        (mod-lt (suc n) h.shaped.positive) (sym (mod-add-div' (suc n) w.slots)) h in
    ground (arith, p.1, due_on_time effects i spare ts n f p.0 c once work)

module _ (effects : ℕ → List Effect) (ms f : ℕ) {w : Wheel} (fresh : Fresh w) where
  abbrev T : ℕ
  T = at_least_one (ms / w.interval)

  ticks_of_ms :
      (on : w.running ≡ true)
      → ms < 2 ^ 63
      → node_ticks (added ms f fresh on) (new_node w ms (some f) false) ≡ T
  ticks_of_ms on small = rw ((added_parts ms f fresh on).2, lt→ltb ms (2 ^ 63) small)

  added_on_time :
      (ts : List ℕ) (on : w.running ≡ true)
      → length w.pending < max_batch
      → ms < 2 ^ 63
      → ((g : ℕ) → Spares w.next_node (effects g))
      → AllEffective effects ts (added ms f fresh on)
      → count w.next_node (ticks effects ts (added ms f fresh on)).calls
        ≡ (if ltb T (length ts) then 1 else 0) + count w.next_node w.calls
  unfolding ticks
  added_on_time [] on few small spare work =
      ground (arith, ap (count w.next_node) (added_parts ms f fresh on).3)
  added_on_time (t ∷ ts) on few small spare work =
      let parts = added_parts ms f fresh on in
      let small_T : node_ticks (added ms f fresh on) (new_node w ms (some f) false) < 2 ^ 63 =
        rw (ticks_of_ms on small) (ground (arith, div-le_self ms w.interval)) in
      let pick =
        process_picks w.next_node max_batch w.pending (added-Unplaced ms f fresh on) parts.0
          fresh.unqueued few small_T in
      let waits = rw (ticks_of_ms on small, ← pick.1) at pick.0 in
      let step = tick_lem effects t (added ms f fresh on) work.0 in
      let ran =
        placed_on_time effects w.next_node spare t ts T f (ground arith) waits refl refl
          (subst (AllEffective effects ts) step work.1) in
      ap (λ v. count w.next_node (ticks effects ts v).calls) step
      ∙ omega (arith, ran, pick.2, ap (count w.next_node) parts.3)

  -- On a running wheel on which the next node is in no bucket and not pending, a timer with a
  -- callback that does not repeat, added with `ms < 2^63` milliseconds while fewer than 100 timers
  -- are pending, and canceled by no callback, has run once after more than `T` working ticks and
  -- not at all after fewer, where `T` is the number of whole intervals in `ms`, at least 1.
  pub add_on_time :
      (ts : List ℕ)
      → w.running ≡ true
      → length w.pending < max_batch
      → ms < 2 ^ 63
      → ((g : ℕ) → Spares w.next_node (effects g))
      → AllEffective effects ts (add_timer ms (some f) false w).1
      → count w.next_node (ticks effects ts (add_timer ms (some f) false w).1).calls
        ≡ (if ltb (at_least_one (ms / w.interval)) (length ts) then 1 else 0)
          + count w.next_node w.calls
  add_on_time ts on few small spare work = added_on_time ts on few small spare work
