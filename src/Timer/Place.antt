-- ===== src/Timer/Place.antt =====
-- Where `processPendingTimers` of timer.cpp puts a timer.
use native.Mathlib.Nat.{mod-lt, add-mod-mod}
use fiber_lib.Prelude.{
  ℕ, zero, suc, ◌+◌, ◌/◌, ◌%◌, ◌^◌, ◌<◌, ◌≡◌, ◌∙◌, sym, ap, refl, false, List, [], ◌∷◌, ◌++◌, ◌==◌,
  length, get_or, length-set, get_or-set, count, count-append, round_inj, arith,
}
use fiber_lib.Timer.{TimerNode, Wheel, timer_ticks, signed_ticks, at_least_one}
use fiber_lib.Timer.Tick.{push_bucket, with_rotations, slot_after, place, process_pending}
use fiber_lib.Timer.Touch.{Spared, then-Spared}
use fiber_lib.Timer.Others.{Shaped, Shaped-spared, place-Spared}
use fiber_lib.Timer.Due.{Waiting}
use fiber_lib.Timer.Passes.{at_slot}
use fiber_lib.Timer.OnTime.{Waiting_spared, process_pending-Spared, popped_Spared}

-- Timer `i` is in no bucket.
pub record Unplaced (w : Wheel) (i : ℕ) (m : TimerNode) : Type 0 where
  pub shaped : Shaped w
  pub node_is : w.nodes i ≡ m
  pub live : m.canceled ≡ false
  pub known : i < w.next_node
  pub nowhere_yet : (s : ℕ) → count i (get_or w.buckets s []) ≡ 0

Unplaced-Spared :
    {i : ℕ} {w w' : Wheel} {m : TimerNode} → Spared i w w' → Unplaced w i m → Unplaced w' i m
Unplaced-Spared t h = record {
  shaped = Shaped-spared t h.shaped;
  node_is = t.node_is ∙ h.node_is;
  live = h.live;
  known = t.known;
  nowhere_yet = λ s. omega (arith, t.places s, h.nowhere_yet s);
}

abbrev pub node_ticks : Wheel → TimerNode → ℕ
node_ticks w m = at_least_one (signed_ticks m.timeout w.interval)

pub slot_after_lem :
    (w : Wheel) (T : ℕ)
    → Shaped w
    → T < 2 ^ 63
    → slot_after w T ≡ (w.current + T % w.slots) % w.slots
slot_after_lem w T s bound =
    let unwrapped : (w.current + T) % 2 ^ 64 ≡ w.current + T = omega arith in
    rw unwrapped (sym (add-mod-mod w.current T w.slots))

pub same_slot :
    (w : Wheel) (T j : ℕ)
    → Shaped w
    → j < w.slots
    → ((w.current + T % w.slots) % w.slots == (w.current + j) % w.slots) ≡ (j == T % w.slots)
same_slot w T j s p =
    ground (arith, round_inj w.slots w.current j (T % w.slots) s.inside p (mod-lt T s.positive))

put_Waiting :
    (i T : ℕ) {w : Wheel} {m : TimerNode}
    → Unplaced w i m
    → count i w.pending ≡ 0
    → T < 2 ^ 63
    → Waiting
        (push_bucket (slot_after w T) i (with_rotations i (T / w.slots) w))
        i
        m
        (at_slot (T % w.slots))
        (T / w.slots)
unfolding push_bucket
put_Waiting i T {w} {m} h c bound = record {
  shaped = record {
    positive = h.shaped.positive;
    small = h.shaped.small;
    wide = length-set w.buckets (slot_after w T) _ ∙ h.shaped.wide;
    inside = h.shaped.inside;
  };
  node_is = ground (arith, h.node_is);
  live = h.live;
  known = h.known;
  queued = c;
  places = λ j p.
      let slot = (w.current + T % w.slots) % w.slots in
      let inside : slot < length w.buckets =
        rw h.shaped.wide (mod-lt (w.current + T % w.slots) h.shaped.positive) in
      let here = (w.current + j) % w.slots in
      rw
        (
          slot_after_lem w T h.shaped bound,
          get_or-set w.buckets slot here (get_or w.buckets slot [] ++ i ∷ []) [] inside,
        )
        (ground (
          arith,
          same_slot w T j h.shaped p,
          count-append i (get_or w.buckets slot []) (i ∷ []),
          h.nowhere_yet slot,
          h.nowhere_yet here,
        ));
}

place_lem :
    (i : ℕ) (w : Wheel)
    → (w.nodes i).canceled ≡ false
    → place i w
      ≡ push_bucket
          (slot_after w (timer_ticks w i))
          i
          (with_rotations i (timer_ticks w i / w.slots) w)
unfolding place
place_lem i w live = rw live

pub ticks_lem :
    (i : ℕ) (w : Wheel) {m : TimerNode} → w.nodes i ≡ m → timer_ticks w i ≡ node_ticks w m
unfolding timer_ticks
ticks_lem i w e = ap (node_ticks w) e

-- `processPendingTimers` puts a timer of `T` ticks `T % slots` slots ahead, for `T / slots` rounds.
place_self :
    (i : ℕ) {w : Wheel} {m : TimerNode}
    → Unplaced w i m
    → count i w.pending ≡ 0
    → node_ticks w m < 2 ^ 63
    → Waiting (place i w) i m (at_slot (node_ticks w m % w.slots)) (node_ticks w m / w.slots)
place_self i {w} {m} h c bound =
    rw (place_lem i w (ap (λ n. n.canceled) h.node_is ∙ h.live), ticks_lem i w h.node_is)
      (put_Waiting i (node_ticks w m) h c bound)

pending-place : (i : ℕ) (w : Wheel) → (place i w).pending ≡ w.pending
unfolding place
pending-place i w = ground arith

settings-place :
    (i : ℕ) (w : Wheel)
    → ((place i w).slots ≡ w.slots)
      × ((place i w).interval ≡ w.interval)
      × ((place i w).calls ≡ w.calls)
unfolding place
settings-place i w = (ground arith, ground arith, ground arith)

-- A timer with fewer than `n` others before it in the queue is placed in a batch of `n`.
pub process_picks :
    (i n : ℕ) (ps : List ℕ) {w : Wheel} {m : TimerNode}
    → Unplaced w i m
    → w.pending ≡ ps ++ i ∷ []
    → count i ps ≡ 0
    → length ps < n
    → node_ticks w m < 2 ^ 63
    → let w' = process_pending n w in
      Waiting w' i m (at_slot (node_ticks w m % w.slots)) (node_ticks w m / w.slots)
      × (w'.slots ≡ w.slots)
      × (count i w'.calls ≡ count i w.calls)
unfolding process_pending
process_picks i zero ps h e c p bound = absurd (omega arith)
process_picks i (suc n) [] {w} {m} h e c p bound = rw e (
    let popped = record w { pending = [] } in
    let unplaced : Unplaced popped i m = record {
      shaped = omega (arith, h.shaped);
      node_is = h.node_is;
      live = h.live;
      known = h.known;
      nowhere_yet = h.nowhere_yet;
    } in
    let placed = place_self i {w = popped} {m = m} unplaced refl bound in
    let rest =
      process_pending-Spared i n (place i popped) placed.queued placed.shaped placed.known in
    let kept = settings-place i popped in
    (
      Waiting_spared rest placed,
      rest.slots_same ∙ kept.0,
      omega (arith, rest.ran, ap (count i) kept.2),
    ))
process_picks i (suc n) (j ∷ ps) {w} {m} h e c p bound =
    let popped = popped_Spared i j (ps ++ i ∷ []) w e (ground arith) h.known in
    let w1 = record w { pending = ps ++ i ∷ [] } in
    let one =
      then-Spared popped
        (place-Spared i j w1 (ground arith) (Shaped-spared popped h.shaped) h.known) in
    let interval = one.interval_same in
    let slots = one.slots_same in
    let later =
      process_picks i n ps (Unplaced-Spared one h) (pending-place j w1) (ground arith) (omega arith)
        (rw interval bound) in
    rw e ((rw (interval, slots) at later.0), later.1 ∙ slots, omega (arith, later.2, one.ran))
