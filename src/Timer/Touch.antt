-- ===== src/Timer/Touch.antt =====
-- What a part of a tick does to one timer, `i`: the node that it leaves, how often it ran the
-- timer's callback, and how many more times the timer stands in each bucket.
use fiber_lib.Prelude.{
  ℕ, ◌+◌, ◌<◌, ◌≡◌, ◌≢◌, ◌∙◌, sym, subst, refl, Bool, List, [], ◌∷◌, ◌++◌, length, get_or,
  length-set, get_or-set, count, count-append, arith,
}
use fiber_lib.Timer.{TimerNode, Wheel, Effect, adds, cancels, apply, apply_all}
use fiber_lib.Timer.Tick.{push_bucket, with_rotations}

pub record Touched (i : ℕ) (w w' : Wheel) (node : TimerNode) (fired : ℕ) (more : ℕ → ℕ)
    : Type 0 where
  pub node_is : w'.nodes i ≡ node
  pub slots_same : w'.slots ≡ w.slots
  pub current_same : w'.current ≡ w.current
  pub interval_same : w'.interval ≡ w.interval
  pub width : length w'.buckets ≡ length w.buckets
  pub places : (s : ℕ) → count i (get_or w'.buckets s []) ≡ more s + count i (get_or w.buckets s [])
  pub queued : count i w'.pending ≡ count i w.pending
  pub ran : count i w'.calls ≡ fired + count i w.calls
  pub known : i < w'.next_node
  pub running_same : w'.running ≡ w.running

abbrev pub nowhere : ℕ → ℕ
nowhere _ = 0

-- The part has no effect on timer `i`.
abbrev pub Spared : ℕ → Wheel → Wheel → Type 0
Spared i w w' = Touched i w w' (w.nodes i) 0 nowhere

pub Spared-refl : (i : ℕ) (w : Wheel) → i < w.next_node → Spared i w w
Spared-refl i w h = record {
  node_is = refl;
  slots_same = refl;
  current_same = refl;
  interval_same = refl;
  width = refl;
  places = λ s. omega arith;
  queued = refl;
  ran = omega arith;
  known = h;
  running_same = refl;
}

module _ {i : ℕ} {u v w : Wheel} {n : TimerNode} {k : ℕ} {f : ℕ → ℕ} where
  pub then-Spared : Touched i u v n k f → Spared i v w → Touched i u w n k f
  then-Spared a b = record {
    node_is = b.node_is ∙ a.node_is;
    slots_same = b.slots_same ∙ a.slots_same;
    current_same = b.current_same ∙ a.current_same;
    interval_same = b.interval_same ∙ a.interval_same;
    width = b.width ∙ a.width;
    places = λ s. omega (arith, a.places s, b.places s);
    queued = b.queued ∙ a.queued;
    ran = omega (arith, a.ran, b.ran);
    known = b.known;
    running_same = b.running_same ∙ a.running_same;
  }

  pub Spared-then : Spared i u v → Touched i v w n k f → Touched i u w n k f
  Spared-then a b = record {
    node_is = b.node_is;
    slots_same = b.slots_same ∙ a.slots_same;
    current_same = b.current_same ∙ a.current_same;
    interval_same = b.interval_same ∙ a.interval_same;
    width = b.width ∙ a.width;
    places = λ s. omega (arith, a.places s, b.places s);
    queued = b.queued ∙ a.queued;
    ran = omega (arith, a.ran, b.ran);
    known = b.known;
    running_same = b.running_same ∙ a.running_same;
  }

module _ {i : ℕ} {w : Wheel} {n : TimerNode} {k : ℕ} {f : ℕ → ℕ} where
  pub renode : {w' : Wheel} {m : TimerNode} → n ≡ m → Touched i w w' n k f → Touched i w w' m k f
  renode {w'} e t = subst (λ x. Touched i w w' x k f) e t

  pub revisit :
      {p q : Bool × Wheel} {stays : Bool}
      → p ≡ q
      → q.0 ≡ stays
      → Touched i w q.1 n k f
      → (p.0 ≡ stays) × Touched i w p.1 n k f
  revisit {stays} e s t = subst (λ x. (x.0 ≡ stays) × Touched i w x.1 n k f) (sym e) (s, t)

-- No callback cancels timer `i`.
abbrev pub Spares : ℕ → List Effect → Type 0
Spares i [] = Unit
Spares i (adds _ _ _ ∷ es) = Spares i es
Spares i (cancels j ∷ es) = (j ≢ i) × Spares i es

module _ (effects : ℕ → List Effect) (i : ℕ) where
  apply-Spared :
      (e : Effect) (w : Wheel)
      → Spares i (e ∷ [])
      → i < w.next_node
      → Spared i w (apply effects e w)
  unfolding apply
  apply-Spared (adds ms cb rep) w h k = record {
    node_is = ground arith;
    slots_same = ground arith;
    current_same = ground arith;
    interval_same = ground arith;
    width = ground arith;
    places = λ s. ground arith;
    queued = ground (arith, count-append i w.pending (w.next_node ∷ []));
    ran = ground arith;
    known = ground arith;
    running_same = ground arith;
  }
  apply-Spared (cancels j) w h k = record {
    node_is = ground arith;
    slots_same = refl;
    current_same = refl;
    interval_same = refl;
    width = refl;
    places = λ s. omega arith;
    queued = refl;
    ran = omega arith;
    known = k;
    running_same = refl;
  }

  pub apply_all-Spared :
      (es : List Effect) (w : Wheel)
      → Spares i es
      → i < w.next_node
      → Spared i w (apply_all effects es w)
  unfolding apply_all
  apply_all-Spared [] w h k = Spared-refl i w k
  apply_all-Spared (adds ms cb rep ∷ es) w h k =
      let one = apply-Spared (adds ms cb rep) w tt k in
      then-Spared one (apply_all-Spared es (apply effects (adds ms cb rep) w) h one.known)
  apply_all-Spared (cancels j ∷ es) w h k =
      let one = apply-Spared (cancels j) w (h.0, tt) k in
      then-Spared one (apply_all-Spared es (apply effects (cancels j) w) h.1 one.known)

-- A push of another timer.
pub push_bucket-Spared :
    (i j slot : ℕ) (w : Wheel)
    → j ≢ i
    → slot < length w.buckets
    → i < w.next_node
    → Spared i w (push_bucket slot j w)
unfolding push_bucket
push_bucket-Spared i j slot w ne inside k = record {
  node_is = refl;
  slots_same = refl;
  current_same = refl;
  interval_same = refl;
  width = length-set w.buckets slot (get_or w.buckets slot [] ++ j ∷ []);
  places = λ s. ground (
    arith,
    get_or-set w.buckets slot s (get_or w.buckets slot [] ++ j ∷ []) [] inside,
    count-append i (get_or w.buckets slot []) (j ∷ []),
  );
  queued = refl;
  ran = omega arith;
  known = k;
  running_same = refl;
}

-- A change of another timer's node.
pub with_rotations-Spared :
    (i j r : ℕ) (w : Wheel) → j ≢ i → i < w.next_node → Spared i w (with_rotations j r w)
with_rotations-Spared i j r w ne k = record {
  node_is = ground arith;
  slots_same = refl;
  current_same = refl;
  interval_same = refl;
  width = refl;
  places = λ s. omega arith;
  queued = refl;
  ran = omega arith;
  known = k;
  running_same = refl;
}

-- A run of another timer's callback.
pub called_Spared :
    (i j : ℕ) (w : Wheel) → j ≢ i → i < w.next_node → Spared i w (record w { calls = j ∷ w.calls })
called_Spared i j w ne k = record {
  node_is = refl;
  slots_same = refl;
  current_same = refl;
  interval_same = refl;
  width = refl;
  places = λ s. omega arith;
  queued = refl;
  ran = ground arith;
  known = k;
  running_same = refl;
}
