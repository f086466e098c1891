-- ===== src/SpinLock/Inv.antt =====
-- `SpinLock` of include/sync.h: mutual exclusion.
use fiber_lib.Prelude.{
  ℕ, ◌≡◌, ap, refl, Bool, true, false, List, [], ◌∷◌, if◌then◌else◌, update, arith,
}
use native.Mathlib.Decide.{ℕ_discrete}
use fiber_lib.SpinLock.{
  Phase, away, spinning, yielding, waiting, inside, SpinLock, next_phase, try_lock, move, Turn,
  goes, tries, try_outside, turn, run,
}

abbrev pub is_inside : Phase → Bool
is_inside inside = true
is_inside _ = false

-- The flag is set exactly while one thread has the lock.
pub record IsExclusive (s : SpinLock) : Type 0 where
  pub set : (i : ℕ) → is_inside (s.phase i) ≡ true → s.lock ≡ true
  pub alone : (i j : ℕ) → is_inside (s.phase i) ≡ true → is_inside (s.phase j) ≡ true → i ≡ j
  pub owner : s.lock ≡ true → (i : ℕ) × (is_inside (s.phase i) ≡ true)

if_IsExclusive :
    (b : Bool) (x y : SpinLock)
    → (b ≡ true → IsExclusive x)
    → (b ≡ false → IsExclusive y)
    → IsExclusive (if b then x else y)
if_IsExclusive true x y f g = f refl
if_IsExclusive false x y f g = g refl

module _ (s : SpinLock) (h : IsExclusive s) (i : ℕ) where
  moved :
      (p : Phase)
      → is_inside (s.phase i) ≡ false
      → is_inside p ≡ false
      → IsExclusive (record s { phase = update s.phase i p })
  moved p a b = record {
    set = λ j e. ground (arith, h.set j, b, e);
    alone = λ j k e f. ground (arith, h.alone j k, b, e, f);
    owner = λ l.
        let (o, e) = h.owner l in
        (
          o,
          elim (ℕ_discrete i o) [
            | yes r ↦ absurd (ground (arith, e, a, r))
            | no r ↦ ground (arith, r, e)
          ],
        );
  }

  taken :
      (b : Bool) (next : Phase)
      → s.lock ≡ b
      → is_inside (s.phase i) ≡ false
      → is_inside next ≡ false
      → IsExclusive
          (record s { lock = true; phase = update s.phase i (if b then next else inside) })
  taken true next l a b =
      let m = moved next a b in
      record { set = λ j e. refl; alone = m.alone; owner = λ q. m.owner l }
  taken false next l a b = record {
    set = λ j e. refl;
    alone = λ j k e f. ground (arith, h.set j, h.set k, l, e, f);
    owner = λ q. (i, ground arith);
  }

  try_lock-IsExclusive :
      (next : Phase)
      → is_inside (s.phase i) ≡ false
      → is_inside next ≡ false
      → IsExclusive (try_lock i next s)
  unfolding try_lock
  try_lock-IsExclusive next a b = taken s.lock next refl a b

  move-IsExclusive : (p : Phase) → s.phase i ≡ p → IsExclusive (move i p s)
  unfolding move
  move-IsExclusive away e = moved (spinning 0) (ap is_inside e) refl
  move-IsExclusive (spinning n) e =
      try_lock-IsExclusive (next_phase (spinning n)) (ap is_inside e) (ground arith)
  move-IsExclusive (yielding n) e =
      try_lock-IsExclusive (next_phase (yielding n)) (ap is_inside e) (ground arith)
  move-IsExclusive waiting e = try_lock-IsExclusive waiting (ap is_inside e) refl
  move-IsExclusive inside e = record {
    set = λ j f. ground (arith, h.alone i j, e, f);
    alone = λ j k f g. ground (arith, h.alone j k, f, g);
    owner = λ q. absurd (ground (arith, q));
  }

  try_outside-IsExclusive : (p : Phase) → s.phase i ≡ p → IsExclusive (try_outside i p s)
  unfolding try_outside
  try_outside-IsExclusive away e = try_lock-IsExclusive away (ap is_inside e) refl
  try_outside-IsExclusive (spinning n) e = h
  try_outside-IsExclusive (yielding n) e = h
  try_outside-IsExclusive waiting e = h
  try_outside-IsExclusive inside e = h

-- Whatever the order of the threads' steps, never two threads have the spin lock, and its flag is set
-- exactly while one has it, if only the thread that has it unlocks it.
pub run-IsExclusive : (ts : List Turn) (s : SpinLock) → IsExclusive s → IsExclusive (run ts s)
unfolding run turn
run-IsExclusive [] s h = h
run-IsExclusive (goes i ∷ ts) s h =
    run-IsExclusive ts (move i (s.phase i) s) (move-IsExclusive s h i (s.phase i) refl)
run-IsExclusive (tries i ∷ ts) s h =
    run-IsExclusive ts (try_outside i (s.phase i) s)
      (try_outside-IsExclusive s h i (s.phase i) refl)
