-- ===== src/Mutex/Inv.antt =====
-- Mutual exclusion, for every interleaving of fibers that unlock only what they hold.
use fiber_lib.Prelude.{
  ℕ, ◌≡◌, ◌≢◌, ◌∙◌, ap, refl, Bool, true, false, List, [], ◌∷◌, if◌then◌else◌, update, count,
  count-append, Bool-cases, inl, inr, arith,
}
use native.Mathlib.Decide.{ℕ_discrete}
use fiber_lib.WaitQueue.{push_back}
use fiber_lib.Mutex.{
  Pc, outside, trying, parking, parked, holding, waking, Mutex, Turn, goes, tries, unlocks,
  new_mutex, stands, try_acquire, park, wake, release, move, try_lock, turn, run,
}

abbrev pub is_parked : Pc → Bool
is_parked parked = true
is_parked _ = false

-- The flag is set exactly while one fiber holds the mutex, and the parked fibers stand in the queue,
-- each once.
pub record Inv (m : Mutex) : Type 0 where
  pub held : (i : ℕ) → m.pc i ≡ holding → m.locked ≡ true
  pub alone : (i j : ℕ) → m.pc i ≡ holding → m.pc j ≡ holding → i ≡ j
  pub owner : m.locked ≡ true → (i : ℕ) × (m.pc i ≡ holding)
  pub queued : (i : ℕ) → count i m.waiters ≡ (if is_parked (m.pc i) then 1 else 0)

-- A turn that only moves fiber `i`, which neither held the mutex nor was parked, and does not now.
module _ {m : Mutex} (h : Inv m) (i : ℕ) where
  stands-Inv :
      (p : Pc)
      → m.pc i ≢ holding
      → is_parked (m.pc i) ≡ false
      → p ≢ holding
      → is_parked p ≡ false
      → Inv (stands i p m)
  stands-Inv p a b c d = record {
    held = λ j e. ground (arith, h.held j);
    alone = λ j k e f. ground (arith, h.alone j k);
    owner = λ e.
        let (o, q) = h.owner e in
        (
          o,
          elim (ℕ_discrete i o) [ yes r ↦ absurd (a (ap m.pc r ∙ q)) | no r ↦ ground (arith, q) ],
        );
    queued = λ j. ground (arith, h.queued j);
  }

  acquired-Inv :
      m.locked ≡ false
      → is_parked (m.pc i) ≡ false
      → Inv (record m { locked = true; pc = update m.pc i holding })
  acquired-Inv free b = record {
    held = λ j e. refl;
    alone = λ j k e f. ground (arith, h.held j, h.held k);
    owner = λ e. (i, ground arith);
    queued = λ j. ground (arith, h.queued j);
  }

  park-Inv : m.pc i ≢ holding → is_parked (m.pc i) ≡ false → Inv (park i m)
  unfolding park push_back
  park-Inv a b = record {
    held = λ j e. ground (arith, h.held j);
    alone = λ j k e f. ground (arith, h.alone j k);
    owner = λ e.
        let (o, q) = h.owner e in
        (
          o,
          elim (ℕ_discrete i o) [ yes r ↦ absurd (a (ap m.pc r ∙ q)) | no r ↦ ground (arith, q) ],
        );
    queued = λ j. ground (arith, h.queued j, count-append j m.waiters (i ∷ []));
  }

  release-Inv : m.pc i ≡ holding → Inv (release i m)
  unfolding release
  release-Inv a = record {
    held = λ j e. ground (arith, h.alone i j a);
    alone = λ j k e f. ground (arith, h.alone j k);
    owner = λ e. absurd (ground (arith, e));
    queued = λ j. ground (arith, h.queued j);
  }

  -- Fiber `f` leaves the queue.
  unqueued-Inv :
      (f : ℕ) (q : List ℕ) → m.waiters ≡ f ∷ q → Inv (stands f trying (record m { waiters = q }))
  unqueued-Inv f q e = record {
    held = λ j e. ground (arith, h.held j);
    alone = λ j k e f. ground (arith, h.alone j k);
    owner = λ l.
        let (o, p) = h.owner l in
        (
          o,
          elim (ℕ_discrete f o) [
            | yes r ↦ absurd (ground (arith, h.queued f, ap (count f) e, ap m.pc r ∙ p))
            | no r ↦ ground (arith, p)
          ],
        );
    queued = λ j. ground (arith, h.queued j, ap (count j) e);
  }

module _ {m : Mutex} (h : Inv m) (i : ℕ) where
  wake-Inv : (q : List ℕ) → m.pc i ≡ waking → m.waiters ≡ q → Inv (wake i q m)
  unfolding wake
  wake-Inv [] a e =
      stands-Inv h i outside (λ q. ground (arith, a, q)) (rw a refl) (λ q. ground (arith, q)) refl
  wake-Inv (f ∷ q) a e =
      stands-Inv (unqueued-Inv h i f q e) i outside (λ r. ground (arith, a, r)) (ground (arith, a))
        (λ r. ground (arith, r)) refl

  try_acquire-Inv :
      (failed : Mutex)
      → is_parked (m.pc i) ≡ false
      → (m.locked ≡ true → Inv failed)
      → Inv (try_acquire i failed m)
  unfolding try_acquire
  try_acquire-Inv failed b k = elim (Bool-cases m.locked) [
    | inl l ↦ rw l (k l)
    | inr l ↦ rw l (acquired-Inv h i l b)
  ]

  move-Inv : (whole : Bool) (p : Pc) → m.pc i ≡ p → Inv (move whole i p m)
  unfolding move
  move-Inv whole outside e =
      stands-Inv h i trying (λ q. ground (arith, e, q)) (rw e refl) (λ q. ground (arith, q)) refl
  move-Inv true trying e =
      try_acquire-Inv (park i m) (rw e refl)
        (λ l. park-Inv h i (λ q. ground (arith, e, q)) (rw e refl))
  move-Inv false trying e = try_acquire-Inv (stands i parking m) (rw e refl) (λ l.
      stands-Inv h i parking (λ q. ground (arith, e, q)) (rw e refl) (λ q. ground (arith, q)) refl)
  move-Inv whole parking e = park-Inv h i (λ q. ground (arith, e, q)) (rw e refl)
  move-Inv whole parked e = h
  move-Inv whole holding e = release-Inv h i e
  move-Inv whole waking e = wake-Inv m.waiters e refl

  try_lock-Inv : (p : Pc) → m.pc i ≡ p → Inv (try_lock i p m)
  unfolding try_lock
  try_lock-Inv outside e = try_acquire-Inv m (rw e refl) (λ l. h)
  try_lock-Inv trying e = h
  try_lock-Inv parking e = h
  try_lock-Inv parked e = h
  try_lock-Inv holding e = h
  try_lock-Inv waking e = h

-- No fiber unlocks what it does not hold.
abbrev pub IsProper : List Turn → Type 0
IsProper [] = Unit
IsProper (unlocks i ∷ ts) = ⊥
IsProper (_ ∷ ts) = IsProper ts

module _ (whole : Bool) where
  pub turn-Inv :
      (t : Turn) (ts : List Turn) {m : Mutex}
      → IsProper (t ∷ ts)
      → Inv m
      → Inv (turn whole t m) × IsProper ts
  unfolding turn
  turn-Inv (goes i) ts {m} ok h = (move-Inv h i whole (m.pc i) refl, ok)
  turn-Inv (tries i) ts {m} ok h = (try_lock-Inv h i (m.pc i) refl, ok)
  turn-Inv (unlocks i) ts ok h = elim ok [ ]

  run_from-Inv : (ts : List Turn) {m : Mutex} → IsProper ts → Inv m → Inv (run whole ts m)
  unfolding run
  run_from-Inv [] ok h = h
  run_from-Inv (t ∷ ts) ok h = let p = turn-Inv t ts ok h in run_from-Inv ts p.1 p.0

pub new_mutex-Inv : Inv new_mutex
new_mutex-Inv = record {
  held = λ i e. ground (arith, e);
  alone = λ i j e f. ground (arith, e);
  owner = λ e. ground (arith, e);
  queued = λ i. refl;
}

-- In every interleaving of fibers that unlock only what they hold, started on a new mutex, the flag
-- is set exactly while one fiber holds the mutex, never two fibers hold it, and the wait queue has
-- each parked fiber once and no other.
pub run-Inv : (whole : Bool) (ts : List Turn) → IsProper ts → Inv (run whole ts new_mutex)
run-Inv whole ts ok = run_from-Inv whole ts ok new_mutex-Inv
