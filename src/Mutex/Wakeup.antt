-- ===== src/Mutex/Wakeup.antt =====
-- Whether a parked fiber can be forgotten.
use fiber_lib.Prelude.{
  ℕ, ◌≡◌, ◌≢◌, ◌⊎◌, sym, ap, refl, Bool, true, false, List, [], ◌∷◌, update, count, subst, if_true,
  if_false, Bool-cases, inl, inr, arith,
}
use native.Mathlib.Decide.{ℕ_discrete}
use fiber_lib.WaitQueue.{push_back}
use fiber_lib.Mutex.{
  Pc, outside, trying, parking, parked, holding, waking, Mutex, Turn, goes, tries, unlocks,
  new_mutex, stands, try_acquire, park, wake, release, move, try_lock, turn, run,
}
use fiber_lib.Mutex.Inv.{Inv, IsProper, turn-Inv, new_mutex-Inv}

abbrev pub is_active : Pc → Bool
is_active trying = true
is_active waking = true
is_active _ = false

-- A fiber is about to try the flag, or about to wake a parked one.
abbrev pub Active : Mutex → Type 0
Active m = (i : ℕ) × (is_active (m.pc i) ≡ true)

-- If fibers are parked, one holds the mutex or is active.
abbrev pub Served : Mutex → Type 0
Served m = (m.waiters ≡ []) ⊎ (m.locked ≡ true) ⊎ Active m

-- No fiber is between its failure and its place in the queue.
record Whole (m : Mutex) : Type 0 where
  served : Served m
  together : (i : ℕ) → m.pc i ≢ parking

wake-Whole :
    (i : ℕ) (q : List ℕ) {m : Mutex}
    → Inv m
    → m.waiters ≡ q
    → m.pc i ≡ waking
    → Whole m
    → Whole (wake i q m)
unfolding wake
wake-Whole i [] v w e h = record { served = inl w; together = λ j. ground (arith, h.together j) }
wake-Whole i (f ∷ q) {m} v w e h = record {
  served = inr (
      inr (
        f,
        elim (ℕ_discrete i f) [
          | yes r ↦ absurd (ground (arith, v.queued f, ap (count f) w, ap m.pc r))
          | no r ↦ ground arith
        ],
      ));
  together = λ j. ground (arith, h.together j);
}

-- While the consumer runs whole calls, parked fibers are served.
move-Whole : (i : ℕ) (p : Pc) {m : Mutex} → m.pc i ≡ p → Inv m → Whole m → Whole (move true i p m)
unfolding move try_acquire park wake release push_back
move-Whole i outside e v h = record {
  served = inr (inr (i, ground arith));
  together = λ j. ground (arith, h.together j);
}
move-Whole i trying {m} e v h = elim (Bool-cases m.locked) [
  | inl l ↦ rw l (record { served = inr (inl refl); together = λ j. ground (arith, h.together j) })
  | inr l ↦ rw l (record { served = inr (inl refl); together = λ j. ground (arith, h.together j) })
]
move-Whole i parking e v h = absurd (h.together i e)
move-Whole i parked e v h = h
move-Whole i holding e v h = record {
  served = inr (inr (i, ground arith));
  together = λ j. ground (arith, h.together j);
}
move-Whole i waking {m} e v h = wake-Whole i m.waiters v refl e h

taken-Whole :
    (i : ℕ) {m : Mutex} → Whole m → Whole (record m { locked = true; pc = update m.pc i holding })
taken-Whole i h = record { served = inr (inl refl); together = λ j. ground (arith, h.together j) }

try_acquire-Whole :
    (i : ℕ) (b : Bool) {m : Mutex} → m.locked ≡ b → Whole m → Whole (try_acquire i m m)
unfolding try_acquire
try_acquire-Whole i true l h = subst Whole (sym (if_true _ _ l)) h
try_acquire-Whole i false l h = subst Whole (sym (if_false _ _ l)) (taken-Whole i h)

try_lock-Whole : (i : ℕ) (p : Pc) {m : Mutex} → Whole m → Whole (try_lock i p m)
unfolding try_lock
try_lock-Whole i outside {m} h = try_acquire-Whole i m.locked refl h
try_lock-Whole i trying h = h
try_lock-Whole i parking h = h
try_lock-Whole i parked h = h
try_lock-Whole i holding h = h
try_lock-Whole i waking h = h

run-Whole : (ts : List Turn) {m : Mutex} → IsProper ts → Inv m → Whole m → Whole (run true ts m)
unfolding run turn
run-Whole [] ok v h = h
run-Whole (goes i ∷ ts) {m} ok v h =
    run-Whole ts ok (turn-Inv true (goes i) ts ok v).0 (move-Whole i (m.pc i) refl v h)
run-Whole (tries i ∷ ts) {m} ok v h =
    run-Whole ts ok (turn-Inv true (tries i) ts ok v).0 (try_lock-Whole i (m.pc i) h)
run-Whole (unlocks i ∷ ts) ok v h = elim ok [ ]

-- When the fibers of a mutex share a consumer and unlock only what they hold, then whenever fibers
-- are parked, one fiber holds the mutex, or is about to try it, or is about to wake a parked one.
pub run-Served : (ts : List Turn) → IsProper ts → Served (run true ts new_mutex)
run-Served ts ok =
    (run-Whole ts ok new_mutex-Inv
      (record { served = inl refl; together = λ i. ground arith })).served

abbrev pub crossing : ℕ → ℕ → List Turn
crossing i j = goes j ∷ goes j ∷ goes i ∷ goes i ∷ goes j ∷ goes j ∷ goes i ∷ []

goes_lem : (i : ℕ) (p : Pc) (m : Mutex) → m.pc i ≡ p → turn false (goes i) m ≡ move false i p m
unfolding turn
goes_lem i p m e = ap (λ q. move false i q m) e

-- On several consumers a wake-up can be lost: a fiber `j` holds the mutex, `i` fails to take it,
-- `j` unlocks and finds nobody in the queue, and `i` parks. Then `i` is parked, the mutex is free,
-- and no other fiber is active.
pub run-crossing :
    (i j : ℕ)
    → i ≢ j
    → let m = run false (crossing i j) new_mutex in
      (m.locked ≡ false)
      × (m.waiters ≡ i ∷ [])
      × (m.pc i ≡ parked)
      × ((k : ℕ) → k ≢ i → m.pc k ≡ outside)
unfolding run move try_acquire park wake release push_back
run-crossing i j n =
    let s1 = stands j trying new_mutex in
    let s2 : Mutex = record { locked = true; waiters = []; pc = update s1.pc j holding } in
    let s3 = stands i trying s2 in
    let s4 = stands i parking s3 in
    let s5 = release j s4 in
    let s6 = stands j outside s5 in
    let e1 : turn false (goes j) new_mutex ≡ s1 = goes_lem j outside new_mutex refl in
    let e2 : turn false (goes j) s1 ≡ s2 = goes_lem j trying s1 (ground arith) in
    let e3 : turn false (goes i) s2 ≡ s3 = goes_lem i outside s2 (ground arith) in
    let e4 : turn false (goes i) s3 ≡ s4 = goes_lem i trying s3 (ground arith) in
    let e5 : turn false (goes j) s4 ≡ s5 = goes_lem j holding s4 (ground arith) in
    let e6 : turn false (goes j) s5 ≡ s6 = goes_lem j waking s5 (ground arith) in
    let e7 : turn false (goes i) s6 ≡ park i s6 = goes_lem i parking s6 (ground arith) in
    rw (e1, e2, e3, e4, e5, e6, e7) (refl, refl, ground arith, λ k d. ground arith)
