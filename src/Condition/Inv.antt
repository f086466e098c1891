-- ===== src/Condition/Inv.antt =====
-- What holds of a condition and its mutex at every moment.
use fiber_lib.Prelude.{
  ℕ, ◌≡◌, ◌≢◌, ◌∙◌, ◌⊎◌, inl, inr, ap, subst, refl, Bool, true, false, ◌||◌, not, List, [], ◌∷◌,
  if◌then◌else◌, count, arith,
}
use native.Mathlib.Decide.{ℕ_discrete}
use fiber_lib.Mutex.{
  Mutex, Pc, outside, trying, parking, parked, holding, waking, goes, turn, move, try_acquire, park,
  wake, release,
}
use fiber_lib.Mutex.Inv.{Inv, is_parked, turn-Inv}
use fiber_lib.Condition.{
  Spot, calm, leaving, entering, asleep, woken, relocking, Condition, puts, is_outside, is_holding,
}

abbrev pub is_asleep : Spot → Bool
is_asleep (asleep timed) = true
is_asleep _ = false

abbrev pub is_waking : Pc → Bool
is_waking waking = true
is_waking _ = false

-- Where the mutex has a fiber that is in a call of the condition.
abbrev pub fits : Spot → Pc → Bool
fits calm p = true
fits (leaving timed) p = is_holding p || is_waking p
fits (entering timed) p = is_outside p
fits (asleep timed) p = is_outside p
fits (woken timed) p = is_outside p
fits (relocking result) p = not (is_holding p || is_waking p)

-- The fiber is in no timed call, or its call has looked at its timer.
abbrev pub is_past : Spot → Bool
is_past calm = true
is_past (leaving timed) = not timed
is_past (entering timed) = not timed
is_past (asleep timed) = not timed
is_past (woken timed) = not timed
is_past (relocking result) = true

pub record IsSound (c : Condition) : Type 0 where
  pub exclusive : Inv c.mutex
  pub places : (i : ℕ) → fits (c.spot i) (c.mutex.pc i) ≡ true
  pub sleeping : (i : ℕ) → count i c.waiters ≡ (if is_asleep (c.spot i) then 1 else 0)
  pub harmless :
      (i : ℕ)
      → is_past (c.spot i) ≡ true
      → (c.deadline i).armed ≡ true
      → (c.deadline i).notified ≡ true

-- Where a turn takes a fiber.
abbrev pub follows : Pc → Pc → Bool
follows outside q = not (is_outside q || (is_waking q || is_holding q))
follows trying q = not (is_outside q || is_waking q)
follows parking q = not (is_outside q || (is_waking q || is_holding q))
follows parked q = not (is_outside q || (is_waking q || is_holding q))
follows holding q = is_waking q
follows waking q = is_outside q

pub own_turn :
    (whole : Bool) (i : ℕ) (p : Pc) (m : Mutex)
    → m.pc i ≡ p
    → follows p ((move whole i p m).pc i) ≡ true
unfolding move try_acquire park wake release
own_turn whole i outside m e = ground arith
own_turn true i trying m e = ground arith
own_turn false i trying m e = ground arith
own_turn whole i parking m e = ground arith
own_turn whole i parked m e = ground (arith, e)
own_turn whole i holding m e = ground arith
own_turn whole i waking m e = woken_by m.waiters
  where
    woken_by : (q : List ℕ) → follows waking ((wake i q m).pc i) ≡ true
    woken_by [] = ground arith
    woken_by (f ∷ q) = ground arith

is_parked_lem : (p : Pc) → is_parked p ≡ true → p ≡ parked
is_parked_lem parked e = refl
is_parked_lem outside e = absurd (ground (arith, e))
is_parked_lem trying e = absurd (ground (arith, e))
is_parked_lem parking e = absurd (ground (arith, e))
is_parked_lem holding e = absurd (ground (arith, e))
is_parked_lem waking e = absurd (ground (arith, e))

-- A turn of another fiber can only wake one that is parked.
abbrev pub Same : Pc → Pc → Type 0
Same p q = (q ≡ p) ⊎ ((p ≡ parked) × (q ≡ trying))

other_turn :
    (whole : Bool) (i j : ℕ) (p : Pc) (m : Mutex)
    → i ≢ j
    → Inv m
    → Same (m.pc j) ((move whole i p m).pc j)
unfolding move try_acquire park wake release
other_turn whole i j outside m d h = inl (ground (arith, d))
other_turn true i j trying m d h = inl (ground (arith, d))
other_turn false i j trying m d h = inl (ground (arith, d))
other_turn whole i j parking m d h = inl (ground (arith, d))
other_turn whole i j parked m d h = inl refl
other_turn whole i j holding m d h = inl (ground (arith, d))
other_turn whole i j waking m d h = woken_by m.waiters (h.queued j)
  where
    woken_by :
        (q : List ℕ)
        → count j q ≡ (if is_parked (m.pc j) then 1 else 0)
        → Same (m.pc j) ((wake i q m).pc j)
    woken_by [] e = inl (ground (arith, d))
    woken_by (f ∷ q) e = elim (ℕ_discrete f j) [
      | yes r ↦ inr (is_parked_lem (m.pc j) (ground (arith, e, r)), ground (arith, d, r))
      | no r ↦ inl (ground (arith, d, r))
    ]

fits-Same : (s : Spot) (p q : Pc) → Same p q → fits s p ≡ true → fits s q ≡ true
fits-Same s p q (inl e) h = ap (fits s) e ∙ h
fits-Same calm p q (inr (e, f)) h = refl
fits-Same (leaving t) p q (inr (e, f)) h = absurd (ground (arith, h, e))
fits-Same (entering t) p q (inr (e, f)) h = absurd (ground (arith, h, e))
fits-Same (asleep t) p q (inr (e, f)) h = absurd (ground (arith, h, e))
fits-Same (woken t) p q (inr (e, f)) h = absurd (ground (arith, h, e))
fits-Same (relocking r) p q (inr (e, f)) h = ground (arith, f)

-- A turn of fiber `i`, which then stands at a spot where it fits and does not sleep.
pub turned-IsSound :
    (whole : Bool) (i : ℕ) (s : Spot) (c : Condition)
    → IsSound c
    → is_asleep (c.spot i) ≡ false
    → is_asleep s ≡ false
    → fits s ((turn whole (goes i) c.mutex).pc i) ≡ true
    → (is_past s ≡ true → is_past (c.spot i) ≡ true)
    → IsSound (puts i s (record c { mutex = turn whole (goes i) c.mutex }))
unfolding turn
turned-IsSound whole i s c h a b f past = record {
  exclusive = (turn-Inv whole (goes i) [] tt h.exclusive).0;
  places = λ j. elim (ℕ_discrete i j) [
    | yes e ↦ ground (arith, e, f)
    | no d ↦ ground (
      arith,
      d,
      fits-Same (c.spot j) _ _ (other_turn whole i j (c.mutex.pc i) c.mutex d h.exclusive)
          (h.places j),
    )
  ];
  sleeping = λ j. ground (arith, h.sleeping j, a, b);
  harmless = λ j e q. ground (arith, h.harmless j, past, e, q);
}

-- The same, when the fiber stays at its spot.
pub turned_here-IsSound :
    (whole : Bool) (i : ℕ) (c : Condition)
    → IsSound c
    → fits (c.spot i) ((turn whole (goes i) c.mutex).pc i) ≡ true
    → IsSound (record c { mutex = turn whole (goes i) c.mutex })
unfolding turn
turned_here-IsSound whole i c h f = record {
  exclusive = (turn-Inv whole (goes i) [] tt h.exclusive).0;
  places = λ j. elim (ℕ_discrete i j) [
    | yes e ↦ subst (λ k. fits (c.spot k) ((turn whole (goes i) c.mutex).pc k) ≡ true) e f
    | no d ↦
        fits-Same (c.spot j) _ _ (other_turn whole i j (c.mutex.pc i) c.mutex d h.exclusive)
          (h.places j)
  ];
  sleeping = h.sleeping;
  harmless = h.harmless;
}
