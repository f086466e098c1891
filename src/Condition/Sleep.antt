-- ===== src/Condition/Sleep.antt =====
-- `FiberCondition` of sync.cpp: every step keeps what Condition/Inv states.
use fiber_lib.Prelude.{
  ℕ, ◌≡◌, ◌∙◌, sym, ap, subst, refl, Bool, true, false, not, List, [], ◌∷◌, if◌then◌else◌, update,
  count, count-append, arith,
}
use fiber_lib.WaitQueue.{push_back}
use fiber_lib.Mutex.{Mutex, Pc, goes, turn}
use fiber_lib.Condition.{
  Spot, calm, leaving, entering, asleep, woken, relocking, Condition, is_outside, is_holding,
  begin_wait, unlock_on, lock_on, wake_up, advance, notify_one, notify_all, expire, Step, waits,
  advances, notifies_one, notifies_all, expires, step, run,
}
use fiber_lib.Condition.Inv.{
  is_asleep, fits, is_past, IsSound, follows, own_turn, turned-IsSound, turned_here-IsSound,
}

if_IsSound :
    (b : Bool) (x y : Condition)
    → (b ≡ true → IsSound x)
    → (b ≡ false → IsSound y)
    → IsSound (if b then x else y)
if_IsSound true x y f g = f refl
if_IsSound false x y f g = g refl

own_follows :
    (whole : Bool) (i : ℕ) (m : Mutex) → follows (m.pc i) ((turn whole (goes i) m).pc i) ≡ true
unfolding turn
own_follows whole i m = own_turn whole i (m.pc i) m refl

leaving_fits :
    (timed : Bool) (p q : Pc)
    → fits (leaving timed) p ≡ true
    → follows p q ≡ true
    → is_outside q ≡ false
    → fits (leaving timed) q ≡ true
leaving_fits timed p q f g o = ground (arith, f, g, o)

relocking_fits :
    (r : Bool) (p q : Pc)
    → fits (relocking r) p ≡ true
    → follows p q ≡ true
    → is_holding q ≡ false
    → fits (relocking r) q ≡ true
relocking_fits r p q f g o = ground (arith, f, g, o)

module _ (c : Condition) (h : IsSound c) where
  begin_wait-IsSound :
      (i : ℕ) (timed : Bool) (s : Spot) → c.spot i ≡ s → IsSound (begin_wait i timed s c)
  unfolding begin_wait
  begin_wait-IsSound i timed calm e =
      if_IsSound (is_holding (c.mutex.pc i)) _ _
        (λ q. record {
          exclusive = h.exclusive;
          places = λ j. ground (arith, h.places j, q);
          sleeping = λ j. ground (arith, h.sleeping j, e);
          harmless = λ j p a. ground (arith, h.harmless j, p, a);
        })
        (λ q. h)
  begin_wait-IsSound i timed (leaving t) e = h
  begin_wait-IsSound i timed (entering t) e = h
  begin_wait-IsSound i timed (asleep t) e = h
  begin_wait-IsSound i timed (woken t) e = h
  begin_wait-IsSound i timed (relocking r) e = h

  unlock_on-IsSound :
      (whole : Bool) (i : ℕ) (timed : Bool)
      → c.spot i ≡ leaving timed
      → IsSound (unlock_on i timed (turn whole (goes i) c.mutex) c)
  unfolding unlock_on
  unlock_on-IsSound whole i timed e =
      if_IsSound (is_outside ((turn whole (goes i) c.mutex).pc i)) _ _
        (λ q.
          turned-IsSound whole i (entering timed) c h (ap is_asleep e) refl q
            (λ p. ap is_past e ∙ p))
        (λ q. turned_here-IsSound whole i c h (
          subst (λ s. fits s ((turn whole (goes i) c.mutex).pc i) ≡ true) (sym e)
            (leaving_fits timed (c.mutex.pc i) _
              (subst (λ s. fits s (c.mutex.pc i) ≡ true) e (h.places i))
              (own_follows whole i c.mutex) q)))

  lock_on-IsSound :
      (whole : Bool) (i : ℕ) (r : Bool)
      → c.spot i ≡ relocking r
      → IsSound (lock_on i r (turn whole (goes i) c.mutex) c)
  unfolding lock_on
  lock_on-IsSound whole i r e =
      if_IsSound (is_holding ((turn whole (goes i) c.mutex).pc i)) _ _
        (λ q.
          let t = turned-IsSound whole i calm c h (ap is_asleep e) refl refl (λ p. ap is_past e) in
          record {
            exclusive = t.exclusive;
            places = t.places;
            sleeping = t.sleeping;
            harmless = t.harmless;
          })
        (λ q. turned_here-IsSound whole i c h (
          subst (λ s. fits s ((turn whole (goes i) c.mutex).pc i) ≡ true) (sym e)
            (relocking_fits r (c.mutex.pc i) _
              (subst (λ s. fits s (c.mutex.pc i) ≡ true) e (h.places i))
              (own_follows whole i c.mutex) q)))

  wake_up-IsSound : (i : ℕ) (timed : Bool) → c.spot i ≡ woken timed → IsSound (wake_up i timed c)
  unfolding wake_up
  wake_up-IsSound i false e = record {
    exclusive = h.exclusive;
    places = λ j. ground (arith, h.places j, e);
    sleeping = λ j. ground (arith, h.sleeping j, e);
    harmless = λ j p a. ground (arith, h.harmless j, p, a, e);
  }
  wake_up-IsSound i true e = record {
    exclusive = h.exclusive;
    places = λ j. ground (arith, h.places j, e);
    sleeping = λ j. ground (arith, h.sleeping j, e);
    harmless = λ j p a. ground (arith, h.harmless j, p, a, e);
  }

  advance-IsSound : (whole : Bool) (i : ℕ) (s : Spot) → c.spot i ≡ s → IsSound (advance whole i s c)
  unfolding advance push_back
  advance-IsSound whole i calm e =
      turned_here-IsSound whole i c h (ap (λ s. fits s ((turn whole (goes i) c.mutex).pc i)) e)
  advance-IsSound whole i (leaving timed) e = unlock_on-IsSound whole i timed e
  advance-IsSound whole i (entering timed) e = record {
    exclusive = h.exclusive;
    places = λ j. ground (arith, h.places j, e);
    sleeping = λ j. ground (arith, h.sleeping j, e, count-append j c.waiters (i ∷ []));
    harmless = λ j p a. ground (arith, h.harmless j, p, a, e);
  }
  advance-IsSound whole i (asleep timed) e = h
  advance-IsSound whole i (woken timed) e = wake_up-IsSound i timed e
  advance-IsSound whole i (relocking r) e = lock_on-IsSound whole i r e

roused-asleep : (s : Spot) → is_asleep s ≡ true → (timed : Bool) × (s ≡ asleep timed)
roused-asleep (asleep timed) e = (timed, refl)
roused-asleep calm e = absurd (ground (arith, e))
roused-asleep (leaving t) e = absurd (ground (arith, e))
roused-asleep (entering t) e = absurd (ground (arith, e))
roused-asleep (woken t) e = absurd (ground (arith, e))
roused-asleep (relocking r) e = absurd (ground (arith, e))

notify_one-IsSound :
    (q : List ℕ) (c : Condition) → IsSound c → c.waiters ≡ q → IsSound (notify_one q c)
unfolding notify_one
notify_one-IsSound [] c h e = h
notify_one-IsSound (f ∷ q) c h e =
    let (timed, s) = roused-asleep (c.spot f) (ground (arith, h.sleeping f, ap (count f) e)) in
    record {
      exclusive = h.exclusive;
      places = λ j. ground (arith, h.places j, s);
      sleeping = λ j. ground (arith, h.sleeping j, ap (count j) e, s);
      harmless = λ j p a. ground (arith, h.harmless j, p, a, s);
    }

notify_all-IsSound :
    (q : List ℕ) (c : Condition) → IsSound c → c.waiters ≡ q → IsSound (notify_all q c)
unfolding notify_all notify_one
notify_all-IsSound [] c h e = h
notify_all-IsSound (f ∷ q) c h e =
    notify_all-IsSound q (notify_one (f ∷ q) c) (notify_one-IsSound (f ∷ q) c h e) refl

expire-IsSound : (i : ℕ) (c : Condition) → IsSound c → IsSound (expire i c)
unfolding expire
expire-IsSound i c h =
    let expired : Condition = record c {
      deadline = update c.deadline i (record { armed = false; timed_out = true; notified = true });
    } in
    let h' : IsSound expired = record {
      exclusive = h.exclusive;
      places = h.places;
      sleeping = h.sleeping;
      harmless = λ j p a. ground (arith, h.harmless j, p, a);
    } in
    if_IsSound (not (c.deadline i).armed) _ _ (λ q. h)
      λ q.
        if_IsSound (c.deadline i).notified _ _ (λ r. h')
          (λ r. notify_one-IsSound c.waiters expired h' refl)

step-IsSound : (whole : Bool) (e : Step) (c : Condition) → IsSound c → IsSound (step whole e c)
unfolding step
step-IsSound whole (waits i timed) c h = begin_wait-IsSound c h i timed (c.spot i) refl
step-IsSound whole (advances i) c h = advance-IsSound c h whole i (c.spot i) refl
step-IsSound whole notifies_one c h = notify_one-IsSound c.waiters c h refl
step-IsSound whole notifies_all c h = notify_all-IsSound c.waiters c h refl
step-IsSound whole (expires i) c h = expire-IsSound i c h

-- Under every interleaving of waits, timed waits, notifications, expiring timers and other uses of the
-- mutex, from a sound state on: never two fibers hold the mutex; a fiber between the unlock and the
-- lock of its call does not hold it; the queue has each sleeping fiber once and no other; and when a
-- call with a timeout is over, its timer is canceled or wakes nobody.
pub run-IsSound :
    (whole : Bool) (es : List Step) (c : Condition) → IsSound c → IsSound (run whole es c)
unfolding run
run-IsSound whole [] c h = h
run-IsSound whole (e ∷ es) c h = run-IsSound whole es (step whole e c) (step-IsSound whole e c h)
