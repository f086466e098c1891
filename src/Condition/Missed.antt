-- ===== src/Condition/Missed.antt =====
-- `FiberCondition::wait` of sync.cpp: what happens between the unlock and the wait queue.
use fiber_lib.Prelude.{
  ℕ, ◌≡◌, ◌≢◌, ◌∙◌, sym, ap, subst, refl, Bool, true, false, List, [], ◌∷◌, arith,
}
use native.Mathlib.Decide.{ℕ_discrete}
use fiber_lib.Condition.{
  Spot, calm, leaving, entering, asleep, woken, relocking, Condition, begin_wait, unlock_on,
  lock_on, wake_up, advance, notify_one, Step, waits, advances, notifies_one, notifies_all, expires,
  step, run,
}

-- Waits and other accesses of the fibers, without a notification and without a timer that expires.
abbrev pub IsQuiet : List Step → Type 0
IsQuiet [] = Unit
IsQuiet (waits j timed ∷ es) = IsQuiet es
IsQuiet (advances j ∷ es) = IsQuiet es
IsQuiet (notifies_one ∷ es) = ⊥
IsQuiet (notifies_all ∷ es) = ⊥
IsQuiet (expires j ∷ es) = ⊥

module _ (whole : Bool) (i : ℕ) where
  begin_other :
      (j : ℕ) (timed : Bool) (s : Spot) (c : Condition)
      → j ≢ i
      → (begin_wait j timed s c).spot i ≡ c.spot i
  unfolding begin_wait
  begin_other j timed calm c d = ground (arith, d)
  begin_other j timed (leaving t) c d = refl
  begin_other j timed (entering t) c d = refl
  begin_other j timed (asleep t) c d = refl
  begin_other j timed (woken t) c d = refl
  begin_other j timed (relocking r) c d = refl

  advance_other :
      (j : ℕ) (s : Spot) (c : Condition) → j ≢ i → (advance whole j s c).spot i ≡ c.spot i
  unfolding advance unlock_on lock_on wake_up
  advance_other j calm c d = refl
  advance_other j (leaving t) c d = ground (arith, d)
  advance_other j (entering t) c d = ground (arith, d)
  advance_other j (asleep t) c d = refl
  advance_other j (woken true) c d = ground (arith, d)
  advance_other j (woken false) c d = ground (arith, d)
  advance_other j (relocking r) c d = ground (arith, d)

  sleeps_on :
      (timed : Bool) (es : List Step) (c : Condition)
      → IsQuiet es
      → c.spot i ≡ asleep timed
      → (run whole es c).spot i ≡ asleep timed
  unfolding run step begin_wait advance
  sleeps_on timed [] c q h = h
  sleeps_on timed (waits j t ∷ es) c q h =
      sleeps_on timed es (begin_wait j t (c.spot j) c) q
        (elim (ℕ_discrete j i) [ yes e ↦ rw (e, h) h | no d ↦ begin_other j t (c.spot j) c d ∙ h ])
  sleeps_on timed (advances j ∷ es) c q h =
      sleeps_on timed es (advance whole j (c.spot j) c) q
        (elim (ℕ_discrete j i) [ yes e ↦ rw (e, h) h | no d ↦ advance_other j (c.spot j) c d ∙ h ])
  sleeps_on timed (notifies_one ∷ es) c q h = absurd q
  sleeps_on timed (notifies_all ∷ es) c q h = absurd q
  sleeps_on timed (expires j ∷ es) c q h = absurd q

  -- A notification that comes when a fiber in `wait` has unlocked the mutex and is not yet in the
  -- queue, which has nobody, is lost: the fiber then sleeps, whatever the fibers do, until another
  -- notification or a timer.
  pub missed :
      (timed : Bool) (es : List Step) (c : Condition)
      → c.spot i ≡ entering timed
      → c.waiters ≡ []
      → IsQuiet es
      → (run whole (notifies_one ∷ advances i ∷ es) c).spot i ≡ asleep timed
  unfolding run step notify_one advance
  missed timed es c e n q =
      subst (λ x. (run whole es (advance whole i (x.spot i) x)).spot i ≡ asleep timed)
        (sym (ap (λ l. notify_one l c) n))
        (subst (λ s. (run whole es (advance whole i s c)).spot i ≡ asleep timed) (sym e)
          (sleeps_on timed es (advance whole i (entering timed) c) q (ground arith)))
