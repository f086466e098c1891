-- ===== src/WaitQueue/Laws.antt =====
-- Who is woken, in which order, and how often.
use fiber_lib.Prelude.{ℕ, suc, ◌+◌, ◌≡◌, List, [], ◌∷◌, length, arith}
use fiber_lib.WaitQueue.{notify_all, notify_from}

module _ {S : Type 0} (schedule : ℕ → S → S) where
  abbrev pub wake_all : List ℕ → S → S
  wake_all [] s = s
  wake_all (f ∷ q) s = wake_all q (schedule f s)

  notify_from-eq :
      (n : ℕ) (q : List ℕ) (s : S) → notify_from schedule n q s ≡ (n + length q, [], wake_all q s)
  unfolding notify_from
  notify_from-eq n [] s = ground arith
  notify_from-eq n (f ∷ q) s = ground (arith, notify_from-eq (suc n) q (schedule f s))

  -- `notify_all` returns the number of the fibers that waited, leaves nobody in the queue, and has
  -- scheduled each of them once, oldest first.
  pub notify_all_lem : (q : List ℕ) (s : S) → notify_all schedule q s ≡ (length q, [], wake_all q s)
  unfolding notify_all
  notify_all_lem q s = ground (arith, notify_from-eq 0 q s)
