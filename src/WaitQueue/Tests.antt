-- ===== src/WaitQueue/Tests.antt =====
-- A queue of three fibers; the fibers woken are listed, latest first.
use fiber_lib.Prelude.{ℕ, ◌≡◌, refl, true, List, [], ◌∷◌}
use fiber_lib.WaitQueue.{notify_one}

abbrev schedule : ℕ → List ℕ → List ℕ
schedule f woken = f ∷ woken

abbrev three : List ℕ
three = 4 ∷ 5 ∷ 6 ∷ []

notify_one-three : notify_one schedule three [] ≡ (true, 5 ∷ 6 ∷ [], 4 ∷ [])
unfolding notify_one
notify_one-three = refl
