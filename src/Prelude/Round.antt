-- ===== src/Prelude/Round.antt =====
-- Positions on a ring of `cap` places, and how often a number stands in a list.
use native.Mathlib.Nat.{mod-eq_of_lt, mod-eq-sub-mod}
use native.Mathlib.Decide.{dec_lt, ℕ_discrete}
use Prim.Native.Nat.{ℕ, ◌+◌, ◌-◌, ◌%◌, ◌≤◌, ◌<◌}
use mathlib.Core.Path.{◌≡◌, ◌∙◌}
use mathlib.Core.Logic.{◌⊎◌, inl, inr}
use mathlib.Core.List.{List, [], ◌∷◌, ◌++◌}
use native.Mathlib.Omega.{arith}
use fiber_lib.Prelude.Tests.{◌==◌, if◌then◌else◌}
use fiber_lib.Prelude.Lists.{length, get_or, set, get_or-set_self, get_or-set_ne}

-- A step round the ring either stays below the end or wraps once.
pub round_cases :
    (cap h k : ℕ)
    → h < cap
    → k ≤ cap
    → (((h + k) % cap ≡ h + k) × (h + k < cap)) ⊎ (((h + k) % cap ≡ h + k - cap) × (cap ≤ h + k))
round_cases cap h k hh hk = elim (dec_lt (h + k) cap) [
  | yes p ↦ inl (mod-eq_of_lt p, p)
  | no p ↦ inr (
    mod-eq-sub-mod {n = h + k} {m = cap} (omega arith)
        ∙ mod-eq_of_lt {n = h + k - cap} {m = cap} (omega arith),
    omega arith,
  )
]

-- Fewer than `cap` steps reach each place once.
pub round_inj :
    (cap h i j : ℕ) → h < cap → i < cap → j < cap → (h + i) % cap ≡ (h + j) % cap → i ≡ j
round_inj cap h i j hh hi hj e =
    omega (arith, round_cases cap h i hh (omega arith), round_cases cap h j hh (omega arith))

abbrev pub count : (i : ℕ) → List ℕ → ℕ
count i [] = 0
count i (k ∷ ks) = (if k == i then 1 else 0) + count i ks

-- Behind each other, two lists hold as many as they do alone.
pub count-append : (i : ℕ) (js ks : List ℕ) → count i (js ++ ks) ≡ count i js + count i ks
count-append i [] ks = ground arith
count-append i (j ∷ js) ks = ground (arith, count-append i js ks)

-- Reading a list after a write to it.
pub get_or-set {ℓ} :
    {A : Type ℓ} (xs : List A) (i j : ℕ) (v d : A)
    → i < length xs
    → get_or (set xs i v) j d ≡ (if i == j then v else get_or xs j d)
get_or-set xs i j v d h = elim (ℕ_discrete i j) [
  | yes e ↦ rw (← e, get_or-set_self xs i v d h) (ground arith)
  | no n ↦ rw (get_or-set_ne xs i j v d n) (ground arith)
]

abbrev pub update {ℓ} : {A : Type ℓ} → (ℕ → A) → ℕ → A → ℕ → A
update f i a j = if i == j then a else f j
