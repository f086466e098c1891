-- ===== src/Context/Life.antt =====
-- context.cpp, `UContext`: the mappings of memory in the life of one object.
use fiber_lib.Prelude.{
  ℕ, ◌+◌, ◌^◌, ◌<◌, ◌≡◌, ◌≢◌, refl, ap, ◌∙◌, Bool, true, ◌&&◌, ◌==◌, if◌then◌else◌, if_false, List,
  [], ◌∷◌, ◌++◌, arith,
}
use fiber_lib.Context.{UContext, KernelCall, maps, protects, unmaps, map_failed, initialize}

-- A call of `initialize`, with what the kernel answers to it.
pub record Attempt : Type 0 where
  pub func : ℕ
  pub base : ℕ
  pub allowed : Bool

-- The calls of `initialize`; the caller catches what they throw.
unfoldable pub attempts : ℕ → List Attempt → UContext → List KernelCall → UContext × List KernelCall
unfolding initialize
attempts page [] u log = (u, log)
attempts page (a ∷ later) u log =
    let r = initialize page a.func a.base a.allowed u log in attempts page later r.1 r.2

-- The mapping `base` of `size` is removed.
abbrev pub unmapped : ℕ → ℕ → List (ℕ × ℕ) → List (ℕ × ℕ)
unmapped base size [] = []
unmapped base size ((b, s) ∷ m) =
    let rest = unmapped base size m in if (b == base) && (s == size) then m else (b, s) ∷ rest

-- The mappings of the process behind a log, from the mappings `m` on.
abbrev pub live : List (ℕ × ℕ) → List KernelCall → List (ℕ × ℕ)
live m [] = m
live m (maps b s ∷ log) = live (if b == map_failed then m else (b, s) ∷ m) log
live m (protects a s ∷ log) = live m log
live m (unmaps b s ∷ log) = live (unmapped b s m) log

-- No mapping of `m` starts at the address.
abbrev pub NoneAt : ℕ → List (ℕ × ℕ) → Type 0
NoneAt a [] = Unit
NoneAt a ((b, s) ∷ m) = (b ≢ a) × NoneAt a m

pub live-append : (m : List (ℕ × ℕ)) (l k : List KernelCall) → live m (l ++ k) ≡ live (live m l) k
live-append m [] k = refl
live-append m (maps b s ∷ l) k = live-append (if b == map_failed then m else (b, s) ∷ m) l k
live-append m (protects a s ∷ l) k = live-append m l k
live-append m (unmaps b s ∷ l) k = live-append (unmapped b s m) l k

pub without_absent : (a s : ℕ) (m : List (ℕ × ℕ)) → NoneAt a m → unmapped a s m ≡ m
without_absent a s [] n = refl
without_absent a s ((b, t) ∷ m) (d, n) =
    if_false {b = (b == a) && (t == s)} _ _ (ground (arith, d))
    ∙ ap (λ l. (b, t) ∷ l) (without_absent a s m n)

-- What the kernel documents: a mapping is not at 0 and does not reach the end of the addresses; and
-- mprotect succeeds.
abbrev pub Granted : ℕ → List Attempt → Type 0
Granted page [] = Unit
Granted page (a ∷ later) =
    (0 < a.base)
    × ((a.base ≢ map_failed) → a.base + page < 2 ^ 64)
    × (a.allowed ≡ true)
    × Granted page later
