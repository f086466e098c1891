-- ===== src/IoManager/Armed/Calls.antt =====
-- Every call of the manager keeps the fibers in the queues of enabled entries.
use fiber_lib.Prelude.{ℕ, Bool, Option, none, some, List, [], ◌∷◌}
use fiber_lib.IoManager.{Interest, Ctl, Ready, Manager}
use fiber_lib.IoManager.Epoll.{Documented}
use fiber_lib.IoManager.Tracks.{IoCall, adds, dels, wakes, polls, KeepsEntries, Tracks, step}
use fiber_lib.IoManager.Armed.{OneShot, Serves, AllAnswered}

module _ {K : Type 0} (epoll_ctl : ℕ → Ctl → K → Bool × K) (registered : K → ℕ → Option Interest)
    (laws : Documented epoll_ctl registered) (armed : K → ℕ → Bool)
    (deliver : List (ℕ × Ready) → K → K) (one_shot : OneShot epoll_ctl deliver armed) where
  -- A failed assertion leaves no manager.
  abbrev Left : Option (Bool × Manager K) → Type 0
  Left none = Unit
  Left (some (b, m)) = Serves armed m

  module _ {S : Type 0} (schedule : ℕ → S → S) (keeps : KeepsEntries deliver registered) where
    abbrev pub CallAnswered : IoCall → Manager K → Type 0
    CallAnswered (adds fd event edge current) m = Unit
    CallAnswered (dels fd event edge) m = Unit
    CallAnswered (wakes fd event) m = Unit
    CallAnswered (polls none) m = Unit
    CallAnswered (polls (some es)) m = AllAnswered (registered m.kernel) es

    -- Each poll reports on an entry only what it asks for, or a trouble.
    abbrev pub RunAnswered : List IoCall → Option (Manager K × S) → Type 0
    RunAnswered [] o = Unit
    RunAnswered (c ∷ cs) none = Unit
    RunAnswered (c ∷ cs) (some (m, s)) =
        CallAnswered c m
        × RunAnswered cs (step epoll_ctl registered laws schedule deliver keeps c m s)

    abbrev pub IsServed : Option (Manager K × S) → Type 0
    IsServed none = Unit
    IsServed (some (m, s)) = Serves armed m
