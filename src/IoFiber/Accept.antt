-- ===== src/IoFiber/Accept.antt =====
-- io_fiber.cpp, `accept_et`: it takes all connections that the kernel has, into one vector over all
-- runs of its operation.
use fiber_lib.Prelude.{ℕ, ◌≡◌, ◌∙◌, refl, Bool, false, List, [], ◌∷◌, ◌++◌, append_assoc}
use fiber_lib.IoFiber.{
  Result, counted, wait_more, failed, Round, IoReply, returned, timed_out, no_event, blocked,
  CallTimer, do_io,
}
use fiber_lib.IoFiber.Laws.{Ends, do_io-Ends}

-- The kernel's answers to `::accept`; `too_many` is EMFILE.
pub data Pending : Type 0 where
  client : ℕ → Pending
  none_left : Pending
  too_many : Pending
  accept_failed : ℕ → Pending

pub record Accepting : Type 0 where
  pub recvd_fds : List ℕ
  pub later : List Pending

-- `recvd_fds.size() == 0 ? -1 : 1`
abbrev pub any_client : List ℕ → Result
any_client [] = wait_more
any_client (fd ∷ fds) = counted 1

unfoldable pub accept_from : List ℕ → List Pending → Result × Accepting
accept_from fds [] = (any_client fds, record { recvd_fds = fds; later = [] })
accept_from fds (client fd ∷ later) = accept_from (fds ++ fd ∷ []) later
accept_from fds (none_left ∷ later) = (any_client fds, record { recvd_fds = fds; later = later })
accept_from fds (too_many ∷ later) = accept_from fds later
accept_from fds (accept_failed e ∷ later) = (failed e, record { recvd_fds = fds; later = later })

-- One run of `op`.
abbrev pub accept_op : Accepting → Result × Accepting
accept_op s = accept_from s.recvd_fds s.later

unfoldable pub accept_et : Bool → List Round → List Pending → List ℕ × Accepting
unfolding do_io
accept_et armed ws later =
    let (reply, timer, s) =
      do_io accept_op armed ws (record { canceled = false; expired = false })
        (record { recvd_fds = []; later = later }) in
    (s.recvd_fds, s)

-- The connections that the kernel still has.
abbrev pub clients : List Pending → List ℕ
clients [] = []
clients (client fd ∷ later) = fd ∷ clients later
clients (none_left ∷ later) = clients later
clients (too_many ∷ later) = clients later
clients (accept_failed e ∷ later) = clients later

abbrev Accepts : List ℕ → Accepting → Type 0
Accepts all s = s.recvd_fds ++ clients s.later ≡ all

accept_from-Accepts :
    (fds : List ℕ) (later : List Pending) → Accepts (fds ++ clients later) (accept_from fds later).1
unfolding accept_from
accept_from-Accepts fds [] = refl
accept_from-Accepts fds (client fd ∷ later) =
    accept_from-Accepts (fds ++ fd ∷ []) later ∙ append_assoc fds (fd ∷ []) (clients later)
accept_from-Accepts fds (none_left ∷ later) = refl
accept_from-Accepts fds (too_many ∷ later) = accept_from-Accepts fds later
accept_from-Accepts fds (accept_failed e ∷ later) = refl

ended :
    (all : List ℕ) (o : IoReply × CallTimer × Accepting)
    → Ends (Accepts all) (λ s. Unit) o
    → Accepts all o.2
ended all (returned (counted n), t, s) e = e.0
ended all (returned wait_more, t, s) e = e
ended all (returned (failed k), t, s) e = e
ended all (timed_out, t, s) e = e
ended all (no_event, t, s) e = e
ended all (blocked, t, s) e = e

-- However `accept_et` ends, the descriptors it returns are those the kernel gave it, in order: with
-- those the kernel still has they are all connections.
pub accept_et-clients :
    (armed : Bool) (ws : List Round) (later : List Pending)
    → let (fds, s) = accept_et armed ws later in fds ++ clients s.later ≡ clients later
unfolding accept_et
accept_et-clients armed ws later = ended (clients later) _ (
    do_io-Ends (Accepts (clients later)) (λ s. Unit) accept_op armed
      (λ s h. (accept_from-Accepts s.recvd_fds s.later ∙ h, λ n r. tt)) ws
      (record { canceled = false; expired = false }) (record { recvd_fds = []; later = later })
      refl)
