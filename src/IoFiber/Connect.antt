-- ===== src/IoFiber/Connect.antt =====
-- io_fiber.cpp, `connect`: the call, the wait for the connection, and the close of a socket that does
-- not connect.
use fiber_lib.Prelude.{
  ℕ, zero, suc, none, some, ◌≡◌, ◌∙◌, refl, Bool, true, false, Option, List, [], ◌∷◌, ◌++◌,
  append_assoc, arith,
}
use fiber_lib.IoFiber.{
  Result, counted, wait_more, failed, Round, IoReply, returned, timed_out, no_event, blocked,
  CallTimer, do_io, conclude,
}
use fiber_lib.IoFiber.Laws.{Ends, do_io-Ends}

-- What `::connect` answers; `in_progress` is EINPROGRESS.
pub data Dialed : Type 0 where
  connected : Dialed
  in_progress : Dialed
  refused : Dialed

-- What `getsockopt` answers for SO_ERROR: it fails, or the error is 0 or EISCONN, or one of those that
-- ask to wait, or another one. The answer `no_error` does not say that the connection is there: SO_ERROR
-- is also 0 while a connection is pending (connect(2) reads it after writability only).
pub data SocketError : Type 0 where
  unknown : SocketError
  no_error : SocketError
  not_yet : SocketError
  broken : ℕ → SocketError

-- One run of `op`. When `getsockopt` fails, `errno` is set to the 0 that `err` still has.
unfoldable pub connect_op : List SocketError → Result × List SocketError
connect_op [] = (wait_more, [])
connect_op (unknown ∷ later) = (failed 0, later)
connect_op (no_error ∷ later) = (counted 0, later)
connect_op (not_yet ∷ later) = (wait_more, later)
connect_op (broken e ∷ later) = (failed e, later)

-- How a call ends: its result, and how often it has called `IO::close`. `none` is still blocked.
abbrev pub Finished : Type 0
Finished = Option (Bool × ℕ)

-- What follows the wait.
abbrev pub concluded : IoReply × CallTimer × List SocketError → Finished
concluded (returned (counted zero), t, later) = some (true, 0)
concluded (returned _, t, later) = some (false, 1)
concluded (timed_out, t, later) = some (false, 1)
concluded (no_event, t, later) = some (false, 1)
concluded (blocked, t, later) = none

unfoldable pub connect : Bool → List Round → Dialed → List SocketError → Finished
unfolding do_io
connect armed ws connected later = some (true, 0)
connect armed ws refused later = some (false, 1)
connect armed ws in_progress later =
    concluded (do_io connect_op armed ws (record { canceled = false; expired = false }) later)

-- `::connect` has returned 0, or some `getsockopt` has reported no error.
abbrev pub IsAnswered : Dialed → List SocketError → Type 0
IsAnswered connected answers = Unit
IsAnswered refused answers = ⊥
IsAnswered in_progress answers =
    (before : List SocketError) × (later : List SocketError) × (before ++ no_error ∷ later
      ≡ answers)

-- A result `true` has such an answer and leaves the socket open; a result `false` has closed it once.
abbrev pub EndsClosed : Dialed → List SocketError → Finished → Type 0
EndsClosed d answers none = Unit
EndsClosed d answers (some (true, closes)) = IsAnswered d answers × (closes ≡ 0)
EndsClosed d answers (some (false, closes)) = closes ≡ 1

abbrev Asked : List SocketError → List SocketError → Type 0
Asked answers later = (before : List SocketError) × (before ++ later ≡ answers)

module _ (answers : List SocketError) where
  Asked-one :
      (a : SocketError) (later : List SocketError) → Asked answers (a ∷ later) → Asked answers later
  Asked-one a later (before, e) = (before ++ a ∷ [], append_assoc before (a ∷ []) later ∙ e)

  op_keeps :
      (later : List SocketError)
      → Asked answers later
      → Asked answers (connect_op later).1
        × ((n : ℕ) → (connect_op later).0 ≡ counted n → IsAnswered in_progress answers)
  unfolding connect_op
  op_keeps [] h = (h, λ n e. absurd (ground (arith, e)))
  op_keeps (unknown ∷ later) h = (Asked-one unknown later h, λ n e. absurd (ground (arith, e)))
  op_keeps (no_error ∷ later) h = (Asked-one no_error later h, λ n e. (h.0, later, h.1))
  op_keeps (not_yet ∷ later) h = (Asked-one not_yet later h, λ n e. absurd (ground (arith, e)))
  op_keeps (broken k ∷ later) h = (Asked-one (broken k) later h, λ n e. absurd (ground (arith, e)))

  concluded-EndsClosed :
      (o : IoReply × CallTimer × List SocketError)
      → Ends (Asked answers) (λ later. IsAnswered in_progress answers) o
      → EndsClosed in_progress answers (concluded o)
  concluded-EndsClosed (returned (counted zero), t, later) e = (e.1, refl)
  concluded-EndsClosed (returned (counted (suc n)), t, later) e = refl
  concluded-EndsClosed (returned wait_more, t, later) e = refl
  concluded-EndsClosed (returned (failed k), t, later) e = refl
  concluded-EndsClosed (timed_out, t, later) e = refl
  concluded-EndsClosed (no_event, t, later) e = refl
  concluded-EndsClosed (blocked, t, later) e = tt

-- The first `getsockopt`, before any wait, already ends a pending call.
at_once :
    (armed : Bool) (ws : List Round) (answers : List SocketError)
    → connect armed ws in_progress (no_error ∷ answers) ≡ some (true, 0)
unfolding connect do_io connect_op conclude
at_once armed [] answers = refl
at_once armed (w ∷ ws) answers = refl

-- When `connect` returns true, `::connect` has returned 0 or some `getsockopt` has reported no error, and
-- the socket is open; when it returns false, by an error, a timeout or a refused registration, it has
-- closed the socket exactly once. But `doIO` asks `getsockopt` before it waits: when the first answer on a
-- pending connection reports no error, `connect` returns true, whatever the timer and the waits would
-- have been.
pub connect-EndsClosed :
    (armed : Bool) (ws : List Round) (d : Dialed) (answers : List SocketError)
    → EndsClosed d answers (connect armed ws d answers)
      × (connect armed ws in_progress (no_error ∷ answers) ≡ some (true, 0))
unfolding connect
connect-EndsClosed armed ws connected answers = ((tt, refl), at_once armed ws answers)
connect-EndsClosed armed ws refused answers = (refl, at_once armed ws answers)
connect-EndsClosed armed ws in_progress answers = (
  concluded-EndsClosed answers _ (
      do_io-Ends (Asked answers) (λ later. IsAnswered in_progress answers) connect_op armed
        (op_keeps answers) ws (record { canceled = false; expired = false }) answers ([], refl)),
  at_once armed ws answers,
)
