-- ===== src/IoFiber/Tests.antt =====
-- Five bytes in three buffers, which the kernel takes in pieces.
use fiber_lib.Prelude.{arith, ℕ, ◌≡◌, refl, true, false, none, some, List, [], ◌∷◌}
use fiber_lib.IoFiber.{
  Result, counted, wait_more, Round, flat, skip, write_op, do_io, writev, optional_count,
}
use fiber_lib.IoFiber.Read.{
  Arrival, chunk, would_block, broken, read_op, Delivers, read_op-Delivers,
}
use fiber_lib.IoFiber.Recv.{recv_from, recv_et}
use fiber_lib.IoFiber.Accept.{Pending, client, none_left, too_many}
use fiber_lib.IoFiber.Connect.{
  in_progress, no_error, not_yet, connect, EndsClosed, connect-EndsClosed,
}
use fiber_lib.IoFiber.Laws.{Ends, Tracks, IsComplete, writev_lem}

abbrev buffers : List (List ℕ)
buffers = (1 ∷ 2 ∷ []) ∷ [] ∷ (3 ∷ 4 ∷ 5 ∷ []) ∷ []

abbrev ready : Round
ready = record { added = true; expires = false }

abbrev answers : List Result
answers = counted 3 ∷ wait_more ∷ counted 9 ∷ []

skip-buffers : skip 3 buffers ≡ [] ∷ [] ∷ (4 ∷ 5 ∷ []) ∷ []
unfolding skip
skip-buffers = refl

writev-answers : optional_count (writev true (ready ∷ ready ∷ []) buffers answers) ≡ some 5
unfolding writev do_io write_op
writev-answers = refl

-- The timer ends the call after three bytes.
writev-expires :
    optional_count (writev true ((record ready { expires = true }) ∷ []) buffers answers) ≡ none
unfolding writev do_io write_op
writev-expires = refl

writev_lem_example :
    Ends
      (Tracks (flat buffers))
      (IsComplete (flat buffers))
      (writev true (ready ∷ ready ∷ []) buffers answers)
writev_lem_example = writev_lem true (ready ∷ ready ∷ []) buffers answers

-- Three bytes arrive for a buffer of two.
abbrev arrivals : List (Arrival ℕ)
arrivals = chunk 1 (2 ∷ 3 ∷ []) ∷ would_block ∷ []

read_op-Delivers_example : Delivers 2 (1 ∷ 2 ∷ 3 ∷ []) (read_op 2 arrivals [])
read_op-Delivers_example = read_op-Delivers 2 arrivals [] (omega arith)

-- Three bytes arrive for a buffer of four, after a wait and before an error.
abbrev recv_arrivals : List (Arrival ℕ)
recv_arrivals = would_block ∷ chunk 1 (2 ∷ 3 ∷ []) ∷ broken 104 ∷ []

recv_et-arrivals : (recv_et true (ready ∷ []) 4 recv_arrivals).0 ≡ 3
unfolding recv_et do_io recv_from
recv_et-arrivals = refl

abbrev pending : List Pending
pending = none_left ∷ client 8 ∷ too_many ∷ client 9 ∷ none_left ∷ client 10 ∷ []

connect-EndsClosed_example :
    EndsClosed in_progress
      (not_yet ∷ no_error ∷ [])
      (connect true (ready ∷ []) in_progress (not_yet ∷ no_error ∷ []))
    × (connect true (ready ∷ []) in_progress (no_error ∷ not_yet ∷ no_error ∷ []) ≡ some (true, 0))
connect-EndsClosed_example =
    connect-EndsClosed true (ready ∷ []) in_progress (not_yet ∷ no_error ∷ [])
