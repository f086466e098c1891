-- ===== src/Channel/Tests.antt =====
-- Channels of numbers, for two values. The state passed on lists the fibers woken, latest first;
-- a move leaves 0 behind.
use fiber_lib.Prelude.{
  ℕ, zero, suc, ◌<◌, ◌≡◌, ◌⊎◌, refl, true, false, none, some, List, [], ◌∷◌, ◌++◌, arith,
}
use fiber_lib.WaitQueue
use fiber_lib.WaitQueue.{notify_one}
use fiber_lib.Channel.{Channel, make_channel, try_push, try_pop}
use fiber_lib.Channel.Ring.{Holds}
use fiber_lib.Channel.Calls.{
  sender_blocked, received, receiver_blocked, closes, Call, sends, recvs, try_recvs, close_calls,
  call,
}
use fiber_lib.Channel.Spec.{spec_call}
use fiber_lib.Channel.Refine.{view, Agrees, call_refines}
use fiber_lib.Channel.History.{run, spec_run, run_refines, all_in, all_out, run_conserves}
use fiber_lib.Channel.Timeout.{fresh, send_timeout_turn, recv_timeout_turn}
use fiber_lib.Channel.Timeout.Laws.{IsBlocked, IsIdle, turns_settle}

abbrev schedule : ℕ → List ℕ → List ℕ
schedule f woken = f ∷ woken

abbrev arm : ℕ → List ℕ → List ℕ
arm ms woken = woken

abbrev moved : ℕ → ℕ
moved _ = 0

abbrev empty_channel : Channel ℕ
unfolding make_channel
empty_channel = make_channel 2

-- 8, then 9, round the end of the ring; the fibers 4 and 5 wait to send.
abbrev full_channel : Channel ℕ
full_channel = record {
  cap = 3;
  buffer = some 9 ∷ none ∷ some 8 ∷ [];
  head = 2;
  tail = 1;
  closed = false;
  send_waiters = 4 ∷ 5 ∷ [];
  recv_waiters = [];
}

three_slots : (P : ℕ → Type 0) → P 0 → P 1 → P 2 → (i : ℕ) → i < 3 → P i
three_slots P a b c zero p = a
three_slots P a b c (suc zero) p = b
three_slots P a b c (suc (suc zero)) p = c
three_slots P a b c (suc (suc (suc i))) p = absurd (omega arith)

full_channel-Holds : Holds full_channel (8 ∷ 9 ∷ [])
full_channel-Holds = record {
  room = omega arith;
  small = omega arith;
  stored = refl;
  head_in = omega arith;
  fits = omega arith;
  tail_at = refl;
  slots = three_slots _ refl refl refl;
}

-- A sender blocks on the full ring, and a receiver takes 8 and wakes the fiber 4.
script : List (Call ℕ)
script = sends (some 7) false 3 ∷ try_recvs ∷ recvs (some 8) ∷ recvs (some 8) ∷ close_calls ∷ []

run-script :
    (run schedule moved script full_channel []).0
    ≡ (sends (some 7) false 3, sender_blocked 3)
      ∷ (try_recvs, received 8)
      ∷ (recvs (some 8), received 9)
      ∷ (recvs (some 8), receiver_blocked)
      ∷ (close_calls, closes)
      ∷ []
unfolding run call script try_push try_pop fiber_lib.WaitQueue.wait
run-script = refl

call_refines_example :
    Agrees
      (call schedule moved (recvs (some 7)) full_channel [])
      (spec_call schedule moved (recvs (some 7)) (view full_channel (8 ∷ 9 ∷ [])) [])
call_refines_example = call_refines schedule moved (recvs (some 7)) [] full_channel-Holds

run_refines_example :
    let (rs, c, s) = run schedule moved script full_channel [] in
    let (rs', b, t) = spec_run schedule moved script (view full_channel (8 ∷ 9 ∷ [])) [] in
    (rs ≡ rs') × (view c b.items ≡ b) × (s ≡ t) × Holds c b.items
run_refines_example =
    run_refines schedule moved script full_channel (8 ∷ 9 ∷ []) [] full_channel-Holds

run_conserves_example :
    let (rs, c, s) = run schedule moved script (make_channel 2) [] in
    (xs : List ℕ) × Holds c xs × (all_in schedule moved rs ≡ all_out schedule moved rs ++ xs)
run_conserves_example = run_conserves schedule moved 2 script [] (omega arith)

abbrev closed_channel : Channel ℕ
closed_channel = record {
  cap = 3;
  buffer = none ∷ none ∷ some 8 ∷ [];
  head = 2;
  tail = 0;
  closed = true;
  send_waiters = [];
  recv_waiters = [];
}

closed_channel-Holds : Holds closed_channel (8 ∷ [])
closed_channel-Holds = record {
  room = omega arith;
  small = omega arith;
  stored = refl;
  head_in = omega arith;
  fits = omega arith;
  tail_at = refl;
  slots = three_slots _ refl refl refl;
}

turns_settle_example :
    (let (r, c, s, d) = send_timeout_turn schedule moved (some 7) false fresh 3 closed_channel [] in
      IsBlocked r ⊎ ((d.canceled ≡ true) ⊎ IsIdle schedule arm moved d c s))
    × (let (r, c, s, d) = recv_timeout_turn schedule (some 7) fresh closed_channel [] in
        IsBlocked r ⊎ ((d.canceled ≡ true) ⊎ IsIdle schedule arm moved d c s))
turns_settle_example =
    turns_settle schedule arm moved (some 7) false fresh 3 closed_channel []
      (λ e. ground (arith, e))
