-- ===== src/Channel/Spec.antt =====
-- What a channel promises: a bounded queue of values with its blocked senders and receivers, each
-- oldest first. Every call is written out by what it does to these lists.
use fiber_lib.Prelude.{
  ℕ, Bool, true, false, Option, none, some, List, [], ◌∷◌, ◌++◌, ◌==◌, if◌then◌else◌, length,
}
use fiber_lib.WaitQueue.Laws.{wake_all}
use fiber_lib.Channel.Calls.{
  Reply, sent, rejected, sender_blocked, received, nothing, receiver_blocked, threw, closes,
  measured, Call, sends, recvs, try_sends, try_recvs, close_calls, measures,
}

pub record Bounded (A : Type 0) : Type 0 where
  pub items : List A
  pub room : ℕ
  pub closed : Bool
  pub senders : List ℕ
  pub receivers : List ℕ

abbrev pub SpecOutcome : Type 0 → Type 0 → Type 0
SpecOutcome A S = Reply A × Bounded A × S

module _ {A S : Type 0} (schedule : ℕ → S → S) (moved : A → A) where
  -- The value `v` joins the queue, and the receiver that has waited longest is woken.
  accept : A → List ℕ → Bounded A → S → SpecOutcome A S
  accept v [] b s = (sent (moved v), record b { items = b.items ++ v ∷ [] }, s)
  accept v (f ∷ fs) b s =
      (sent (moved v), record b { items = b.items ++ v ∷ []; receivers = fs }, schedule f s)

  -- The oldest value `x` leaves, and the sender that has waited longest is woken.
  deliver : A → List A → List ℕ → Bounded A → S → SpecOutcome A S
  deliver x xs [] b s = (received x, record b { items = xs }, s)
  deliver x xs (f ∷ fs) b s = (received x, record b { items = xs; senders = fs }, schedule f s)

  block_sender : Option ℕ → A → Bounded A → S → SpecOutcome A S
  block_sender none v b s = (threw, b, s)
  block_sender (some f) v b s = (sender_blocked v, record b { senders = b.senders ++ f ∷ [] }, s)

  -- A receiver at an empty queue.
  starve : Option ℕ → Bool → Bounded A → S → SpecOutcome A S
  starve current true b s = (nothing, b, s)
  starve none false b s = (threw, b, s)
  starve (some f) false b s = (receiver_blocked, record b { receivers = b.receivers ++ f ∷ [] }, s)

  -- A value offered to an open queue, and what happens if it does not go in.
  offer : (A → Bounded A → S → SpecOutcome A S) → Bool → A → Bounded A → S → SpecOutcome A S
  unfolding accept
  offer otherwise refused v b s =
      if length b.items == b.room
      then otherwise v b s
      else if refused
      then otherwise (moved v) b s
      else accept v b.receivers b s

  take_from : (Bounded A → S → SpecOutcome A S) → List A → Bounded A → S → SpecOutcome A S
  unfolding deliver
  take_from otherwise [] b s = otherwise b s
  take_from otherwise (x ∷ xs) b s = deliver x xs b.senders b s

  unfoldable pub spec_call : Call A → Bounded A → S → SpecOutcome A S
  unfolding offer take_from block_sender starve
  spec_call (sends current refused v) b s =
      if b.closed then (rejected v, b, s) else offer (block_sender current) refused v b s
  spec_call (recvs current) b s = take_from (starve current b.closed) b.items b s
  spec_call (try_sends refused v) b s =
      if b.closed then (rejected v, b, s) else offer (λ v b s. (rejected v, b, s)) refused v b s
  spec_call try_recvs b s = take_from (λ b s. (nothing, b, s)) b.items b s
  spec_call close_calls b s = (
    closes,
    record b { closed = true; senders = []; receivers = [] },
    wake_all schedule b.receivers (wake_all schedule b.senders s),
  )
  spec_call measures b s =
      (measured (length b.items) (length b.items == 0) (length b.items == b.room), b, s)
