-- ===== src/Channel/History.antt =====
-- Whole histories of a channel: from its construction, no value is lost, doubled or overtaken.
use fiber_lib.Prelude.{
  ℕ, ◌+◌, ◌%◌, ◌^◌, ◌<◌, ◌≡◌, ◌∙◌, sym, ap, refl, none, List, [], ◌∷◌, ◌++◌, ◌==◌, if◌then◌else◌,
  append-nil, append_assoc, length-replicate, get_or-replicate, arith,
}
use fiber_lib.Channel.{Channel, ring_size, make_channel, capacity}
use fiber_lib.Channel.Ring.{Holds}
use fiber_lib.Channel.Calls.{Reply, sent, received, Call, sends, try_sends, call}
use fiber_lib.Channel.Spec.{Bounded, spec_call}
use fiber_lib.Channel.Refine.{view, call_refines}

-- If `n + 1 < 2^64`, a new channel for `n` values is well formed and empty, and its capacity is
-- `n`, or 1 if `n` is 0.
pub make_channel-Holds :
    {A : Type 0} (n : ℕ)
    → n + 1 < 2 ^ 64
    → Holds {A = A} (make_channel n) []
      × (capacity {A = A} (make_channel n) ≡ (if n == 0 then 1 else n))
unfolding make_channel capacity
make_channel-Holds {A} n h = (start, ground arith)
  where
    start : Holds {A = A} (make_channel n) []
    start = record {
      room = ground arith;
      small = ground arith;
      stored = length-replicate (ring_size n) none;
      head_in = ground arith;
      fits = ground arith;
      tail_at = ground arith;
      slots = λ i p. get_or-replicate (ring_size n) ((0 + i) % ring_size n) none;
    }

module _ {A S : Type 0} (schedule : ℕ → S → S) (moved : A → A) where
  -- A history is the calls, each with its reply.
  unfoldable pub run : List (Call A) → Channel A → S → List (Call A × Reply A) × Channel A × S
  run [] c s = ([], c, s)
  run (k ∷ ks) c s =
      let (r, c', s') = call schedule moved k c s in
      let (rs, c'', s'') = run ks c' s' in ((k, r) ∷ rs, c'', s'')

  pub spec_run : List (Call A) → Bounded A → S → List (Call A × Reply A) × Bounded A × S
  spec_run [] b s = ([], b, s)
  spec_run (k ∷ ks) b s =
      let (r, b', s') = spec_call schedule moved k b s in
      let (rs, b'', s'') = spec_run ks b' s' in ((k, r) ∷ rs, b'', s'')

  -- No history of calls tells a channel whose ring holds `xs` from the bounded queue of `xs`: the
  -- replies and the wake-ups are the same, and the ring holds the items of the queue in the end.
  pub run_refines :
      (ks : List (Call A)) (c : Channel A) (xs : List A) (s : S)
      → Holds c xs
      → let (rs, c', s') = run ks c s in
        let (rs', b', t') = spec_run ks (view c xs) s in
        (rs ≡ rs') × (view c' b'.items ≡ b') × (s' ≡ t') × Holds c' b'.items
  unfolding run spec_run
  run_refines [] c xs s h = (refl, refl, refl, h)
  run_refines (k ∷ ks) c xs s h =
      let a = call_refines schedule moved k s h in
      ground (
        arith,
        a,
        run_refines ks (call schedule moved k c s).1 _ (call schedule moved k c s).2 a.holds,
      )

  -- The value that a call put into the channel, and the one that it took out.
  abbrev pub put_in : Call A × Reply A → List A
  put_in (sends _ _ v, sent _) = v ∷ []
  put_in (try_sends _ v, sent _) = v ∷ []
  put_in _ = []

  abbrev pub taken_out : Call A × Reply A → List A
  taken_out (_, received v) = v ∷ []
  taken_out _ = []

  abbrev pub all_in : List (Call A × Reply A) → List A
  all_in [] = []
  all_in (e ∷ es) = put_in e ++ all_in es

  abbrev pub all_out : List (Call A × Reply A) → List A
  all_out [] = []
  all_out (e ∷ es) = taken_out e ++ all_out es

  spec_conserves :
      (k : Call A) (b : Bounded A) (s : S)
      → let (r, b', s') = spec_call schedule moved k b s in
        b.items ++ put_in (k, r) ≡ taken_out (k, r) ++ b'.items
  unfolding spec_call
  spec_conserves k b s = ground (arith, append-nil b.items)

  spec_run_conserves :
      (ks : List (Call A)) (b : Bounded A) (s : S)
      → let (rs, b', s') = spec_run ks b s in b.items ++ all_in rs ≡ all_out rs ++ b'.items
  unfolding spec_run
  spec_run_conserves [] b s = append-nil b.items
  spec_run_conserves (k ∷ ks) b s =
      let (r, b', s') = spec_call schedule moved k b s in
      let rest = spec_run ks b' s' in
      sym (append_assoc b.items (put_in (k, r)) (all_in rest.0))
      ∙ ap (λ l. l ++ all_in rest.0) (spec_conserves k b s)
      ∙ append_assoc (taken_out (k, r)) b'.items (all_in rest.0)
      ∙ ap (λ l. taken_out (k, r) ++ l) (spec_run_conserves ks b' s')
      ∙ sym (append_assoc (taken_out (k, r)) (all_out rest.0) rest.1.items)

  -- In any history of calls of a new channel for `n` values, `n + 1 < 2^64`, the values taken out
  -- are the values that were put in, in the order in which they were put in; those not yet taken
  -- out are in the ring.
  pub run_conserves :
      (n : ℕ) (ks : List (Call A)) (s : S)
      → n + 1 < 2 ^ 64
      → let (rs, c, s') = run ks (make_channel n) s in
        (xs : List A) × Holds c xs × (all_in rs ≡ all_out rs ++ xs)
  run_conserves n ks s h =
      let b = view (make_channel n) [] in
      let (rs, b', s') = spec_run ks b s in
      let r = run_refines ks (make_channel n) [] s (make_channel-Holds n h).0 in
      (b'.items, r.3, rw r.0 (spec_run_conserves ks b s))
