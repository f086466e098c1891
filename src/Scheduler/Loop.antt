-- ===== src/Scheduler/Loop.antt =====
-- fiber_consumer.cpp, `processTask`: the loop ends, with its queue empty.
use fiber_lib.Prelude.{
  ℕ, zero, suc, ◌+◌, ◌<◌, ◌≡◌, refl, sym, Bool, true, false, ◌&&◌, Option, none, some, List, [],
  ◌∷◌, ltb, if◌then◌else◌, length, map, if_true, inl, inr, subst, arith,
}
use fiber_lib.Scheduler.{
  Pool, Checked, fine, across_thread, done_again, then_do, may_run, take_front, pop_task,
}
use fiber_lib.Scheduler.Bound.{IsBound, Within}
use fiber_lib.Scheduler.Affinity.{takes, is_idle, step, step-Within, run-Within, end_turn-Within}
use fiber_lib.Scheduler.Batch.{
  act_event, Scripts, slice_of, scripts_after, leave_turn, run_slice, turn, after_turn, while_task,
  process_task, total,
}
use fiber_lib.Scheduler.Growth.{
  Grows, run-Grows, IsCovered, later-IsCovered, slice_cost, end_turn-Grows,
}

module _ (n i : ℕ) where
  -- The consumer's thread is between two turns.
  pub record IsReady (s : Scripts) (p : Pool) : Type 0 where
    pub covered : IsCovered n s
    pub bound : IsBound p
    pub inside : i < p.count
    pub idle : (p.consumers i).current ≡ none

  -- What bounds the number of turns.
  abbrev pub work : Scripts → Pool → ℕ
  work s p = length (p.consumers i).queue + total n s

  abbrev Shrinks : ℕ → Checked (Pool × Scripts) → Type 0
  Shrinks k (fine (p, s)) = IsReady s p × (work s p < k)
  Shrinks k across_thread = ⊥
  Shrinks k done_again = Unit

  leave-Shrinks :
      (k : ℕ) (o : Option ℕ) (s : Scripts) (p : Pool)
      → IsCovered n s
      → IsBound p
      → i < p.count
      → length (p.consumers i).queue + total n s < k + length (slice_of o s).acts
      → Shrinks k (fine (leave_turn i (slice_of o s).leaves_as (scripts_after o s) p))
  leave-Shrinks k o s p c w l b =
      let state = (slice_of o s).leaves_as in
      let (w', stays) = end_turn-Within i state (p.consumers i).current p l refl w in
      let (most, same, idle) = end_turn-Grows i state (p.consumers i).current p refl in
      (
        record {
          covered = later-IsCovered n o s c;
          bound = w';
          inside = ground (arith, stays.same_count);
          idle = idle;
        },
        elim (slice_cost n o s c) [
          | inl (a, d, t) ↦ omega (arith, same d, a, t)
          | inr t ↦ omega (arith, t, most)
        ],
      )

  ran-Shrinks :
      (k : ℕ) (o : Option ℕ) (s : Scripts) (p : Pool) (c : Checked Pool)
      → IsCovered n s
      → IsBound p
      → i < p.count
      → length (p.consumers i).queue + total n s < k
      → Within p c
      → Grows i (length (slice_of o s).acts) p c
      → Shrinks k
          (then_do c (λ p'. fine (leave_turn i (slice_of o s).leaves_as (scripts_after o s) p')))
  ran-Shrinks k o s p (fine p') c w l b (w', stays) (g, same) =
      leave-Shrinks k o s p' c w' (ground (arith, stays.same_count)) (omega arith)
  ran-Shrinks k o s p across_thread c w l b w' g = w'
  ran-Shrinks k o s p done_again c w l b w' g = tt

  took-Shrinks :
      (k : ℕ) (s : Scripts) (p : Pool)
      → IsCovered n s
      → IsBound p
      → i < p.count
      → length (p.consumers i).queue + total n s < k
      → Shrinks k (run_slice i (p.consumers i).current s p)
  took-Shrinks k s p c w l b =
      let o = (p.consumers i).current in
      ran-Shrinks k o s p _ c w l b (run-Within (map act_event (slice_of o s).acts) p w)
        (run-Grows i (slice_of o s).acts p)

  -- The front of the queue is gone.
  abbrev Took : List ℕ → Checked Pool → Type 0
  Took q (fine p) = (p.consumers i).queue ≡ q
  Took q across_thread = Unit
  Took q done_again = Unit

  if_Took :
      (q : List ℕ) (b : Bool) (x y : Checked Pool)
      → Took q x
      → Took q y
      → Took q (if b then x else y)
  if_Took q true x y g h = g
  if_Took q false x y g h = h

  take_front-Took : (f : ℕ) (q : List ℕ) (p : Pool) → Took q (take_front i (f ∷ q) p)
  unfolding take_front
  take_front-Took f q p =
      if_Took q (may_run (p.consumer_id f) (p.consumers i).id) _ _ (ground arith) tt

  takes_lem :
      (f : ℕ) (q : List ℕ) (s : Scripts) (p : Pool)
      → IsReady s p
      → (p.consumers i).queue ≡ f ∷ q
      → Took q (step (takes i) p)
  unfolding step pop_task
  takes_lem f q s p h e =
      subst (Took q)
        (sym (
          if_true {b = ltb i p.count && is_idle (p.consumers i).current} _ _
            (ground (arith, h.inside, h.idle))))
        (subst (λ q'. Took q (take_front i q' p)) (sym e) (take_front-Took f q p))

  turn_after :
      (k : ℕ) (q : List ℕ) (s : Scripts) (p : Pool) (c : Checked Pool)
      → IsReady s p
      → length q + total n s < k
      → Took q c
      → Within p c
      → Shrinks k (then_do c (λ p'. run_slice i (p'.consumers i).current s p'))
  turn_after k q s p (fine p') h b t (w, stays) =
      took-Shrinks k s p' h.covered w (ground (arith, stays.same_count, h.inside))
        (ground (arith, t, b))
  turn_after k q s p across_thread h b t w = w
  turn_after k q s p done_again h b t w = tt

  turn-Shrinks :
      (f : ℕ) (q : List ℕ) (s : Scripts) (p : Pool)
      → IsReady s p
      → (p.consumers i).queue ≡ f ∷ q
      → Shrinks (work s p) (turn i s p)
  unfolding turn
  turn-Shrinks f q s p h e =
      turn_after (work s p) q s p (step (takes i) p) h (ground (arith, e)) (takes_lem f q s p h e)
        (step-Within (takes i) p h.bound)

  -- How the loop ends: with an empty queue, unless a fiber that is done has been scheduled.
  abbrev pub Drained : Option (Checked (Pool × Scripts)) → Type 0
  Drained none = ⊥
  Drained (some (fine (p, s))) = IsReady s p × ((p.consumers i).queue ≡ [])
  Drained (some across_thread) = ⊥
  Drained (some done_again) = Unit

  after_turn-Drained :
      (k : ℕ) (next : Scripts → Pool → Option (Checked (Pool × Scripts)))
      (c : Checked (Pool × Scripts))
      → ((s : Scripts) (p : Pool) → IsReady s p → work s p < k → Drained (next s p))
      → Shrinks k c
      → Drained (after_turn next c)
  after_turn-Drained k next (fine (p, s)) rest (h, b) = rest s p h b
  after_turn-Drained k next across_thread rest h = h
  after_turn-Drained k next done_again rest h = tt

  while_task-Drained :
      (k : ℕ) (next : Scripts → Pool → Option (Checked (Pool × Scripts))) (q : List ℕ) (s : Scripts)
      (p : Pool)
      → IsReady s p
      → (p.consumers i).queue ≡ q
      → work s p < suc k
      → ((s' : Scripts) (p' : Pool) → IsReady s' p' → work s' p' < k → Drained (next s' p'))
      → Drained (while_task next q i s p)
  while_task-Drained k next [] s p h e b rest = (h, e)
  while_task-Drained k next (f ∷ q) s p h e b rest =
      after_turn-Drained (work s p) next (turn i s p)
        (λ s' p' h' b'. rest s' p' h' (omega (arith, b, b'))) (turn-Shrinks f q s p h e)

  -- If the scripts of all fibers are finite, `processTask` ends after as many turns as its queue has
  -- fibers and the scripts have runs and calls, plus one: it never fails the assertion against a fiber
  -- of another thread, and unless a fiber that is done is scheduled, it leaves its queue empty.
  pub process_task-Drained :
      (fuel : ℕ) (s : Scripts) (p : Pool)
      → IsReady s p
      → work s p < fuel
      → Drained (process_task fuel i s p)
  unfolding process_task
  process_task-Drained zero s p h b = absurd (omega arith)
  process_task-Drained (suc fuel) s p h b =
      while_task-Drained fuel (λ s' p'. process_task fuel i s' p') (p.consumers i).queue s p h refl
        b (λ s' p'. process_task-Drained fuel s' p')
