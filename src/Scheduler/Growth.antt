-- ===== src/Scheduler/Growth.antt =====
-- How much a turn of `processTask` adds to a queue, and what it takes from the scripts.
use fiber_lib.Prelude.{
  ℕ, zero, suc, ◌+◌, ◌≤◌, ◌<◌, ◌≡◌, refl, ◌∙◌, Bool, true, false, not, Option, none, some, List, [],
  ◌∷◌, ◌==◌, ltb, leb, if◌then◌else◌, update, length, length-append, map, Bool-cases, inl, inr,
  arith, ◌⊎◌,
}
use native.Mathlib.Decide.{ℕ_discrete}
use fiber_lib.Fiber.{FiberState, ready, running, suspended, blocked, done, is_done}
use fiber_lib.Scheduler.{
  Pool, Checked, fine, across_thread, done_again, may_run, push_task, schedule, created, end_turn,
  select_consumer, schedule_selected, schedule_to, schedule_immediate, go,
}
use fiber_lib.Scheduler.Affinity.{step, run}
use fiber_lib.Scheduler.Batch.{
  Act, launch, wake, act_event, Slice, Scripts, first_slice, later_slices, slice_of, scripts_after,
  weight, total,
}

-- The queue of `i` grows by at most `n` fibers, and its thread runs what it ran.
abbrev pub Grows : ℕ → ℕ → Pool → Checked Pool → Type 0
Grows i n p (fine p') =
    (length (p'.consumers i).queue ≤ length (p.consumers i).queue + n)
    × ((p'.consumers i).current ≡ (p.consumers i).current)
Grows i n p across_thread = Unit
Grows i n p done_again = Unit

Grows-fine : (i n : ℕ) (p : Pool) → Grows i n p (fine p)
Grows-fine i n p = (omega arith, refl)

if_Grows :
    (i n : ℕ) (p : Pool) (b : Bool) (x y : Checked Pool)
    → Grows i n p x
    → Grows i n p y
    → Grows i n p (if b then x else y)
if_Grows i n p true x y g h = g
if_Grows i n p false x y g h = h

push_task-Grows : (i f j : ℕ) (p : Pool) → Grows i 1 p (fine (push_task f j p))
push_task-Grows i f j p = ground (arith, length-append (p.consumers i).queue (f ∷ []))

schedule-Grows : (i f j : ℕ) (p : Pool) → Grows i 1 p (schedule f j p)
unfolding schedule
schedule-Grows i f j p =
    if_Grows i 1 p (not (p.consumers j).on) _ _ (Grows-fine i 1 p) (
      if_Grows i 1 p (may_run (p.consumer_id f) (p.consumers j).id) _ _ (push_task-Grows i f j p)
        tt)

schedule_selected-Grows :
    (i f : ℕ) (o : Option ℕ) (p : Pool) → Grows i 1 p (schedule_selected f o p)
unfolding schedule_selected
schedule_selected-Grows i f none p = Grows-fine i 1 p
schedule_selected-Grows i f (some j) p = schedule-Grows i f j p

schedule_to-Grows : (i f : ℕ) (o : Option ℕ) (p : Pool) → Grows i 1 p (schedule_to f o p)
unfolding schedule_to
schedule_to-Grows i f none p = schedule_selected-Grows i f (select_consumer (p.trace_id f) p) p
schedule_to-Grows i f (some j) p =
    if_Grows i 1 p ((p.consumers j).id == j) _ _ (schedule-Grows i f j p) tt

schedule_immediate-Grows : (i f : ℕ) (p : Pool) → Grows i 1 p (schedule_immediate f p)
unfolding schedule_immediate
schedule_immediate-Grows i f p =
    if_Grows i 1 p p.on _ _
      (if_Grows i 1 p (is_done (p.state f)) _ _ tt (schedule_to-Grows i f (p.consumer_id f) p))
      (Grows-fine i 1 p)

act-Grows : (i : ℕ) (a : Act) (p : Pool) → Grows i 1 p (step (act_event a) p)
unfolding step go
act-Grows i (launch feature) p =
    schedule_immediate-Grows i (p.last_id + 1) (created (p.last_id + 1) feature p)
act-Grows i (wake f) p =
    if_Grows i 1 p (leb f p.last_id) _ _ (schedule_immediate-Grows i f p) (Grows-fine i 1 p)

Grows-trans :
    (i n : ℕ) (p p' : Pool) (c : Checked Pool)
    → Grows i 1 p (fine p')
    → Grows i n p' c
    → Grows i (suc n) p c
Grows-trans i n p p' (fine p'') (l, e) (l', e') = (omega arith, e' ∙ e)
Grows-trans i n p p' across_thread g h = tt
Grows-trans i n p p' done_again g h = tt

run_on-Grows :
    (i : ℕ) (xs : List Act) (p : Pool) (c : Checked Pool)
    → ((p' : Pool) → Grows i (length xs) p' (run (map act_event xs) (fine p')))
    → Grows i 1 p c
    → Grows i (suc (length xs)) p (run (map act_event xs) c)
unfolding run
run_on-Grows i xs p (fine p') next g = Grows-trans i (length xs) p p' _ g (next p')
run_on-Grows i [] p across_thread next g = tt
run_on-Grows i (x ∷ xs) p across_thread next g = tt
run_on-Grows i [] p done_again next g = tt
run_on-Grows i (x ∷ xs) p done_again next g = tt

pub run-Grows :
    (i : ℕ) (xs : List Act) (p : Pool) → Grows i (length xs) p (run (map act_event xs) (fine p))
unfolding run
run-Grows i [] p = Grows-fine i 0 p
run-Grows i (a ∷ xs) p =
    run_on-Grows i xs p (step (act_event a) p) (λ p'. run-Grows i xs p') (act-Grows i a p)

total_out : (n f : ℕ) (xs : List Slice) (s : Scripts) → n ≤ f → total n (update s f xs) ≡ total n s
total_out zero f xs s h = refl
total_out (suc n) f xs s h = ground (arith, total_out n f xs s (omega arith))

total_here :
    (n : ℕ) (xs : List Slice) (s : Scripts)
    → total (suc n) (update s n xs) + weight (s n) ≡ total (suc n) s + weight xs
total_here n xs s = ground (arith, total_out n n xs s (omega arith))

-- A script that is replaced.
total-update :
    (n f : ℕ) (xs : List Slice) (s : Scripts)
    → f < n
    → total n (update s f xs) + weight (s f) ≡ total n s + weight xs
total-update zero f xs s h = absurd (omega arith)
total-update (suc n) f xs s h = elim (ℕ_discrete f n) [
  | yes e ↦ rw e (total_here n xs s)
  | no e ↦ ground (arith, total-update n f xs s (ground (arith, e)), e)
]

-- The fibers from `n` on have no script.
abbrev pub IsCovered : ℕ → Scripts → Type 0
IsCovered n s = (f : ℕ) → n ≤ f → s f ≡ []

pub later-IsCovered :
    (n : ℕ) (o : Option ℕ) (s : Scripts) → IsCovered n s → IsCovered n (scripts_after o s)
later-IsCovered n none s h = h
later-IsCovered n (some f) s h = λ g l. ground (arith, h g l)

total_later :
    (n f : ℕ) (s : Scripts)
    → IsCovered n s
    → total n (update s f (later_slices (s f))) + weight (s f)
      ≡ total n s + weight (later_slices (s f))
total_later n f s h = elim (Bool-cases (ltb f n)) [
  | inl e ↦ total-update n f (later_slices (s f)) s (ground arith)
  | inr e ↦ ground (arith, total_out n f (later_slices (s f)) s (ground arith), h f (ground arith))
]

-- What a run takes from the scripts, its calls at least.
pub slice_cost :
    (n : ℕ) (o : Option ℕ) (s : Scripts)
    → IsCovered n s
    → ((length (slice_of o s).acts ≡ 0)
        × ((slice_of o s).leaves_as ≡ done)
        × (total n (scripts_after o s) ≡ total n s))
      ⊎ (length (slice_of o s).acts + 1 + total n (scripts_after o s) ≡ total n s)
slice_cost n none s h = inl (refl, refl, refl)
slice_cost n (some f) s h = by_script (s f) (total_later n f s h)
  where
    by_script :
        (xs : List Slice)
        → total n (update s f (later_slices (s f))) + weight xs
          ≡ total n s + weight (later_slices xs)
        → ((length (first_slice xs).acts ≡ 0)
            × ((first_slice xs).leaves_as ≡ done)
            × (total n (update s f (later_slices (s f))) ≡ total n s))
          ⊎ (length (first_slice xs).acts + 1 + total n (update s f (later_slices (s f)))
              ≡ total n s)
    by_script [] e = inl (refl, refl, omega (arith, e))
    by_script (x ∷ xs) e = inr (omega (arith, e))

-- The end of a turn puts one fiber into the queue, if it has not returned, and the thread is idle.
pub end_turn-Grows :
    (i : ℕ) (s : FiberState) (o : Option ℕ) (p : Pool)
    → (p.consumers i).current ≡ o
    → (length ((end_turn i s o p).consumers i).queue ≤ length (p.consumers i).queue + 1)
      × (s ≡ done → length ((end_turn i s o p).consumers i).queue ≡ length (p.consumers i).queue)
      × (((end_turn i s o p).consumers i).current ≡ none)
unfolding end_turn
end_turn-Grows i s none p e = (omega arith, (λ d. refl), e)
end_turn-Grows i ready (some f) p e = ground arith
end_turn-Grows i running (some f) p e = ground arith
end_turn-Grows i suspended (some f) p e =
    ground (arith, length-append (p.consumers i).queue (f ∷ []))
end_turn-Grows i blocked (some f) p e = ground arith
end_turn-Grows i done (some f) p e = ground arith
