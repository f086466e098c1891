-- ===== src/Scheduler/Affinity.antt =====
-- A fiber is bound to one consumer, under every interleaving of the consumers' threads.
use fiber_lib.Prelude.{
  ℕ, ◌+◌, ◌%◌, ◌≤◌, ◌<◌, ◌≡◌, refl, ap, sym, ◌∙◌, Bool, true, false, not, Option, none, some, List,
  [], ◌∷◌, ◌==◌, ltb, leb, ◌&&◌, if◌then◌else◌, update, if_true, if_false, Bool-cases, inl, inr,
  subst, arith, ==_refl, ◌^◌,
}
use native.Mathlib.Nat.{mod-lt}
use fiber_lib.Fiber.{FiberState, ready, running, suspended, blocked, done, is_done}
use fiber_lib.Scheduler.{
  Pool, Checked, fine, across_thread, done_again, may_run, push_task, schedule, created, begin,
  end_turn, requeued, select_consumer, schedule_selected, schedule_to, schedule_immediate, go,
  take_front, pop_task, thread_local_consumer,
}
use fiber_lib.Scheduler.Bound.{
  Home, IsBound, Stays, Stays-refl, Stays-trans, Within, if_Within, push_task-IsBound, may_run-Home,
  schedule-Within,
}

schedule_selected-Within :
    (f : ℕ) (p : Pool)
    → f ≤ p.last_id
    → IsBound p
    → Within p (schedule_selected f (select_consumer (p.trace_id f) p) p)
unfolding schedule_selected
schedule_selected-Within f p l w = elim (Bool-cases (p.count == 0)) [
  | inl e ↦ subst (λ o. Within p (schedule_selected f o p)) (sym (if_true _ _ e)) (w, Stays-refl p)
  | inr e ↦
      subst (λ o. Within p (schedule_selected f o p)) (sym (if_false _ _ e))
        (schedule-Within f (p.trace_id f % p.count) p
          (mod-lt (p.trace_id f) {m = p.count} (ground (arith, e))) (l, refl) w)
]

schedule_to-Within :
    (f : ℕ) (o : Option ℕ) (p : Pool)
    → f ≤ p.last_id
    → p.consumer_id f ≡ o
    → IsBound p
    → Within p (schedule_to f o p)
unfolding schedule_to
schedule_to-Within f none p l e w = schedule_selected-Within f p l w
schedule_to-Within f (some j) p l e w =
    let (m, h) = w.assigned f j e in
    if_Within p ((p.consumers j).id == j) _ _ (λ r. schedule-Within f j p m h w)
      (λ r. absurd (ground (arith, w.ids j m, r)))

schedule_immediate-Within :
    (f : ℕ) (p : Pool) → f ≤ p.last_id → IsBound p → Within p (schedule_immediate f p)
unfolding schedule_immediate
schedule_immediate-Within f p l w =
    if_Within p p.on _ _
      (λ e.
        if_Within p (is_done (p.state f)) _ _ (λ d. tt)
          (λ d. schedule_to-Within f (p.consumer_id f) p l refl w))
      (λ e. (w, Stays-refl p))

created-IsBound : (feature : ℕ) (p : Pool) → IsBound p → IsBound (created (p.last_id + 1) feature p)
created-IsBound feature p w = record {
  ids = w.ids;
  queued = λ i f m c. ground (arith, w.queued i f m c);
  assigned = λ f i e. ground (arith, w.assigned f i, e);
  at_work =
      λ i f m c. let e = w.at_work i f m c in let (n, h) = w.assigned f i e in ground (arith, e, h);
}

created-Stays : (feature : ℕ) (p : Pool) → IsBound p → Stays p (created (p.last_id + 1) feature p)
created-Stays feature p w = record {
  same_count = refl;
  keeps = λ f i e. ground (arith, w.assigned f i e, e);
}

pub Stays-Within : (p p' : Pool) (c : Checked Pool) → Stays p p' → Within p' c → Within p c
Stays-Within p p' (fine p'') s (w, t) = (w, Stays-trans p p' p'' s t)
Stays-Within p p' across_thread s w = w
Stays-Within p p' done_again s w = tt

go-Within : (feature : ℕ) (p : Pool) → IsBound p → Within p (go feature p)
unfolding go
go-Within feature p w =
    Stays-Within p (created (p.last_id + 1) feature p) _ (created-Stays feature p w) (
      schedule_immediate-Within (p.last_id + 1) (created (p.last_id + 1) feature p) (omega arith)
        (created-IsBound feature p w))

begin-Within :
    (i f : ℕ) (q : List ℕ) (p : Pool)
    → i < p.count
    → (p.consumers i).queue ≡ f ∷ q
    → may_run (p.consumer_id f) (p.consumers i).id ≡ true
    → IsBound p
    → Within p (
        fine (
          begin f i
            (record p { consumers = update p.consumers i (record (p.consumers i) { queue = q }) })))
begin-Within i f q p l e may w =
    let h : Home p f i = w.queued i f l (ground (arith, e)) in
    let known : (g j : ℕ) → p.consumer_id g ≡ some j → g ≡ f → j ≡ i =
      λ g j c s. ground (arith, w.assigned g j c, h, s) in
    (
      record {
        ids = λ j m. ground (arith, w.ids j m);
        queued = λ j g m c. ground (arith, w.queued j g m, e, c);
        assigned = λ g j c. ground (arith, w.assigned g j, w.ids i l, h, c);
        at_work =
            λ j g m c. ground (arith, w.at_work j g m, w.assigned g j, w.ids i l, h, c, known g j);
      },
      record { same_count = refl; keeps = λ g j c. ground (arith, c, known g j c, w.ids i l) },
    )

pub take_front-Within :
    (i : ℕ) (q : List ℕ) (p : Pool)
    → i < p.count
    → (p.consumers i).queue ≡ q
    → IsBound p
    → Within p (take_front i q p)
unfolding take_front
take_front-Within i [] p l e w = (w, Stays-refl p)
take_front-Within i (f ∷ q) p l e w =
    let h : Home p f i = w.queued i f l (ground (arith, e)) in
    if_Within p (may_run (p.consumer_id f) (p.consumers i).id) _ _
      (λ may. begin-Within i f q p l e may w)
      (λ may. absurd (ground (arith, may_run-Home p f i w h, w.ids i l, may)))

off_work-IsBound :
    (i f : ℕ) (s : FiberState) (p : Pool)
    → IsBound p
    → IsBound (record p {
      state = update p.state f s;
      consumers = update p.consumers i (record (p.consumers i) { current = none });
    })
off_work-IsBound i f s p w = record {
  ids = λ j m. ground (arith, w.ids j m);
  queued = λ j g m c. ground (arith, w.queued j g m, c);
  assigned = w.assigned;
  at_work = λ j g m c. ground (arith, w.at_work j g m, c);
}

requeued-Within :
    (f i : ℕ) (s : FiberState) (p : Pool)
    → i < p.count
    → Home p f i
    → IsBound p
    → Within p (fine (requeued f i s p))
requeued-Within f i ready p l h w = (w, Stays-refl p)
requeued-Within f i running p l h w = (w, Stays-refl p)
requeued-Within f i suspended p l h w =
    (push_task-IsBound f i p l h w, record { same_count = refl; keeps = λ g j c. c })
requeued-Within f i blocked p l h w = (w, Stays-refl p)
requeued-Within f i done p l h w = (w, Stays-refl p)

pub end_turn-Within :
    (i : ℕ) (s : FiberState) (o : Option ℕ) (p : Pool)
    → i < p.count
    → (p.consumers i).current ≡ o
    → IsBound p
    → Within p (fine (end_turn i s o p))
unfolding end_turn
end_turn-Within i s none p l e w = (w, Stays-refl p)
end_turn-Within i s (some f) p l e w =
    Stays-Within p _ (fine _) (record { same_count = refl; keeps = λ g j c. c })
      (requeued-Within f i s _ l (w.assigned f i (w.at_work i f l e)).1
        (off_work-IsBound i f s p w))

-- A step of some thread: a call of `go`, a call of `scheduleImmediate` with a fiber that exists, and
-- the two ends of a turn on the thread of consumer `i`.
pub data Event : Type 0 where
  goes : (feature : ℕ) → Event
  wakes : (f : ℕ) → Event
  takes : (i : ℕ) → Event
  leaves : (i : ℕ) → FiberState → Event

abbrev pub is_idle : Option ℕ → Bool
is_idle none = true
is_idle (some f) = false

-- A step that cannot happen leaves the pool.
unfoldable pub step : Event → Pool → Checked Pool
unfolding go schedule_immediate pop_task end_turn
step (goes feature) p = go feature p
step (wakes f) p = if leb f p.last_id then schedule_immediate f p else fine p
step (takes i) p = if ltb i p.count && is_idle (p.consumers i).current then pop_task i p else fine p
step (leaves i s) p =
    if ltb i p.count then fine (end_turn i s (p.consumers i).current p) else fine p

unfoldable pub run : List Event → Checked Pool → Checked Pool
unfolding step
run [] c = c
run (e ∷ es) across_thread = across_thread
run (e ∷ es) done_again = done_again
run (e ∷ es) (fine p) = run es (step e p)

pub step-Within : (e : Event) (p : Pool) → IsBound p → Within p (step e p)
unfolding step pop_task
step-Within (goes feature) p w = go-Within feature p w
step-Within (wakes f) p w =
    if_Within p (leb f p.last_id) _ _ (λ l. schedule_immediate-Within f p (ground arith) w)
      (λ l. (w, Stays-refl p))
step-Within (takes i) p w =
    if_Within p (ltb i p.count && is_idle (p.consumers i).current) _ _
      (λ l. take_front-Within i (p.consumers i).queue p (ground arith) refl w)
      (λ l. (w, Stays-refl p))
step-Within (leaves i s) p w =
    if_Within p (ltb i p.count) _ _
      (λ l. end_turn-Within i s (p.consumers i).current p (ground arith) refl w)
      (λ l. (w, Stays-refl p))

run_failed : (es : List Event) (p : Pool) → Within p (run es done_again)
unfolding run
run_failed [] p = tt
run_failed (e ∷ es) p = tt

run-after :
    (es : List Event) (p : Pool) (c : Checked Pool)
    → ((p' : Pool) → IsBound p' → Within p' (run es (fine p')))
    → Within p c
    → Within p (run es c)
run-after es p (fine p') next (w, s) = Stays-Within p p' (run es (fine p')) s (next p' w)
run-after es p across_thread next w = absurd w
run-after es p done_again next w = run_failed es p

-- However the threads' steps follow each other, the assertions against a fiber that is scheduled or
-- run across threads hold, a fiber in a queue, with a consumer or at work stays where its trace id
-- modulo the number of consumers puts it, and a fiber that has a consumer keeps it.
pub run-Within : (es : List Event) (p : Pool) → IsBound p → Within p (run es (fine p))
unfolding run
run-Within [] p w = (w, Stays-refl p)
run-Within (e ∷ es) p w = run-after es p (step e p) (λ p'. run-Within es p') (step-Within e p w)

-- A fiber that at two moments of a history runs on the threads of two consumers runs on the same one,
-- and its `getThreadLocalConsumer` is this consumer.
pub run-at_work :
    (es : List Event) (p p' : Pool) (f i j : ℕ)
    → IsBound p
    → i < p.count
    → j < p.count
    → (p.consumers i).current ≡ some f
    → run es (fine p) ≡ fine p'
    → (p'.consumers j).current ≡ some f
    → (i ≡ j) × (thread_local_consumer (p'.consumers j).current p' ≡ some i)
run-at_work es p p' f i j w l m e r e' =
    let (w', s) = subst (λ c. Within p c) r (run-Within es p w) in
    let before = s.keeps f i (w.at_work i f l e) in
    let after = w'.at_work j f (ground (arith, s.same_count, m)) e' in
    (ground (arith, before, after), ap (λ o. thread_local_consumer o p') e' ∙ before)

-- On a running scheduler whose consumers run, `go` with a feature id puts the new fiber last into the
-- queue of the consumer that its id plus the feature id selects.
pub go_lem :
    (feature i : ℕ) (p : Pool)
    → IsBound p
    → p.on ≡ true
    → i < p.count
    → (p.consumers i).on ≡ true
    → (p.last_id + 1 + feature) % 2 ^ 64 % p.count ≡ i
    → go feature p ≡ fine (push_task (p.last_id + 1) i (created (p.last_id + 1) feature p))
unfolding go schedule_immediate schedule_to schedule_selected schedule
go_lem feature i p w on l up e =
    let f = p.last_id + 1 in
    let p' = created f feature p in
    if_true _ _ on
    ∙ if_false {b = is_done (p'.state f)} _ _ (ground arith)
    ∙ ap (λ o. schedule_to f o p') (if_true {b = f == f} none (p.consumer_id f) (==_refl f))
    ∙ ap (λ o. schedule_selected f o p')
        (if_false {b = p.count == 0} _ _ (ground arith) ∙ ap some (ground (arith, e)))
    ∙ if_false {b = not (p.consumers i).on} _ _ (ap not up)
    ∙ if_true {b = may_run (p'.consumer_id f) (p.consumers i).id} _ _ (ground arith)
