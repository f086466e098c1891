-- ===== src/Scheduler/Bound.antt =====
-- What ties the fibers to the consumers: a consumer stands at its id, and a fiber in its queue, or with
-- its id, or on its thread, is one whose trace id selects it.
use fiber_lib.Prelude.{
  ℕ, ◌%◌, ◌≤◌, ◌<◌, ◌≡◌, refl, ◌∙◌, Bool, true, false, not, Option, none, some, [], ◌∷◌,
  if◌then◌else◌, count, count-append, arith,
}
use fiber_lib.Scheduler.{
  Pool, init, Checked, fine, across_thread, done_again, may_run, push_task, schedule,
}

abbrev pub Home : Pool → ℕ → ℕ → Type 0
Home p f i = (f ≤ p.last_id) × (p.trace_id f % p.count ≡ i)

pub record IsBound (p : Pool) : Type 0 where
  pub ids : (i : ℕ) → i < p.count → (p.consumers i).id ≡ i
  pub queued : (i f : ℕ) → i < p.count → 0 < count f (p.consumers i).queue → Home p f i
  pub assigned : (f i : ℕ) → p.consumer_id f ≡ some i → (i < p.count) × Home p f i
  pub at_work :
      (i f : ℕ) → i < p.count → (p.consumers i).current ≡ some f → p.consumer_id f ≡ some i

-- The consumers are the same ones, and a fiber that has a consumer keeps it.
pub record Stays (p p' : Pool) : Type 0 where
  pub same_count : p'.count ≡ p.count
  pub keeps : (f i : ℕ) → p.consumer_id f ≡ some i → p'.consumer_id f ≡ some i

pub Stays-refl : (p : Pool) → Stays p p
Stays-refl p = record { same_count = refl; keeps = λ f i e. e }

pub Stays-trans : (p p' p'' : Pool) → Stays p p' → Stays p' p'' → Stays p p''
Stays-trans p p' p'' s t = record {
  same_count = t.same_count ∙ s.same_count;
  keeps = λ f i e. t.keeps f i (s.keeps f i e);
}

-- No fiber is scheduled across threads.
abbrev pub Within : Pool → Checked Pool → Type 0
Within p (fine p') = IsBound p' × Stays p p'
Within p across_thread = ⊥
Within p done_again = Unit

pub if_Within :
    (p : Pool) (b : Bool) (x y : Checked Pool)
    → (b ≡ true → Within p x)
    → (b ≡ false → Within p y)
    → Within p (if b then x else y)
if_Within p true x y f g = f refl
if_Within p false x y f g = g refl

pub push_task-IsBound :
    (f i : ℕ) (p : Pool) → i < p.count → Home p f i → IsBound p → IsBound (push_task f i p)
push_task-IsBound f i p l h w = record {
  ids = λ j m. ground (arith, w.ids j m);
  queued =
      λ j g m c. ground (arith, w.queued j g m, count-append g (p.consumers i).queue (f ∷ []), h);
  assigned = w.assigned;
  at_work = λ j g m c. w.at_work j g m (ground (arith, c));
}

pub may_run-Home :
    (p : Pool) (f i : ℕ) → IsBound p → Home p f i → may_run (p.consumer_id f) i ≡ true
may_run-Home p f i w h = go (p.consumer_id f) (w.assigned f)
  where
    go : (o : Option ℕ) → ((j : ℕ) → o ≡ some j → (j < p.count) × Home p f j) → may_run o i ≡ true
    go none a = refl
    go (some j) a = ground (arith, a j refl, h)

pub schedule-Within :
    (f i : ℕ) (p : Pool) → i < p.count → Home p f i → IsBound p → Within p (schedule f i p)
unfolding schedule
schedule-Within f i p l h w =
    if_Within p (not (p.consumers i).on) _ _ (λ e. (w, Stays-refl p))
      λ e.
        if_Within p (may_run (p.consumer_id f) (p.consumers i).id) _ _
          (λ m. (push_task-IsBound f i p l h w, record { same_count = refl; keeps = λ g j c. c }))
          (λ m. absurd (ground (arith, may_run-Home p f i w h, w.ids i l, m)))

-- A scheduler that has been started, when no fiber has a consumer yet.
pub init-IsBound : (n : ℕ) (p : Pool) → ((f : ℕ) → p.consumer_id f ≡ none) → IsBound (init n p)
init-IsBound n p free = record {
  ids = λ i l. refl;
  queued = λ i f l c. absurd (omega (arith, c));
  assigned = λ f i e. absurd (ground (arith, e, free f));
  at_work = λ i f l e. absurd (ground (arith, e));
}
