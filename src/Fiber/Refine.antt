-- ===== src/Fiber/Refine.antt =====
-- The parent pointers of a thread implement the stack.
use fiber_lib.Prelude.{
  ℕ, ◌≡◌, ◌∙◌, sym, ap, refl, subst, true, Option, none, some, List, [], ◌∷◌, ◌==◌, update, count,
  Bool-cases, inl, inr, if_true, if_false, arith,
}
use fiber_lib.Fiber.{
  FiberState, running, suspended, blocked, done, is_done, Thread, caller, resume, yield_internal,
  marked, leave, Event, resumes, yields, blocks, returns, step, run_on,
}
use fiber_lib.Fiber.Spec.{Stack, push, pop, spec_step, spec_run}

abbrev pub first : List ℕ → Option ℕ
first [] = none
first (p ∷ _) = some p

-- Each fiber's parent is the one below it, and no fiber stands twice on the stack.
abbrev pub Chain : (ℕ → Option ℕ) → List ℕ → Type 0
Chain parent [] = Unit
Chain parent (c ∷ cs) = (parent c ≡ first cs) × (count c cs ≡ 0) × Chain parent cs

pub record Implements (t : Thread) (b : Stack) : Type 0 where
  pub current_is : t.current ≡ first b.fibers
  pub states_are : t.state ≡ b.states
  pub chain : Chain t.parent b.fibers

-- A change of another fiber's parent.
Chain-update :
    (parent : ℕ → Option ℕ) (f : ℕ) (o : Option ℕ) (cs : List ℕ)
    → count f cs ≡ 0
    → Chain parent cs
    → Chain (update parent f o) cs
Chain-update parent f o [] n h = tt
Chain-update parent f o (c ∷ cs) n h =
    (ground (arith, h.0), h.1, Chain-update parent f o cs (ground arith) h.2)

some_inj : {A : Type 0} {x y : A} → some x ≡ some y → x ≡ y
some_inj {x} e = ap (λ o. elim o [ none ↦ x | some z ↦ z ]) e

abbrev after_leave : FiberState → ℕ → ℕ → Thread → Thread
after_leave s c p t = record (marked s c t) {
  current = some p;
  state = update (marked s c t).state p running;
  parent = update t.parent c none;
}

leave_refines :
    (s : FiberState) (fs : List ℕ) {t : Thread} {b : Stack}
    → Implements t (record { fibers = fs; states = t.state })
    → pop s fs t.state ≡ some b
    → (t' : Thread) × (leave s t.current t ≡ some t') × Implements t' b
unfolding leave yield_internal
leave_refines s [] h e = absurd (ground (arith, e))
leave_refines s (c ∷ []) h e = absurd (ground (arith, e))
leave_refines s (c ∷ p ∷ ps) {t} {b} h e = (
  after_leave s c p t,
  ap (λ o. leave s o t) h.current_is ∙ ap (λ o. yield_internal c o (marked s c t)) h.chain.0,
  subst (Implements (after_leave s c p t)) (some_inj e) (record {
    current_is = refl;
    states_are = refl;
    chain = Chain-update t.parent c none (p ∷ ps) h.chain.1 h.chain.2;
  }),
)

zero_of_test : (n : ℕ) → (n == 0) ≡ true → n ≡ 0
zero_of_test n e = ground arith

absent : {A : Type 0} {x : A} → none ≡ some x → ⊥
absent e = ground (arith, e)

-- A resumed fiber gets the current one as its parent.
resumed_parent :
    (f c : ℕ) (t : Thread)
    → t.current ≡ some c
    → update t.parent f (some (caller t.current t.main)) f ≡ some c
resumed_parent f c t e = ground (arith, e)

resume_refines :
    (f c : ℕ) (cs : List ℕ) {t : Thread} {b : Stack}
    → Implements t (record { fibers = c ∷ cs; states = t.state })
    → push f (c ∷ cs) t.state ≡ some b
    → Implements (resume f t) b
unfolding resume
resume_refines f c cs {t} {b} h e = elim (Bool-cases (is_done (t.state f))) [
  | inl d ↦
      subst (λ x. Implements x b) (sym (if_true _ _ d))
        (subst (Implements t) (some_inj (sym (if_true _ _ d) ∙ e)) h)
  | inr d ↦ elim (Bool-cases (count f (c ∷ cs) == 0)) [
    | inl z ↦
        subst (λ x. Implements x b) (sym (if_false _ _ d))
          (subst (Implements _) (some_inj (sym (if_true _ _ z) ∙ sym (if_false _ _ d) ∙ e))
            (record {
              current_is = refl;
              states_are = refl;
              chain = (
                resumed_parent f c t h.current_is,
                zero_of_test (count f (c ∷ cs)) z,
                Chain-update t.parent f _ (c ∷ cs) (zero_of_test (count f (c ∷ cs)) z) h.chain,
              );
            }))
    | inr z ↦ absurd (absent (sym (if_false _ _ z) ∙ sym (if_false _ _ d) ∙ e))
  ]
]

step_refines :
    (e : Event) (fs : List ℕ) {t : Thread} {b : Stack}
    → Implements t (record { fibers = fs; states = t.state })
    → spec_step e (record { fibers = fs; states = t.state }) ≡ some b
    → (t' : Thread) × (step e t ≡ some t') × Implements t' b
unfolding step
step_refines (resumes f) [] h e = absurd (absent e)
step_refines (resumes f) (c ∷ cs) {t} h e = (resume f t, refl, resume_refines f c cs h e)
step_refines yields fs h e = leave_refines suspended fs h e
step_refines blocks fs h e = leave_refines blocked fs h e
step_refines returns fs h e = leave_refines done fs h e

spec_run-none : (es : List Event) → spec_run es none ≡ none
spec_run-none [] = refl
spec_run-none (e ∷ es) = refl

same_states :
    {t : Thread} {b : Stack} → Implements t b → b ≡ record { fibers = b.fibers; states = t.state }
same_states {b} h = ap (λ st. record { fibers = b.fibers; states = st }) (sym h.states_are)

abbrev pub Reaches : List Event → Thread → Stack → Type 0
Reaches es t b = (t' : Thread) × (run_on es (some t) ≡ some t') × Implements t' b

one_more :
    (v : Event) (es : List Event) (t : Thread) (b0 b : Stack)
    → Implements t b0
    → ((t1 : Thread) (b1 : Stack)
        → Implements t1 b1
        → spec_run es (some b1) ≡ some b
        → Reaches es t1 b)
    → (o : Option Stack) → spec_step v b0 ≡ o
    → spec_run es o ≡ some b
    → Reaches (v ∷ es) t b
unfolding run_on
one_more v es t b0 b h rest none q e = absurd (absent (sym (spec_run-none es) ∙ e))
one_more v es t b0 b h rest (some b1) q e =
    let (t1, p, h1) =
      step_refines v b0.fibers (subst (Implements t) (same_states h) h)
        (ap (spec_step v) (sym (same_states h)) ∙ q) in
    let (t2, r, h2) = rest t1 b1 h1 e in (t2, ap (run_on es) p ∙ r, h2)

-- In every sequence of events that the stack allows — no fiber is resumed that is on it already, and
-- the lowest one does not yield — the thread does not fail, its current fiber is the top of the
-- stack, each parent is the fiber below, and the states are the same.
pub run_on_refines :
    (es : List Event) (t : Thread) (b0 b : Stack)
    → Implements t b0
    → spec_run es (some b0) ≡ some b
    → Reaches es t b
unfolding run_on
run_on_refines [] t b0 b h e = (t, refl, subst (Implements t) (some_inj e) h)
run_on_refines (v ∷ es) t b0 b h e =
    one_more v es t b0 b h (λ t1 b1 h1 e1. run_on_refines es t1 b1 b h1 e1) (spec_step v b0) refl e
