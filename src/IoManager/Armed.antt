-- ===== src/IoManager/Armed.antt =====
-- Every registration has EPOLLONESHOT: an event disables the entry of its descriptor. No fiber is left in
-- the queue of a disabled one.
pub mod Calls
use fiber_lib.Prelude.{
  ℕ, ◌≡◌, ◌≢◌, ◌∙◌, sym, ap, refl, Bool, true, false, ◌&&◌, ◌||◌, not, Option, none, some, List, [],
  ◌∷◌, ◌==◌, update, if◌then◌else◌, Bool-cases, if_true, if_false, subst, ◌⊎◌, inl, inr, arith,
}
use native.Mathlib.Decide.{ℕ_discrete}
use fiber_lib.WaitQueue.Laws.{notify_all_lem}
use fiber_lib.IoManager.{
  Interest, IoEvent, read, write, read_write, bits, union, without, is_none, FdContext, Ctl,
  ctl_add, ctl_mod, ctl_del, Ready, Manager, context_or_new, join_queue, add_waiter, add_to,
  add_event, del_from, del_found, del_event, wake_readers, wake_writers, wake_both, wake_found,
  wake_up, handle_fd, handle_all, process_events,
}
use fiber_lib.IoManager.Epoll.{Documented}
use fiber_lib.IoManager.Tracks.{
  IoCall, adds, dels, wakes, polls, KeepsEntries, Tracks, tracked, step, run, Tracked, step-Tracked,
}

-- A report on the descriptor.
abbrev pub reported : ℕ → List (ℕ × Ready) → Bool
reported g [] = false
reported g ((fd, r) ∷ es) = let rest = reported g es in (fd == g) || rest

-- A call of `epoll_ctl` that succeeds on a descriptor enables its entry; a report of `epoll_wait`
-- disables it; nothing else does either.
pub record OneShot {K : Type 0} (epoll_ctl : ℕ → Ctl → K → Bool × K)
    (deliver : List (ℕ × Ready) → K → K) (armed : K → ℕ → Bool) : Type 0 where
  pub enables :
      (fd : ℕ) (c : Ctl) (k : K) (g : ℕ)
      → armed (epoll_ctl fd c k).1 g
        ≡ (if (epoll_ctl fd c k).0 && (fd == g) then true else armed k g)
  pub disables :
      (es : List (ℕ × Ready)) (k : K) (g : ℕ)
      → armed (deliver es k) g ≡ (if reported g es then false else armed k g)

-- A fiber in a queue of the context waits on an enabled entry, and for its event alone.
abbrev pub ServedAt : Bool → Option FdContext → Type 0
ServedAt a none = Unit
ServedAt a (some c) =
    (c.readers ≢ [] → (a ≡ true) × (c.events.reads ≡ true) × (c.events.writes ≡ false))
    × (c.writers ≢ [] → (a ≡ true) × (c.events.reads ≡ false) × (c.events.writes ≡ true))

module _ {K : Type 0} (armed : K → ℕ → Bool) where
  abbrev pub Serves : Manager K → Type 0
  Serves m = (g : ℕ) → g ≢ m.wakeup_fd → ServedAt (armed m.kernel g) (m.contexts g)

queues_left :
    {S : Type 0} (schedule : ℕ → S → S) (a b : Bool) (c : FdContext) (s : S)
    → let c' = (wake_both schedule a b c s).0 in
      (c'.readers ≡ (if a then [] else c.readers))
      × (c'.writers ≡ (if b then [] else c.writers))
      × (c'.events ≡ c.events)
unfolding wake_both wake_readers wake_writers
queues_left schedule true true c s = (
  ap (λ t. t.1) (notify_all_lem schedule c.readers s),
  ap (λ t. t.1) (notify_all_lem schedule c.writers _),
  refl,
)
queues_left schedule true false c s =
    (ap (λ t. t.1) (notify_all_lem schedule c.readers s), refl, refl)
queues_left schedule false true c s =
    (refl, ap (λ t. t.1) (notify_all_lem schedule c.writers s), refl)
queues_left schedule false false c s = (refl, refl, refl)

pub woken-ServedAt :
    {S : Type 0} (schedule : ℕ → S → S) (x a b : Bool) (c : FdContext) (s : S)
    → ServedAt x (some c)
    → ServedAt x (some (wake_both schedule a b c s).0)
woken-ServedAt schedule x a b c s (f, g) =
    let (r, w, e) = queues_left schedule a b c s in
    ((λ n. ground (arith, f, r, e, n)), (λ n. ground (arith, g, w, e, n)))

pub at_update :
    (P : Option FdContext → Type 0) (fd g : ℕ) (o : Option FdContext)
    (contexts : ℕ → Option FdContext)
    → (fd ≡ g → P o)
    → (fd ≢ g → P (contexts g))
    → P (update contexts fd o g)
at_update P fd g o contexts same other = elim (ℕ_discrete fd g) [
  | yes e ↦ subst P (sym (if_true {b = fd == g} _ _ (ground (arith, e)))) (same e)
  | no d ↦ subst P (sym (if_false {b = fd == g} _ _ (ground (arith, d)))) (other d)
]

-- A report has something that the entry asks for, or a trouble.
abbrev pub answered : Interest → Ready → Bool
answered e r = r.trouble || ((e.reads && r.input) || (e.writes && r.output))

abbrev pub AllAnswered : (ℕ → Option Interest) → List (ℕ × Ready) → Type 0
AllAnswered entries [] = Unit
AllAnswered entries ((fd, r) ∷ es) =
    ((e : Interest) → entries fd ≡ some e → answered e r ≡ true) × AllAnswered entries es

-- A report that answers the entry empties both queues.
emptied :
    {S : Type 0} (schedule : ℕ → S → S) (x : Bool) (r : Ready) (o : Option Interest) (c : FdContext)
    (s : S)
    → ServedAt true (some c)
    → o ≡ tracked (some c)
    → ((e : Interest) → o ≡ some e → answered e r ≡ true)
    → ServedAt x (some (wake_both schedule (r.input || r.trouble) (r.output || r.trouble) c s).0)
emptied schedule x r o c s (f, g) k a =
    let (p, q, e) = queues_left schedule (r.input || r.trouble) (r.output || r.trouble) c s in
    (
      (λ n. ground (arith, f, p, e, n, k, a c.events)),
      (λ n. ground (arith, g, q, e, n, k, a c.events)),
    )

-- Between two reports of one poll: `es` are still to be handled.
pub record Pending {K : Type 0} (armed : K → ℕ → Bool) (entries : ℕ → Option Interest) (k : K)
    (es : List (ℕ × Ready)) (m : Manager K) : Type 0 where
  pub kernel_kept : m.kernel ≡ k
  pub known : (g : ℕ) → g ≢ m.wakeup_fd → entries g ≡ tracked (m.contexts g)
  pub base : (g : ℕ) → g ≢ m.wakeup_fd → ServedAt true (m.contexts g)
  pub served :
      (g : ℕ) → g ≢ m.wakeup_fd → reported g es ≡ false → ServedAt (armed k g) (m.contexts g)

module _ {K : Type 0} (armed : K → ℕ → Bool) (entries : ℕ → Option Interest) (k : K) {S : Type 0}
    (schedule : ℕ → S → S) where
  wake_found-Pending :
      (fd : ℕ) (r : Ready) (es : List (ℕ × Ready)) (o : Option FdContext) (m : Manager K) (s : S)
      → m.contexts fd ≡ o
      → fd ≢ m.wakeup_fd
      → ((e : Interest) → entries fd ≡ some e → answered e r ≡ true)
      → Pending armed entries k ((fd, r) ∷ es) m
      → Pending armed entries k es
          (wake_found schedule fd (r.input || r.trouble) (r.output || r.trouble) o m s).1
  unfolding wake_found
  wake_found-Pending fd r es none m s e d a w = record {
    kernel_kept = w.kernel_kept;
    known = w.known;
    base = w.base;
    served = λ g n u. elim (ℕ_discrete fd g) [
      | yes f ↦ subst (ServedAt (armed k g)) (sym (ap m.contexts (sym f) ∙ e)) tt
      | no f ↦ w.served g n (ground (arith, u, f))
    ];
  }
  wake_found-Pending fd r es (some c) m s e d a w =
      let known : entries fd ≡ tracked (some c) = w.known fd d ∙ ap tracked e in
      let base : ServedAt true (some c) = subst (ServedAt true) e (w.base fd d) in
      let c' = (wake_both schedule (r.input || r.trouble) (r.output || r.trouble) c s).0 in
      record {
        kernel_kept = w.kernel_kept;
        known = λ g n.
            at_update (λ x. entries g ≡ tracked x) fd g (some c') m.contexts
              (λ f. ground (
                arith,
                f,
                known,
                queues_left schedule (r.input || r.trouble) (r.output || r.trouble) c s,
              ))
              (λ f. w.known g n);
        base = λ g n.
            at_update (ServedAt true) fd g (some c') m.contexts
              (λ f. emptied schedule true r (entries fd) c s base known a) (λ f. w.base g n);
        served = λ g n u.
            at_update (ServedAt (armed k g)) fd g (some c') m.contexts
              (λ f. emptied schedule (armed k g) r (entries fd) c s base known a)
              (λ f. w.served g n (ground (arith, u, f)));
      }

  handle_fd-Pending :
      (fd : ℕ) (r : Ready) (es : List (ℕ × Ready)) (m : Manager K) (s : S)
      → ((e : Interest) → entries fd ≡ some e → answered e r ≡ true)
      → Pending armed entries k ((fd, r) ∷ es) m
      → Pending armed entries k es (handle_fd schedule fd r m s).1
  unfolding handle_fd
  handle_fd-Pending fd r es m s a w = elim (Bool-cases (fd == m.wakeup_fd)) [
    | inl e ↦
        subst {A = Bool × Manager K × S} (λ x. Pending armed entries k es x.1) (sym (if_true _ _ e))
          (record {
            kernel_kept = w.kernel_kept;
            known = w.known;
            base = w.base;
            served = λ g n u. w.served g n (ground (arith, u, e, n));
          })
    | inr e ↦
        subst {A = Bool × Manager K × S} (λ x. Pending armed entries k es x.1)
          (sym (if_false _ _ e))
          (wake_found-Pending fd r es (m.contexts fd) m s refl (ground (arith, e)) a w)
  ]

  pub handle_all-Pending :
      (es : List (ℕ × Ready)) (m : Manager K) (s : S)
      → AllAnswered entries es
      → Pending armed entries k es m
      → Pending armed entries k [] (handle_all schedule es m s).0
  unfolding handle_all
  handle_all-Pending [] m s a w = w
  handle_all-Pending ((fd, r) ∷ es) m s (a, b) w =
      let (x, m', s') = handle_fd schedule fd r m s in
      handle_all-Pending es m' s' b (handle_fd-Pending fd r es m s a w)
