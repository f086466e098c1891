-- ===== src/IoManager/Cycle.antt =====
-- One wait for a descriptor, as `doIO` makes it: `addEvent`, an event, `delEvent`.
use fiber_lib.Prelude.{
  ℕ, ◌≡◌, ◌≢◌, ◌∙◌, sym, ap, refl, ==_refl, if_true, if_false, subst, Bool, true, false, ◌||◌, not,
  Option, none, some, ◌==◌, update, arith,
}
use native.Mathlib.Decide.{ℕ_discrete}
use fiber_lib.WaitQueue.{notify_all}
use fiber_lib.IoManager.{
  Interest, IoEvent, read, write, read_write, bits, FdContext, Ctl, ctl_add, ctl_del, Ready,
  Manager, new_context, context_or_new, join_queue, add_to, add_event, del_from, del_found,
  del_event, wake_found, handle_fd,
}
use fiber_lib.IoManager.Epoll.{Documented}

-- The kernel's report answers the event.
abbrev pub answers : IoEvent → Ready → Bool
answers read r = r.input || r.trouble
answers write r = r.output || r.trouble
answers read_write r = false

module _ {K : Type 0} (epoll_ctl : ℕ → Ctl → K → Bool × K) (registered : K → ℕ → Option Interest)
    (laws : Documented epoll_ctl registered) {S : Type 0} (schedule : ℕ → S → S) (fd f : ℕ)
    (edge : Bool) (m : Manager K) where
  -- The manager while the fiber waits.
  abbrev pub waiting : IoEvent → Manager K
  waiting event = record m {
    contexts =
        update m.contexts fd
          (some (join_queue event f (record new_context { events = bits event })));
    kernel = (epoll_ctl fd (ctl_add edge (bits event)) m.kernel).1;
  }

  add_lem :
      (event : IoEvent)
      → m.running ≡ true
      → m.contexts fd ≡ none
      → (epoll_ctl fd (ctl_add edge (bits event)) m.kernel).0 ≡ true
      → add_event epoll_ctl fd event edge (some f) m ≡ some (true, waiting event)
  unfolding add_event
  add_lem event on free ok =
      if_false _ _ (ap not on)
      ∙ ap (λ o. add_to epoll_ctl fd event edge (some f) (context_or_new o) m) free
      ∙ if_false _ _ (ap not ok)

  -- What the manager is for the other descriptors, and what it has for `fd`.
  record Woken (event : IoEvent) (m' : Manager K) : Type 0 where
    still_on : m'.running ≡ m.running
    same_kernel : m'.kernel ≡ (waiting event).kernel
    mine : m'.contexts fd ≡ some (record new_context { events = bits event })
    others : (g : ℕ) → fd ≢ g → m'.contexts g ≡ m.contexts g

  wake_found_lem :
      (event : IoEvent) (r : Ready) (s : S)
      → answers event r ≡ true
      → let (b, m', s') =
          wake_found schedule fd
            (r.input || r.trouble)
            (r.output || r.trouble)
            (some (join_queue event f (record new_context { events = bits event })))
            (waiting event)
            s in
        (s' ≡ schedule f s) × Woken event m'
  unfolding wake_found join_queue notify_all
  wake_found_lem read r s a = ground (arith, a)
  wake_found_lem write r s a = ground (arith, a)
  wake_found_lem read_write r s a = absurd (ground (arith, a))

  handle_lem :
      (event : IoEvent) (r : Ready) (s : S)
      → answers event r ≡ true
      → fd ≢ m.wakeup_fd
      → let (b, m', s') = handle_fd schedule fd r (waiting event) s in
        (s' ≡ schedule f s) × Woken event m'
  unfolding handle_fd
  handle_lem event r s a d =
      let here : (waiting event).contexts fd
          ≡ some (join_queue event f (record new_context { events = bits event })) =
        if_true _ _ (==_refl fd) in
      subst {A = Bool × Manager K × S} (λ x. (x.2 ≡ schedule f s) × Woken event x.1)
        (sym (
          if_false {b = fd == m.wakeup_fd} _ _ (ground (arith, d))
          ∙ ap
              (λ o.
                wake_found schedule fd (r.input || r.trouble) (r.output || r.trouble) o
                  (waiting event) s)
              here))
        (wake_found_lem event r s a)

  back :
      (event : IoEvent) (m' : Manager K) (g : ℕ)
      → Woken event m'
      → m.contexts fd ≡ none
      → update m'.contexts fd none g ≡ m.contexts g
  back event m' g w free = elim (ℕ_discrete fd g) [
    | yes e ↦ rw (← e) (ground (arith, free))
    | no n ↦ ground (arith, w.others g n)
  ]

  drop_lem :
      (c : FdContext) {k : K} (m' : Manager K)
      → m'.kernel ≡ k
      → (epoll_ctl fd ctl_del k).0 ≡ true
      → del_from epoll_ctl fd (record { reads = false; writes = false }) edge c m' ≡ (
        true,
        record m' { contexts = update m'.contexts fd none; kernel = (epoll_ctl fd ctl_del k).1 },
      )
  unfolding del_from
  drop_lem c m' e ok =
      if_false _ _ (ap not (ap (λ x. (epoll_ctl fd ctl_del x).0) e ∙ ok))
      ∙ ap {B = Bool × Manager K}
          (λ x. (
            true,
            record m' {
              contexts = update m'.contexts fd none;
              kernel = (epoll_ctl fd ctl_del x).1;
            },
          ))
          e

  del_lem :
      (event : IoEvent) (m' : Manager K)
      → event ≢ read_write
      → Woken event m'
      → m.running ≡ true
      → (epoll_ctl fd ctl_del (waiting event).kernel).0 ≡ true
      → del_event epoll_ctl fd event edge m' ≡ (
        true,
        record m' {
          contexts = update m'.contexts fd none;
          kernel = (epoll_ctl fd ctl_del (waiting event).kernel).1;
        },
      )
  unfolding del_event
  del_lem read m' n w on ok =
      if_false _ _ (ap not (w.still_on ∙ on))
      ∙ ap (λ o. del_found epoll_ctl fd read edge o m') w.mine
      ∙ drop_lem (record new_context { events = bits read }) m' w.same_kernel ok
  del_lem write m' n w on ok =
      if_false _ _ (ap not (w.still_on ∙ on))
      ∙ ap (λ o. del_found epoll_ctl fd write edge o m') w.mine
      ∙ drop_lem (record new_context { events = bits write }) m' w.same_kernel ok
  del_lem read_write m' n w on ok = absurd (n refl)

  -- The entries of the kernel after the registration and its removal.
  entries_back :
      (event : IoEvent) (g : ℕ)
      → (epoll_ctl fd (ctl_add edge (bits event)) m.kernel).0 ≡ true
      → (epoll_ctl fd ctl_del (waiting event).kernel).0 ≡ true
      → registered (epoll_ctl fd ctl_del (waiting event).kernel).1 g ≡ registered m.kernel g
  entries_back event g ok gone = elim (ℕ_discrete fd g) [
    | yes e ↦ rw (← e) (
        ground (
          arith,
          laws.entries fd ctl_del (waiting event).kernel fd,
          laws.add_new fd edge (bits event) m.kernel ok,
        ))
    | no n ↦ ground (
      arith,
      laws.entries fd ctl_del (waiting event).kernel g,
      laws.entries fd (ctl_add edge (bits event)) m.kernel g,
    )
  ]

  -- A fiber that waits for reading or for writing on a descriptor without a context, registered by
  -- `addEvent`, is scheduled once by an event that answers it; `delEvent` then leaves every context
  -- and every registration as it was before.
  pub cycle :
      (event : IoEvent) (r : Ready) (s : S)
      → event ≢ read_write
      → m.running ≡ true
      → m.contexts fd ≡ none
      → fd ≢ m.wakeup_fd
      → answers event r ≡ true
      → (epoll_ctl fd (ctl_add edge (bits event)) m.kernel).0 ≡ true
      → (epoll_ctl fd ctl_del (epoll_ctl fd (ctl_add edge (bits event)) m.kernel).1).0 ≡ true
      → (m1 : Manager K) × (add_event epoll_ctl fd event edge (some f) m ≡ some (true, m1))
        × (let (b, m2, s') = handle_fd schedule fd r m1 s in
            let (d, m3) = del_event epoll_ctl fd event edge m2 in
            (s' ≡ schedule f s)
            × (d ≡ true)
            × ((g : ℕ) → m3.contexts g ≡ m.contexts g)
            × ((g : ℕ) → registered m3.kernel g ≡ registered m.kernel g))
  cycle event r s n on free d a ok gone =
      let (e, w) = handle_lem event r s a d in
      let m2 = (handle_fd schedule fd r (waiting event) s).1 in
      let last = sym (del_lem event m2 n w on gone) in
      (
        waiting event,
        add_lem event on free ok,
        (
          e,
          subst {A = Bool × Manager K} (λ x. x.0 ≡ true) last refl,
          subst {A = Bool × Manager K} (λ x. (g : ℕ) → x.1.contexts g ≡ m.contexts g) last
              (λ g. back event m2 g w free),
          subst {A = Bool × Manager K}
              (λ x. (g : ℕ) → registered x.1.kernel g ≡ registered m.kernel g) last
              (λ g. entries_back event g ok gone),
        ),
      )
