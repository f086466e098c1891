-- ===== src/IoManager/Tracks.antt =====
-- The contexts of a manager and the kernel's registrations, enabled or not, tell the same events.
use fiber_lib.Prelude.{
  ℕ, ◌≡◌, ◌≢◌, ◌∙◌, sym, refl, Bool, true, false, ◌||◌, not, Option, none, some, List, [], ◌∷◌,
  ◌==◌, if◌then◌else◌, Bool-cases, if_true, if_false, subst, ◌⊎◌, inl, inr, arith,
}
use fiber_lib.IoManager.{
  Interest, IoEvent, read, write, read_write, bits, union, without, is_none, FdContext, Ctl,
  ctl_add, ctl_mod, ctl_del, Ready, Manager, context_or_new, join_queue, add_waiter, add_to,
  add_event, del_from, del_found, del_event, wake_both, wake_found, wake_up, handle_fd, handle_all,
  process_events,
}
use fiber_lib.IoManager.Epoll.{Documented}

-- A call of the manager.
pub data IoCall : Type 0 where
  adds : ℕ → IoEvent → (edge : Bool) → (current : Option ℕ) → IoCall
  dels : ℕ → IoEvent → (edge : Bool) → IoCall
  wakes : ℕ → IoEvent → IoCall
  polls : Option (List (ℕ × Ready)) → IoCall

-- `registered` is what the last successful call of `epoll_ctl` asked for. `epoll_wait` disables the entries
-- that it reports, as they have EPOLLONESHOT, but neither removes an entry nor asks for other events.
abbrev pub KeepsEntries :
    {K : Type 0} → (List (ℕ × Ready) → K → K) → (K → ℕ → Option Interest) → Type 0
KeepsEntries {K} deliver registered =
    (es : List (ℕ × Ready)) (k : K) (g : ℕ) → registered (deliver es k) g ≡ registered k g

-- What a context says of its descriptor.
abbrev pub tracked : Option FdContext → Option Interest
tracked none = none
tracked (some c) = if is_none c.events then none else some c.events

module _ {K : Type 0} (registered : K → ℕ → Option Interest) where
  abbrev pub Tracks : Manager K → Type 0
  Tracks m = (g : ℕ) → g ≢ m.wakeup_fd → registered m.kernel g ≡ tracked (m.contexts g)

-- Waking fibers leaves the events.
events-wake_both :
    {S : Type 0} (schedule : ℕ → S → S) (a b : Bool) (c : FdContext) (s : S)
    → (wake_both schedule a b c s).0.events ≡ c.events
unfolding wake_both
events-wake_both schedule a b c s = ground arith

joined_events : (event : IoEvent) (f : ℕ) (c : FdContext) → (join_queue event f c).events ≡ c.events
unfolding join_queue
joined_events read f c = refl
joined_events write f c = refl
joined_events read_write f c = refl

module _ {K : Type 0} (epoll_ctl : ℕ → Ctl → K → Bool × K) (registered : K → ℕ → Option Interest)
    (laws : Documented epoll_ctl registered) where
  new_or_known :
      (o : Option FdContext)
      → o ≡ some (context_or_new o) ⊎ ((o ≡ none) × (is_none (context_or_new o).events ≡ true))
  new_or_known none = inr (refl, refl)
  new_or_known (some c) = inl refl

  -- A failed assertion leaves no manager.
  abbrev pub Keeps : Option (Bool × Manager K) → Type 0
  Keeps none = Unit
  Keeps (some (b, m)) = Tracks registered m

  if_Keeps :
      (b : Bool) (x y : Option (Bool × Manager K))
      → (b ≡ true → Keeps x)
      → (b ≡ false → Keeps y)
      → Keeps (if b then x else y)
  if_Keeps true x y p q = p refl
  if_Keeps false x y p q = q refl

  add_waiter-Keeps :
      (fd : ℕ) (event : IoEvent) (edge : Bool) (current : Option ℕ) (c : FdContext) (m : Manager K)
      → Tracks registered m
      → is_none c.events ≡ true
      → (epoll_ctl fd (ctl_add edge (union c.events (bits event))) m.kernel).0 ≡ true
      → Keeps (
          add_waiter epoll_ctl fd event
            (union c.events (bits event))
            current
            c
            (epoll_ctl fd (ctl_add edge (union c.events (bits event))) m.kernel).1
            m)
  unfolding add_waiter
  add_waiter-Keeps fd event edge none c m h n ok = tt
  add_waiter-Keeps fd event edge (some f) c m h n ok = λ g n'. ground (
    arith,
    laws.entries fd (ctl_add edge (union c.events (bits event))) m.kernel g,
    h g n',
    joined_events event f (record c { events = union c.events (bits event) }),
  )

  add_to-Keeps :
      (fd : ℕ) (event : IoEvent) (edge : Bool) (current : Option ℕ) (c : FdContext) (m : Manager K)
      → Tracks registered m
      → m.contexts fd ≡ some c ⊎ ((m.contexts fd ≡ none) × (is_none c.events ≡ true))
      → Keeps (add_to epoll_ctl fd event edge current c m)
  unfolding add_to
  add_to-Keeps fd event edge current c m h known =
      if_Keeps (not (is_none c.events)) _ _ (λ e. tt)
        λ e.
          if_Keeps (not (epoll_ctl fd (ctl_add edge (union c.events (bits event))) m.kernel).0) _ _
            (λ r g n'. ground (
              arith,
              laws.entries fd (ctl_add edge (union c.events (bits event))) m.kernel g,
              h g n',
              known,
            ))
            (λ r. add_waiter-Keeps fd event edge current c m h (ground arith) (ground arith))

  add_event-Keeps :
      (fd : ℕ) (event : IoEvent) (edge : Bool) (current : Option ℕ) (m : Manager K)
      → Tracks registered m
      → Keeps (add_event epoll_ctl fd event edge current m)
  unfolding add_event
  add_event-Keeps fd event edge current m h =
      if_Keeps (not m.running) _ _ (λ r. h)
        λ r.
          add_to-Keeps fd event edge current (context_or_new (m.contexts fd)) m h
            (new_or_known (m.contexts fd))

  del_from-Tracks :
      (fd : ℕ) (e : Interest) (edge : Bool) (c : FdContext) (m : Manager K)
      → Tracks registered m
      → Tracks registered (del_from epoll_ctl fd e edge c m).1
  unfolding del_from
  del_from-Tracks fd e edge c m h =
      let call = if is_none e then ctl_del else ctl_mod edge e in
      elim (Bool-cases (not (epoll_ctl fd call m.kernel).0)) [
        | inl r ↦
            subst {A = Bool × Manager K} (λ x. Tracks registered x.1) (sym (if_true _ _ r))
              (λ g n. ground (arith, laws.entries fd call m.kernel g, h g n, r))
        | inr r ↦
            subst {A = Bool × Manager K} (λ x. Tracks registered x.1) (sym (if_false _ _ r))
              (λ g n. ground (arith, laws.entries fd call m.kernel g, h g n, r))
      ]

  del_found-Tracks :
      (fd : ℕ) (event : IoEvent) (edge : Bool) (o : Option FdContext) (m : Manager K)
      → Tracks registered m
      → Tracks registered (del_found epoll_ctl fd event edge o m).1
  unfolding del_found
  del_found-Tracks fd event edge none m h = h
  del_found-Tracks fd event edge (some c) m h =
      del_from-Tracks fd (without c.events (bits event)) edge c m h

  del_event-Tracks :
      (fd : ℕ) (event : IoEvent) (edge : Bool) (m : Manager K)
      → Tracks registered m
      → Tracks registered (del_event epoll_ctl fd event edge m).1
  unfolding del_event
  del_event-Tracks fd event edge m h = elim (Bool-cases (not m.running)) [
    | inl e ↦ subst {A = Bool × Manager K} (λ x. Tracks registered x.1) (sym (if_true _ _ e)) h
    | inr e ↦
        subst {A = Bool × Manager K} (λ x. Tracks registered x.1) (sym (if_false _ _ e))
          (del_found-Tracks fd event edge (m.contexts fd) m h)
  ]

  module _ {S : Type 0} (schedule : ℕ → S → S) (deliver : List (ℕ × Ready) → K → K)
      (keeps : KeepsEntries deliver registered) where
    wake_found-Tracks :
        (fd : ℕ) (a b : Bool) (o : Option FdContext) (m : Manager K) (s : S)
        → m.contexts fd ≡ o
        → Tracks registered m
        → Tracks registered (wake_found schedule fd a b o m s).1
    unfolding wake_found
    wake_found-Tracks fd a b none m s e h = h
    wake_found-Tracks fd a b (some c) m s e h =
        λ g n'. ground (arith, h g n', events-wake_both schedule a b c s)

    wake_up-Tracks :
        (fd : ℕ) (event : IoEvent) (m : Manager K) (s : S)
        → Tracks registered m
        → Tracks registered (wake_up schedule fd event m s).1
    unfolding wake_up
    wake_up-Tracks fd event m s h =
        wake_found-Tracks fd (bits event).reads (bits event).writes (m.contexts fd) m s refl h

    handle_fd-Tracks :
        (fd : ℕ) (r : Ready) (m : Manager K) (s : S)
        → Tracks registered m
        → Tracks registered (handle_fd schedule fd r m s).1
    unfolding handle_fd
    handle_fd-Tracks fd r m s h = elim (Bool-cases (fd == m.wakeup_fd)) [
      | inl e ↦
          subst {A = Bool × Manager K × S} (λ x. Tracks registered x.1) (sym (if_true _ _ e)) h
      | inr e ↦
          subst {A = Bool × Manager K × S} (λ x. Tracks registered x.1) (sym (if_false _ _ e))
            (wake_found-Tracks fd (r.input || r.trouble) (r.output || r.trouble) (m.contexts fd) m s
              refl h)
    ]

    handle_all-Tracks :
        (es : List (ℕ × Ready)) (m : Manager K) (s : S)
        → Tracks registered m
        → Tracks registered (handle_all schedule es m s).0
    unfolding handle_all
    handle_all-Tracks [] m s h = h
    handle_all-Tracks ((fd, r) ∷ es) m s h =
        let (b, m', s') = handle_fd schedule fd r m s in
        handle_all-Tracks es m' s' (handle_fd-Tracks fd r m s h)

    process_events-Tracks :
        (o : Option (List (ℕ × Ready))) (m : Manager K) (s : S)
        → Tracks registered m
        → Tracks registered (process_events schedule deliver o m s).0
    unfolding process_events
    process_events-Tracks none m s h = h
    process_events-Tracks (some es) m s h = elim (Bool-cases m.running) [
      | inl e ↦
          subst {A = Manager K × S} (λ x. Tracks registered x.0) (sym (if_true _ _ e))
            (handle_all-Tracks es (record m { kernel = deliver es m.kernel }) s
              (λ g n'. keeps es m.kernel g ∙ h g n'))
      | inr e ↦ subst {A = Manager K × S} (λ x. Tracks registered x.0) (sym (if_false _ _ e)) h
    ]

    -- The manager after a call, unless an assertion failed.
    unfoldable pub step : IoCall → Manager K → S → Option (Manager K × S)
    step (adds fd event edge current) m s = elim (add_event epoll_ctl fd event edge current m) [
      | none ↦ none
      | some (b, m') ↦ some (m', s)
    ]
    step (dels fd event edge) m s = some ((del_event epoll_ctl fd event edge m).1, s)
    step (wakes fd event) m s = let (b, m', s') = wake_up schedule fd event m s in some (m', s')
    step (polls o) m s = some (process_events schedule deliver o m s)

    unfoldable pub run : List IoCall → Option (Manager K × S) → Option (Manager K × S)
    unfolding step
    run [] o = o
    run (c ∷ cs) none = none
    run (c ∷ cs) (some (m, s)) = run cs (step c m s)

    abbrev pub Tracked : Option (Manager K × S) → Type 0
    Tracked none = Unit
    Tracked (some (m, s)) = Tracks registered m

    Keeps-Tracked :
        (o : Option (Bool × Manager K)) (s : S)
        → Keeps o
        → Tracked (elim o [ none ↦ none | some (b, m) ↦ some (m, s) ])
    Keeps-Tracked none s k = tt
    Keeps-Tracked (some (b, m)) s k = k

    pub step-Tracked :
        (c : IoCall) (m : Manager K) (s : S) → Tracks registered m → Tracked (step c m s)
    unfolding step
    step-Tracked (adds fd event edge current) m s h =
        Keeps-Tracked (add_event epoll_ctl fd event edge current m) s
          (add_event-Keeps fd event edge current m h)
    step-Tracked (dels fd event edge) m s h = del_event-Tracks fd event edge m h
    step-Tracked (wakes fd event) m s h = wake_up-Tracks fd event m s h
    step-Tracked (polls o) m s h = process_events-Tracks o m s h
