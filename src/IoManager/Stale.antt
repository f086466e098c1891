-- ===== src/IoManager/Stale.antt =====
-- A descriptor that is closed while a fiber waits for it (`IO::close`, `IOManager::delEvent`).
use fiber_lib.Prelude.{
  ℕ, ◌≡◌, ◌≢◌, ◌∙◌, sym, ap, refl, subst, if_true, if_false, Bool-cases, inl, inr, Bool, true,
  false, not, Option, none, some, if◌then◌else◌, arith, ==_refl,
}
use fiber_lib.IoManager.{
  Interest, IoEvent, read_write, bits, without, is_none, FdContext, Ctl, ctl_mod, ctl_del, Manager,
  context_or_new, add_to, add_event, del_from, del_found, del_event, wake_readers, wake_writers,
  wake_both, wake_found, wake_up,
}
use fiber_lib.IoManager.Epoll.{Documented}

module _ {K : Type 0} (epoll_ctl : ℕ → Ctl → K → Bool × K) (registered : K → ℕ → Option Interest)
    (laws : Documented epoll_ctl registered) (fd : ℕ) where
  -- The manager has events for a descriptor that the kernel does not know any more.
  pub record IsStale (m : Manager K) (c : FdContext) : Type 0 where
    pub on : m.running ≡ true
    pub known : m.contexts fd ≡ some c
    pub expected : is_none c.events ≡ false
    pub gone : registered m.kernel fd ≡ none

  busy :
      (c : FdContext) (m : Manager K)
      → IsStale m c
      → (event : IoEvent) (edge : Bool) (current : Option ℕ)
      → add_event epoll_ctl fd event edge current m ≡ none
  unfolding add_event add_to
  busy c m h event edge current =
      if_false _ _ (ap not h.on)
      ∙ ap (λ o. add_to epoll_ctl fd event edge current (context_or_new o) m) h.known
      ∙ if_true _ _ (ap not h.expected)

  not_true : (b : Bool) → b ≢ true → b ≡ false
  not_true true h = absurd (h refl)
  not_true false h = refl

  -- No removal succeeds.
  refused :
      (e : Interest) (edge : Bool) (m : Manager K)
      → registered m.kernel fd ≡ none
      → (epoll_ctl fd (if is_none e then ctl_del else ctl_mod edge e) m.kernel).0 ≡ false
  refused e edge m gone = elim (Bool-cases (is_none e)) [
    | inl n ↦
        subst (λ x. (epoll_ctl fd x m.kernel).0 ≡ false) (sym (if_true _ _ n))
          (not_true _ (λ ok. laws.del_old fd m.kernel ok gone))
    | inr n ↦
        subst (λ x. (epoll_ctl fd x m.kernel).0 ≡ false) (sym (if_false _ _ n))
          (not_true _ (λ ok. laws.mod_old fd edge e m.kernel ok gone))
  ]

  del_from-IsStale :
      (e : Interest) (edge : Bool) (c : FdContext) (m : Manager K)
      → IsStale m c
      → let (d, m') = del_from epoll_ctl fd e edge c m in (d ≡ false) × IsStale m' c
  unfolding del_from
  del_from-IsStale e edge c m h =
      let no = refused e edge m h.gone in
      subst {A = Bool × Manager K} (λ x. (x.0 ≡ false) × IsStale x.1 c)
        (sym (if_true _ _ (ap not no)))
        (
          refl,
          record {
            on = h.on;
            known = h.known;
            expected = h.expected;
            gone = ground (
              arith,
              laws.entries fd (if is_none e then ctl_del else ctl_mod edge e) m.kernel fd,
              no,
              h.gone,
            );
          },
        )

  del_event-IsStale :
      (event : IoEvent) (edge : Bool) (c : FdContext) (m : Manager K)
      → IsStale m c
      → let (d, m') = del_event epoll_ctl fd event edge m in (d ≡ false) × IsStale m' c
  unfolding del_event del_found
  del_event-IsStale event edge c m h =
      subst {A = Bool × Manager K} (λ x. (x.0 ≡ false) × IsStale x.1 c)
        (sym (if_false _ _ (ap not h.on) ∙ ap (λ o. del_found epoll_ctl fd event edge o m) h.known))
        (del_from-IsStale (without c.events (bits event)) edge c m h)

  module _ {S : Type 0} (schedule : ℕ → S → S) where
    -- `IO::close` up to `::close`, which takes the descriptor out of the kernel's table.
    abbrev pub closed : Manager K → S → K → Manager K
    closed m s k = record (wake_up schedule fd read_write m s).1 { kernel = k }

    wake_found-IsStale :
        (c : FdContext) (m : Manager K) (s : S) (k : K)
        → m.running ≡ true
        → is_none c.events ≡ false
        → registered k fd ≡ none
        → (c' : FdContext) × IsStale
            (record (wake_found schedule fd true true (some c) m s).1 { kernel = k })
            c'
    unfolding wake_found wake_both wake_readers wake_writers
    wake_found-IsStale c m s k on busy gone =
        (_, record { on = on; known = if_true _ _ (==_refl fd); expected = busy; gone = gone })

    -- A close while a fiber waits for the descriptor leaves its context with its events: whatever
    -- `delEvent` the woken fiber calls, with the kernel's entry gone, fails, and from then on each
    -- `addEvent` for the same number fails its assertion.
    pub close_stale :
        (c : FdContext) (m : Manager K) (s : S) (k : K) (event : IoEvent) (edge : Bool)
        → m.running ≡ true
        → m.contexts fd ≡ some c
        → is_none c.events ≡ false
        → registered k fd ≡ none
        → let (d, m') = del_event epoll_ctl fd event edge (closed m s k) in
          (d ≡ false)
          × ((event' : IoEvent) (edge' : Bool) (current : Option ℕ)
              → add_event epoll_ctl fd event' edge' current m' ≡ none)
    unfolding wake_up
    close_stale c m s k event edge on known expected gone =
        let (c', h) = wake_found-IsStale c m s k on expected gone in
        let same : record (wake_found schedule fd true true (some c) m s).1 { kernel = k }
            ≡ closed m s k =
          ap {B = Manager K} (λ o. record (wake_found schedule fd true true o m s).1 { kernel = k })
            (sym known) in
        let (d, h') =
          del_event-IsStale event edge c' (closed m s k) (subst (λ x. IsStale x c') same h) in
        (d, busy c' (del_event epoll_ctl fd event edge (closed m s k)).1 h')
