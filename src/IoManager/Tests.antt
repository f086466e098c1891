-- ===== src/IoManager/Tests.antt =====
-- The witnesses of the theorems on the manager of descriptors, with a table of the kernel in which
-- every call does what the manual of `epoll_ctl` says.
use fiber_lib.Prelude.{
  ℕ, ◌≡◌, ◌≢◌, refl, Bool, true, false, not, ◌&&◌, Option, none, some, List, [], ◌∷◌, ◌==◌,
  if◌then◌else◌, update, arith,
}
use fiber_lib.IoManager.{
  Interest, IoEvent, read, write, read_write, bits, FdContext, Ctl, ctl_add, ctl_mod, ctl_del,
  Ready, Manager, add_event, del_event, handle_fd, add_to, add_waiter, process_events, handle_all,
  wake_found,
}
use fiber_lib.IoManager.Epoll.{entry, Documented}
use fiber_lib.IoManager.Tracks.{IoCall, adds, dels, wakes, polls, step, run, Tracks}
use fiber_lib.IoManager.Cycle.{cycle}
use fiber_lib.IoManager.Stale.{closed, close_stale}

abbrev Table : Type 0
Table = ℕ → Option Interest

abbrev registered : Table → ℕ → Option Interest
registered k g = k g

abbrev table_add : Option Interest → ℕ → Interest → Table → Bool × Table
table_add none fd e k = (true, update k fd (some e))
table_add (some x) fd e k = (false, k)

abbrev table_mod : Option Interest → ℕ → Option Interest → Table → Bool × Table
table_mod none fd e k = (false, k)
table_mod (some x) fd e k = (true, update k fd e)

abbrev table_ctl : ℕ → Ctl → Table → Bool × Table
table_ctl fd (ctl_add edge e) k = table_add (k fd) fd e k
table_ctl fd (ctl_mod edge e) k = table_mod (k fd) fd (some e) k
table_ctl fd ctl_del k = table_mod (k fd) fd none k

added_entries :
    (o : Option Interest) (fd : ℕ) (e : Interest) (k : Table) (g : ℕ)
    → (table_add o fd e k).1 g ≡ (if (table_add o fd e k).0 && (fd == g) then some e else k g)
added_entries none fd e k g = refl
added_entries (some x) fd e k g = refl

changed_entries :
    (o : Option Interest) (fd : ℕ) (e : Option Interest) (k : Table) (g : ℕ)
    → (table_mod o fd e k).1 g ≡ (if (table_mod o fd e k).0 && (fd == g) then e else k g)
changed_entries none fd e k g = refl
changed_entries (some x) fd e k g = refl

added_new :
    (o : Option Interest) (fd : ℕ) (e : Interest) (k : Table)
    → (table_add o fd e k).0 ≡ true
    → o ≡ none
added_new none fd e k h = refl
added_new (some x) fd e k h = absurd (ground (arith, h))

changed_old :
    (o : Option Interest) (fd : ℕ) (e : Option Interest) (k : Table)
    → (table_mod o fd e k).0 ≡ true
    → o ≢ none
changed_old none fd e k h = absurd (ground (arith, h))
changed_old (some x) fd e k h = λ p. ground (arith, p)

table-Documented : Documented table_ctl registered
table-Documented = record {
  entries = λ fd c k g. table_entries fd c k g;
  add_new = λ fd edge e k. added_new (k fd) fd e k;
  mod_old = λ fd edge e k. changed_old (k fd) fd (some e) k;
  del_old = λ fd k. changed_old (k fd) fd none k;
}
  where
    table_entries :
        (fd : ℕ) (c : Ctl) (k : Table) (g : ℕ)
        → (table_ctl fd c k).1 g ≡ (if (table_ctl fd c k).0 && (fd == g) then entry c else k g)
    table_entries fd (ctl_add edge e) k g = added_entries (k fd) fd e k g
    table_entries fd (ctl_mod edge e) k g = changed_entries (k fd) fd (some e) k g
    table_entries fd ctl_del k g = changed_entries (k fd) fd none k g

abbrev no_entries : Table
no_entries fd = none

abbrev no_contexts : ℕ → Option FdContext
no_contexts fd = none

abbrev idle_manager : Manager Table
idle_manager = record { running = true; wakeup_fd = 4; contexts = no_contexts; kernel = no_entries }

abbrev log : ℕ → List ℕ → List ℕ
log f s = f ∷ s

abbrev ready_in : Ready
ready_in = record { input = true; output = false; trouble = false }

-- Fibers 1 and 2 wait for descriptors 7 and 8, the kernel reports 7, and 7 is removed.
abbrev calls : List IoCall
calls =
    adds 7 read true (some 1)
    ∷ adds 8 write true (some 2)
    ∷ polls (some ((7, ready_in) ∷ []))
    ∷ dels 7 read true
    ∷ wakes 8 read_write
    ∷ []

-- The table with the descriptors whose entries are disabled.
abbrev Kernel : Type 0
Kernel = Table × (ℕ → Bool)

abbrev kernel_registered : Kernel → ℕ → Option Interest
kernel_registered k = k.0

abbrev kernel_ctl : ℕ → Ctl → Kernel → Bool × Kernel
kernel_ctl fd c k =
    let (b, t) = table_ctl fd c k.0 in (b, (t, if b then update k.1 fd false else k.1))

abbrev disable_all : List (ℕ × Ready) → (ℕ → Bool) → ℕ → Bool
disable_all [] d = d
disable_all ((fd, r) ∷ es) d = disable_all es (update d fd true)

abbrev deliver : List (ℕ × Ready) → Kernel → Kernel
deliver es k = (k.0, disable_all es k.1)

kernel-Documented : Documented kernel_ctl kernel_registered
kernel-Documented = record {
  entries = λ fd c k g. table-Documented.entries fd c k.0 g;
  add_new = λ fd edge e k. table-Documented.add_new fd edge e k.0;
  mod_old = λ fd edge e k. table-Documented.mod_old fd edge e k.0;
  del_old = λ fd k. table-Documented.del_old fd k.0;
}

none_disabled : ℕ → Bool
none_disabled fd = false

abbrev first_manager : Manager Kernel
first_manager = record {
  running = true;
  wakeup_fd = 4;
  contexts = no_contexts;
  kernel = (update no_entries 4 (some (bits read)), none_disabled);
}

abbrev armed : Kernel → ℕ → Bool
armed k fd = not (k.1 fd)

-- Fiber 1 waits for descriptor 7 and fiber 2 for descriptor 8, and the kernel reports 7.
abbrev one_report : List IoCall
one_report =
    adds 7 read true (some 1) ∷ adds 8 write true (some 2) ∷ polls (some ((7, ready_in) ∷ [])) ∷ []

-- Fiber 2 still waits, on an enabled entry, and the one of 7 is disabled.
two_entries :
    elim (run kernel_ctl kernel_registered kernel-Documented log deliver
      (λ es k g. refl)
      one_report
      (some (first_manager, []))) [
        | none ↦ []
        | some (m, s) ↦ armed m.kernel 7 ∷ armed m.kernel 8 ∷ []
      ]
    ≡ false ∷ true ∷ []
unfolding step run add_event add_to add_waiter process_events handle_all handle_fd wake_found
two_entries = refl

cycle_example :
    (m1 : Manager Table) × (add_event table_ctl 7 read true (some 1) idle_manager ≡ some (true, m1))
    × (let (b, m2, s') = handle_fd log 7 ready_in m1 [] in
        let (d, m3) = del_event table_ctl 7 read true m2 in
        (s' ≡ log 1 [])
        × (d ≡ true)
        × ((g : ℕ) → m3.contexts g ≡ none)
        × ((g : ℕ) → registered m3.kernel g ≡ none))
cycle_example =
    cycle table_ctl registered table-Documented log 7 1 true idle_manager read ready_in []
      (λ p. ground (arith, p)) refl refl (omega arith) refl refl refl

-- Fiber 1 waits for descriptor 7, which is closed.
abbrev blocked : FdContext
blocked = record { readers = 1 ∷ []; writers = []; events = bits read }

abbrev busy_contexts : ℕ → Option FdContext
busy_contexts = update no_contexts 7 (some blocked)

abbrev busy_manager : Manager Table
busy_manager = record idle_manager {
  contexts = busy_contexts;
  kernel = update no_entries 7 (some (bits read));
}

close_stale_example :
    let (d, m') =
      del_event table_ctl 7 read true
        (closed table_ctl registered table-Documented 7 log busy_manager [] no_entries) in
    (d ≡ false)
    × ((event' : IoEvent) (edge' : Bool) (current : Option ℕ)
        → add_event table_ctl 7 event' edge' current m' ≡ none)
close_stale_example =
    close_stale table_ctl registered table-Documented 7 log blocked busy_manager [] no_entries read
      true refl refl refl refl
