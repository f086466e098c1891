-- ===== src/IoManager.antt =====
-- io_manager.cpp and include/io_manager.h: the descriptors of a consumer with the fibers that wait
-- for them. Of `events` the code uses two bits, EPOLLIN and EPOLLOUT, here a record. `epoll_ctl` is a
-- parameter on the kernel's state `K`, and `schedule` is `Scheduler::scheduleImmediate`. What
-- `epoll_wait` returns is an argument of `process_events`, and `deliver` is what it does to the kernel:
-- the flag EPOLLONESHOT is in every registration that `add_event` makes, so it disables the entries that
-- it reports.
pub mod Epoll
pub mod Tracks
pub mod Armed
pub mod Cycle
pub mod Stale
pub mod Tests
use fiber_lib.Prelude.{
  ℕ, Bool, true, false, ◌&&◌, ◌||◌, not, Option, none, some, List, [], ◌∷◌, ◌++◌, ◌==◌,
  if◌then◌else◌, update,
}
use fiber_lib.WaitQueue.{push_back, notify_all}

pub record Interest : Type 0 where
  pub reads : Bool  -- EPOLLIN
  pub writes : Bool  -- EPOLLOUT

pub data IoEvent : Type 0 where
  read : IoEvent
  write : IoEvent
  read_write : IoEvent

abbrev pub bits : IoEvent → Interest
bits read = record { reads = true; writes = false }
bits write = record { reads = false; writes = true }
bits read_write = record { reads = true; writes = true }

-- `old_events | event`
abbrev pub union : Interest → Interest → Interest
union a b = record { reads = a.reads || b.reads; writes = a.writes || b.writes }

-- `old_events & ~event`
abbrev pub without : Interest → Interest → Interest
without a b = record { reads = a.reads && not b.reads; writes = a.writes && not b.writes }

abbrev pub is_none : Interest → Bool
is_none a = not (a.reads || a.writes)

pub record FdContext : Type 0 where
  pub readers : List ℕ
  pub writers : List ℕ
  pub events : Interest

-- The calls of `epoll_ctl`, with EPOLLET as `edge`.
pub data Ctl : Type 0 where
  ctl_add : (edge : Bool) → Interest → Ctl
  ctl_mod : (edge : Bool) → Interest → Ctl
  ctl_del : Ctl

-- `revents`; `trouble` is EPOLLHUP or EPOLLERR.
pub record Ready : Type 0 where
  pub input : Bool
  pub output : Bool
  pub trouble : Bool

pub record Manager (K : Type 0) : Type 0 where
  pub running : Bool
  pub wakeup_fd : ℕ
  pub contexts : ℕ → Option FdContext  -- `fd_contexts_`
  pub kernel : K

abbrev pub new_context : FdContext
new_context = record {
  readers = [];
  writers = [];
  events = record { reads = false; writes = false };
}

-- `getOrCreateFdContext`, up to the entry in the map.
abbrev pub context_or_new : Option FdContext → FdContext
context_or_new none = new_context
context_or_new (some c) = c

-- The current fiber in the queue of the event.
unfoldable pub join_queue : IoEvent → ℕ → FdContext → FdContext
unfolding push_back
join_queue read f c = record c { readers = push_back c.readers f }
join_queue write f c = record c { writers = push_back c.writers f }
join_queue read_write f c = c

module _ {K : Type 0} (epoll_ctl : ℕ → Ctl → K → Bool × K) where
  -- The end of `addEvent`; `none` is the failed assertion that there is a current fiber.
  unfoldable pub add_waiter :
      ℕ → IoEvent → Interest → Option ℕ → FdContext → K → Manager K → Option (Bool × Manager K)
  unfolding join_queue
  add_waiter fd event new_events none c k m = none
  add_waiter fd event new_events (some f) c k m = some (
    true,
    record m {
      contexts =
          update m.contexts fd (some (join_queue event f (record c { events = new_events })));
      kernel = k;
    },
  )

  -- `addEvent` on a context; here `none` is the failed assertion that it has no event.
  unfoldable pub add_to :
      ℕ → IoEvent → Bool → Option ℕ → FdContext → Manager K → Option (Bool × Manager K)
  unfolding add_waiter
  add_to fd event edge current c m =
      let new_events = union c.events (bits event) in
      let (ok, k) = epoll_ctl fd (ctl_add edge new_events) m.kernel in
      if not (is_none c.events)
      then none
      else if not ok
      then some (false, record m { contexts = update m.contexts fd (some c); kernel = k })
      else add_waiter fd event new_events current c k m

  unfoldable pub add_event : ℕ → IoEvent → Bool → Option ℕ → Manager K → Option (Bool × Manager K)
  unfolding add_to
  add_event fd event edge current m =
      if not m.running
      then some (false, m)
      else add_to fd event edge current (context_or_new (m.contexts fd)) m

  -- The call of `epoll_ctl` with the events that remain, and the context with them.
  unfoldable pub del_from : ℕ → Interest → Bool → FdContext → Manager K → Bool × Manager K
  del_from fd new_events edge c m =
      let (ok, k) =
        epoll_ctl fd (if is_none new_events then ctl_del else ctl_mod edge new_events) m.kernel in
      if not ok then (false, record m { kernel = k }) else (
        true,
        record m {
          contexts =
              update m.contexts fd
                (if is_none new_events then none else some (record c { events = new_events }));
          kernel = k;
        },
      )

  unfoldable pub del_found : ℕ → IoEvent → Bool → Option FdContext → Manager K → Bool × Manager K
  unfolding del_from
  del_found fd event edge none m = (false, m)
  del_found fd event edge (some c) m = del_from fd (without c.events (bits event)) edge c m

  unfoldable pub del_event : ℕ → IoEvent → Bool → Manager K → Bool × Manager K
  unfolding del_found
  del_event fd event edge m =
      if not m.running then (false, m) else del_found fd event edge (m.contexts fd) m

module _ {S : Type 0} (schedule : ℕ → S → S) where
  unfoldable pub wake_readers : FdContext → S → FdContext × S
  wake_readers c s =
      let (n, q, s') = notify_all schedule c.readers s in (record c { readers = q }, s')

  unfoldable pub wake_writers : FdContext → S → FdContext × S
  wake_writers c s =
      let (n, q, s') = notify_all schedule c.writers s in (record c { writers = q }, s')

  -- Each queue is emptied if its test holds.
  unfoldable pub wake_both : Bool → Bool → FdContext → S → FdContext × S
  unfolding wake_readers wake_writers
  wake_both for_readers for_writers c s =
      let (c', s') = if for_readers then wake_readers c s else (c, s) in
      if for_writers then wake_writers c' s' else (c', s')

module _ {K S : Type 0} (schedule : ℕ → S → S) where
  -- Those that wait on a descriptor, if it has a context.
  unfoldable pub wake_found :
      ℕ → Bool → Bool → Option FdContext → Manager K → S → Bool × Manager K × S
  unfolding wake_both
  wake_found fd for_readers for_writers none m s = (false, m, s)
  wake_found fd for_readers for_writers (some c) m s =
      let (c', s') = wake_both schedule for_readers for_writers c s in
      (true, record m { contexts = update m.contexts fd (some c') }, s')

  unfoldable pub wake_up : ℕ → IoEvent → Manager K → S → Bool × Manager K × S
  unfolding wake_found
  wake_up fd event m s = wake_found fd (bits event).reads (bits event).writes (m.contexts fd) m s

  unfoldable pub handle_fd : ℕ → Ready → Manager K → S → Bool × Manager K × S
  unfolding wake_found
  handle_fd fd r m s =
      if fd == m.wakeup_fd
      then (true, m, s)
      else wake_found fd (r.input || r.trouble) (r.output || r.trouble) (m.contexts fd) m s

  unfoldable pub handle_all : List (ℕ × Ready) → Manager K → S → Manager K × S
  unfolding handle_fd
  handle_all [] m s = (m, s)
  handle_all ((fd, r) ∷ es) m s = let (b, m', s') = handle_fd fd r m s in handle_all es m' s'

  -- `processEvents`, with the events of `epoll_wait`, or its failure.
  unfoldable pub process_events :
      (deliver : List (ℕ × Ready) → K → K)
      → Option (List (ℕ × Ready))
      → Manager K
      → S
      → Manager K × S
  unfolding handle_all
  process_events deliver none m s = (m, s)
  process_events deliver (some es) m s =
      if m.running then handle_all es (record m { kernel = deliver es m.kernel }) s else (m, s)
