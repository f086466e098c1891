-- ===== src/Lib.antt =====
-- A library of stackful fibers for C++: fibers run on consumers (one thread each), block in wait
-- queues, talk through channels, and are woken by timers and by ready file descriptors.
--
-- The parts and their files:
-- * TaggedPtr (include/lockfree/tagged_node_ptr.h): the word of address and tag that every
--   compare-exchange of the lock-free structures compares.
-- * FreeList (include/lockfree/freelist.h): the accesses of `allocate_impl` and `deallocate_impl`, by any
--   number of threads; FreeList/Alone has what runs without other threads.
-- * LinkedList (include/lockfree/lockfree_linked_list.h): `push_back` and `pop_front` are the
--   `_lockfree` functions, as whole calls whose exchanges may fail. LinkedList/Threads has the same two
--   functions by any number of threads: `advance` is a thread's next atomic access, and a push takes a
--   new node or a destroyed one.
-- * Context (context.cpp, include/context.h): `UContext` with its mappings; Context/Asm has `AsmContext`,
--   whose `start_asm` is `AsmContext::initialize`, and Context/Swap the processor in `coctx_swap` of
--   swap_context.S.
-- * WaitQueue (wait_queue.cpp, include/wait_queue.h): the blocked fibers, oldest first. `wait`,
--   `notify_one` and `notify_all` have the source's names.
-- * Channel (include/channel.h): `try_push` and `try_pop` are the ring's `_lockfree` functions;
--   Channel/Calls has the blocking and the non-blocking calls, `call` picks one; Channel/Spec is the
--   bounded queue that a channel promises; Channel/Timeout has the timed calls, cut at each `wait`,
--   and the callbacks of their timers; Channel/Threads has the two `_lockfree` functions by several
--   threads, one atomic access at a time.
-- * Timer (timer.cpp, include/timer.h): the timing wheel of a consumer; Timer/Tick has `tick` with
--   its parts: `process_pending` is `processPendingTimers`, `visit` is one turn of the loop over the
--   bucket, `pass` is what follows the pending timers.
-- * Mutex (`FiberMutex` of include/sync.h and sync.cpp): each turn is one atomic access of one
--   fiber; `move` is the next access of `lock` or `unlock`, `run` an interleaving.
-- * Condition (`FiberCondition` of the same files): `begin_wait` and `advance` are the accesses of
--   `wait` and `wait_for`, on the turns of a Mutex; `expire` is the callback of the timer.
-- * SpinLock (`SpinLock` of include/sync.h): a turn is one exchange of one thread in `lock` or
--   `try_lock`, or its `unlock`.
-- * WaitGroup (`WaitGroup` of the same files): `add`, `done` and `wait` as whole calls.
-- * IoFiber (io_fiber.cpp): `do_io` is `IO::doIO`, the loop of every call of a descriptor, and
--   `writev` is `IO::writev` on it, with `skip` for the loop that moves the buffers on;
--   IoFiber/Read has the operation of `IO::read_et`, IoFiber/Recv, Accept and Connect have `recv_et`,
--   `accept_et` and `connect`.
-- * Fiber (fiber.cpp): `resume`, `yield`, `block_yield` and the end of `fiberEntry` as steps of one
--   thread; Fiber/Spec is the stack of active fibers that they implement.
-- * IoManager (io_manager.cpp, include/io_manager.h): `add_event`, `del_event`, `wake_up`, `handle_fd`
--   and `process_events` on the table of descriptors; IoManager/Epoll states what `epoll_ctl` does, and
--   IoManager/Tracks and IoManager/Armed what `epoll_wait` keeps and disables.
-- * Scheduler (scheduler.cpp, fiber_consumer.cpp, `Fiber::go`): `schedule_immediate` and
--   `select_consumer` choose a consumer, `pop_task` and `end_turn` are the ends of a turn of
--   `processTask`; Scheduler/Affinity interleaves them, Scheduler/Batch is the loop on one thread, and
--   Scheduler/Stop is `Scheduler::stop`.
-- Channels and the other primitives block fibers in wait queues, which are lock-free lists, as are the
-- queues of the consumers; the nodes of the lists come from free lists. The timed calls of a channel
-- and of a condition variable, and the calls of descriptors, add timers; those wait in an IoManager.
--
-- Parameters. `schedule` is what `Scheduler::scheduleImmediate` does to the rest of the program,
-- `arm` what `TimerWheel::addTimer` does to it, `moved` what a C++ move leaves in its source,
-- `refused` whether `compare_exchange_weak` fails although the slot is empty, `effects` what each
-- callback of a timer does to the wheel (adding and canceling timers). The kernel's answers to
-- `writev` and `read`, and what ends each wait of `do_io` are lists, and so are the turns of the mutex.
-- What mmap, mprotect and malloc answer to a context are arguments.
-- `epoll_ctl` works on a state of the kernel that is a parameter, as does `deliver`, by which `epoll_wait`
-- disables the entries that it reports; `Documented`, `KeepsEntries` and `OneShot` have what the
-- manuals say. What fibers do between their switches is a script for each of them.
--
-- Bounds and loops. Indices and ticks are 64-bit words whose wrap-around is written out; a channel
-- of `n` values needs `n + 1 < 2^64`, a wheel fewer than 2^32 slots, a timeout is below 2^63 ms, and
-- the free list runs for fewer than 2^16 accesses, after which a tag may come back. The loops over a
-- bucket and over a wait queue run over their lists, the one over the pending timers takes at most
-- 100 of them. The loops of `processTask`, of `stop`, of the lock-free list and of the destructor of
-- the free list have fuel, and their theorems say how much is enough. The contexts of a processor do not
-- reach past 2^64 and do not overlap.
--
-- Not modelled: two consumers inside one operation at a time, except for the mutex, the condition
-- variable, the spin lock, the scheduler, the free list, LinkedList/Threads and Channel/Threads (each
-- operation of the other parts runs as a whole); in the theorems on LinkedList/Threads, a push in a
-- node that another push has read as its tail, which was popped and destroyed meanwhile (line 51 builds
-- `next` anew with tag 0); `Fiber::sleep`; the calls of descriptors that only pass a system call to `doIO`, and the waits of a
-- condition variable with a predicate; the code for i386, and what swapcontext does; system calls; and
-- the vendored include/lockfree/concurrentqueue.h, which is a library of its own.
pub mod Prelude
pub mod TaggedPtr
pub mod Context
pub mod WaitQueue
pub mod Channel
pub mod Timer
pub mod Mutex
pub mod WaitGroup
pub mod IoFiber
pub mod IoManager
pub mod Fiber
pub mod Scheduler
pub mod FreeList
pub mod Condition
pub mod LinkedList
pub mod SpinLock
