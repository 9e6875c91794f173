-- ===== src/Lib.antt =====
-- bbtools-coroutine: stackful coroutines in C++, scheduled on worker threads. A coroutine runs on a
-- stack of a shared pool, waits by parking on an event that a poller, a timer or another coroutine
-- triggers, and synchronises with others through locks built from such waits.
--
-- The parts that are modelled, with the files that model them:
--
-- * The stack pool, bbt/coroutine/detail/StackPool.cc and Stack.cc. StackPool.antt has the critical
--   sections of Apply, Release and _TakeIdleLocked as functions from pool to pool; StackPool/Reclaim the
--   loops of ReleaseUnused and OnUpdate; StackPool/Size the size and the construction of a stack, with
--   the page size, the allocator and mprotect as arguments. StackPool/Invariant says what the counters
--   mean, StackPool/System interleaves the critical sections of any number of callers. Counters are
--   size_t and wrap at 2^64. The loop of ReleaseUnused runs on fuel, more than the cached stacks being
--   enough. The moving average is rounded as the doubles of the source do below 2^50.
-- * The state word of an event and the calls that race on it, CoPollEvent in
--   bbt/coroutine/detail/Define.hpp and CoPollEvent.cc. PollEvent/State has the phases and the packing;
--   PollEvent/Machine the calls Trigger, Regist, CommitPark, UnRegist, InitFdEvent, InitCustomEvent and
--   _Complete, a step for each atomic access, with loads, exchanges that fail and late stores told apart.
--   Its lists `won` and `called` are a history that the program does not keep.
-- * The table of file descriptors with their generations, PollEvent/Slots: _TrackWaiter, _UntrackWaiter,
--   BeginFdClose, EndFdClose and the readers, one critical section each. Whether a weak pointer is alive is
--   an argument of each call. PollEvent/Slots/Laws describes the table slot by slot, PollEvent/Slots/Closing
--   follows a wait through closings of its descriptor. Generations wrap at 2^64.
-- * The reader-writer lock, bbt/coroutine/sync/CoRWMutex.cc. CoRwMutex.antt has what its critical sections
--   do to the lock's fields and queues, CoRwMutex/System the operations as moves of coroutines, waits that
--   fail, throw, time out or are cancelled included. The counters are int, as their 32 bits.
-- * The mutex, bbt/coroutine/sync/CoMutex.cc, and the condition variable, CoCond.cc, in the same way:
--   CoMutex.antt and CoMutex/System, and CoCond.antt. NotifyAll runs on fuel, more than the queued
--   waiters being enough when nobody joins the queue meanwhile.
-- * The waiter, bbt/coroutine/sync/CoWaiter.cc, with RegistCustom of bbt/coroutine/detail/Coroutine.cc.
--   CoWaiter.antt has the place, Notify and the mapping of masks; CoWaiter/Waits the waiting calls with
--   every early return. Times are nanoseconds; the two readings of the clock are arguments.
--   CoWaiter/Waits/Timers follows the limit of a wait into the event of the poller.
-- * The run queue of a worker, bbt/coroutine/detail/CfsRunQueue.hpp: CfsRunQueue.antt, with the type of the
--   virtual times (doubles in the source) a parameter; only their order is relied on.
-- * The channels, bbt/coroutine/sync/__TChan.hpp: Chan.antt has the critical sections of the one with a buffer,
--   with what went in and came out as a history, and Chan/System the calls as moves of coroutines. Chan/Direct
--   is the one without a buffer; its indices wrap at 2^64.
-- * The coroutine, bbt/coroutine/detail/Coroutine.cc: Coroutine.antt has what its calls and its wake-up do to its
--   fields, Coroutine/Life the order in which a worker, its body and the triggers of its event make them, the
--   event being taken by its whole state word; Coroutine/Wakes joins it to the table of descriptors.
-- * A worker, bbt/coroutine/detail/Processer.cc. Processer/Admission interleaves the atomic steps of
--   _EnqueueAdmitted, Steal, GetCoroutineFromGlobal, _BeginRetire and the worker's own loop; the queues give
--   any of their elements, and the counter of calls under way is not bounded. Processer/Driver has the slot of
--   the driver with the leases of its callbacks, nested to any depth, and its detachment. Generations end at
--   2^64 - 1.
--   Processer/Sleep has what a worker does before it sleeps, on its condition variable or in its driver, against the
--   threads that bring it work or retire it, each access to the latch and the mutex a step.
-- * The scheduler, bbt/coroutine/detail/Scheduler.cc, with the check of its configuration in GlobalConfig.cc.
--   Scheduler/Resize has the batches of new workers and the choice of those that retire, Scheduler/Ticks the samples
--   of the load and the automatic steps, Scheduler/Scaling both as moves of threads with the reaping of ended workers;
--   what is done under m_lifecycle_mutex is one move. Scheduler/Rounds has the rounds of _LoadBlance2Proc and
--   TryWorkSteal. Counters of the load and the interval are words of 64 bits.
-- * The system calls as a coroutine makes them, bbt/coroutine/detail/Hook.cc. Hook/Io has the loop of call, wait and
--   retry with the guards of flags and offset, on the table of descriptors of PollEvent/Slots, and Hook/Calls the calls
--   that run it; Hook/Sleeps the sleeps, in milliseconds of an int; Hook/Select poll and select. The kernel's answers and what other threads do to the
--   table meanwhile are arguments; a loop ends with its list of rounds.
-- * An event of the poller, bbt/pollevent/Event.cc: Event.antt. Operations given to asio are pending until they are
--   completed or aborted, in any order; every handler looks at the round of its registration. Rounds wrap at 2^64.
-- * The pool of coroutines, bbt/coroutine/pool/CoPool.cc: CoPool.antt, with its latch; a wait of a worker may end
--   at any time.
--
-- They meet where a waiter's event is triggered (CoWaiter on PollEvent/Machine),
-- where the timer of a wait is set (CoWaiter on Event), where the queues of
-- the locks and channels hold waiters, of which they see only whether they still wait, where a
-- coroutine that wakes compares the generation of its descriptor (Coroutine on PollEvent/Slots), and where a worker
-- commits or queues a coroutine (Coroutine/Life, Processer/Admission); a hook waits on the same table and the same
-- coroutine (Hook/Io).
--
-- Not modelled: the start of the scheduler, the gate of a batch of threads and the registration of tasks; the loop
-- that drives the events, and the resolver; the wrappers that choose between a hook and the original call; objects,
-- lock guards, the macros and the diagnostics; memory that runs out outside of the places named above; _Preload of the
-- pool.
pub mod Base
pub mod CfsRunQueue
pub mod Chan
pub mod CoCond
pub mod CoMutex
pub mod CoPool
pub mod CoRwMutex
pub mod CoWaiter
pub mod Coroutine
pub mod Event
pub mod Hook
pub mod PollEvent
pub mod Processer
pub mod Scheduler
pub mod StackPool
