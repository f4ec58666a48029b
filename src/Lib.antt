-- ===== src/Lib.antt =====
-- Verification of the core of the Uberos kernel.
--
-- The kernel keeps its threads, its free memory and its drivers in a few small containers, and the
-- components on top of them. This library models the containers and the components as functions on
-- explicit states, translated from the C++ for the 32-bit x86 target:
--
-- - LList (common/LList.hpp): the intrusive doubly linked list. The `next` and `prev` of every item
--   are a store indexed by address, a list is its `head`, `tail` and `size`, and a method maps both.
--   LList/Links says when a list is well formed; Ends, Middle, After and Walk are about the methods,
--   and Refinement puts them together against the abstract sequence of items.
-- - PodArray (common/PodArray.hpp): the growing array of plain values, as the list of its items, with
--   functions of their own for the capacity. Capacity is about its growth.
-- - MemoryPool (common/MemoryPool.hpp): the allocator of the kernel's heap: `malloc`, `claim_block`,
--   `free` and `compact` on the sequence of free blocks that an LList links. Blocks says what
--   the free blocks cover, Search is about the two searches of `malloc`; Claim, Malloc, Refusal (no
--   block is large enough), Free, Merge and Compact are about the operations.
-- - Physical (kernel/memory.cpp): `read_physical` and `write_physical`, page by page through the scratch
--   page that the mmu points at physical memory.
-- - Mmu (kernel/arch/x86/mmu.cpp and mmu.hpp, kernel/mmu.hpp): the page tables of the kernel's mapping,
--   and the pool of tables. Entries has the bits of the entries, Ranges the operations on pages that are
--   mapped already and on ranges. Tables says that no table is shared, Pages is about one entry, Regions
--   about the counters of the two regions; Low, Steps and Mapped map one low page, LowRange a range, and
--   High, HighSteps, HighMapped and HighRange do so in the other region.
--   Access and Answers read pages, Changes, Loop and Changed change those of a range.
-- - PagedPool (kernel/memory/PagedPool.hpp): the pool that adds pages when it has no block that is
--   large enough. The page allocator of kernel/memory.cpp is a parameter, with what Growth relies on
--   as a hypothesis: it gives pages within the address space and not at address 0.
-- - Scheduler (kernel/Thread.cpp, drivers/CpuScheduler.cpp): `sleep`, `pause`, `resume`, `terminate`
--   and `set_priority` are the methods of `Thread`; they call `on_thread_sleep` and the other call
--   backs of `CpuScheduler`, which move the thread between the four lists, all of them LLists over one
--   store. `yield` chooses the next thread. Queues has the contents of the lists, Members the
--   threads that come and go, Moves the changes of state, Yield the choice, Priorities the total
--   priority and `terminate`; Runs has any sequence of calls, and Fair the turns of the threads.
-- - TimerQueue (drivers/Timer.inl): the call backs that wait for a time. Order is about `schedule`, Stuck
--   about what happens when the timer fires.
-- - DriverApi (kernel/DriverApi.cpp): what a driver has subscribed to, and how it starts, stops and
--   fails. State has what the kernel keeps of all its drivers. Memory has the ranges of memory; Ranges
--   and Release give its index loops as functions on lists, Cover and Subscriptions read them as
--   operations on sets of addresses. Interrupts and Devices have the other subscriptions: Vectors is
--   about the arrays that interrupts go to, Exclusive and Reachable about devices and ports.
--   Lifecycle has the starts and stops; Shrinks, Taken and Idle say what they take away from the
--   drivers' records, Arrays and Removed what they leave in the arrays of subscribers, and Outcomes how
--   they end.
-- - Exceptions (kernel/exceptions.cpp): the subscriptions to hardware interrupts.
-- - Drivers (kernel/drivers.cpp): the list of drivers: installing, starting, stopping and finding
--   them. Outcomes is about how the operations end, Activation about the search for one that starts.
-- - ListOrdered (common/ListOrdered.hpp): the growing array of any items, on the list of its items.
-- - EventEmitter (common/EventEmitter.hpp): the subscribers of an event and its triggers, which call backs
--   may nest. A trigger is a relation (`Runs`), since what its call backs do is left open. Deliveries is
--   about who is called, Generations about the changes of the subscribers.
-- - MpscFifo (common/MpscFifo.hpp): the queue of many producers and one consumer, as a relation (`Step`)
--   on a state that has the pushes between their two atomic steps, and whether the consumer is between
--   the two reads of a pop. Waiting is about those pushes, Order
--   about the chain of items, Pops about the consumer, Runs about any sequence of steps.
-- - Stdlib (common/stdlib.cpp): Memory has the copying loops, on memory as a function from addresses to
--   bytes; Strings the functions on text; Numbers the digits of integers.
-- - Tests: the concrete states at which the theorems are applied.
--
-- Components meet in the state: the pool keeps its free blocks in an LList, of which only the
-- sequence is kept here; the scheduler calls LList's methods on the list it picks and
-- writes the store back, the subscriptions call PodArray's. A start or a stop through Drivers calls
-- the driver's own `_on_start` or `_on_stop`, an argument (`Hooks`), which may change the whole state,
-- and DriverApi's subscriptions call Exceptions. Events, and what interrupt controllers and
-- PCI devices are told, are logged as an `Output`. What the scheduler asks of the timer
-- driver and of the context switch is logged as an `Effect`; the id that the timer returns is an
-- argument.
--
-- Bounds and fuel. Addresses, sizes and counters are natural numbers; additions and subtractions of
-- the source wrap at 2^32 (`add32`, `sub32`). A loop along links or over an index takes fuel and
-- returns `none` when it runs out. One round more than items is enough for the walks of LList and
-- for the loops of `subscribe_memory`, two rounds more for that of `unsubscribe_memory`; the
-- theorems say so, or hold for the fuel that the definition gives. `compact` gives its loops one
-- round more than free blocks; an inner round removes a block. Two rounds are enough for the loop of
-- the paged pool. The text functions take one round of fuel more than the text has bytes, the loops
-- over digits as many rounds as the type has digits, and the loops over pages one round for every
-- page that the size has and two more. The loops of the mmu take one round more than pages, `clear` of
-- the queue one more than items.
--
-- Not modelled: `LList::pop_back`, which does not compile for the kernel's items, and of `LList::clear` all but what a walk from the head meets after it;
-- `malloc_fixed_size`, `subscribe_available_irq` and `ftoa`; the page allocator, the masks and the
-- claims of hardware timers; the summaries of the drivers that are printed;
-- the start of the mmu, the page tables of other architectures and of processes other than the kernel;
-- weaker memory orders than a single order of all atomic accesses; hardware access, assembly, output,
-- graphics and the user interface. `subscribe_memory` keeps only whether a mapping is asked for.
pub mod DriverApi
pub mod Drivers
pub mod EventEmitter
pub mod Exceptions
pub mod LList
pub mod ListOrdered
pub mod MemoryPool
pub mod Mmu
pub mod MpscFifo
pub mod PagedPool
pub mod Physical
pub mod PodArray
pub mod Prelude
pub mod Scheduler
pub mod Stdlib
pub mod Tests
pub mod TimerQueue
