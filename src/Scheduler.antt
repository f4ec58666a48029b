-- ===== src/Scheduler.antt =====
-- kernel/Thread.cpp and drivers/CpuScheduler.cpp: the states of a thread, and the scheduler's four
-- intrusive lists of threads. A method maps the whole state; what it asks of the timer driver and
-- of the processor is logged, newest first. The lists share one store of links (LList).
pub mod Queues
pub mod Moves
pub mod Yield
pub mod Priorities
pub mod Members
pub mod Runs
pub mod Fair
use uberos.Prelude.{
  ℕ, zero, suc, ◌+◌, ◌*◌, ◌/◌, ◌%◌, List, [], ◌∷◌, Option, none, some, Bool, true, false, ◌||◌,
  ◌&&◌, not, ◌==◌, leb, if◌then◌else◌, add32, sub32, u32_mod,
}
use uberos.LList
use uberos.LList.{Ptr, null, Store, LList}

-- `Thread::State`
pub data ThreadState : Type 0 where
  active sleeping paused terminated : ThreadState

abbrev pub same_state : ThreadState → ThreadState → Bool
same_state active active = true
same_state sleeping sleeping = true
same_state paused paused = true
same_state terminated terminated = true
same_state _ _ = false

-- `process_priority` is `process.priority`; `scheduled` tells whether `scheduler` is set.
pub record Thread : Type 0 where
  pub state : ThreadState
  pub priority : ℕ
  pub process_priority : ℕ
  pub scheduled : Bool
  pub pending_timer_id : ℕ

-- What is asked of other components.
pub data Effect : Type 0 where
  timer_stop : Effect
  timer_set : ℕ → Effect
  schedule : ℕ → Ptr → Effect
  swap_state : Ptr → Ptr → Effect
  terminated_event : Ptr → Effect

pub record CpuScheduler : Type 0 where
  pub threads : Ptr → Thread
  pub links : Store
  pub active_threads : LList
  pub sleeping_threads : LList
  pub paused_threads : LList
  pub terminated_threads : LList
  pub total_active_priority : ℕ
  pub current_thread : Ptr
  pub kernel_thread : Ptr
  pub min_interval : ℕ
  pub average_interval : ℕ
  pub max_interval : ℕ
  pub log : List Effect

-- The list that the scheduler keeps for a state, and its replacement.
abbrev pub queue : CpuScheduler → ThreadState → LList
queue s active = s.active_threads
queue s sleeping = s.sleeping_threads
queue s paused = s.paused_threads
queue s terminated = s.terminated_threads

abbrev pub with_queue : CpuScheduler → ThreadState → LList.State → CpuScheduler
with_queue s active r = record s { links = r.links; active_threads = r.list }
with_queue s sleeping r = record s { links = r.links; sleeping_threads = r.list }
with_queue s paused r = record s { links = r.links; paused_threads = r.list }
with_queue s terminated r = record s { links = r.links; terminated_threads = r.list }

abbrev pub view : CpuScheduler → ThreadState → LList.State
view s k = record { links = s.links; list = queue s k }

-- `…Threads.pop(thread)` and `…Threads.push_back(thread)`
pub pop : ThreadState → Ptr → CpuScheduler → CpuScheduler
pop k thread s = with_queue s k (LList.pop thread (view s k))

pub push_back : ThreadState → Ptr → CpuScheduler → CpuScheduler
push_back k thread s = with_queue s k (LList.push_back thread (view s k))

pub update : Ptr → (Thread → Thread) → CpuScheduler → CpuScheduler
update thread f s = record s { threads = λ a. if a == thread then f (s.threads a) else s.threads a }

pub set_state : Ptr → ThreadState → CpuScheduler → CpuScheduler
unfolding update
set_state thread k s = update thread (λ t. record t { state = k }) s

abbrev pub emit : Effect → CpuScheduler → CpuScheduler
emit e s = record s { log = e ∷ s.log }

-- `threadPriority`: an `int` product of two 16-bit numbers, as the 32-bit operand that it becomes.
abbrev pub thread_priority : Thread → ℕ
thread_priority t = t.priority * t.process_priority % u32_mod

pub add_thread : Ptr → CpuScheduler → CpuScheduler
add_thread thread s = elim ((s.threads thread).state) [
  | active ↦ push_back active thread (record s {
    total_active_priority = add32 s.total_active_priority (thread_priority (s.threads thread));
  })
  | paused ↦ push_back paused thread s
  | sleeping ↦ push_back sleeping thread s
  | terminated ↦ push_back terminated thread s
]

-- Whether a list holds a thread: `contains`, on fuel, where a walk out of fuel counts as a miss.
abbrev pub holds : ℕ → ThreadState → Ptr → CpuScheduler → Bool
holds fuel k thread s = elim (LList.contains fuel thread (view s k)) [
  | none ↦ false
  | some found ↦ found
]

pub remove_thread : ℕ → Ptr → CpuScheduler → CpuScheduler
remove_thread fuel thread s =
    if holds fuel terminated thread s
    then pop terminated thread s
    else if holds fuel active thread s
    then pop active thread (record s {
      total_active_priority = sub32 s.total_active_priority (thread_priority (s.threads thread));
    })
    else if holds fuel sleeping thread s
    then pop sleeping thread s
    else if holds fuel paused thread s
    then pop paused thread s
    else s

-- `timer_id` is what the timer driver's `schedule` returns.
pub on_thread_sleep : ℕ → ℕ → Ptr → CpuScheduler → CpuScheduler
on_thread_sleep timer_id usecs thread s =
    update thread (λ t. record t { pending_timer_id = timer_id })
      (emit (schedule usecs thread) (push_back sleeping thread (pop active thread s)))

pub on_thread_paused : Ptr → CpuScheduler → CpuScheduler
on_thread_paused thread s = push_back paused thread (pop active thread s)

pub on_thread_paused_resumed : Ptr → CpuScheduler → CpuScheduler
on_thread_paused_resumed thread s = push_back active thread (pop paused thread s)

pub on_thread_sleeping_resumed : Ptr → CpuScheduler → CpuScheduler
on_thread_sleeping_resumed thread s = push_back active thread (pop sleeping thread s)

-- The list is chosen by the state of the current thread, as the source does.
pub on_thread_terminated : Ptr → CpuScheduler → CpuScheduler
on_thread_terminated thread s =
    push_back terminated thread (pop (s.threads s.current_thread).state thread s)

-- The sum of the loop of `_on_thread_priorities_changed`, on fuel.
priority_loop : ℕ → CpuScheduler → Ptr → ℕ → Option ℕ
priority_loop zero s thread total = none
priority_loop (suc k) s thread total =
    let rest =
      priority_loop k s (s.links thread).next (add32 total (thread_priority (s.threads thread))) in
    if thread == null then some total else rest

pub on_thread_priorities_changed : ℕ → CpuScheduler → Option CpuScheduler
unfolding priority_loop
on_thread_priorities_changed fuel s = elim (priority_loop fuel s s.active_threads.head 0) [
  | none ↦ none
  | some total ↦ some (record s { total_active_priority = total })
]

-- `Thread::sleep`, `pause`, `resume`, `terminate`
pub sleep : ℕ → ℕ → Ptr → CpuScheduler → CpuScheduler
sleep timer_id usecs thread s =
    if not (same_state (s.threads thread).state active) || not (s.threads thread).scheduled
    then s
    else on_thread_sleep timer_id usecs thread (set_state thread sleeping s)

pub pause : Ptr → CpuScheduler → CpuScheduler
pause thread s =
    if not (same_state (s.threads thread).state active)
    then s
    else let s' = set_state thread paused s in
      if (s.threads thread).scheduled then on_thread_paused thread s' else s'

pub resume : Ptr → CpuScheduler → CpuScheduler
resume thread s =
    let s' = set_state thread active s in
    elim ((s.threads thread).state) [
      | active ↦ s
      | sleeping ↦ if (s.threads thread).scheduled then on_thread_sleeping_resumed thread s' else s'
      | paused ↦ if (s.threads thread).scheduled then on_thread_paused_resumed thread s' else s'
      | terminated ↦ s
    ]

pub terminate : Ptr → CpuScheduler → CpuScheduler
terminate thread s =
    let s' = set_state thread terminated s in
    if same_state (s.threads thread).state terminated
    then s
    else emit (terminated_event thread)
        (if (s.threads thread).scheduled then on_thread_terminated thread s' else s')

-- The callback that `_on_thread_sleep` gives to the timer.
pub wake : ℕ → Ptr → CpuScheduler → CpuScheduler
wake timer_id thread s =
    if not (same_state (s.threads thread).state sleeping)
    then s
    else if not (timer_id == (s.threads thread).pending_timer_id)
    then s
    else resume thread s

pub set_priority : ℕ → ℕ → Ptr → CpuScheduler → Option CpuScheduler
set_priority fuel priority thread s =
    let s' = update thread (λ t. record t { priority = priority }) s in
    if (s.threads thread).priority == priority
    then some s
    else if (s.threads thread).scheduled
    then on_thread_priorities_changed fuel s'
    else some s'

abbrev pub clamp : ℕ → ℕ → ℕ → ℕ
clamp x a b = let y = (if leb a x then x else a) in if leb y b then y else b

-- `maxTime`: the time slice of a thread.
pub max_time : CpuScheduler → Thread → ℕ
max_time s t =
    clamp
      (s.average_interval
        * s.active_threads.size
        % u32_mod
        * thread_priority t
        % u32_mod
        / s.total_active_priority)
      s.min_interval s.max_interval

-- The current thread goes to the back of the active list, if it is active.
pub requeue : CpuScheduler → CpuScheduler
requeue s =
    if not (s.current_thread == null)
      && (not (s.current_thread == s.kernel_thread)
          && same_state (s.threads s.current_thread).state active)
    then push_back active s.current_thread (pop active s.current_thread s)
    else s

-- The rest of `_yield`: the head of the active list is chosen. `none` is the processor's fault on
-- the division by a total of 0.
pub choose : CpuScheduler → Option CpuScheduler
choose s =
    let old = s.current_thread in
    let next = s.active_threads.head in
    if next == old
    then some (emit (timer_set s.max_interval) s)
    else if next == null
    then some (record s {
      current_thread = s.kernel_thread;
      log = swap_state old s.kernel_thread ∷ timer_set s.max_interval ∷ s.log;
    })
    else if s.total_active_priority == 0
    then none
    else some (record s {
      current_thread = next;
      log = swap_state old next ∷ timer_set (max_time s (s.threads next)) ∷ s.log;
    })

-- `_yield`
pub yield_now : CpuScheduler → Option CpuScheduler
yield_now s = choose (requeue s)

-- `yield`
pub yield : CpuScheduler → Option CpuScheduler
yield s = yield_now (emit timer_stop s)
