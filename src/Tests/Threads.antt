-- ===== src/Tests/Threads.antt =====
-- A scheduler with two active threads, one that sleeps and one that is paused.
use uberos.Prelude.{ℕ, ◌≡◌, refl, [], ◌∷◌, true, some, arith, ◌==◌, if◌then◌else◌, has}
use uberos.LList.{LList, Store}
use uberos.Scheduler.{
  ThreadState, active, sleeping, paused, terminated, Thread, CpuScheduler, pause, terminate, yield,
}
use uberos.Scheduler.Runs.{Moves, and_moves, stays, pauses, Moves-Queues}
use uberos.Scheduler.Fair.{Comes, yields-current}
use uberos.Scheduler.Queues.{Contents, Lists}
use uberos.Scheduler.Moves.{Queues, Placed, moved}
use uberos.Scheduler.Yield.{Turn, rotated, yield-Turn}
use uberos.Scheduler.Priorities.{terminate-current}

abbrev links : Store
links a =
    if a == 2
    then record { next = 3; prev = 0 }
    else if a == 3
    then record { next = 0; prev = 2 }
    else record { next = 0; prev = 0 }

abbrev threads : ℕ → Thread
threads a = record {
  state = if a == 5 then sleeping else if a == 6 then paused else active;
  priority = a;
  process_priority = 10;
  scheduled = true;
  pending_timer_id = 8;
}

abbrev one : ℕ → LList
one a = record { head = a; tail = a; size = 1 }

abbrev busy : CpuScheduler
busy = record {
  threads = threads;
  links = links;
  active_threads = record { head = 2; tail = 3; size = 2 };
  sleeping_threads = one 5;
  paused_threads = one 6;
  terminated_threads = record { head = 0; tail = 0; size = 0 };
  total_active_priority = 50;
  current_thread = 2;
  kernel_thread = 1;
  min_interval = 100;
  average_interval = 1000;
  max_interval = 10000;
  log = [];
}

abbrev contents : Contents
contents active = 2 ∷ 3 ∷ []
contents sleeping = 5 ∷ []
contents paused = 6 ∷ []
contents terminated = []

busy-Lists : Lists busy contents
busy-Lists active = record {
  chain = (refl, refl, (refl, refl, tt));
  distinct = (ground arith, refl, (ground arith, refl, tt));
  head = refl;
  tail = refl;
  size = refl;
}
busy-Lists sleeping = record {
  chain = (refl, refl, tt);
  distinct = (ground arith, refl, tt);
  head = refl;
  tail = refl;
  size = refl;
}
busy-Lists paused = record {
  chain = (refl, refl, tt);
  distinct = (ground arith, refl, tt);
  head = refl;
  tail = refl;
  size = refl;
}
busy-Lists terminated = record { chain = tt; distinct = tt; head = refl; tail = refl; size = refl }

busy-Queues : Queues busy contents
busy-Queues = record { lists = busy-Lists; states = states }
  where
    states : (k : ThreadState) (a : ℕ) → has a (contents k) ≡ true → (threads a).state ≡ k
    states active a m = ground arith
    states sleeping a m = ground arith
    states paused a m = ground arith
    states terminated a m = ground arith

three : Placed busy contents active (2 ∷ []) 3 []
three = record { queues = busy-Queues; position = refl; managed = refl }

yield-Turn_example :
    (s : CpuScheduler) × (yield busy ≡ some s) × Turn busy (rotated contents (3 ∷ []) 2) 2 3 s
yield-Turn_example =
    yield-Turn busy contents 3 [] busy-Queues (ground arith) refl (ground arith) (ground arith)

terminate-current_example :
    ((terminate 2 busy).active_threads ≡ record { head = 2; tail = 3; size = 2 })
    × (((terminate 2 busy).threads 2).state ≡ terminated)
terminate-current_example = terminate-current 2 busy refl refl refl

-- The same with the active threads gone to sleep and the kernel's own thread current.
abbrev idle : CpuScheduler
idle = record busy { active_threads = record { head = 0; tail = 0; size = 0 }; current_thread = 1 }

abbrev idle_contents : Contents
idle_contents active = []
idle_contents sleeping = 5 ∷ []
idle_contents paused = 6 ∷ []
idle_contents terminated = []

idle-Queues : Queues idle idle_contents
idle-Queues = record { lists = lists; states = states }
  where
    lists : Lists idle idle_contents
    lists active = record { chain = tt; distinct = tt; head = refl; tail = refl; size = refl }
    lists sleeping = busy-Lists sleeping
    lists paused = busy-Lists paused
    lists terminated = busy-Lists terminated

    states : (k : ThreadState) (a : ℕ) → has a (idle_contents k) ≡ true → (threads a).state ≡ k
    states active a m = ground arith
    states sleeping a m = ground arith
    states paused a m = ground arith
    states terminated a m = ground arith

-- Thread 3 is paused.
one_move : Moves busy contents (pause 3 busy) (moved contents active paused (2 ∷ []) 3)
one_move =
    and_moves busy contents (pause 3 busy) (moved contents active paused (2 ∷ []) 3) (pause 3 busy)
      (moved contents active paused (2 ∷ []) 3) (pauses (2 ∷ []) 3 [] (refl, refl))
      (stays (pause 3 busy) (moved contents active paused (2 ∷ []) 3))

Moves-Queues_example : Queues (pause 3 busy) (moved contents active paused (2 ∷ []) 3)
Moves-Queues_example =
    Moves-Queues busy contents (pause 3 busy) (moved contents active paused (2 ∷ []) 3) one_move
      busy-Queues

yields-current_example : Comes 1 busy 3
yields-current_example =
    yields-current busy contents [] 3 [] busy-Queues refl refl (ground arith) (ground arith)
