-- ===== src/Scheduler/Runs.antt =====
-- Calls of the scheduler's operations one after another, against the contents of its lists.
use uberos.Prelude.{
  ℕ, ◌<◌, ◌≤◌, ◌≡◌, ◌≢◌, sym, ◌∙◌, subst, List, [], ◌∷◌, ◌++◌, true, false, has, length, ◌⊎◌, some,
}
use mathlib.Core.Option.{some-injective}
use uberos.LList.{Ptr, null}
use uberos.Scheduler.{
  ThreadState, active, sleeping, paused, terminated, CpuScheduler, sleep, pause, resume, terminate,
  add_thread, remove_thread, yield,
}
use uberos.Scheduler.Queues.{Contents, replace}
use uberos.Scheduler.Moves.{Queues, Placed, moved, sleep-Queues, pause-Queues, resume-Queues}
use uberos.Scheduler.Members.{add_thread-Queues, remove_thread-Queues}
use uberos.Scheduler.Priorities.{terminate-Queues}
use uberos.Scheduler.Yield.{rotated, yield-Turn}

-- A managed thread stands in the list of a state.
abbrev pub Stands : CpuScheduler → Contents → ThreadState → List Ptr → Ptr → List Ptr → Type 0
Stands s q from xs x ys = (q from ≡ xs ++ x ∷ ys) × ((s.threads x).scheduled ≡ true)

-- One call, and what becomes of the contents.
pub data Move (s : CpuScheduler) (q : Contents) : CpuScheduler → Contents → Type 0 where
  adds :
      (k : ThreadState) (x : Ptr)
      → x ≢ null
      → (s.threads x).state ≡ k
      → ((j : ThreadState) → has x (q j) ≡ false)
      → Move s q (add_thread x s) (replace q k (q k ++ x ∷ []))
  removes :
      (fuel : ℕ) (from : ThreadState) (xs : List Ptr) (x : Ptr) (ys : List Ptr)
      → q from ≡ xs ++ x ∷ ys
      → ((k : ThreadState) → length (q k) < fuel)
      → Move s q (remove_thread fuel x s) (replace q from (xs ++ ys))
  sleeps :
      (timer_id usecs : ℕ) (xs : List Ptr) (x : Ptr) (ys : List Ptr)
      → Stands s q active xs x ys
      → Move s q (sleep timer_id usecs x s) (moved q active sleeping (xs ++ ys) x)
  pauses :
      (xs : List Ptr) (x : Ptr) (ys : List Ptr)
      → Stands s q active xs x ys
      → Move s q (pause x s) (moved q active paused (xs ++ ys) x)
  resumes :
      (from : ThreadState) (xs : List Ptr) (x : Ptr) (ys : List Ptr)
      → (from ≡ sleeping) ⊎ (from ≡ paused)
      → Stands s q from xs x ys
      → Move s q (resume x s) (moved q from active (xs ++ ys) x)
  terminates :
      (from : ThreadState) (xs : List Ptr) (x : Ptr) (ys : List Ptr)
      → Stands s q from xs x ys
      → from ≢ terminated
      → x ≢ s.current_thread
      → (s.threads s.current_thread).state ≡ from
      → Move s q (terminate x s) (moved q from terminated (xs ++ ys) x)
  yields :
      (y : Ptr) (ys : List Ptr) (s' : CpuScheduler)
      → s.current_thread ≢ s.kernel_thread
      → q active ≡ s.current_thread ∷ y ∷ ys
      → s.total_active_priority ≢ 0
      → s.min_interval ≤ s.max_interval
      → yield s ≡ some s'
      → Move s q s' (rotated q (y ∷ ys) s.current_thread)

pub data Moves : CpuScheduler → Contents → CpuScheduler → Contents → Type 0 where
  stays : (s : CpuScheduler) (q : Contents) → Moves s q s q
  and_moves :
      (s : CpuScheduler) (q : Contents) (s' : CpuScheduler) (q' : Contents) (s'' : CpuScheduler)
      (q'' : Contents)
      → Move s q s' q'
      → Moves s' q' s'' q''
      → Moves s q s'' q''

Stands-Placed :
    (s : CpuScheduler) (q : Contents) (from : ThreadState) (xs : List Ptr) (x : Ptr) (ys : List Ptr)
    → Queues s q
    → Stands s q from xs x ys
    → Placed s q from xs x ys
Stands-Placed s q from xs x ys v h = record { queues = v; position = h.0; managed = h.1 }

yield-Queues :
    (s : CpuScheduler) (q : Contents) (y : Ptr) (ys : List Ptr) (s' : CpuScheduler)
    → Queues s q
    → s.current_thread ≢ s.kernel_thread
    → q active ≡ s.current_thread ∷ y ∷ ys
    → s.total_active_priority ≢ 0
    → s.min_interval ≤ s.max_interval
    → yield s ≡ some s'
    → Queues s' (rotated q (y ∷ ys) s.current_thread)
yield-Queues s q y ys s' v other e total bounds h =
    let r = yield-Turn s q y ys v other e total bounds in
    subst (λ t. Queues t (rotated q (y ∷ ys) s.current_thread))
      (some-injective r.0 s' (sym r.1 ∙ h)) r.2.queues

Move-Queues :
    (s : CpuScheduler) (q : Contents) (s' : CpuScheduler) (q' : Contents)
    → Move s q s' q'
    → Queues s q
    → Queues s' q'
Move-Queues s q _ _ (adds k x ne e out) v = (add_thread-Queues s q k x v ne e out).0
Move-Queues s q _ _ (removes fuel from xs x ys e enough) v =
    (remove_thread-Queues fuel s q from xs x ys v e enough).0
Move-Queues s q _ _ (sleeps timer_id usecs xs x ys h) v =
    (sleep-Queues timer_id usecs s q xs x ys (Stands-Placed s q active xs x ys v h)).0
Move-Queues s q _ _ (pauses xs x ys h) v =
    pause-Queues s q xs x ys (Stands-Placed s q active xs x ys v h)
Move-Queues s q _ _ (resumes from xs x ys w h) v =
    resume-Queues s q from xs x ys w (Stands-Placed s q from xs x ys v h)
Move-Queues s q _ _ (terminates from xs x ys h live other same) v =
    terminate-Queues s q from xs x ys (Stands-Placed s q from xs x ys v h) live other same
Move-Queues s q _ _ (yields y ys s' other e total bounds h) v =
    yield-Queues s q y ys s' v other e total bounds h

-- Any calls of `add_thread`, `remove_thread`, `sleep`, `pause`, `resume`, `terminate` and `yield`, each
-- made where its condition holds, keep the four lists well formed and by state, and leave in them
-- what the calls do to the abstract contents: an added or a moved thread stands at the end of the
-- list of its state, and a turn sends the current thread to the end of the active list. `terminate`
-- is of a thread other than the current one and in the same state; `yield` of a current thread that
-- heads the active list and is not alone.
pub Moves-Queues :
    (s : CpuScheduler) (q : Contents) (s' : CpuScheduler) (q' : Contents)
    → Moves s q s' q'
    → Queues s q
    → Queues s' q'
Moves-Queues s q _ _ (stays _ _) v = v
Moves-Queues s q _ _ (and_moves _ _ s' q' s'' q'' one more) v =
    Moves-Queues s' q' s'' q'' more (Move-Queues s q s' q' one v)
