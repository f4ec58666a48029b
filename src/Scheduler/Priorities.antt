-- ===== src/Scheduler/Priorities.antt =====
-- `totalActivePriority`, and what `terminate` does.
use uberos.Prelude.{
  ℕ, zero, suc, ◌+◌, ◌%◌, ◌<◌, ◌≡◌, ◌≢◌, refl, List, [], ◌∷◌, ◌++◌, true, some, arith, sym, ap, ◌∙◌,
  u32_mod, add32, subst, length, if◌then◌else◌, ◌==◌, ==_ne, ==_refl,
}
use uberos.LList.{Ptr, null}
use uberos.LList.Links.{Links, first, Distinct, or_else-ne}
use uberos.Scheduler.{
  ThreadState, active, terminated, Thread, CpuScheduler, thread_priority, priority_loop,
  on_thread_priorities_changed, set_priority, update, terminate, on_thread_terminated,
  terminated_event, emit, pop, push_back, set_state,
}
use uberos.Scheduler.Queues.{Contents, Lists, same_state-ne}
use uberos.Scheduler.Moves.{
  Queues, Lists-update, Placed, Placed-state, moved, move-Queues, Queues-retarget, state-set_state,
}

-- The sum of the priorities of some threads.
pub total_priority : (Ptr → Thread) → List Ptr → ℕ
total_priority threads [] = 0
total_priority threads (x ∷ xs) = thread_priority (threads x) + total_priority threads xs

priority_loop-total :
    (k : ℕ) (s : CpuScheduler) (before : Ptr) (xs : List Ptr) (total : ℕ)
    → length xs < k
    → total < u32_mod
    → Distinct xs
    → Links s.links before xs null
    → priority_loop k s (first xs null) total
      ≡ some ((total + total_priority s.threads xs) % u32_mod)
unfolding priority_loop total_priority
priority_loop-total zero s before xs total fuel small d h = elim fuel [ ]
priority_loop-total (suc k) s before [] total fuel small d h = ap some (omega arith)
priority_loop-total (suc k) s before (x ∷ xs) total fuel small d h =
    let rest =
      priority_loop-total k s x xs (add32 total (thread_priority (s.threads x))) (omega arith)
        (omega arith) d.2 h.2 in
    or_else-ne x _ _ d.0 ∙ rw h.1 (rest ∙ ap some (omega arith))

priorities_changed-total :
    (fuel : ℕ) (s : CpuScheduler) (q : Contents)
    → Lists s q
    → length (q active) < fuel
    → on_thread_priorities_changed fuel s
      ≡ some (record s { total_active_priority = total_priority s.threads (q active) % u32_mod })
unfolding on_thread_priorities_changed
priorities_changed-total fuel s q v enough =
    let list = v active in
    let loop : priority_loop fuel s s.active_threads.head 0
        ≡ some (total_priority s.threads (q active) % u32_mod) =
      ap (λ h. priority_loop fuel s h 0) list.head
      ∙ priority_loop-total fuel s null (q active) 0 enough (omega arith) list.distinct list.chain
      ∙ ap some (omega arith) in
    rw (loop, on_thread_priorities_changed)

-- A change of a managed thread's priority sets `totalActivePriority` to the sum, modulo 2^32, of the
-- priorities of the active threads under the new value; the same priority again changes nothing.
pub set_priority-total :
    (fuel priority : ℕ) (x : Ptr) (s : CpuScheduler) (q : Contents)
    → Queues s q
    → (s.threads x).scheduled ≡ true
    → length (q active) < fuel
    → let s' = update x (λ t. record t { priority = priority }) s in
      set_priority fuel priority x s ≡ (
        if (s.threads x).priority == priority
        then some s
        else some
            (record s' { total_active_priority = total_priority s'.threads (q active) % u32_mod }))
unfolding set_priority update
set_priority-total fuel priority x s q v managed enough = rw (
  managed,
  priorities_changed-total fuel (update x (λ t. record t { priority = priority }) s) q
      (Lists-update s q x (λ t. record t { priority = priority }) v.lists) enough,
)

terminate-managed :
    (x : Ptr) (s : CpuScheduler) (from : ThreadState)
    → (s.threads x).state ≢ terminated
    → (s.threads x).scheduled ≡ true
    → ((set_state x terminated s).threads s.current_thread).state ≡ from
    → terminate x s
      ≡ emit (terminated_event x) (push_back terminated x (pop from x (set_state x terminated s)))
unfolding terminate on_thread_terminated set_state
terminate-managed x s from live managed e = rw (same_state-ne _ _ live, managed, e)

-- A thread that another, active thread terminates goes to the end of the terminated list if it was
-- active too. (The list that it leaves is chosen by the state of the current thread.)
pub terminate-Queues :
    (s : CpuScheduler) (q : Contents) (from : ThreadState) (xs : List Ptr) (x : Ptr) (ys : List Ptr)
    → Placed s q from xs x ys
    → from ≢ terminated
    → x ≢ s.current_thread
    → (s.threads s.current_thread).state ≡ from
    → Queues (terminate x s) (moved q from terminated (xs ++ ys) x)
unfolding terminate
terminate-Queues s q from xs x ys v live other same =
    let kept : ((set_state x terminated s).threads s.current_thread).state ≡ from =
      state-set_state x terminated s s.current_thread
      ∙ rw (==_ne s.current_thread x (λ e. other (sym e))) same in
    subst (λ s'. Queues s' (moved q from terminated (xs ++ ys) x))
      (sym (terminate-managed x s from (λ e. live (sym (Placed-state v) ∙ e)) v.managed kept))
      (Queues-retarget _ _ _ _ (move-Queues s q from terminated xs x ys v.queues live v.position))

active_not_terminated : active ≢ terminated
active_not_terminated e = cc

-- A current thread that terminates itself stays at its place: the active list's head, tail and size
-- are as before, though the thread's state is `terminated`.
pub terminate-current :
    (x : Ptr) (s : CpuScheduler)
    → s.current_thread ≡ x
    → (s.threads x).state ≡ active
    → (s.threads x).scheduled ≡ true
    → ((terminate x s).active_threads ≡ s.active_threads)
      × (((terminate x s).threads x).state ≡ terminated)
unfolding pop push_back set_state
terminate-current x s e a managed =
    let own : ((set_state x terminated s).threads s.current_thread).state ≡ terminated =
      state-set_state x terminated s s.current_thread ∙ rw (e, ==_refl x) in
    subst
      (λ (s' : CpuScheduler).
        (s'.active_threads ≡ s.active_threads) × ((s'.threads x).state ≡ terminated))
      (sym (terminate-managed x s terminated (λ t. active_not_terminated (sym a ∙ t)) managed own))
      (refl, state-set_state x terminated s x ∙ rw (==_refl x))
