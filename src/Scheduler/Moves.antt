-- ===== src/Scheduler/Moves.antt =====
-- A thread that changes its state goes from one list to another; the others stay.
use uberos.Prelude.{
  ◌≡◌, ◌≢◌, refl, List, [], ◌∷◌, ◌++◌, true, arith, has, has-snoc, has-middle_self, sym, subst, ◌∙◌,
  ap, if◌then◌else◌, ◌==◌, ◌⊎◌, inl, inr, ℕ, ◌&&◌, Bool-cases, ==→eq, ==_false, true-false,
}
use uberos.LList.{Ptr}
use uberos.LList.Links.{Distinct, Distinct-ne_null}
use uberos.Scheduler.{
  ThreadState, active, sleeping, paused, terminated, same_state, Thread, CpuScheduler, Effect, pop,
  push_back, update, set_state, schedule, sleep, pause, resume, wake, on_thread_sleep,
  on_thread_paused, on_thread_paused_resumed, on_thread_sleeping_resumed,
}
use uberos.Scheduler.Queues.{
  Contents, Lists, Apart, replace, same_state-cases, pop-Lists, has-replaced, Apart-replaced, gone,
  push_back-Lists,
}

-- The four lists are well formed, and each holds only threads of its state.
pub record Queues (s : CpuScheduler) (q : Contents) : Type 0 where
  pub lists : Lists s q
  pub states : (k : ThreadState) (a : Ptr) → has a (q k) ≡ true → (s.threads a).state ≡ k

pub Queues-Apart : {s : CpuScheduler} {q : Contents} → Queues s q → Apart q
Queues-Apart {s} {q} v j k ne a m = elim (Bool-cases (has a (q k))) [
  | inl i ↦ absurd (ne (sym (v.states j a m) ∙ v.states k a i))
  | inr o ↦ o
]

-- The contents after a thread has gone from the list of one state to that of another.
abbrev pub moved : Contents → ThreadState → ThreadState → List Ptr → Ptr → Contents
moved q from to rest x = replace (replace q from rest) to (q to ++ x ∷ [])

-- A change of the threads' records leaves the lists alone.
pub Lists-update :
    (s : CpuScheduler) (q : Contents) (x : Ptr) (f : Thread → Thread)
    → Lists s q
    → Lists (update x f s) q
unfolding update
Lists-update s q x f v active = v active
Lists-update s q x f v sleeping = v sleeping
Lists-update s q x f v paused = v paused
Lists-update s q x f v terminated = v terminated

pub threads-pop : (k : ThreadState) (x : Ptr) (s : CpuScheduler) → (pop k x s).threads ≡ s.threads
unfolding pop
threads-pop active x s = refl
threads-pop _ x s = refl

pub threads-push_back :
    (k : ThreadState) (x : Ptr) (s : CpuScheduler) → (push_back k x s).threads ≡ s.threads
unfolding push_back
threads-push_back active x s = refl
threads-push_back _ x s = refl

pub log-pop : (k : ThreadState) (x : Ptr) (s : CpuScheduler) → (pop k x s).log ≡ s.log
unfolding pop
log-pop active x s = refl
log-pop _ x s = refl

pub log-push_back : (k : ThreadState) (x : Ptr) (s : CpuScheduler) → (push_back k x s).log ≡ s.log
unfolding push_back
log-push_back active x s = refl
log-push_back _ x s = refl

log-update : (x : Ptr) (f : Thread → Thread) (s : CpuScheduler) → (update x f s).log ≡ s.log
unfolding update
log-update x f s = refl

log-set_state : (x : Ptr) (k : ThreadState) (s : CpuScheduler) → (set_state x k s).log ≡ s.log
unfolding set_state
log-set_state x k s = refl

pub state-set_state :
    (x : Ptr) (k : ThreadState) (s : CpuScheduler) (a : Ptr)
    → ((set_state x k s).threads a).state ≡ (if a == x then k else (s.threads a).state)
unfolding set_state
state-set_state x k s a = ground arith

module _ (q : Contents) (from to : ThreadState) (xs : List Ptr) (x : Ptr) (ys : List Ptr)
    (ne : from ≢ to) (e : q from ≡ xs ++ x ∷ ys) where
  replaced-to : replace q from (xs ++ ys) to ≡ q to
  replaced-to = elim (same_state-cases to from) [
    | inl (same, b) ↦ absurd (ne (sym same))
    | inr (_, b) ↦ rw b
  ]

  -- After the move the thread stands in its new list only, and the others where they stood.
  moved_self :
      Apart q
      → Distinct (xs ++ x ∷ ys)
      → (i : ThreadState) → has x (moved q from to (xs ++ ys) x i) ≡ true
      → i ≡ to
  moved_self apart d i m = elim (same_state-cases i to) [
    | inl (same, _) ↦ same
    | inr (_, b) ↦ absurd (true-false (rw b at m) (gone q from xs x ys e apart d i))
  ]

  moved_other :
      (i : ThreadState) (a : Ptr)
      → a ≢ x
      → has a (moved q from to (xs ++ ys) x i) ≡ true
      → has a (q i) ≡ true
  moved_other i a other m = elim (same_state-cases i to) [
    | inl (same, b) ↦ elim (has-snoc a x (q to) (rw b at m)) [
      | inl is ↦ absurd (other is)
      | inr old ↦ rw same old
    ]
    | inr (_, b) ↦ has-replaced q from xs x ys e i a (rw b at m)
  ]

module _ (s : CpuScheduler) (q : Contents) (from to : ThreadState) (xs : List Ptr) (x : Ptr)
    (ys : List Ptr) (v : Queues s q) (ne : from ≢ to) (e : q from ≡ xs ++ x ∷ ys) where
  Distinct-from : Distinct (xs ++ x ∷ ys)
  Distinct-from = subst Distinct e (v.lists from).distinct

  moved-Lists :
      Lists (push_back to x (pop from x (set_state x to s))) (moved q from to (xs ++ ys) x)
  unfolding set_state
  moved-Lists =
      subst
        (λ zs.
          Lists (push_back to x (pop from x (set_state x to s)))
            (replace (replace q from (xs ++ ys)) to (zs ++ x ∷ [])))
        (replaced-to q from to xs x ys ne e)
        (push_back-Lists _ (replace q from (xs ++ ys)) to x
          (pop-Lists (set_state x to s) q from xs x ys
            (Lists-update s q x (λ t. record t { state = to }) v.lists) (Queues-Apart v) e)
          (Apart-replaced q from xs x ys e (Queues-Apart v))
          (Distinct-ne_null xs x ys Distinct-from)
          (gone q from xs x ys e (Queues-Apart v) Distinct-from))

  -- The source sets the state first, and then moves the thread.
  pub move-Queues :
      Queues (push_back to x (pop from x (set_state x to s))) (moved q from to (xs ++ ys) x)
  move-Queues = record { lists = moved-Lists; states = states }
    where
      threads :
          (a : Ptr)
          → ((push_back to x (pop from x (set_state x to s))).threads a).state
            ≡ (if a == x then to else (s.threads a).state)
      threads a =
          rw
            (
              threads-push_back to x (pop from x (set_state x to s)),
              threads-pop from x (set_state x to s),
            )
            (state-set_state x to s a)

      states :
          (k : ThreadState) (a : Ptr)
          → has a (moved q from to (xs ++ ys) x k) ≡ true
          → ((push_back to x (pop from x (set_state x to s))).threads a).state ≡ k
      states k a m = threads a ∙ elim (Bool-cases (a == x)) [
        | inl is ↦ rw is (
            sym (
              moved_self q from to xs x ys ne e (Queues-Apart v) Distinct-from k
                (subst (λ b. has b (moved q from to (xs ++ ys) x k) ≡ true) (==→eq a x is) m)))
        | inr no_ ↦
            rw no_ (v.states k a (moved_other q from to xs x ys ne e k a (==_false a x no_) m))
      ]

-- The lists do not depend on the current thread, on the log, or on a timer's id.
pub Queues-retarget :
    (s : CpuScheduler) (q : Contents) (current : Ptr) (log : List Effect)
    → Queues s q
    → Queues (record s { current_thread = current; log = log }) q
Queues-retarget s q current log v = record { lists = lists; states = v.states }
  where
    lists : Lists (record s { current_thread = current; log = log }) q
    lists active = v.lists active
    lists sleeping = v.lists sleeping
    lists paused = v.lists paused
    lists terminated = v.lists terminated

Queues-pending :
    (s : CpuScheduler) (q : Contents) (x : Ptr) (timer_id : ℕ)
    → Queues s q
    → Queues (update x (λ t. record t { pending_timer_id = timer_id }) s) q
unfolding update
Queues-pending s q x timer_id v = record {
  lists = Lists-update s q x (λ t. record t { pending_timer_id = timer_id }) v.lists;
  states = λ k a m. ground (arith, v.states k a m);
}

pending-update :
    (x : Ptr) (timer_id : ℕ) (s : CpuScheduler)
    → ((update x (λ t. record t { pending_timer_id = timer_id }) s).threads x).pending_timer_id
      ≡ timer_id
unfolding update
pending-update x timer_id s = ground arith

-- The premise of every move: a thread of that state stands in the list of that state.
pub record Placed (s : CpuScheduler) (q : Contents) (from : ThreadState) (xs : List Ptr) (x : Ptr)
    (ys : List Ptr) : Type 0 where
  pub queues : Queues s q
  pub position : q from ≡ xs ++ x ∷ ys
  pub managed : (s.threads x).scheduled ≡ true

pub Placed-state :
    {s : CpuScheduler} {q : Contents} {from : ThreadState} {xs : List Ptr} {x : Ptr} {ys : List Ptr}
    → Placed s q from xs x ys
    → (s.threads x).state ≡ from
Placed-state {from} {xs} {x} {ys} v =
    v.queues.states from x (rw v.position (has-middle_self x xs ys))

-- `sleep` moves an active thread to the end of the sleeping list, asks the timer for a call back and
-- keeps the timer's id in the thread.
pub sleep-Queues :
    (timer_id usecs : ℕ) (s : CpuScheduler) (q : Contents) (xs : List Ptr) (x : Ptr) (ys : List Ptr)
    → Placed s q active xs x ys
    → let s' = sleep timer_id usecs x s in
      Queues s' (moved q active sleeping (xs ++ ys) x)
      × ((s'.threads x).pending_timer_id ≡ timer_id)
      × (s'.log ≡ schedule usecs x ∷ s.log)
unfolding sleep on_thread_sleep
sleep-Queues timer_id usecs s q xs x ys v =
    rw (Placed-state v, v.managed)
      (
        Queues-pending _ _ x timer_id (
            Queues-retarget _ _ _ _
              (move-Queues s q active sleeping xs x ys v.queues (λ e. cc) v.position)),
        pending-update x timer_id _,
        log-update x (λ t. record t { pending_timer_id = timer_id }) _
            ∙ ap (◌∷◌ (schedule usecs x)) (
                log-push_back sleeping x (pop active x (set_state x sleeping s))
                ∙ log-pop active x (set_state x sleeping s)
                ∙ log_kept),
      )
  where
    log_kept : (set_state x sleeping s).log ≡ s.log
    log_kept = log-set_state x sleeping s

-- `pause` moves an active thread to the end of the paused list.
pub pause-Queues :
    (s : CpuScheduler) (q : Contents) (xs : List Ptr) (x : Ptr) (ys : List Ptr)
    → Placed s q active xs x ys
    → Queues (pause x s) (moved q active paused (xs ++ ys) x)
unfolding pause on_thread_paused
pause-Queues s q xs x ys v =
    rw (Placed-state v, v.managed)
      (move-Queues s q active paused xs x ys v.queues (λ e. cc) v.position)

-- `resume` moves a sleeping or a paused thread to the end of the active list.
pub resume-Queues :
    (s : CpuScheduler) (q : Contents) (from : ThreadState) (xs : List Ptr) (x : Ptr) (ys : List Ptr)
    → (from ≡ sleeping) ⊎ (from ≡ paused)
    → Placed s q from xs x ys
    → Queues (resume x s) (moved q from active (xs ++ ys) x)
unfolding resume on_thread_sleeping_resumed on_thread_paused_resumed
resume-Queues s q sleeping xs x ys h v =
    rw (Placed-state v, resume, v.managed)
      (move-Queues s q sleeping active xs x ys v.queues (λ e. cc) v.position)
resume-Queues s q paused xs x ys h v =
    rw (Placed-state v, resume, v.managed)
      (move-Queues s q paused active xs x ys v.queues (λ e. cc) v.position)
resume-Queues s q active xs x ys (inl e) v = cc
resume-Queues s q active xs x ys (inr e) v = cc
resume-Queues s q terminated xs x ys (inl e) v = cc
resume-Queues s q terminated xs x ys (inr e) v = cc

-- The timer's call back wakes a sleeping thread under the id of its last `sleep`, and does nothing
-- under an older id or when the thread sleeps no more.
pub wake-resume :
    (timer_id : ℕ) (x : Ptr) (s : CpuScheduler)
    → wake timer_id x s ≡ (
        if same_state (s.threads x).state sleeping && timer_id == (s.threads x).pending_timer_id
        then resume x s
        else s)
unfolding wake
wake-resume timer_id x s = ground arith
