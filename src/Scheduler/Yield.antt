-- ===== src/Scheduler/Yield.antt =====
-- `_yield` and `yield`: the choice of the next thread.
use uberos.Prelude.{
  ◌≡◌, ◌≢◌, ◌≤◌, refl, List, [], ◌∷◌, ◌++◌, some, true, false, arith, has, has-snoc, has-middle,
  has-middle_self, has-cons_out, sym, subst, ◌∙◌, ap, ◌==◌, ==_ne, ◌⊎◌, inl, inr, ℕ, Bool, not,
  ◌&&◌, if◌then◌else◌,
}
use uberos.LList.{Ptr, null}
use uberos.LList.Links.{first, Distinct, Distinct-ne_null}
use uberos.Scheduler.{
  ThreadState, active, sleeping, paused, terminated, same_state, CpuScheduler, Thread, pop,
  push_back, emit, requeue, choose, yield_now, yield, max_time, clamp, timer_stop, timer_set,
  swap_state,
}
use uberos.Scheduler.Queues.{
  Contents, Lists, replace, pop-Lists, push_back-Lists, Apart-replaced, gone,
}
use uberos.Scheduler.Moves.{Queues, Queues-Apart, Queues-retarget, threads-pop, threads-push_back}

-- The contents after an active thread has gone to the end of the active list.
abbrev pub rotated : Contents → List Ptr → Ptr → Contents
rotated q rest x = replace q active (rest ++ x ∷ [])

module _ (s : CpuScheduler) (q : Contents) (xs : List Ptr) (x : Ptr) (ys : List Ptr)
    (v : Queues s q) (e : q active ≡ xs ++ x ∷ ys) where
  twice :
      Lists
        (push_back active x (pop active x s))
        (replace (replace q active (xs ++ ys)) active ((xs ++ ys) ++ x ∷ []))
  twice =
      let d : Distinct (xs ++ x ∷ ys) = subst Distinct e (v.lists active).distinct in
      push_back-Lists _ (replace q active (xs ++ ys)) active x
        (pop-Lists s q active xs x ys v.lists (Queues-Apart v) e)
        (Apart-replaced q active xs x ys e (Queues-Apart v)) (Distinct-ne_null xs x ys d)
        (gone q active xs x ys e (Queues-Apart v) d)

  rotate-Queues : Queues (push_back active x (pop active x s)) (rotated q (xs ++ ys) x)
  rotate-Queues = record { lists = lists; states = states }
    where
      lists : Lists (push_back active x (pop active x s)) (rotated q (xs ++ ys) x)
      lists active = twice active
      lists sleeping = twice sleeping
      lists paused = twice paused
      lists terminated = twice terminated

      old :
          (k : ThreadState) (a : Ptr) → has a (rotated q (xs ++ ys) x k) ≡ true → has a (q k) ≡ true
      old active a m = elim (has-snoc a x (xs ++ ys) m) [
        | inl is ↦ rw (is, e) (has-middle_self x xs ys)
        | inr i ↦ rw e (has-middle a x xs ys i)
      ]
      old sleeping a m = m
      old paused a m = m
      old terminated a m = m

      states :
          (k : ThreadState) (a : Ptr)
          → has a (rotated q (xs ++ ys) x k) ≡ true
          → ((push_back active x (pop active x s)).threads a).state ≡ k
      states k a m =
          rw (threads-push_back active x (pop active x s), threads-pop active x s)
            (v.states k a (old k a m))

clamp_bounds : (x a b : ℕ) → a ≤ b → (a ≤ clamp x a b) × (clamp x a b ≤ b)
clamp_bounds x a b h = ground arith

max_time_bounds :
    (s : CpuScheduler) (t : Thread)
    → s.min_interval ≤ s.max_interval
    → (s.min_interval ≤ max_time s t) × (max_time s t ≤ s.max_interval)
unfolding max_time
max_time_bounds s t h = clamp_bounds _ s.min_interval s.max_interval h

requeue-rotate :
    (s : CpuScheduler)
    → s.current_thread ≢ null
    → s.current_thread ≢ s.kernel_thread
    → (s.threads s.current_thread).state ≡ active
    → requeue s ≡ push_back active s.current_thread (pop active s.current_thread s)
unfolding requeue
requeue-rotate s h k e = rw (==_ne _ _ h, ==_ne _ _ k, e)

choose-next :
    (s : CpuScheduler) (y : Ptr)
    → s.active_threads.head ≡ y
    → y ≢ s.current_thread
    → y ≢ null
    → s.total_active_priority ≢ 0
    → choose s
      ≡ some (record s {
        current_thread = y;
        log = swap_state s.current_thread y ∷ timer_set (max_time s (s.threads y)) ∷ s.log;
      })
unfolding choose
choose-next s y e h k total = rw (e, ==_ne _ _ h, ==_ne _ _ k, ==_ne _ _ total)

-- A turn of the scheduler: the contents, the current thread and what was asked of others.
pub record Turn (s : CpuScheduler) (q : Contents) (x y : Ptr) (s' : CpuScheduler) : Type 0 where
  pub queues : Queues s' q
  pub current : s'.current_thread ≡ y
  pub time : ℕ
  pub log : s'.log ≡ swap_state x y ∷ timer_set time ∷ timer_stop ∷ s.log
  pub at_least : s.min_interval ≤ time
  pub at_most : time ≤ s.max_interval
  pub kernel : s'.kernel_thread ≡ s.kernel_thread
  pub total : s'.total_active_priority ≡ s.total_active_priority
  pub least : s'.min_interval ≡ s.min_interval
  pub most : s'.max_interval ≡ s.max_interval

module _ (s : CpuScheduler) (q : Contents) (y : Ptr) (ys : List Ptr) (v : Queues s q)
    (other : s.current_thread ≢ s.kernel_thread) (e : q active ≡ s.current_thread ∷ y ∷ ys)
    (total : s.total_active_priority ≢ 0) where
  abbrev rotation : CpuScheduler
  rotation = push_back active s.current_thread (pop active s.current_thread s)

  distinct : Distinct (s.current_thread ∷ y ∷ ys)
  distinct = subst Distinct e (v.lists active).distinct

  yield_now-next :
      yield_now s
      ≡ some (record rotation {
        current_thread = y;
        log =
            swap_state s.current_thread y
            ∷ timer_set (max_time rotation (rotation.threads y))
            ∷ s.log;
      })
  unfolding yield_now pop push_back
  yield_now-next =
      ap choose (
        requeue-rotate s distinct.0 other
          (v.states active s.current_thread (rw e (has-middle_self s.current_thread [] (y ∷ ys)))))
      ∙ choose-next rotation y
          ((rotate-Queues s q [] s.current_thread (y ∷ ys) v e).lists active).head
          (λ r. (has-cons_out s.current_thread y ys distinct.1).0 (sym r)) distinct.2.0 total

-- `yield` under a current thread that is active and not alone: it goes to the end of the active
-- list, the next of the list becomes the current thread, and gets a time slice within the bounds.
pub yield-Turn :
    (s : CpuScheduler) (q : Contents) (y : Ptr) (ys : List Ptr)
    → Queues s q
    → s.current_thread ≢ s.kernel_thread
    → q active ≡ s.current_thread ∷ y ∷ ys
    → s.total_active_priority ≢ 0
    → s.min_interval ≤ s.max_interval
    → (s' : CpuScheduler) × (yield s ≡ some s')
      × Turn s (rotated q (y ∷ ys) s.current_thread) s.current_thread y s'
unfolding yield pop push_back
yield-Turn s q y ys v other e total bounds =
    let s0 = emit timer_stop s in
    let v0 : Queues s0 q = Queues-retarget s q s.current_thread (timer_stop ∷ s.log) v in
    let r = push_back active s.current_thread (pop active s.current_thread s0) in
    let slice = max_time_bounds r (r.threads y) bounds in
    (
      record r {
        current_thread = y;
        log =
            swap_state s.current_thread y
            ∷ timer_set (max_time r (r.threads y))
            ∷ timer_stop
            ∷ s.log;
      },
      yield_now-next s0 q y ys v0 other e total,
      record {
        queues = Queues-retarget r _ y _ (rotate-Queues s0 q [] s.current_thread (y ∷ ys) v0 e);
        current = refl;
        time = max_time r (r.threads y);
        log = refl;
        at_least = slice.0;
        at_most = slice.1;
        kernel = refl;
        total = refl;
        least = refl;
        most = refl;
      },
    )

requeue-keep :
    (s : CpuScheduler)
    → (s.current_thread ≡ s.kernel_thread)
      ⊎ (same_state (s.threads s.current_thread).state active ≡ false)
    → requeue s ≡ s
unfolding requeue
requeue-keep s (inl e) = ground (arith, e)
requeue-keep s (inr e) =
    rw e (elim_both (s.current_thread == null) (s.current_thread == s.kernel_thread))
  where
    elim_both :
        (a b : Bool)
        → (if not a && (not b && false)
            then push_back active s.current_thread (pop active s.current_thread s)
            else s)
          ≡ s
    elim_both true b = refl
    elim_both false true = refl
    elim_both false false = refl

choose-idle :
    (s : CpuScheduler)
    → s.active_threads.head ≡ null
    → s.current_thread ≢ null
    → choose s
      ≡ some (record s {
        current_thread = s.kernel_thread;
        log = swap_state s.current_thread s.kernel_thread ∷ timer_set s.max_interval ∷ s.log;
      })
unfolding choose
choose-idle s e h = rw (e, ==_ne null s.current_thread (λ r. h (sym r)))

-- `yield` when no thread is active hands the processor to the kernel's own thread, for the longest
-- time slice. The thread that yields is the kernel's own, or is not active any more.
pub yield-idle :
    (s : CpuScheduler) (q : Contents)
    → Queues s q
    → q active ≡ []
    → s.current_thread ≢ null
    → (s.current_thread ≡ s.kernel_thread)
      ⊎ (same_state (s.threads s.current_thread).state active ≡ false)
    → yield s
      ≡ some (record s {
        current_thread = s.kernel_thread;
        log =
            swap_state s.current_thread s.kernel_thread
            ∷ timer_set s.max_interval
            ∷ timer_stop
            ∷ s.log;
      })
unfolding yield yield_now
yield-idle s q v e busy why =
    ap choose (requeue-keep (emit timer_stop s) why)
    ∙ choose-idle (emit timer_stop s) ((v.lists active).head ∙ ap (λ xs. first xs null) e) busy
