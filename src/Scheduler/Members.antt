-- ===== src/Scheduler/Members.antt =====
-- `add_thread` and `remove_thread`.
use uberos.Prelude.{
  ℕ, ◌<◌, ◌≡◌, ◌≢◌, refl, sym, subst, ◌∙◌, List, [], ◌∷◌, ◌++◌, true, false, has, has-snoc,
  has-middle_self, length, if◌then◌else◌, add32, sub32, inl, inr,
}
use uberos.LList.{Ptr, null}
use uberos.LList.Walk.{contains-has}
use uberos.Scheduler.{
  ThreadState, active, sleeping, paused, terminated, same_state, CpuScheduler, thread_priority,
  add_thread, remove_thread, holds, view, pop, push_back,
}
use uberos.Scheduler.Queues.{
  Contents, Lists, replace, same_state-cases, push_back-Lists, pop-Lists, has-replaced,
}
use uberos.Scheduler.Moves.{Queues, Queues-Apart, threads-pop, threads-push_back}

-- The scheduler with another total.
abbrev with_total : CpuScheduler → ℕ → CpuScheduler
with_total s total = record s { total_active_priority = total }

with_total-Queues :
    (s : CpuScheduler) (q : Contents) (total : ℕ) → Queues s q → Queues (with_total s total) q
with_total-Queues s q total v = record { lists = lists; states = v.states }
  where
    lists : Lists (with_total s total) q
    lists active = v.lists active
    lists sleeping = v.lists sleeping
    lists paused = v.lists paused
    lists terminated = v.lists terminated

push_back-Queues :
    (s : CpuScheduler) (q : Contents) (k : ThreadState) (x : Ptr)
    → Queues s q
    → x ≢ null
    → (s.threads x).state ≡ k
    → ((j : ThreadState) → has x (q j) ≡ false)
    → Queues (push_back k x s) (replace q k (q k ++ x ∷ []))
push_back-Queues s q k x v ne e out = record {
  lists = push_back-Lists s q k x v.lists (Queues-Apart v) ne out;
  states = states;
}
  where
    states :
        (i : ThreadState) (a : Ptr)
        → has a (replace q k (q k ++ x ∷ []) i) ≡ true
        → ((push_back k x s).threads a).state ≡ i
    states i a m = rw (threads-push_back k x s) (elim (same_state-cases i k) [
      | inl (same, b) ↦ elim (has-snoc a x (q k) (rw b at m)) [
        | inl is ↦ rw (is, same) e
        | inr old ↦ v.states k a old ∙ sym same
      ]
      | inr (_, b) ↦ v.states i a (rw b at m)
    ])

-- `totalActivePriority` counts the active threads.
abbrev counted : CpuScheduler → ThreadState → ℕ → ℕ
counted s k total = if same_state k active then total else s.total_active_priority

add_thread-pushed :
    (x : Ptr) (s : CpuScheduler) (k : ThreadState)
    → (s.threads x).state ≡ k
    → add_thread x s
      ≡ push_back k x (
          with_total s
            (counted s k (add32 s.total_active_priority (thread_priority (s.threads x)))))
unfolding add_thread
add_thread-pushed x s active e = rw (e, add_thread)
add_thread-pushed x s sleeping e = rw (e, add_thread)
add_thread-pushed x s paused e = rw (e, add_thread)
add_thread-pushed x s terminated e = rw (e, add_thread)

total-push_back :
    (k : ThreadState) (x : Ptr) (s : CpuScheduler)
    → (push_back k x s).total_active_priority ≡ s.total_active_priority
unfolding push_back
total-push_back active x s = refl
total-push_back _ x s = refl

total-pop :
    (k : ThreadState) (x : Ptr) (s : CpuScheduler)
    → (pop k x s).total_active_priority ≡ s.total_active_priority
unfolding pop
total-pop active x s = refl
total-pop _ x s = refl

-- `add_thread` puts a thread that stands in no list at the end of the list of its state, whatever
-- that is, and keeps the four lists well formed and by state; an active thread's priority is added
-- to the total.
pub add_thread-Queues :
    (s : CpuScheduler) (q : Contents) (k : ThreadState) (x : Ptr)
    → Queues s q
    → x ≢ null
    → (s.threads x).state ≡ k
    → ((j : ThreadState) → has x (q j) ≡ false)
    → Queues (add_thread x s) (replace q k (q k ++ x ∷ []))
      × ((add_thread x s).total_active_priority ≡ (
          if same_state k active
          then add32 s.total_active_priority (thread_priority (s.threads x))
          else s.total_active_priority))
add_thread-Queues s q k x v ne e out =
    let total = counted s k (add32 s.total_active_priority (thread_priority (s.threads x))) in
    subst
      (λ (s' : CpuScheduler).
        Queues s' (replace q k (q k ++ x ∷ [])) × (s'.total_active_priority ≡ total))
      (sym (add_thread-pushed x s k e))
      (
        push_back-Queues (with_total s total) q k x (with_total-Queues s q total v) ne e out,
        total-push_back k x (with_total s total),
      )

holds-has :
    (fuel : ℕ) (k : ThreadState) (x : Ptr) (s : CpuScheduler) (q : Contents)
    → Lists s q
    → length (q k) < fuel
    → holds fuel k x s ≡ has x (q k)
holds-has fuel k x s q v enough = rw (contains-has (view s k) (q k) x fuel (v k) enough, holds)

module _ (s : CpuScheduler) (q : Contents) (from : ThreadState) (xs : List Ptr) (x : Ptr)
    (ys : List Ptr) (v : Queues s q) (e : q from ≡ xs ++ x ∷ ys) where
  pop-Queues : Queues (pop from x s) (replace q from (xs ++ ys))
  pop-Queues = record {
    lists = pop-Lists s q from xs x ys v.lists (Queues-Apart v) e;
    states =
        λ k a m. rw (threads-pop from x s) (v.states k a (has-replaced q from xs x ys e k a m));
  }

  has-from : has x (q from) ≡ true
  has-from = rw e (has-middle_self x xs ys)

  has-other : (k : ThreadState) → from ≢ k → has x (q k) ≡ false
  has-other k ne = Queues-Apart v from k ne x has-from

module _ (fuel : ℕ) (s : CpuScheduler) (q : Contents) (xs : List Ptr) (x : Ptr) (ys : List Ptr)
    (v : Queues s q) (enough : (k : ThreadState) → length (q k) < fuel) where
  held : (from k : ThreadState) → q from ≡ xs ++ x ∷ ys → from ≡ k → holds fuel k x s ≡ true
  held from k e same =
      holds-has fuel k x s q v.lists (enough k)
      ∙ subst (λ j. has x (q j) ≡ true) same (has-from s q from xs x ys v e)

  missed : (from k : ThreadState) → q from ≡ xs ++ x ∷ ys → from ≢ k → holds fuel k x s ≡ false
  missed from k e ne =
      holds-has fuel k x s q v.lists (enough k) ∙ has-other s q from xs x ys v e k ne

  remove_thread-popped :
      (from : ThreadState)
      → q from ≡ xs ++ x ∷ ys
      → remove_thread fuel x s
        ≡ pop from x (
            with_total s
              (counted s from (sub32 s.total_active_priority (thread_priority (s.threads x)))))
  unfolding remove_thread
  remove_thread-popped terminated e = rw (held terminated terminated e refl)
  remove_thread-popped active e =
      rw (missed active terminated e (λ h. cc), held active active e refl)
  remove_thread-popped sleeping e = rw (
    missed sleeping terminated e (λ h. cc),
    missed sleeping active e (λ h. cc),
    held sleeping sleeping e refl,
  )
  remove_thread-popped paused e = rw (
    missed paused terminated e (λ h. cc),
    missed paused active e (λ h. cc),
    missed paused sleeping e (λ h. cc),
    held paused paused e refl,
  )

-- `remove_thread` takes a thread out of the list in which it stands, whichever of the four that is,
-- and keeps the lists well formed and by state; an active thread's priority is taken off the total.
-- The walks of `contains` end, with one round of fuel more than the longest list has threads.
pub remove_thread-Queues :
    (fuel : ℕ) (s : CpuScheduler) (q : Contents) (from : ThreadState) (xs : List Ptr) (x : Ptr)
    (ys : List Ptr)
    → Queues s q
    → q from ≡ xs ++ x ∷ ys
    → ((k : ThreadState) → length (q k) < fuel)
    → Queues (remove_thread fuel x s) (replace q from (xs ++ ys))
      × ((remove_thread fuel x s).total_active_priority ≡ (
          if same_state from active
          then sub32 s.total_active_priority (thread_priority (s.threads x))
          else s.total_active_priority))
remove_thread-Queues fuel s q from xs x ys v e enough =
    let total = counted s from (sub32 s.total_active_priority (thread_priority (s.threads x))) in
    subst
      (λ (s' : CpuScheduler).
        Queues s' (replace q from (xs ++ ys)) × (s'.total_active_priority ≡ total))
      (sym (remove_thread-popped fuel s q xs x ys v enough from e))
      (
        pop-Queues (with_total s total) q from xs x ys (with_total-Queues s q total v) e,
        total-pop from x (with_total s total),
      )
