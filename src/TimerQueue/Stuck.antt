-- ===== src/TimerQueue/Stuck.antt =====
-- The call back that the timer was set for.
use uberos.Prelude.{
  ℕ, ◌≡◌, refl, ap, sym, ◌∙◌, subst, List, [], ◌∷◌, true, false, arith, length, leb-false, leb-true,
}
use uberos.PodArray.{shift_left}
use uberos.TimerQueue.{
  Scheduled, TimerQueue, is_earlier, items, with_items, set_timer, mark_due, call_marked, run_due,
  set_next, on_schedule_timer,
}

not_earlier : (t : ℕ) → is_earlier t t ≡ false
not_earlier t = ground arith

shift_left_none : (c : Scheduled) (cs : List Scheduled) → shift_left 0 (c ∷ cs) ≡ c ∷ cs
unfolding shift_left
shift_left_none c cs = rw (leb-false (length (c ∷ cs)) 0 (omega arith)) refl

shift_left_nil : (n : ℕ) → shift_left {A = Scheduled} n [] ≡ []
unfolding shift_left
shift_left_nil n = rw (leb-true 0 n (omega arith)) refl

mark_due_first : (c : Scheduled) (cs : List Scheduled) → mark_due c.time (c ∷ cs) ≡ (0, c ∷ cs)
mark_due_first c cs = rw (not_earlier c.time) refl

-- A queue without important call backs.
abbrev only : ℕ → List Scheduled → ℕ → List ℕ → TimerQueue
only id xs time sets = record {
  next_timer_id = id;
  callbacks = xs;
  important_callbacks = [];
  next_scheduled_time = time;
  set_timers = sets;
}

module _ (call : Scheduled → TimerQueue → TimerQueue) where
  run_due_important :
      (id time : ℕ) (xs : List Scheduled) (sets : List ℕ)
      → run_due call true time (only id xs time sets) ≡ only id xs time sets
  run_due_important id time xs sets =
      ap (λ is. record (only id xs time sets) { important_callbacks = is }) (shift_left_nil 0)

  -- What follows the marking.
  abbrev ran : TimerQueue → ℕ × List Scheduled → TimerQueue
  ran q due =
      with_items false
        (shift_left due.0 (items false (call_marked call false due.0 0 (with_items false due.1 q))))
        (call_marked call false due.0 0 (with_items false due.1 q))

  run_due_first :
      (id : ℕ) (c : Scheduled) (cs : List Scheduled) (sets : List ℕ)
      → run_due call false c.time (only id (c ∷ cs) c.time sets) ≡ only id (c ∷ cs) c.time sets
  run_due_first id c cs sets =
      ap (ran (only id (c ∷ cs) c.time sets)) (mark_due_first c cs)
      ∙ ap (λ xs. only id xs c.time sets) (shift_left_none c cs)

  fires :
      (id : ℕ) (c : Scheduled) (cs : List Scheduled) (sets : List ℕ)
      → on_schedule_timer call (only id (c ∷ cs) c.time sets)
        ≡ set_timer c.time (only id (c ∷ cs) c.time sets)
  unfolding on_schedule_timer
  fires id c cs sets =
      let e =
        ap (run_due call false c.time) (run_due_important id c.time (c ∷ cs) sets)
        ∙ run_due_first id c cs sets in
      ap (λ (q : TimerQueue). set_next q.callbacks q.important_callbacks q) e

  -- The timer is set to the time of the first of the call backs, and when it fires, that one does not
  -- count as due: none is called, whatever the call backs do, and the timer is set to the same time
  -- once more. Important call backs do not wait.
  pub on_schedule_timer-set_timer :
      (q : TimerQueue) (c : Scheduled) (cs : List Scheduled)
      → q.callbacks ≡ c ∷ cs
      → q.important_callbacks ≡ []
      → q.next_scheduled_time ≡ c.time
      → on_schedule_timer call q ≡ set_timer c.time q
  on_schedule_timer-set_timer q c cs e f t =
      subst (λ p. on_schedule_timer call p ≡ set_timer c.time p) (sym (known q c cs e f t))
        (fires q.next_timer_id c cs q.set_timers)
    where
      known :
          (q : TimerQueue) (c : Scheduled) (cs : List Scheduled)
          → q.callbacks ≡ c ∷ cs
          → q.important_callbacks ≡ []
          → q.next_scheduled_time ≡ c.time
          → q ≡ only q.next_timer_id (c ∷ cs) c.time q.set_timers
      known q c cs e f t i = record {
        next_timer_id = q.next_timer_id;
        callbacks = e i;
        important_callbacks = f i;
        next_scheduled_time = t i;
        set_timers = q.set_timers;
      }
