-- ===== src/TimerQueue.antt =====
-- drivers/Timer.inl: the queue of call backs behind one hardware timer. Times are 64 bits wide, and a
-- difference above `0xffffffff<<2`, which is 2^32 - 4 in 32 bits, counts as negative.
pub mod Order
pub mod Stuck
use uberos.Prelude.{
  ℕ, zero, suc, ◌+◌, ◌-◌, ◌%◌, ◌^◌, List, [], ◌∷◌, ◌++◌, Option, none, some, Bool, true, false, not,
  ◌&&◌, ◌==◌, ltb, leb, if◌then◌else◌, get_elem?, add32,
}
use uberos.PodArray.{push_back, insert, shift_left}

pub record Scheduled : Type 0 where
  pub time : ℕ
  pub callback : ℕ
  pub id : ℕ
  pub data_address : ℕ

-- The timer gets only the lower 32 bits of a time: `set_timers` has what it was set to, newest first.
pub record TimerQueue : Type 0 where
  pub next_timer_id : ℕ
  pub callbacks : List Scheduled
  pub important_callbacks : List Scheduled
  pub next_scheduled_time : ℕ
  pub set_timers : List ℕ

-- Whether a time comes before another one.
abbrev pub is_earlier : ℕ → ℕ → Bool
is_earlier a b = ltb 4294967292 ((a + 2 ^ 64 - b) % 2 ^ 64)

-- One of the two arrays, and the other one.
abbrev pub items : Bool → TimerQueue → List Scheduled
items true q = q.important_callbacks
items false q = q.callbacks

abbrev pub with_items : Bool → List Scheduled → TimerQueue → TimerQueue
with_items true xs q = record q { important_callbacks = xs }
with_items false xs q = record q { callbacks = xs }

-- `timer.set_timer(0, _nextScheduledTime = time, _on_schedule_timer, this)`
abbrev pub set_timer : ℕ → TimerQueue → TimerQueue
set_timer time q = record q {
  next_scheduled_time = time;
  set_timers = time % 2 ^ 32 ∷ q.set_timers;
}

abbrev pub min : ℕ → ℕ → ℕ
min a b = if leb b a then b else a

-- Where the loop of `schedule` inserts: in front of the first later call back that is not marked.
abbrev pub insertion : ℕ → List Scheduled → Option ℕ
insertion time [] = none
insertion time (c ∷ cs) =
    if not (c.time == 0) && is_earlier time c.time
    then some 0
    else elim (insertion time cs) [ none ↦ none | some i ↦ some (suc i) ]

-- The timer is set again for a call back that comes first.
abbrev pub reset : ℕ → List Scheduled → TimerQueue → TimerQueue
reset time [] q = set_timer time q
reset time (c ∷ cs) q = if c.time == 0 then set_timer time q else set_timer (min time c.time) q

-- `schedule` and `schedule_important`, at the time `now`.
unfoldable pub schedule : Bool → ℕ → ℕ → ℕ → ℕ → TimerQueue → ℕ × TimerQueue
schedule important now usecs callback data' q =
    let time = (now + usecs) % 2 ^ 64 in
    let new : Scheduled = record {
      time = time;
      callback = callback;
      id = q.next_timer_id;
      data_address = data';
    } in
    let next : TimerQueue = record q { next_timer_id = add32 q.next_timer_id 1 } in
    elim (insertion time (items important q)) [
      | none ↦ (q.next_timer_id, with_items important (push_back (items important q) new) next)
      | some i ↦
          (let placed = with_items important (insert i new (items important q)) next in
            (
              q.next_timer_id,
              (if i == 0 then reset time (items (not important) q) placed else placed),
            ))
    ]

-- The loop that marks the call backs that are due: how many, and the array afterwards.
abbrev pub mark_due : ℕ → List Scheduled → ℕ × List Scheduled
mark_due time [] = (0, [])
mark_due time (c ∷ cs) =
    let rest = mark_due time cs in
    if is_earlier c.time time then (rest.0 + 1, record c { time = 0 } ∷ rest.1) else (0, c ∷ cs)

-- The timer is set for the next call back.
abbrev pub set_next : List Scheduled → List Scheduled → TimerQueue → TimerQueue
set_next [] [] q = q
set_next [] (i ∷ is) q = set_timer i.time q
set_next (c ∷ cs) [] q = set_timer c.time q
set_next (c ∷ cs) (i ∷ is) q = set_timer (min c.time i.time) q

module _ (call : Scheduled → TimerQueue → TimerQueue) where
  -- The loop that calls the marked ones, from an index on.
  abbrev pub call_marked : Bool → ℕ → ℕ → TimerQueue → TimerQueue
  call_marked important zero i q = q
  call_marked important (suc count) i q =
      call_marked important count (i + 1)
        (elim (get_elem? (items important q) i) [ none ↦ q | some c ↦ call c q ])

  -- One of the two blocks of `_on_schedule_timer`.
  abbrev pub run_due : Bool → ℕ → TimerQueue → TimerQueue
  run_due important time q =
      let due = mark_due time (items important q) in
      let called = call_marked important due.0 0 (with_items important due.1 q) in
      with_items important (shift_left due.0 (items important called)) called

  unfoldable pub on_schedule_timer : TimerQueue → TimerQueue
  unfolding shift_left
  on_schedule_timer q =
      let time = q.next_scheduled_time in
      let q' = run_due false time (run_due true time q) in
      set_next q'.callbacks q'.important_callbacks q'
