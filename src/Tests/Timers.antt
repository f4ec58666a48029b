-- ===== src/Tests/Timers.antt =====
-- A timer queue with one call back.
use uberos.Prelude.{◌≡◌, refl, [], ◌∷◌, false, inr, arith}
use uberos.TimerQueue.{Scheduled, TimerQueue, items, schedule, on_schedule_timer, set_timer}
use uberos.TimerQueue.Order.{InOrder, scheduled, schedule-InOrder}
use uberos.TimerQueue.Stuck.{on_schedule_timer-set_timer}

abbrev first : Scheduled
first = record { time = 100; callback = 1; id = 0; data_address = 0 }

abbrev waiting : TimerQueue
waiting = record {
  next_timer_id = 1;
  callbacks = first ∷ [];
  important_callbacks = [];
  next_scheduled_time = 100;
  set_timers = 100 ∷ [];
}

schedule-InOrder_example :
    (items false (schedule false 50 10 2 0 waiting).1 ≡ scheduled 50 10 2 0 waiting ∷ first ∷ [])
    × InOrder 0 (items false (schedule false 50 10 2 0 waiting).1)
schedule-InOrder_example =
    schedule-InOrder false 50 10 2 0 waiting (ground arith)
      (inr (ground arith, ground arith), ground arith, tt) (ground arith, tt)

-- A call back that schedules itself again.
abbrev again : Scheduled → TimerQueue → TimerQueue
again c q = (schedule false 100 10 c.callback c.data_address q).1

on_schedule_timer-set_timer_example : on_schedule_timer again waiting ≡ set_timer 100 waiting
on_schedule_timer-set_timer_example =
    on_schedule_timer-set_timer again waiting first [] refl refl refl
