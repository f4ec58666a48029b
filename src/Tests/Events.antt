-- ===== src/Tests/Events.antt =====
-- An event with two subscribers, the first of which unsubscribes the second.
use uberos.Prelude.{◌≡◌, refl, false, [], ◌∷◌, arith}
use uberos.ListOrdered.{remove, copy}
use uberos.EventEmitter.{
  Subscription, EventEmitter, unsubscribe, begin_trigger, end_trigger, triggering, Runs, outermost,
  nested, callable_end, callable_call, copy_end, copy_call, returns, unsubscribes, triggers,
}
use uberos.EventEmitter.Deliveries.{UpToDate, Runs-subscribers}
use uberos.EventEmitter.Generations.{
  Lacks, unsubscribing, unsubscribing_all, changes, changes-UpToDate,
}

abbrev listener : Subscription
listener = record { callback = 4096; context = 1 }

abbrev other_listener : Subscription
other_listener = record { callback = 4096; context = 2 }

abbrev two_listeners : EventEmitter
two_listeners = record {
  subscribers = record { items = listener ∷ other_listener ∷ []; allocated = 4 };
  subscribers_generation = 2;
  callable_subscribers = record { items = []; allocated = 0 };
  callable_subscribers_generation = 0;
  is_triggering = false;
}

two_listeners-UpToDate : UpToDate two_listeners
two_listeners-UpToDate h = absurd (omega (arith, h))

-- The first call back takes the second one out and triggers the event again.
abbrev left : EventEmitter
unfolding begin_trigger unsubscribe remove
left = unsubscribe other_listener (begin_trigger two_listeners)

busy_run : Runs triggering two_listeners (listener ∷ other_listener ∷ []) (end_trigger left)
unfolding begin_trigger unsubscribe remove copy
busy_run = outermost refl (
    callable_call (λ h. omega (arith, h)) refl
      (unsubscribes other_listener (triggers (nested refl (copy_call returns copy_end)) returns))
      (callable_call (λ h. omega (arith, h)) refl returns (callable_end refl)))

Runs-subscribers_example : listener ∷ other_listener ∷ [] ≡ two_listeners.subscribers.items
Runs-subscribers_example = Runs-subscribers busy_run two_listeners-UpToDate

third_listener-Lacks :
    Lacks (record { callback = 8192; context = 1 }) (listener ∷ other_listener ∷ [])
third_listener-Lacks = (refl, (refl, tt))

changes-UpToDate_example :
    UpToDate
      (changes (unsubscribing listener ∷ unsubscribing_all ∷ []) (begin_trigger two_listeners))
changes-UpToDate_example =
    changes-UpToDate two_listeners (unsubscribing listener ∷ unsubscribing_all ∷ []) (omega arith)
      two_listeners-UpToDate (omega arith)
