-- ===== src/EventEmitter.antt =====
-- common/EventEmitter.hpp: the subscribers of an event, and what happens when a call back changes them
-- or triggers the event again while it is being delivered.
pub mod Deliveries
pub mod Generations
use uberos.Prelude.{
  ℕ, zero, suc, ◌+◌, ◌≡◌, ◌≢◌, Option, none, some, Bool, true, false, List, [], ◌∷◌, ◌++◌, ◌&&◌,
  ◌==◌, if◌then◌else◌, add32, length, get_elem?,
}
use uberos.ListOrdered.{ListOrdered, push_back, remove, clear, copy}

pub record Subscription : Type 0 where
  pub callback : ℕ
  pub context : ℕ

pub record EventEmitter : Type 0 where
  pub subscribers : ListOrdered Subscription
  pub subscribers_generation : ℕ
  pub callable_subscribers : ListOrdered Subscription
  pub callable_subscribers_generation : ℕ
  pub is_triggering : Bool

abbrev pub no_subscribers : ListOrdered Subscription
no_subscribers = record { items = []; allocated = 0 }

unfoldable pub new_emitter : EventEmitter
new_emitter = record {
  subscribers = no_subscribers;
  subscribers_generation = 0;
  callable_subscribers = no_subscribers;
  callable_subscribers_generation = 0;
  is_triggering = false;
}

unfoldable pub subscribe : Subscription → EventEmitter → EventEmitter
unfolding push_back
subscribe subscription e = record e {
  subscribers = push_back subscription e.subscribers;
  subscribers_generation = add32 e.subscribers_generation 1;
}

abbrev pub same_subscription : Subscription → Subscription → Bool
same_subscription a b = (a.callback == b.callback) && (a.context == b.context)

-- The loop that looks for the subscription, from the index `i` on.
unfoldable pub index_of : Subscription → ℕ → List Subscription → Option ℕ
index_of subscription i [] = none
index_of subscription i (s ∷ rest) =
    if same_subscription s subscription then some i else index_of subscription (suc i) rest

abbrev pub with_removed : Option (ListOrdered Subscription) → EventEmitter → EventEmitter
with_removed none e = e
with_removed (some l) e = record e {
  subscribers = l;
  subscribers_generation = add32 e.subscribers_generation 1;
}

abbrev pub remove_found : Option ℕ → EventEmitter → EventEmitter
remove_found none e = e
remove_found (some i) e = with_removed (remove i e.subscribers) e

unfoldable pub unsubscribe : Subscription → EventEmitter → EventEmitter
unfolding index_of
unsubscribe subscription e = remove_found (index_of subscription 0 e.subscribers.items) e

unfoldable pub unsubscribe_all : EventEmitter → EventEmitter
unfolding clear
unsubscribe_all e = record e {
  subscribers = clear e.subscribers;
  subscribers_generation = add32 e.subscribers_generation 1;
}

-- What an outermost `trigger` does before it calls: the list to call is brought up to date.
unfoldable pub begin_trigger : EventEmitter → EventEmitter
unfolding copy
begin_trigger e =
    if e.subscribers_generation == e.callable_subscribers_generation
    then record e { is_triggering = true }
    else record e {
      is_triggering = true;
      callable_subscribers = copy e.subscribers;
      callable_subscribers_generation = e.subscribers_generation;
    }

abbrev pub end_trigger : EventEmitter → EventEmitter
end_trigger e = record e { is_triggering = false }

-- What is left to do: a `trigger`, the rest of its calls, or the rest of what a call back does. An
-- outermost `trigger` reads the list to call at each round; a nested one has a copy of its own.
pub data Task : Type 0 where
  triggering : Task
  over_callable : ℕ → ℕ → Task
  over_copy : List Subscription → Task
  calling_back : Task

-- A task runs, makes these calls itself and in this order, and leaves the emitter like that. A call
-- back may subscribe, unsubscribe and trigger in any order and any number of times.
pub data Runs : Task → EventEmitter → List Subscription → EventEmitter → Type 0 where
  outermost :
      {e f : EventEmitter} {calls : List Subscription}
      → e.is_triggering ≡ false
      → Runs
          (over_callable 0 (length (begin_trigger e).callable_subscribers.items))
          (begin_trigger e)
          calls
          f
      → Runs triggering e calls (end_trigger f)
  nested :
      {e f : EventEmitter} {calls : List Subscription}
      → e.is_triggering ≡ true
      → Runs (over_copy (copy e.subscribers).items) e calls f
      → Runs triggering e calls f
  callable_end : {e : EventEmitter} {i n : ℕ} → i ≡ n → Runs (over_callable i n) e [] e
  callable_call :
      {e f g : EventEmitter} {i n : ℕ} {subscription : Subscription} {calls : List Subscription}
      → i ≢ n
      → get_elem? e.callable_subscribers.items i ≡ some subscription
      → Runs calling_back e [] f
      → Runs (over_callable (suc i) n) f calls g
      → Runs (over_callable i n) e (subscription ∷ calls) g
  copy_end : {e : EventEmitter} → Runs (over_copy []) e [] e
  copy_call :
      {e f g : EventEmitter} {subscription : Subscription} {rest calls : List Subscription}
      → Runs calling_back e [] f
      → Runs (over_copy rest) f calls g
      → Runs (over_copy (subscription ∷ rest)) e (subscription ∷ calls) g
  returns : {e : EventEmitter} → Runs calling_back e [] e
  subscribes :
      {e f : EventEmitter} (subscription : Subscription)
      → Runs calling_back (subscribe subscription e) [] f
      → Runs calling_back e [] f
  unsubscribes :
      {e f : EventEmitter} (subscription : Subscription)
      → Runs calling_back (unsubscribe subscription e) [] f
      → Runs calling_back e [] f
  unsubscribes_all :
      {e f : EventEmitter} → Runs calling_back (unsubscribe_all e) [] f → Runs calling_back e [] f
  triggers :
      {e f g : EventEmitter} {calls : List Subscription}
      → Runs triggering e calls f
      → Runs calling_back f [] g
      → Runs calling_back e [] g
