-- ===== src/EventEmitter/Deliveries.antt =====
-- Which subscribers a `trigger` of common/EventEmitter.hpp calls, whatever the call backs do meanwhile.
use uberos.Prelude.{
  ℕ, zero, suc, ◌+◌, ◌<◌, ◌≡◌, refl, sym, ap, ◌∙◌, subst, Option, none, some, true, false, List, [],
  ◌∷◌, length, drop, get_elem?, arith, true-false, ==→eq, Bool-cases, some_unique, none-some, inl,
  inr, ◌==◌,
}
use uberos.ListOrdered.{ListOrdered, remove, copy}
use uberos.EventEmitter.{
  Subscription, EventEmitter, subscribe, unsubscribe, unsubscribe_all, begin_trigger, end_trigger,
  remove_found, with_removed, index_of, Task, triggering, over_callable, over_copy, Runs, outermost,
  nested, callable_end, callable_call, copy_end, copy_call, returns, subscribes, unsubscribes,
  unsubscribes_all, triggers,
}

-- The list that an outermost `trigger` goes over stays in place.
record Steady (e f : EventEmitter) : Type 0 where
  same_list : f.callable_subscribers ≡ e.callable_subscribers
  same_state : f.is_triggering ≡ e.is_triggering

Steady-refl : (e : EventEmitter) → Steady e e
Steady-refl e = record { same_list = refl; same_state = refl }

with_removed-Steady :
    (l : Option (ListOrdered Subscription)) (e : EventEmitter) → Steady e (with_removed l e)
with_removed-Steady none e = Steady-refl e
with_removed-Steady (some l) e = record { same_list = refl; same_state = refl }

remove_found-Steady : (o : Option ℕ) (e : EventEmitter) → Steady e (remove_found o e)
remove_found-Steady none e = Steady-refl e
remove_found-Steady (some i) e = with_removed-Steady (remove i e.subscribers) e

unsubscribe-Steady : (s : Subscription) (e : EventEmitter) → Steady e (unsubscribe s e)
unfolding unsubscribe
unsubscribe-Steady s e = remove_found-Steady (index_of s 0 e.subscribers.items) e

subscribe-Steady : (s : Subscription) (e : EventEmitter) → Steady e (subscribe s e)
unfolding subscribe
subscribe-Steady s e = record { same_list = refl; same_state = refl }

unsubscribe_all-Steady : (e : EventEmitter) → Steady e (unsubscribe_all e)
unfolding unsubscribe_all
unsubscribe_all-Steady e = record { same_list = refl; same_state = refl }

Steady-trans : {e f g : EventEmitter} → Steady e f → Steady f g → Steady e g
Steady-trans s t = record {
  same_list = t.same_list ∙ s.same_list;
  same_state = t.same_state ∙ s.same_state;
}

Runs-Steady :
    {t : Task} {e f : EventEmitter} {calls : List Subscription}
    → Runs t e calls f
    → e.is_triggering ≡ true
    → Steady e f
Runs-Steady (outermost quiet r) busy = absurd (true-false busy quiet)
Runs-Steady (nested b r) busy = Runs-Steady r busy
Runs-Steady (callable_end {e} q) busy = Steady-refl e
Runs-Steady (callable_call ne found back r) busy =
    let s = Runs-Steady back busy in Steady-trans s (Runs-Steady r (s.same_state ∙ busy))
Runs-Steady (copy_end {e}) busy = Steady-refl e
Runs-Steady (copy_call back r) busy =
    let s = Runs-Steady back busy in Steady-trans s (Runs-Steady r (s.same_state ∙ busy))
Runs-Steady (returns {e}) busy = Steady-refl e
Runs-Steady (subscribes {e} subscription r) busy =
    let s = subscribe-Steady subscription e in Steady-trans s (Runs-Steady r (s.same_state ∙ busy))
Runs-Steady (unsubscribes {e} subscription r) busy =
    let s = unsubscribe-Steady subscription e in
    Steady-trans s (Runs-Steady r (s.same_state ∙ busy))
Runs-Steady (unsubscribes_all {e} r) busy =
    let s = unsubscribe_all-Steady e in Steady-trans s (Runs-Steady r (s.same_state ∙ busy))
Runs-Steady (triggers r back) busy =
    let s = Runs-Steady r busy in Steady-trans s (Runs-Steady back (s.same_state ∙ busy))

drop_all : (xs : List Subscription) → drop (length xs) xs ≡ []
drop_all [] = refl
drop_all (x ∷ xs) = drop_all xs

drop_next :
    (i : ℕ) (xs : List Subscription) (x : Subscription)
    → get_elem? xs i ≡ some x
    → drop i xs ≡ x ∷ drop (suc i) xs
drop_next i [] x h = absurd (none-some refl h)
drop_next zero (y ∷ ys) x h = ap (λ (z : Subscription). z ∷ ys) (some_unique refl h)
drop_next (suc i) (y ∷ ys) x h = drop_next i ys x h

abbrev listed : EventEmitter → List Subscription
listed e = e.callable_subscribers.items

-- The rest of the calls are those of the list, from the index on.
over_callable-drop :
    {e f : EventEmitter} {i n : ℕ} {calls : List Subscription}
    → Runs (over_callable i n) e calls f
    → n ≡ length (listed e)
    → e.is_triggering ≡ true
    → calls ≡ drop i (listed e)
over_callable-drop (callable_end {e} {i} {n} q) h busy =
    sym (ap (λ (x : ℕ). drop x (listed e)) (q ∙ h) ∙ drop_all (listed e))
over_callable-drop (callable_call {e} {f} {g} {i} {n} {subscription} ne found back r) h busy =
    let s = Runs-Steady back busy in
    let same : listed f ≡ listed e = ap (λ (l : ListOrdered Subscription). l.items) s.same_list in
    ap (◌∷◌ subscription) (
      over_callable-drop r (h ∙ sym (ap (λ (l : List Subscription). length l) same))
        (s.same_state ∙ busy)
      ∙ ap (λ (l : List Subscription). drop (suc i) l) same)
    ∙ sym (drop_next i (listed e) subscription found)

over_copy-all :
    {e f : EventEmitter} {subs calls : List Subscription}
    → Runs (over_copy subs) e calls f
    → calls ≡ subs
over_copy-all copy_end = refl
over_copy-all (copy_call {subscription = s} back r) = ap (◌∷◌ s) (over_copy-all r)

-- The list to call is that of the subscribers, or it is out of date.
abbrev pub UpToDate : EventEmitter → Type 0
UpToDate e =
    e.subscribers_generation ≡ e.callable_subscribers_generation
    → e.callable_subscribers.items ≡ e.subscribers.items

begin_trigger-listed :
    (e : EventEmitter) → UpToDate e → listed (begin_trigger e) ≡ e.subscribers.items
unfolding begin_trigger
begin_trigger-listed e h =
    elim (Bool-cases (e.subscribers_generation == e.callable_subscribers_generation)) [
      | inl same ↦
          rw same (h (==→eq e.subscribers_generation e.callable_subscribers_generation same))
      | inr other ↦ rw other refl
    ]

begin_trigger_busy : (e : EventEmitter) → (begin_trigger e).is_triggering ≡ true
unfolding begin_trigger
begin_trigger_busy e = ground arith

-- If the list to call is that of the subscribers or known to be out of date, a trigger, nested or
-- not, calls each subscriber of the time at which it begins, once and in the order of their
-- subscriptions, whatever its call backs do meanwhile: subscribe, unsubscribe or trigger again.
pub Runs-subscribers :
    {e f : EventEmitter} {calls : List Subscription}
    → Runs triggering e calls f
    → UpToDate e
    → calls ≡ e.subscribers.items
Runs-subscribers (outermost {e} quiet r) h =
    over_callable-drop r refl (begin_trigger_busy e) ∙ begin_trigger-listed e h
Runs-subscribers (nested {e} busy r) h = unfold copy in over_copy-all r

get-drop :
    (i : ℕ) (xs : List Subscription)
    → i < length xs
    → (x : Subscription) × (get_elem? xs i ≡ some x) × (drop i xs ≡ x ∷ drop (suc i) xs)
get-drop i [] h = absurd (omega arith)
get-drop zero (x ∷ xs) h = (x, refl, refl)
get-drop (suc i) (x ∷ xs) h = get-drop i xs (omega arith)

over_callable_quiet :
    (e : EventEmitter) (k i : ℕ)
    → i + k ≡ length (listed e)
    → Runs (over_callable i (length (listed e))) e (drop i (listed e)) e
over_callable_quiet e zero i h =
    let q : i ≡ length (listed e) = omega (arith, h) in
    subst (λ (calls : List Subscription). Runs (over_callable i (length (listed e))) e calls e)
      (sym (ap (λ (n : ℕ). drop n (listed e)) q ∙ drop_all (listed e))) (callable_end q)
over_callable_quiet e (suc k) i h =
    let (x, found, q) = get-drop i (listed e) (omega (arith, h)) in
    subst (λ (calls : List Subscription). Runs (over_callable i (length (listed e))) e calls e)
      (sym q)
      (callable_call (omega (arith, h)) found returns
        (over_callable_quiet e k (suc i) (omega (arith, h))))

-- With call backs that leave the emitter alone, an outermost trigger ends, and can be made again.
pub Runs-quiet :
    (e : EventEmitter)
    → e.is_triggering ≡ false
    → UpToDate e
    → Runs triggering e e.subscribers.items (end_trigger (begin_trigger e))
Runs-quiet e quiet h =
    subst (λ (calls : List Subscription). Runs triggering e calls (end_trigger (begin_trigger e)))
      (begin_trigger-listed e h)
      (outermost quiet
        (over_callable_quiet (begin_trigger e) (length (listed (begin_trigger e))) 0 (omega arith)))
