-- ===== src/EventEmitter/Generations.antt =====
-- The changes of the subscribers in common/EventEmitter.hpp, and the generations that tell whether the
-- list to call is out of date.
use uberos.Prelude.{
  ℕ, suc, ◌+◌, ◌%◌, ◌^◌, ◌≤◌, ◌<◌, ◌≡◌, inl, inr, refl, ap, ◌∙◌, subst, Option, none, some, true,
  false, List, [], ◌∷◌, ◌++◌, ◌==◌, ==_refl, ==→eq, length, arith, Bool-cases, add32,
}
use mathlib.Core.List.{append-nil}
use uberos.ListOrdered.{ListOrdered, remove, push_back, clear, copy}
use uberos.ListOrdered.Contents.{remove-split}
use uberos.EventEmitter.{
  Subscription, EventEmitter, subscribe, unsubscribe, unsubscribe_all, begin_trigger, remove_found,
  with_removed, index_of, same_subscription,
}
use uberos.EventEmitter.Deliveries.{UpToDate}

same_subscription_refl : (s : Subscription) → same_subscription s s ≡ true
same_subscription_refl s = rw (==_refl s.callback, ==_refl s.context) refl

-- None of these is the subscription.
abbrev pub Lacks : Subscription → List Subscription → Type 0
Lacks s [] = Unit {0}
Lacks s (x ∷ xs) = (same_subscription x s ≡ false) × Lacks s xs

index_of-split :
    (s : Subscription) (i : ℕ) (xs ys : List Subscription)
    → Lacks s xs
    → index_of s i (xs ++ s ∷ ys) ≡ some (i + length xs)
unfolding index_of
index_of-split s i [] ys h = rw (same_subscription_refl s) (ap some (omega arith))
index_of-split s i (x ∷ xs) ys (h, hs) =
    rw h (index_of-split s (suc i) xs ys hs ∙ ap some (omega arith))

index_of-Lacks :
    (s : Subscription) (i : ℕ) (xs : List Subscription) → Lacks s xs → index_of s i xs ≡ none
unfolding index_of
index_of-Lacks s i [] h = refl
index_of-Lacks s i (x ∷ xs) (h, hs) = rw h (index_of-Lacks s (suc i) xs hs)

removed :
    (l : ListOrdered Subscription) (s : Subscription) (xs ys : List Subscription)
    → l.items ≡ xs ++ s ∷ ys
    → remove (0 + length xs) l ≡ some (record { items = xs ++ ys; allocated = l.allocated })
removed l s xs ys split =
    let e : 0 + length xs ≡ length xs = omega arith in
    ap (λ (i : ℕ). remove i l) e
    ∙ ap
        (λ (z : List Subscription).
          remove (length xs) (record { items = z; allocated = l.allocated }))
        split
    ∙ remove-split xs s ys l.allocated

-- `unsubscribe` takes the first such subscription out, if there is one, and keeps the others in their
-- order; without one it changes nothing.
pub unsubscribe-first :
    (s : Subscription) (e : EventEmitter)
    → (Lacks s e.subscribers.items → unsubscribe s e ≡ e)
      × ((xs ys : List Subscription)
          → e.subscribers.items ≡ xs ++ s ∷ ys
          → Lacks s xs
          → (unsubscribe s e).subscribers.items ≡ xs ++ ys)
unfolding unsubscribe
unsubscribe-first s e = (
  λ h. rw (index_of-Lacks s 0 e.subscribers.items h) refl,
  λ xs ys split h.
      ap (λ (o : Option ℕ). (remove_found o e).subscribers.items)
        (ap (index_of s 0) split ∙ index_of-split s 0 xs ys h)
      ∙ ap (λ (o : Option (ListOrdered Subscription)). (with_removed o e).subscribers.items)
          (removed e.subscribers s xs ys split),
)

subscribe-items :
    (s : Subscription) (e : EventEmitter)
    → (subscribe s e).subscribers.items ≡ e.subscribers.items ++ s ∷ []
unfolding subscribe
subscribe-items s e = refl

-- Who subscribes and unsubscribes is not called any more, and the others are.
pub unsubscribe-subscribe :
    (s : Subscription) (e : EventEmitter)
    → Lacks s e.subscribers.items
    → (unsubscribe s (subscribe s e)).subscribers.items ≡ e.subscribers.items
unsubscribe-subscribe s e h =
    (unsubscribe-first s (subscribe s e)).1 e.subscribers.items [] (subscribe-items s e) h
    ∙ append-nil e.subscribers.items

pub data Change : Type 0 where
  subscribing : Subscription → Change
  unsubscribing : Subscription → Change
  unsubscribing_all : Change

abbrev pub change : Change → EventEmitter → EventEmitter
unfolding subscribe unsubscribe unsubscribe_all
change (subscribing s) = subscribe s
change (unsubscribing s) = unsubscribe s
change unsubscribing_all = unsubscribe_all

abbrev pub changes : List Change → EventEmitter → EventEmitter
changes [] e = e
changes (c ∷ cs) e = changes cs (change c e)

-- So many changes, at most, since the list to call was brought up to date.
record Behind (n : ℕ) (e : EventEmitter) : Type 0 where
  steps : ℕ
  few : steps ≤ n
  generation : e.subscribers_generation ≡ (e.callable_subscribers_generation + steps) % 2 ^ 32
  small : e.callable_subscribers_generation < 2 ^ 32
  current : steps ≡ 0 → e.callable_subscribers.items ≡ e.subscribers.items

Behind-UpToDate : (n : ℕ) (e : EventEmitter) → n < 2 ^ 32 → Behind n e → UpToDate e
Behind-UpToDate n e h b same = b.current (omega (arith, b.generation, b.small, b.few, same))

Behind-next :
    {n : ℕ} {e : EventEmitter} (l : ListOrdered Subscription)
    → suc n < 2 ^ 32
    → Behind n e
    → Behind
        (suc n)
        (record e { subscribers = l; subscribers_generation = add32 e.subscribers_generation 1 })
Behind-next l h b = record {
  steps = suc b.steps;
  few = omega (arith, b.few);
  generation = omega (arith, b.generation, b.few);
  small = b.small;
  current = λ q. absurd (omega (arith, q));
}

Behind-weaken : {n : ℕ} {e : EventEmitter} → Behind n e → Behind (suc n) e
Behind-weaken b = record {
  steps = b.steps;
  few = omega (arith, b.few);
  generation = b.generation;
  small = b.small;
  current = b.current;
}

with_removed-Behind :
    {n : ℕ} (e : EventEmitter) (o : Option (ListOrdered Subscription))
    → suc n < 2 ^ 32
    → Behind n e
    → Behind (suc n) (with_removed o e)
with_removed-Behind e none h b = Behind-weaken b
with_removed-Behind e (some l) h b = Behind-next l h b

remove_found-Behind :
    {n : ℕ} (e : EventEmitter) (o : Option ℕ)
    → suc n < 2 ^ 32
    → Behind n e
    → Behind (suc n) (remove_found o e)
remove_found-Behind e none h b = Behind-weaken b
remove_found-Behind e (some i) h b = with_removed-Behind e (remove i e.subscribers) h b

change-Behind :
    {n : ℕ} (c : Change) (e : EventEmitter)
    → suc n < 2 ^ 32
    → Behind n e
    → Behind (suc n) (change c e)
unfolding change subscribe unsubscribe unsubscribe_all
change-Behind (subscribing s) e h b = Behind-next (push_back s e.subscribers) h b
change-Behind (unsubscribing s) e h b = remove_found-Behind e (index_of s 0 e.subscribers.items) h b
change-Behind unsubscribing_all e h b = Behind-next (clear e.subscribers) h b

changes-Behind :
    (cs : List Change) (n : ℕ) (e : EventEmitter)
    → n + length cs < 2 ^ 32
    → Behind n e
    → Behind (n + length cs) (changes cs e)
changes-Behind [] n e h b = subst (λ (k : ℕ). Behind k e) (omega arith) b
changes-Behind (c ∷ cs) n e h b =
    subst (λ (k : ℕ). Behind k (changes cs (change c e))) (omega arith)
      (changes-Behind cs (suc n) (change c e) (omega arith) (change-Behind c e (omega arith) b))

begin_trigger-Behind :
    (e : EventEmitter) → e.subscribers_generation < 2 ^ 32 → UpToDate e → Behind 0 (begin_trigger e)
unfolding begin_trigger copy
begin_trigger-Behind e small h =
    elim (Bool-cases (e.subscribers_generation == e.callable_subscribers_generation)) [
      | inl same ↦
          let q : e.subscribers_generation ≡ e.callable_subscribers_generation =
            ==→eq e.subscribers_generation e.callable_subscribers_generation same in
          rw same (record {
            steps = 0;
            few = omega arith;
            generation = omega (arith, q);
            small = omega (arith, q);
            current = λ z. h q;
          })
      | inr other ↦ rw other (record {
        steps = 0;
        few = omega arith;
        generation = omega arith;
        small = small;
        current = λ z. refl;
      })
    ]

-- After an outermost trigger has begun, on an emitter whose list to call was the subscribers or
-- known to be out of date, fewer than 2^32 subscriptions and unsubscriptions leave that list
-- either that of the subscribers or known to be out of date, although the generations wrap.
pub changes-UpToDate :
    (e : EventEmitter) (cs : List Change)
    → e.subscribers_generation < 2 ^ 32
    → UpToDate e
    → length cs < 2 ^ 32
    → UpToDate (changes cs (begin_trigger e))
changes-UpToDate e cs small h few =
    Behind-UpToDate (0 + length cs) (changes cs (begin_trigger e)) (omega arith)
      (changes-Behind cs 0 (begin_trigger e) (omega arith) (begin_trigger-Behind e small h))
