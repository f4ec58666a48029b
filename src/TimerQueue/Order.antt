-- ===== src/TimerQueue/Order.antt =====
-- The call backs stand in the order of their times.
use uberos.Prelude.{
  ℕ, suc, ◌+◌, ◌%◌, ◌^◌, ◌<◌, ◌≤◌, ◌≡◌, refl, ap, sym, ◌∙◌, subst, List, [], ◌∷◌, Option, none,
  some, Bool, true, false, not, ◌&&◌, ◌==◌, ltb, if◌then◌else◌, add32, arith, inl, inr, ◌⊎◌,
  Bool-cases, ltb→le, ltb-false_le,
}
use uberos.PodArray.{push_back, insert}
use uberos.TimerQueue.{
  Scheduled, TimerQueue, is_earlier, items, with_items, min, insertion, schedule, set_timer, reset,
}

-- In the order of their times; the marked ones, at time 0, come first.
abbrev pub InOrder : ℕ → List Scheduled → Type 0
InOrder least [] = Unit {0}
InOrder least (c ∷ cs) = (least ≤ c.time) × InOrder c.time cs

-- Times so close that a difference tells which comes first.
abbrev pub Close : ℕ → List Scheduled → Type 0
Close time [] = Unit {0}
Close time (c ∷ cs) =
    ((c.time ≡ 0) ⊎ ((time ≤ c.time + 4294967292) × (c.time < time + 2 ^ 63)))
    × (c.time < 2 ^ 64)
    × Close time cs

-- Behind all that are not later.
abbrev pub insert_by_time : Scheduled → List Scheduled → List Scheduled
insert_by_time new [] = new ∷ []
insert_by_time new (c ∷ cs) =
    if ltb new.time c.time then new ∷ c ∷ cs else c ∷ insert_by_time new cs

later_test :
    (time t : ℕ)
    → 0 < time
    → time < 2 ^ 64
    → t < 2 ^ 64
    → (t ≡ 0) ⊎ ((time ≤ t + 4294967292) × (t < time + 2 ^ 63))
    → (not (t == 0) && is_earlier time t) ≡ ltb time t
later_test time t p b b' (inl e) = ground (arith, e)
later_test time t p b b' (inr h) = ground (arith, h)

-- What the two ways of adding a call back leave in the array.
added : Option ℕ → Scheduled → List Scheduled → List Scheduled
added none new xs = push_back xs new
added (some i) new xs = insert i new xs

added-insertion :
    (new : Scheduled) (xs : List Scheduled)
    → 0 < new.time
    → new.time < 2 ^ 64
    → Close new.time xs
    → added (insertion new.time xs) new xs ≡ insert_by_time new xs
unfolding added push_back insert
added-insertion new [] p b h = refl
added-insertion new (c ∷ cs) p b h =
    rw (later_test new.time c.time p b h.1 h.0)
      (branch (ltb new.time c.time) (insertion new.time cs) (added-insertion new cs p b h.2))
  where
    next : Option ℕ → Option ℕ
    next o = elim o [ none ↦ none | some i ↦ some (suc i) ]

    branch :
        (later : Bool) (o : Option ℕ)
        → added o new cs ≡ insert_by_time new cs
        → added (if later then some 0 else next o) new (c ∷ cs)
          ≡ (if later then new ∷ c ∷ cs else c ∷ insert_by_time new cs)
    branch true o e = refl
    branch false none e = ap (◌∷◌ c) e
    branch false (some i) e = ap (◌∷◌ c) e

insert_by_time-InOrder :
    (least : ℕ) (new : Scheduled) (xs : List Scheduled)
    → least ≤ new.time
    → InOrder least xs
    → InOrder least (insert_by_time new xs)
insert_by_time-InOrder least new [] l o = (l, tt)
insert_by_time-InOrder least new (c ∷ cs) l o =
    branch (Bool-cases (ltb new.time c.time)) (λ k. insert_by_time-InOrder c.time new cs k o.1)
  where
    branch :
        (ltb new.time c.time ≡ true) ⊎ (ltb new.time c.time ≡ false)
        → (c.time ≤ new.time → InOrder c.time (insert_by_time new cs))
        → InOrder least (if ltb new.time c.time then new ∷ c ∷ cs else c ∷ insert_by_time new cs)
    branch (inl e) rest = rw e (l, (ltb→le new.time c.time e, o.1))
    branch (inr e) rest = rw e (o.0, rest (ltb-false_le new.time c.time e))

items-with_items :
    (b : Bool) (xs : List Scheduled) (q : TimerQueue) → items b (with_items b xs q) ≡ xs
items-with_items true xs q = refl
items-with_items false xs q = refl

items-set_timer : (b : Bool) (time : ℕ) (q : TimerQueue) → items b (set_timer time q) ≡ items b q
items-set_timer true time q = refl
items-set_timer false time q = refl

items-reset :
    (b : Bool) (time : ℕ) (ys : List Scheduled) (q : TimerQueue)
    → items b (reset time ys q) ≡ items b q
items-reset b time [] q = items-set_timer b time q
items-reset b time (c ∷ cs) q = branch (c.time == 0)
  where
    branch :
        (z : Bool)
        → items b (if z then set_timer time q else set_timer (min time c.time) q) ≡ items b q
    branch true = items-set_timer b time q
    branch false = items-set_timer b (min time c.time) q

-- The call back that `schedule` adds.
abbrev pub scheduled : ℕ → ℕ → ℕ → ℕ → TimerQueue → Scheduled
scheduled now usecs callback data' q = record {
  time = (now + usecs) % 2 ^ 64;
  callback = callback;
  id = q.next_timer_id;
  data_address = data';
}

schedule-added :
    (b : Bool) (now usecs callback data' : ℕ) (q : TimerQueue)
    → items b (schedule b now usecs callback data' q).1
      ≡ added
          (insertion ((now + usecs) % 2 ^ 64) (items b q))
          (scheduled now usecs callback data' q)
          (items b q)
unfolding schedule added
schedule-added b now usecs callback data' q =
    branch (insertion ((now + usecs) % 2 ^ 64) (items b q))
  where
    new : Scheduled
    new = scheduled now usecs callback data' q

    next : TimerQueue
    next = record q { next_timer_id = add32 q.next_timer_id 1 }

    result : Option ℕ → TimerQueue
    result none = with_items b (push_back (items b q) new) next
    result (some i) =
        if i == 0
        then reset new.time (items (not b) q) (with_items b (insert i new (items b q)) next)
        else with_items b (insert i new (items b q)) next

    first :
        (i : ℕ) (z : Bool)
        → items b (
            if z
            then reset new.time (items (not b) q) (with_items b (insert i new (items b q)) next)
            else with_items b (insert i new (items b q)) next)
          ≡ insert i new (items b q)
    first i true =
        items-reset b new.time (items (not b) q) (with_items b (insert i new (items b q)) next)
        ∙ items-with_items b (insert i new (items b q)) next
    first i false = items-with_items b (insert i new (items b q)) next

    branch :
        (o : Option ℕ)
        → items b
            (elim o as (λ _. ℕ × TimerQueue) [
              | none ↦ (q.next_timer_id, result none)
              | some i ↦ (q.next_timer_id, result (some i))
            ]).1
          ≡ added o new (items b q)
    branch none = items-with_items b (push_back (items b q) new) next
    branch (some i) = first i (i == 0)

-- `schedule` and `schedule_important` keep an array in the order of its times and put the new call
-- back behind all that are not later, if its time is not 0, and no waiting one is earlier by
-- 2^32 - 3 or more, or later by 2^63 or more.
pub schedule-InOrder :
    (important : Bool) (now usecs callback data' : ℕ) (q : TimerQueue)
    → 0 < (now + usecs) % 2 ^ 64
    → Close ((now + usecs) % 2 ^ 64) (items important q)
    → InOrder 0 (items important q)
    → (items important (schedule important now usecs callback data' q).1
        ≡ insert_by_time (scheduled now usecs callback data' q) (items important q))
      × InOrder 0 (items important (schedule important now usecs callback data' q).1)
schedule-InOrder b now usecs callback data' q p c o =
    let new : Scheduled = scheduled now usecs callback data' q in
    let e =
      schedule-added b now usecs callback data' q
      ∙ added-insertion new (items b q) p (omega arith) c in
    (e, subst (InOrder 0) (sym e) (insert_by_time-InOrder 0 new (items b q) (omega arith) o))
