-- ===== src/DriverApi/Subscriptions.antt =====
-- `subscribe_memory`, `unsubscribe_memory` and `is_subscribed_to_memory` as operations on the set of
-- addresses that a driver has subscribed to.
use uberos.Prelude.{
  ℕ, ◌+◌, ◌≤◌, ◌<◌, ◌≡◌, ◌≢◌, refl, sym, ap, ◌∙◌, List, [], ◌∷◌, Bool, true, false, ◌&&◌, ◌||◌, not,
  leb, ◌==◌, arith, add32, Option, some, length, Bool-cases, ◌⊎◌, inl, inr, leb→le, true-false,
  ==_ne,
}
use uberos.DriverApi.Memory.{
  MemoryRange, range, Answer, overlaps, is_subscribed_to_memory, unsubscribe_memory, Driver, in_use,
  Subscription, subscribed_to, overlaps_heap, already_in_use, reaches_heap, subscribe_memory,
}
use uberos.DriverApi.Ranges.{join, place-join, answer}
use uberos.DriverApi.Release.{subtract, covered, unsubscribe_memory-subtract}
use uberos.DriverApi.Cover.{
  inside, covers, Sorted, subtract-Sorted, covers-subtract, join-Sorted, covers-join, covers-below,
}

-- Two sets of ranges after a change: the new ones are in order, and an address is in them as said.
abbrev pub Covers : List MemoryRange → (ℕ → Bool) → Type 0
Covers ys set = Sorted 0 ys × ((x : ℕ) → covers x ys ≡ set x)

-- A call of `unsubscribe_memory` on ranges in order, for a range that does not wrap and does not
-- cover the first subscription, returns ranges in order that cover exactly the addresses covered
-- before and not in the freed range.
pub unsubscribe_memory-covers :
    (start size : ℕ) (r : MemoryRange) (rest : List MemoryRange)
    → Sorted 0 (r ∷ rest)
    → start ≤ add32 start size
    → covered start (add32 start size) r ≡ false
    → (ys : List MemoryRange) × (unsubscribe_memory start size (r ∷ rest) ≡ some ys)
      × Covers ys (λ x. covers x (r ∷ rest) && not (inside x (range start (add32 start size))))
unsubscribe_memory-covers start size r rest s h c = (
  subtract start (add32 start size) (r ∷ rest),
  unsubscribe_memory-subtract start size r rest c,
  (subtract-Sorted 0 start _ (r ∷ rest) h s, λ x. covers-subtract x 0 start _ (r ∷ rest) h s),
)

-- A call of `subscribe_memory` on ranges in order, for a range that does not wrap and reaches into
-- neither the heap nor another active driver's memory, returns ranges in order that cover exactly
-- the addresses covered before and those of the new range.
pub subscribe_memory-covers :
    (heap heap_size : ℕ) (drivers : List Driver) (self start size : ℕ) (xs : List MemoryRange)
    → Sorted 0 xs
    → start ≤ add32 start size
    → reaches_heap heap heap_size start size ≡ false
    → in_use self start size drivers ≡ false
    → (ys : List MemoryRange) × (subscribe_memory heap heap_size drivers self start size xs
        ≡ some (subscribed_to (answer start (add32 start size) xs) ys))
      × Covers ys (λ x. inside x (range start (add32 start size)) || covers x xs)
unfolding subscribe_memory
subscribe_memory-covers heap heap_size drivers self start size xs s h free unused =
    let placed = place-join (length xs + 1) [] start (add32 start size) xs (omega arith) in
    (
      join start (add32 start size) xs,
      rw (free, unused, placed) refl,
      (join-Sorted 0 start _ xs (omega arith) h s, λ x. covers-join x 0 start _ xs h s),
    )

overlaps-cases :
    (P : Bool → Type 0) (start end : ℕ) (r : MemoryRange) (rest : List MemoryRange)
    → (end ≤ r.start → P false)
    → (r.end ≤ start → P (overlaps start end rest))
    → P true
    → P (overlaps start end (r ∷ rest))
unfolding overlaps
overlaps-cases P start end r rest behind ahead met = elim (Bool-cases (leb end r.start)) [
  | inl a ↦ rw a (behind (leb→le _ _ a))
  | inr a ↦ elim (Bool-cases (leb r.end start)) [
    | inl b ↦ rw (a, b) (ahead (leb→le _ _ b))
    | inr b ↦ rw (a, b) met
  ]
]

-- A range that meets no subscription has no address in common with them.
overlaps-covers :
    (x low start end : ℕ) (xs : List MemoryRange)
    → Sorted low xs
    → inside x (range start end) ≡ true
    → overlaps start end xs ≡ false
    → covers x xs ≡ false
overlaps-covers x low start end [] s i = λ e. refl
overlaps-covers x low start end (r ∷ rest) s i =
    overlaps-cases (λ b. b ≡ false → covers x (r ∷ rest) ≡ false) start end r rest
      (λ a e. apart a (covers-below x r.end rest s.2))
      (λ a e. later a (overlaps-covers x r.end start end rest s.2 i e))
      (λ e. absurd (true-false refl e))
  where
    apart : end ≤ r.start → (x < r.end → covers x rest ≡ false) → covers x (r ∷ rest) ≡ false
    apart a below = ground (arith, i, a, below, s.1)

    later : r.end ≤ start → covers x rest ≡ false → covers x (r ∷ rest) ≡ false
    later a c = ground (arith, i, a, c)

in_use-cases :
    (P : Bool → Type 0) (self start size : ℕ) (d : Driver) (ds : List Driver)
    → ((d.id == self || not d.is_active) ≡ true → P (in_use self start size ds))
    → P true
    → (is_subscribed_to_memory start size d.subscribed_memory ≡ false
        → P (in_use self start size ds))
    → P (in_use self start size (d ∷ ds))
unfolding in_use
in_use-cases P self start size d ds skip met on =
    elim (Bool-cases (d.id == self || not d.is_active)) [
      | inl a ↦ rw a (skip a)
      | inr a ↦ elim (Bool-cases (is_subscribed_to_memory start size d.subscribed_memory)) [
        | inl b ↦ rw (a, b) met
        | inr b ↦ rw (a, b) (on b)
      ]
    ]

considered : (a b : ℕ) (active : Bool) → a ≢ b → active ≡ true → (a == b || not active) ≡ false
considered a b active n h = rw (==_ne a b n, h)

abbrev Among : Driver → List Driver → Type 0
Among d [] = ⊥
Among d (y ∷ ds) = (d ≡ y) ⊎ Among d ds

-- A driver that the check has passed over has not subscribed to the memory.
in_use-unsubscribed :
    (self start size : ℕ) (ds : List Driver) (d : Driver)
    → Among d ds
    → d.id ≢ self
    → d.is_active ≡ true
    → in_use self start size ds ≡ false
    → is_subscribed_to_memory start size d.subscribed_memory ≡ false
in_use-unsubscribed self start size [] d m n h = elim m [ ]
in_use-unsubscribed self start size (y ∷ ds) d m n h =
    in_use-cases (λ b. b ≡ false → is_subscribed_to_memory start size d.subscribed_memory ≡ false)
      self start size y ds
      (λ a e. elim m [
        | inl e' ↦ absurd (
            true-false (ap (λ z. z.id == self || not z.is_active) e' ∙ a)
              (considered d.id self d.is_active n h))
        | inr m' ↦ in_use-unsubscribed self start size ds d m' n h e
      ])
      (λ e. absurd (true-false refl e))
      (λ a e. elim m [
        | inl e' ↦ ap (λ z. is_subscribed_to_memory start size z.subscribed_memory) e' ∙ a
        | inr m' ↦ in_use-unsubscribed self start size ds d m' n h e
      ])

granted :
    (heap heap_size : ℕ) (drivers : List Driver) (self start size : ℕ) (xs : List MemoryRange)
    (a : Answer) (ys : List MemoryRange)
    → subscribe_memory heap heap_size drivers self start size xs ≡ some (subscribed_to a ys)
    → in_use self start size drivers ≡ false
granted heap heap_size drivers self start size xs a ys e =
    elim (Bool-cases (in_use self start size drivers)) [
      | inr u ↦ u
      | inl u ↦ elim (Bool-cases (reaches_heap heap heap_size start size)) [
        | inl h ↦ absurd (refused overlaps_heap refl (unfold subscribe_memory in rw h refl))
        | inr h ↦ absurd (refused already_in_use refl (unfold subscribe_memory in rw (h, u) refl))
      ]
    ]
  where
    is_granted : Option Subscription → Bool
    is_granted (some (subscribed_to a' ys')) = true
    is_granted _ = false

    refused :
        (o : Subscription)
        → is_granted (some o) ≡ false
        → subscribe_memory heap heap_size drivers self start size xs ≡ some o
        → ⊥
    refused o f e' = true-false (ap is_granted (sym e' ∙ e)) f

-- A range that `subscribe_memory` grants has no address in common with the ranges, kept in order,
-- of another active driver.
pub subscribe_memory-exclusive :
    (heap heap_size : ℕ) (drivers : List Driver) (self start size : ℕ) (xs ys : List MemoryRange)
    (a : Answer)
    → subscribe_memory heap heap_size drivers self start size xs ≡ some (subscribed_to a ys)
    → (d : Driver) → Among d drivers
    → d.id ≢ self
    → d.is_active ≡ true
    → Sorted 0 d.subscribed_memory
    → (x : ℕ) → inside x (range start (add32 start size)) ≡ true
    → covers x d.subscribed_memory ≡ false
subscribe_memory-exclusive heap heap_size drivers self start size xs ys a e d m n h s x i =
    overlaps-covers x 0 start (add32 start size) d.subscribed_memory s i (
      unfold is_subscribed_to_memory in
      in_use-unsubscribed self start size drivers d m n h
        (granted heap heap_size drivers self start size xs a ys e))
