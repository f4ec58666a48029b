-- ===== src/Tests/Drivers.antt =====
-- The memory of a driver with two ranges, next to an active driver with one.
use uberos.Prelude.{◌≡◌, refl, List, [], ◌∷◌, true, false, some, inl, arith, ◌||◌, ◌&&◌, not}
use uberos.DriverApi.Memory.{
  MemoryRange, range, Driver, mapped, subscribed_to, subscribe_memory, unsubscribe_memory, in_use,
  is_subscribed_to_memory, place, grow, absorb,
}
use uberos.PodArray.{remove}
use uberos.DriverApi.Ranges.{answer}
use uberos.DriverApi.Release.{unsubscribe_memory-first}
use uberos.DriverApi.Cover.{inside, covers, Sorted}
use uberos.DriverApi.Subscriptions.{
  Covers, unsubscribe_memory-covers, subscribe_memory-covers, subscribe_memory-exclusive,
}

abbrev owned : List MemoryRange
owned = range 100 200 ∷ range 300 400 ∷ []

abbrev other : Driver
other = record { id = 2; is_active = true; subscribed_memory = range 500 600 ∷ [] }

owned-Sorted : Sorted 0 owned
owned-Sorted = (ground arith, ground arith, (ground arith, ground arith, tt))

unsubscribe_memory-covers_example :
    (ys : List MemoryRange) × (unsubscribe_memory 150 200 owned ≡ some ys)
    × Covers ys (λ x. covers x owned && not (inside x (range 150 350)))
unsubscribe_memory-covers_example =
    unsubscribe_memory-covers 150 200 (range 100 200) (range 300 400 ∷ []) owned-Sorted
      (ground arith) refl

subscribe_memory-covers_example :
    (ys : List MemoryRange) × (subscribe_memory 10000 1000 (other ∷ []) 1 150 200 owned
      ≡ some (subscribed_to (answer 150 350 owned) ys))
    × Covers ys (λ x. inside x (range 150 350) || covers x owned)
unfolding in_use is_subscribed_to_memory
subscribe_memory-covers_example =
    subscribe_memory-covers 10000 1000 (other ∷ []) 1 150 200 owned owned-Sorted (ground arith) refl
      refl

unsubscribe_memory-first_example : unsubscribe_memory 100 100 owned ≡ some []
unsubscribe_memory-first_example =
    unsubscribe_memory-first 100 100 (range 100 200) (range 300 400 ∷ []) (ground arith)
      (ground arith) (ground arith)

granted_run :
    subscribe_memory 10000 1000 (other ∷ []) 1 150 200 owned
    ≡ some (subscribed_to mapped (range 100 400 ∷ []))
unfolding subscribe_memory in_use is_subscribed_to_memory place grow absorb remove
granted_run = refl

subscribe_memory-exclusive_example : covers 160 (range 500 600 ∷ []) ≡ false
subscribe_memory-exclusive_example =
    subscribe_memory-exclusive 10000 1000 (other ∷ []) 1 150 200 owned (range 100 400 ∷ []) mapped
      granted_run other (inl refl) (ground arith) refl (ground arith, ground arith, tt) 160 refl
