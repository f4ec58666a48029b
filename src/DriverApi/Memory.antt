-- ===== src/DriverApi/Memory.antt =====
-- The memory subscriptions of a driver: an array of ranges, in the order of their addresses.
-- A loop over the index takes fuel; `none` means that the fuel ran out.
use uberos.Prelude.{
  ℕ, zero, suc, ◌+◌, List, [], ◌∷◌, Option, none, some, Bool, true, false, ◌&&◌, ◌||◌, not, ◌==◌,
  leb, ltb, if◌then◌else◌, length, get_elem?, set, add32,
}
use uberos.PodArray.{push_back, remove, insert}

-- `MemoryRange`; an address is 32 bits wide.
pub record MemoryRange : Type 0 where
  pub start : ℕ
  pub end : ℕ

abbrev pub range : ℕ → ℕ → MemoryRange
range start end = record { start = start; end = end }

-- How `subscribe_memory` answers: by the physical address itself, or by a new mapping.
pub data Answer : Type 0 where
  physical mapped : Answer

-- The loop that swallows the ranges which a grown range reaches.
unfoldable pub absorb : ℕ → ℕ → ℕ → List MemoryRange → Option (List MemoryRange)
absorb zero i end xs = none
absorb (suc k) i end xs = elim (get_elem? xs (i + 1)) [
  | none ↦ some xs
  | some next ↦ elim (get_elem? xs i) [
    | none ↦ some xs
    | some subscribed ↦
        let grown = record subscribed {
          end = if leb next.end subscribed.end then subscribed.end else next.end;
        } in
        let rest = absorb k i end (remove (i + 1) (set xs i grown)) in
        if leb next.start end then rest else some xs
  ]
]

-- The range at `i` overlaps or touches the new one, and grows.
unfoldable pub grow : ℕ → ℕ → ℕ → ℕ → MemoryRange → List MemoryRange → Option (List MemoryRange)
grow fuel i start end subscribed xs =
    let left = record subscribed {
      start = if ltb start subscribed.start then start else subscribed.start;
    } in
    if ltb subscribed.end end
    then absorb fuel i end (set xs i (record left { end = end }))
    else some (set xs i left)

-- The loop of `subscribe_memory`.
unfoldable pub place : ℕ → ℕ → ℕ → ℕ → List MemoryRange → Option (Answer × List MemoryRange)
place zero i start end xs = none
place (suc k) i start end xs = elim (get_elem? xs i) [
  | none ↦ some (mapped, push_back xs (range start end))
  | some subscribed ↦
      let rest = place k (i + 1) start end xs in
      if ltb end subscribed.start
      then some (physical, insert i (range start end) xs)
      else if ltb subscribed.end start
      then rest
      else elim (grow (length xs) i start end subscribed xs) [
        | none ↦ none
        | some ys ↦ some (mapped, ys)
      ]
]

-- The loop of `is_subscribed_to_memory`.
unfoldable pub overlaps : ℕ → ℕ → List MemoryRange → Bool
overlaps start end [] = false
overlaps start end (subscribed ∷ xs) =
    if leb end subscribed.start
    then false
    else if leb subscribed.end start
    then overlaps start end xs
    else true

unfoldable pub is_subscribed_to_memory : ℕ → ℕ → List MemoryRange → Bool
unfolding overlaps
is_subscribed_to_memory start size xs = overlaps start (add32 start size) xs

-- What the check of the other drivers reads of a driver.
pub record Driver : Type 0 where
  pub id : ℕ
  pub is_active : Bool
  pub subscribed_memory : List MemoryRange

-- Whether an active driver other than `self` has subscribed to a part of the memory.
unfoldable pub in_use : ℕ → ℕ → ℕ → List Driver → Bool
in_use self start size [] = false
in_use self start size (d ∷ ds) =
    if d.id == self || not d.is_active
    then in_use self start size ds
    else if is_subscribed_to_memory start size d.subscribed_memory
    then true
    else in_use self start size ds

-- How a subscription ends: with one of the two failures, or with the array that it leaves.
pub data Subscription : Type 0 where
  overlaps_heap already_in_use : Subscription
  subscribed_to : Answer → List MemoryRange → Subscription

-- Whether the memory from `start` on reaches into the heap.
abbrev pub reaches_heap : ℕ → ℕ → ℕ → ℕ → Bool
reaches_heap heap heap_size start size =
    ltb start (add32 heap heap_size) && ltb heap (add32 start size)

unfoldable pub subscribe_memory :
    (heap heap_size : ℕ)
    → List Driver
    → (self start size : ℕ) → List MemoryRange
    → Option Subscription
subscribe_memory heap heap_size drivers self start size xs =
    let placed = place (length xs + 1) 0 start (add32 start size) xs in
    if reaches_heap heap heap_size start size
    then some overlaps_heap
    else if in_use self start size drivers
    then some already_in_use
    else elim placed [ none ↦ none | some (answer, ys) ↦ some (subscribed_to answer ys) ]

-- One range that the freed one cuts, but does not cover: what stays of it.
unfoldable pub cut : ℕ → ℕ → ℕ → MemoryRange → List MemoryRange → List MemoryRange
cut i start end subscribed xs =
    if ltb subscribed.start start
    then (let left = set xs i (record subscribed { end = start }) in
        if ltb end subscribed.end then insert (i + 1) (range end subscribed.end) left else left)
    else if ltb end subscribed.end
    then set xs i (record subscribed { start = end })
    else xs

-- The loop of `unsubscribe_memory`. `remove(i--)` and the loop's `i++` leave the index as it was,
-- also at 0, where it wraps to the largest number and back.
unfoldable pub release : ℕ → ℕ → ℕ → ℕ → List MemoryRange → Option (List MemoryRange)
release zero i start end xs = none
release (suc k) i start end xs = elim (get_elem? xs i) [
  | none ↦ some xs
  | some subscribed ↦
      let on = release k (i + 1) start end in
      let again = release k i start end in
      if leb end subscribed.start
      then some xs
      else if leb subscribed.end start
      then on xs
      else if leb start subscribed.start && leb subscribed.end end
      then again (remove i xs)
      else on (cut i start end subscribed xs)
]

-- `unsubscribe_memory`: no index is visited twice but after a removal, and one cut can add a range.
unfoldable pub unsubscribe_memory : ℕ → ℕ → List MemoryRange → Option (List MemoryRange)
unfolding release
unsubscribe_memory start size xs = release (length xs + 2) 0 start (add32 start size) xs
