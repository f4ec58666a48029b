-- ===== src/MpscFifo.antt =====
-- common/MpscFifo.hpp: a queue with many producers and one consumer. An item is named by its address.
-- A push has two atomic steps, between which other producers and the consumer may run: it exchanges
-- the last item, and then stores itself as the next of the item that was last. `pop_unknown` has two
-- atomic reads, between which producers may run: of the last item, and of the next of the first.
pub mod Waiting
pub mod Order
pub mod Pops
pub mod Runs
use uberos.Prelude.{
  ℕ, zero, suc, Option, none, some, Bool, true, false, List, [], ◌∷◌, ◌++◌, ◌==◌, if◌then◌else◌,
  set_at, has, ◌≡◌, ◌≢◌,
}

-- `pending` has the pushes between their steps: the item that was last, and the item pushed.
-- `live` has the items that are allocated. `checked` is whether the consumer is between its two reads.
pub record MpscFifo : Type 0 where
  pub out : ℕ
  pub in_ : ℕ
  pub next : ℕ → Option ℕ
  pub pending : List (ℕ × ℕ)
  pub live : List ℕ
  pub checked : Bool

abbrev pub without : ℕ → List ℕ → List ℕ
without a [] = []
without a (x ∷ xs) = if x == a then without a xs else x ∷ without a xs

-- A queue with its first item, which holds no data.
unfoldable pub new_fifo : ℕ → MpscFifo
new_fifo item = record {
  out = item;
  in_ = item;
  next = λ a. none;
  pending = [];
  live = item ∷ [];
  checked = false;
}

-- The first step of `push`, of an item that is made with no next.
unfoldable pub exchange_in : ℕ → MpscFifo → MpscFifo
exchange_in item s = record s {
  in_ = item;
  next = set_at s.next item none;
  pending = (s.in_, item) ∷ s.pending;
  live = item ∷ s.live;
}

-- The second step of `push`, which leaves these pushes pending.
unfoldable pub store_next : ℕ → ℕ → List (ℕ × ℕ) → MpscFifo → MpscFifo
store_next old item pending s = record s { next = set_at s.next old (some item); pending = pending }

-- The old first item is deleted, and the next takes its place.
unfoldable pub advance_out : ℕ → MpscFifo → MpscFifo
advance_out item s = record s { out = item; live = without s.out s.live }

unfoldable pub pop_next : Option ℕ → MpscFifo → Option ℕ × MpscFifo
unfolding advance_out
pop_next none s = (none, s)
pop_next (some item) s = (some item, advance_out item s)

unfoldable pub pop_unknown : MpscFifo → Option ℕ × MpscFifo
unfolding advance_out
pop_unknown s = if s.out == s.in_ then (none, s) else pop_next (s.next s.out) s

-- `none` is a null pointer that is read.
unfoldable pub pop_known : MpscFifo → Option (ℕ × MpscFifo)
unfolding advance_out
pop_known s = elim (s.next s.out) [ none ↦ none | some item ↦ some (item, advance_out item s) ]

abbrev pub while_popped : Option ℕ × MpscFifo → (MpscFifo → Option MpscFifo) → Option MpscFifo
while_popped (none, s) go = some s
while_popped (some item, s) go = go s

-- The loop of `clear`, on fuel.
unfoldable pub clear : ℕ → MpscFifo → Option MpscFifo
clear zero s = none
clear (suc k) s = while_popped (pop_unknown s) (clear k)

abbrev pub checking : Bool → MpscFifo → MpscFifo
checking b s = record s { checked = b }

-- What may happen next, with the items that it pushes and those that it pops.
pub data Step (s : MpscFifo) : List ℕ → List ℕ → MpscFifo → Type 0 where
  exchange : (item : ℕ) → has item s.live ≡ false → Step s (item ∷ []) [] (exchange_in item s)
  store :
      (before : List (ℕ × ℕ)) (old item : ℕ) (after : List (ℕ × ℕ))
      → s.pending ≡ before ++ (old, item) ∷ after
      → Step s [] [] (store_next old item (before ++ after) s)
  pop_empty : s.checked ≡ false → s.out ≡ s.in_ → Step s [] [] s
  pop_check : s.checked ≡ false → s.out ≢ s.in_ → Step s [] [] (checking true s)
  pop_null :
      s.checked ≡ true → (pop_next (s.next s.out) s).0 ≡ none → Step s [] [] (checking false s)
  pop_item :
      (item : ℕ)
      → s.checked ≡ true
      → (pop_next (s.next s.out) s).0 ≡ some item
      → Step s [] (item ∷ []) (checking false (pop_next (s.next s.out) s).1)

-- Any number of steps, with the items in the order of their pushes and of their pops.
pub data Steps (s : MpscFifo) : List ℕ → List ℕ → MpscFifo → Type 0 where
  done : Steps s [] [] s
  later :
      {t u : MpscFifo} {ins outs more_ins more_outs : List ℕ}
      → Steps s ins outs t
      → Step t more_ins more_outs u
      → Steps s (ins ++ more_ins) (outs ++ more_outs) u
