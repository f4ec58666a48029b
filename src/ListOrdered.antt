-- ===== src/ListOrdered.antt =====
-- common/ListOrdered.hpp: a growing array that keeps its order. The model has the items up to `length`,
-- and how many are allocated; what stands behind them is never read, except by `insert` at the end.
pub mod Contents
use uberos.Prelude.{
  ℕ, zero, suc, ◌+◌, ◌-◌, ◌/◌, Option, none, some, Bool, true, false, List, [], ◌∷◌, ◌++◌, leb, ltb,
  ◌==◌, if◌then◌else◌, add32, length, take, drop, get_elem?, ◌>>=◌,
}

pub record ListOrdered {ℓ} (A : Type ℓ) : Type ℓ where
  pub items : List A
  pub allocated : ℕ

abbrev pub greatest : ℕ → ℕ → ℕ
greatest a b = if ltb a b then b else a

module _ {ℓ} {A : Type ℓ} where
  unfoldable pub resize : ℕ → ListOrdered A → ListOrdered A
  resize new_size l = record l { allocated = greatest (greatest (length l.items) 1) new_size }

  -- Room for one more, before it is written.
  unfoldable pub grow : ListOrdered A → ListOrdered A
  unfolding resize
  grow l =
      if leb l.allocated (add32 (length l.items) 1)
      then resize (add32 (add32 (length l.items) 1) (length l.items / 2)) l
      else l

  unfoldable pub push_back : A → ListOrdered A → ListOrdered A
  unfolding grow
  push_back item l = record { items = l.items ++ item ∷ []; allocated = (grow l).allocated }

  unfoldable pub push_front : A → ListOrdered A → ListOrdered A
  unfolding grow
  push_front item l = record { items = item ∷ l.items; allocated = (grow l).allocated }

  -- An answer of `none` is a failed assertion.
  unfoldable pub pop_back : ListOrdered A → Option (A × ListOrdered A)
  pop_back l = get_elem? l.items (length l.items - 1) >>= λ (value : A).
      some (value, record l { items = take (length l.items - 1) l.items })

  -- The items are moved up by one place, not down.
  unfoldable pub pop_front : ListOrdered A → Option (A × ListOrdered A)
  pop_front l = get_elem? l.items 0 >>= λ (value : A). some (
    value,
    record l { items = take (length l.items - 1) (value ∷ take (length l.items - 1) l.items) },
  )

  unfoldable pub without_index : ℕ → ListOrdered A → ListOrdered A
  without_index index l = record l { items = take index l.items ++ drop (index + 1) l.items }

  unfoldable pub pop_at : ℕ → ListOrdered A → Option (A × ListOrdered A)
  unfolding pop_front pop_back without_index
  pop_at index l =
      if index == 0
      then pop_front l
      else if index == length l.items - 1
      then pop_back l
      else get_elem? l.items index >>= λ (value : A). some (value, without_index index l)

  unfoldable pub remove : ℕ → ListOrdered A → Option (ListOrdered A)
  unfolding without_index
  remove index l = if ltb index (length l.items) then some (without_index index l) else none

  -- The items from the index on are moved up, and the place is not written: it keeps the item that was
  -- there, or what stood behind the items.
  unfoldable pub insert_at : A → ℕ → A → ListOrdered A → Option (ListOrdered A)
  unfolding grow
  insert_at behind index value l =
      if leb index (length l.items)
      then some (record {
        items =
            take index l.items
            ++ (elim (get_elem? l.items index) [ none ↦ behind | some old ↦ old ])
              ∷ drop index l.items;
        allocated = (grow l).allocated;
      })
      else none

  unfoldable pub clear : ListOrdered A → ListOrdered A
  clear l = record l { items = [] }

  unfoldable pub copy : ListOrdered A → ListOrdered A
  copy l = record { items = l.items; allocated = length l.items }
