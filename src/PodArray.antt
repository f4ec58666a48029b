-- ===== src/PodArray.antt =====
-- common/PodArray.hpp: the growing array of plain values. An array is the list of its `length`
-- items; what lies behind them in the buffer is never read. `memmove` of a part is written out as
-- what the items are after it, and the capacity has functions of its own.
pub mod Items
pub mod Capacity
use uberos.Prelude.{
  ℕ, zero, suc, ◌+◌, ◌-◌, ◌/◌, List, [], ◌∷◌, ◌++◌, Option, none, some, Bool, true, false, ◌==◌,
  leb, ltb, if◌then◌else◌, length, take, drop, add32,
}

module _ {ℓ} {A : Type ℓ} where
  unfoldable pub push_back : List A → A → List A
  push_back xs v = xs ++ v ∷ []

  -- `memmove(&data[1], &data[0], --length)`: the source moves the items up, so that the first one
  -- stays, and the last ones fall behind the length.
  remove_front : List A → List A
  remove_front [] = []
  remove_front (x ∷ xs) = take (length xs) (x ∷ x ∷ xs)

  -- The items without the last, for an array that has one.
  pub drop_last : List A → List A
  drop_last xs = take (length xs - 1) xs

  -- `none` is the length that wraps below 0.
  unfoldable remove_back : List A → Option (List A)
  unfolding drop_last
  remove_back [] = none
  remove_back (x ∷ xs) = some (drop_last (x ∷ xs))

  -- `memmove(&data[index], &data[index+1], --length-index)`
  pub erase_at : ℕ → List A → List A
  erase_at i [] = []
  erase_at zero (x ∷ xs) = xs
  erase_at (suc i) (x ∷ xs) = x ∷ erase_at i xs

  unfoldable pub remove : ℕ → List A → List A
  unfolding remove_front drop_last erase_at
  remove i xs =
      if leb (length xs) i
      then xs
      else if i == 0
      then remove_front xs
      else if i == length xs - 1
      then drop_last xs
      else erase_at i xs

  -- `pop_front`: the value read, and the array after the same `memmove` as `remove_front`'s;
  -- `none` is the null of an empty array.
  unfoldable pop_front : List A → Option A × List A
  unfolding remove_front
  pop_front [] = (none, [])
  pop_front (x ∷ xs) = (some x, remove_front (x ∷ xs))

  -- `memmove(&data[index+1], &data[index], length-index)`, and the new item at `index`.
  unfoldable pub insert : ℕ → A → List A → List A
  insert zero v xs = v ∷ xs
  insert (suc i) v [] = v ∷ []
  insert (suc i) v (x ∷ xs) = x ∷ insert i v xs

  unfoldable pub shift_left : ℕ → List A → List A
  shift_left count xs = if leb (length xs) count then [] else drop count xs

  abbrev pub clear : List A → List A
  clear xs = []

-- `resize`: the new capacity, of 32 bits, as the lengths and sums are.
resize : (length allocated : ℕ) → ℕ → ℕ
resize len allocated new_size =
    let least = (if leb 1 len then len else 1) in if leb new_size least then least else new_size

-- The capacity after `push_back` and after `insert`, of an array of this length and capacity.
pub push_back_capacity : ℕ → ℕ → ℕ
unfolding resize
push_back_capacity len allocated =
    if leb allocated (add32 len 1)
    then resize len allocated (add32 (add32 len 1) (len / 2))
    else allocated

pub insert_capacity : ℕ → ℕ → ℕ
insert_capacity len allocated =
    if leb allocated (add32 len 1) then add32 (add32 allocated (allocated / 2)) 1 else allocated
