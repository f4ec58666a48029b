-- ===== src/PodArray/Capacity.antt =====
-- The growth of an array: what is written stands inside the capacity.
use uberos.Prelude.{◌+◌, ◌*◌, ◌≤◌, ◌<◌, ℕ, List, [], ◌∷◌, length, arith, ◌⊎◌}
use uberos.PodArray.{push_back_capacity, insert_capacity}

-- A call that adds an item.
pub data Addition : Type 0 where
  push_back_call insert_call : Addition

abbrev pub capacity_after : Addition → ℕ → ℕ → ℕ
capacity_after push_back_call len allocated = push_back_capacity len allocated
capacity_after insert_call len allocated = insert_capacity len allocated

-- Each call of a run leaves a capacity above the place of the last item, and one that is no larger
-- than it was or than twice the items.
abbrev pub AllInside : List Addition → ℕ → ℕ → Type 0
AllInside [] len allocated = Unit {0}
AllInside (g ∷ gs) len allocated =
    (len < capacity_after g len allocated)
    × ((capacity_after g len allocated ≤ allocated)
        ⊎ (capacity_after g len allocated ≤ 2 * (len + 1)))
    × AllInside gs (len + 1) (capacity_after g len allocated)

module _ (len allocated : ℕ) (h : len ≤ allocated) (b : len + 1 < 2147483648) where
  capacity_after-lt : (g : Addition) → len < capacity_after g len allocated
  unfolding push_back_capacity insert_capacity
  capacity_after-lt push_back_call = ground arith
  capacity_after-lt insert_call = ground arith

  capacity_after-le :
      (g : Addition)
      → (capacity_after g len allocated ≤ allocated)
        ⊎ (capacity_after g len allocated ≤ 2 * (len + 1))
  unfolding push_back_capacity insert_capacity
  capacity_after-le push_back_call = ground arith
  capacity_after-le insert_call = ground arith

-- In any run of `push_back` and `insert` on an array within its capacity, as long as its length
-- stays below 2^31, every call leaves a capacity above the place of the last item, which is no
-- larger than it was or than twice the items.
pub additions-AllInside :
    (gs : List Addition) (len allocated : ℕ)
    → len ≤ allocated
    → len + length gs < 2147483648
    → AllInside gs len allocated
additions-AllInside [] len allocated h b = tt
additions-AllInside (g ∷ gs) len allocated h b =
    let inside = capacity_after-lt len allocated h (omega arith) g in
    (
      inside,
      capacity_after-le len allocated h (omega arith) g,
      additions-AllInside gs (len + 1) (capacity_after g len allocated) (omega (arith, inside))
          (omega arith),
    )
