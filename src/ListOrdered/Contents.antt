-- ===== src/ListOrdered/Contents.antt =====
-- What the operations of common/ListOrdered.hpp do to the items, and that they stay in bounds.
use uberos.Prelude.{
  ℕ, zero, suc, ◌+◌, ◌-◌, ◌^◌, ◌≤◌, ◌<◌, ◌≡◌, refl, ap, ◌∙◌, some, List, [], ◌∷◌, ◌++◌, length,
  length-append, take, drop, get_elem?, arith, ltb-true,
}
use uberos.ListOrdered.{
  ListOrdered, resize, grow, push_back, pop_back, pop_front, remove, insert_at,
}

less : (n : ℕ) → suc (suc n) - 1 ≡ suc n
less n = omega arith

module _ {ℓ} {A : Type ℓ} where
  take-take : (n : ℕ) (xs : List A) → take n (take (suc n) xs) ≡ take n xs
  take-take zero xs = refl
  take-take (suc n) [] = refl
  take-take (suc n) (x ∷ xs) = ap (◌∷◌ x) (take-take n xs)

  take-append : (xs ys : List A) → take (length xs) (xs ++ ys) ≡ xs
  take-append [] ys = refl
  take-append (x ∷ xs) ys = ap (◌∷◌ x) (take-append xs ys)

  drop-append : (xs : List A) (x : A) (ys : List A) → drop (length xs + 1) (xs ++ x ∷ ys) ≡ ys
  drop-append xs x ys =
      let e : length xs + 1 ≡ suc (length xs) = omega arith in
      ap (λ (n : ℕ). drop n (xs ++ x ∷ ys)) e ∙ by_suc xs
    where
      by_suc : (zs : List A) → drop (suc (length zs)) (zs ++ x ∷ ys) ≡ ys
      by_suc [] = refl
      by_suc (z ∷ zs) = by_suc zs

  abbrev pub InBounds : ListOrdered A → Type 0
  InBounds l = length l.items ≤ l.allocated

  -- The place behind the items is allocated before it is written.
  pub grow-room :
      (l : ListOrdered A)
      → length l.items < 2 ^ 31
      → InBounds l
      → (length l.items < (grow l).allocated) × ((grow l).items ≡ l.items)
  unfolding grow resize
  grow-room l h b = (ground arith, ground arith)

  get-append_last : (xs : List A) (x : A) → get_elem? (xs ++ x ∷ []) (length xs) ≡ some x
  get-append_last [] x = refl
  get-append_last (y ∷ ys) x = get-append_last ys x

  length-snoc : (xs : List A) (x : A) → length (xs ++ x ∷ []) - 1 ≡ length xs
  length-snoc xs x = omega (arith, length-append xs (x ∷ []))

  -- A pop from the end gives back what a push to the end put there, and leaves the items from before.
  pub pop_back-push_back :
      (x : A) (l : ListOrdered A)
      → pop_back (push_back x l) ≡ some (x, record l { allocated = (grow l).allocated })
  unfolding pop_back push_back
  pop_back-push_back x l =
      rw (length-snoc l.items x, get-append_last l.items x, take-append l.items (x ∷ [])) refl

  -- `pop_front` answers the first item but leaves it in front: what is lost is the last.
  pub pop_front-again :
      (x y : A) (xs : List A) (k : ℕ)
      → pop_front (record { items = x ∷ y ∷ xs; allocated = k })
        ≡ some (x, record { items = x ∷ take (length xs) (x ∷ y ∷ xs); allocated = k })
  unfolding pop_front
  pop_front-again x y xs k = rw (less (length xs), take-take (length xs) (x ∷ y ∷ xs)) refl

  -- What is to be inserted makes no difference.
  pub insert_at-lost :
      (behind : A) (index : ℕ) (v w : A) (l : ListOrdered A)
      → insert_at behind index v l ≡ insert_at behind index w l
  unfolding insert_at
  insert_at-lost behind index v w l = refl

  -- A removal takes the item at its index out, and keeps the others in their order.
  pub remove-split :
      (xs : List A) (x : A) (ys : List A) (k : ℕ)
      → remove (length xs) (record { items = xs ++ x ∷ ys; allocated = k })
        ≡ some (record { items = xs ++ ys; allocated = k })
  unfolding remove
  remove-split xs x ys k =
      rw
        (
          ltb-true (length xs) (length (xs ++ x ∷ ys)) (omega (arith, length-append xs (x ∷ ys))),
          take-append xs (x ∷ ys),
          drop-append xs x ys,
        )
        refl
