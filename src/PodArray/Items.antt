-- ===== src/PodArray/Items.antt =====
-- What the operations do to the items of an array.
use uberos.Prelude.{
  ℕ, zero, suc, ◌-◌, ◌<◌, ◌≤◌, ◌≡◌, ◌≢◌, ◌⊎◌, inl, inr, subst, Bool, true, false, has, true-false,
  lt_or_le, leb-true, refl, ap, sym, ◌∙◌, List, [], ◌∷◌, ◌++◌, arith, length, length-append, take,
  ==_ne, ==_true, leb-false, ◌==◌, if◌then◌else◌,
}
use mathlib.Core.List.{append-nil}
use uberos.PodArray.{drop_last, erase_at, remove, insert}

module _ {ℓ} {A : Type ℓ} where
  erase_at-append :
      (xs : List A) (x : A) (ys : List A) → erase_at (length xs) (xs ++ x ∷ ys) ≡ xs ++ ys
  unfolding erase_at
  erase_at-append [] x ys = refl
  erase_at-append (z ∷ zs) x ys = ap (◌∷◌ z) (erase_at-append zs x ys)

  pub insert-append :
      (xs : List A) (v : A) (ys : List A) → insert (length xs) v (xs ++ ys) ≡ xs ++ v ∷ ys
  unfolding insert
  insert-append [] v ys = refl
  insert-append (z ∷ zs) v ys = ap (◌∷◌ z) (insert-append zs v ys)

  take-append : (xs ys : List A) → take (length xs) (xs ++ ys) ≡ xs
  take-append [] ys = refl
  take-append (z ∷ zs) ys = ap (◌∷◌ z) (take-append zs ys)

  remove-middle :
      (i : ℕ) (xs : List A)
      → i < length xs
      → i ≢ 0
      → remove i xs ≡ (if i == length xs - 1 then drop_last xs else erase_at i xs)
  unfolding remove
  remove-middle i xs h k = rw (leb-false (length xs) i h, ==_ne i 0 k)

  drop_last-append : (xs : List A) (y : A) → drop_last (xs ++ y ∷ []) ≡ xs
  unfolding drop_last
  drop_last-append xs y =
      let n : length (xs ++ y ∷ []) - 1 ≡ length xs = omega (arith, length-append xs (y ∷ [])) in
      ap (λ k. take k (xs ++ y ∷ [])) n ∙ take-append xs (y ∷ [])

  -- `remove` of an item that is not the first takes out that item, and no other.
  pub remove-erase :
      (x : A) (xs : List A) (y : A) (ys : List A)
      → remove (length (x ∷ xs)) ((x ∷ xs) ++ y ∷ ys) ≡ (x ∷ xs) ++ ys
  remove-erase x xs y [] =
      let n = length-append xs (y ∷ []) in
      remove-middle (length (x ∷ xs)) (x ∷ xs ++ y ∷ []) (omega (arith, n)) (omega arith)
      ∙ rw (==_true (length (x ∷ xs)) (length (x ∷ xs ++ y ∷ []) - 1) (omega (arith, n)))
          (drop_last-append (x ∷ xs) y ∙ sym (ap (◌∷◌ x) (append-nil xs)))
  remove-erase x xs y (z ∷ zs) =
      let n = length-append xs (y ∷ z ∷ zs) in
      remove-middle (length (x ∷ xs)) (x ∷ xs ++ y ∷ z ∷ zs) (omega (arith, n)) (omega arith)
      ∙ rw (==_ne (length (x ∷ xs)) (length (x ∷ xs ++ y ∷ z ∷ zs) - 1) (omega (arith, n)))
          (erase_at-append (x ∷ xs) y (z ∷ zs))

  -- `remove` of the first of several items leaves it there, and drops the last one.
  pub remove-front : (x : A) (xs : List A) → remove 0 (x ∷ xs) ≡ take (length xs) (x ∷ x ∷ xs)
  unfolding remove
  remove-front x xs = rw (leb-false (length (x ∷ xs)) 0 (omega arith))

-- `remove` adds no item.
has-take : (a n : ℕ) (xs : List ℕ) → has a (take n xs) ≡ true → has a xs ≡ true
has-take a zero xs h = absurd (true-false h refl)
has-take a (suc n) [] h = h
has-take a (suc n) (x ∷ xs) h = ground (arith, has-take a n xs)

has-erase_at : (a i : ℕ) (xs : List ℕ) → has a (erase_at i xs) ≡ true → has a xs ≡ true
unfolding erase_at
has-erase_at a i [] h = h
has-erase_at a zero (x ∷ xs) h = ground (arith, h)
has-erase_at a (suc i) (x ∷ xs) h = ground (arith, has-erase_at a i xs)

has-take_front :
    (a n x : ℕ) (xs : List ℕ) → has a (take n (x ∷ x ∷ xs)) ≡ true → has a (x ∷ xs) ≡ true
has-take_front a n x xs h = ground (arith, has-take a n (x ∷ x ∷ xs) h)

has-drop_last : (a : ℕ) (xs : List ℕ) → has a (drop_last xs) ≡ true → has a xs ≡ true
unfolding drop_last
has-drop_last a xs h = has-take a (length xs - 1) xs h

remove-nil : (i : ℕ) → remove {A = ℕ} i [] ≡ []
unfolding remove
remove-nil i = rw (leb-true 0 i (omega arith)) refl

remove-out : (i : ℕ) (xs : List ℕ) → length xs ≤ i → remove i xs ≡ xs
unfolding remove
remove-out i xs h = rw (leb-true (length xs) i h) refl

pub has-remove : (a i : ℕ) (xs : List ℕ) → has a (remove i xs) ≡ true → has a xs ≡ true
has-remove a i [] h = subst (λ ys. has a ys ≡ true) (remove-nil i) h
has-remove a zero (x ∷ xs) h =
    has-take_front a (length xs) x xs (subst (λ ys. has a ys ≡ true) (remove-front x xs) h)
has-remove a (suc i) (x ∷ xs) h = split (lt_or_le (suc i) (length (x ∷ xs)))
  where
    either :
        (b : Bool)
        → has a (if b then drop_last (x ∷ xs) else erase_at (suc i) (x ∷ xs)) ≡ true
        → has a (x ∷ xs) ≡ true
    either true k = has-drop_last a (x ∷ xs) k
    either false k = has-erase_at a (suc i) (x ∷ xs) k

    split : (suc i < length (x ∷ xs)) ⊎ (length (x ∷ xs) ≤ suc i) → has a (x ∷ xs) ≡ true
    split (inl l) =
        either (suc i == length (x ∷ xs) - 1)
          (subst (λ ys. has a ys ≡ true) (remove-middle (suc i) (x ∷ xs) l (omega arith)) h)
    split (inr l) = subst (λ ys. has a ys ≡ true) (remove-out (suc i) (x ∷ xs) l) h
