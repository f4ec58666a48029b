-- ===== src/Prelude/Lists.antt =====
-- Lists measured by native numbers, and membership among addresses as a Boolean.
use Prim.Native.Nat.{ℕ, suc, zero, ◌+◌, ◌≤◌}
use mathlib.Core.Path.{◌≡◌, refl, ap}
use mathlib.Core.Logic.{◌≢◌, ◌⊎◌}
use mathlib.Core.Bool.{Bool, false, true, ◌||◌}
use mathlib.Core.List.{List, [], ◌∷◌, ◌++◌}
use mathlib.Core.Option.{Option, none, some}
use native.Mathlib.Omega.{arith}
use uberos.Prelude.Tests.{◌==◌}

module _ {ℓ} {A : Type ℓ} where
  abbrev pub length : List A → ℕ
  length [] = 0
  length (x ∷ xs) = suc (length xs)

  pub length-append : (xs ys : List A) → length (xs ++ ys) ≡ length xs + length ys
  length-append [] ys = omega arith
  length-append (x ∷ xs) ys = omega (arith, length-append xs ys)

-- Whether an address stands in a list.
abbrev pub has : ℕ → List ℕ → Bool
has a [] = false
has a (x ∷ xs) = a == x || has a xs

pub has-append : (a : ℕ) (xs ys : List ℕ) → has a (xs ++ ys) ≡ (has a xs || has a ys)
has-append a [] ys = refl
has-append a (x ∷ xs) ys = ground (arith, has-append a xs ys)

pub has-cons_out : (a x : ℕ) (xs : List ℕ) → has a (x ∷ xs) ≡ false → (a ≢ x) × (has a xs ≡ false)
has-cons_out a x xs h = (λ e. ground arith, ground arith)

pub has-cons_ne : (a x : ℕ) (xs : List ℕ) → a ≢ x → has a xs ≡ false → has a (x ∷ xs) ≡ false
has-cons_ne a x xs h k = ground arith

pub has-append_out :
    (a : ℕ) (xs ys : List ℕ) → has a (xs ++ ys) ≡ false → (has a xs ≡ false) × (has a ys ≡ false)
has-append_out a xs ys h = (ground (arith, has-append a xs ys), ground (arith, has-append a xs ys))

-- Lists with one item more or less at the end or in the middle.
pub has-snoc_out : (a x : ℕ) (xs : List ℕ) → has a xs ≡ false → a ≢ x → has a (xs ++ x ∷ []) ≡ false
has-snoc_out a x xs h k = ground (arith, has-append a xs (x ∷ []))

pub has-snoc : (a x : ℕ) (xs : List ℕ) → has a (xs ++ x ∷ []) ≡ true → (a ≡ x) ⊎ (has a xs ≡ true)
has-snoc a x xs h = ground (arith, has-append a xs (x ∷ []))

pub has-middle_out :
    (a x : ℕ) (xs ys : List ℕ) → has a (xs ++ x ∷ ys) ≡ false → has a (xs ++ ys) ≡ false
has-middle_out a x xs ys h = ground (arith, has-append a xs (x ∷ ys), has-append a xs ys)

pub has-middle : (a x : ℕ) (xs ys : List ℕ) → has a (xs ++ ys) ≡ true → has a (xs ++ x ∷ ys) ≡ true
has-middle a x xs ys h = ground (arith, has-append a xs (x ∷ ys), has-append a xs ys)

pub has-middle_self : (x : ℕ) (xs ys : List ℕ) → has x (xs ++ x ∷ ys) ≡ true
has-middle_self x xs ys = ground (arith, has-append x xs (x ∷ ys))

module _ {ℓ} {A : Type ℓ} where
  abbrev pub take : ℕ → List A → List A
  take zero xs = []
  take (suc n) [] = []
  take (suc n) (x ∷ xs) = x ∷ take n xs

  abbrev pub drop : ℕ → List A → List A
  drop zero xs = xs
  drop (suc n) [] = []
  drop (suc n) (x ∷ xs) = drop n xs

  abbrev pub get_elem? : List A → ℕ → Option A
  get_elem? [] i = none
  get_elem? (x ∷ xs) zero = some x
  get_elem? (x ∷ xs) (suc i) = get_elem? xs i

  -- A write out of bounds changes nothing.
  abbrev pub set : List A → ℕ → A → List A
  set [] i v = []
  set (x ∷ xs) zero v = v ∷ xs
  set (x ∷ xs) (suc i) v = x ∷ set xs i v

  pub length-take_le : (n : ℕ) (xs : List A) → n ≤ length xs → length (take n xs) ≡ n
  length-take_le zero xs h = refl
  length-take_le (suc n) [] h = elim h [ ]
  length-take_le (suc n) (x ∷ xs) h = omega (arith, length-take_le n xs (omega arith))

  -- What stands behind a prefix.
  pub get_elem?-append :
      (xs : List A) (x : A) (ys : List A) → get_elem? (xs ++ x ∷ ys) (length xs) ≡ some x
  get_elem?-append [] x ys = refl
  get_elem?-append (z ∷ zs) x ys = get_elem?-append zs x ys

  pub get_elem?-append_nil : (xs : List A) → get_elem? xs (length xs) ≡ none
  get_elem?-append_nil [] = refl
  get_elem?-append_nil (z ∷ zs) = get_elem?-append_nil zs

  pub set-append :
      (xs : List A) (x : A) (ys : List A) (v : A) → set (xs ++ x ∷ ys) (length xs) v ≡ xs ++ v ∷ ys
  set-append [] x ys v = refl
  set-append (z ∷ zs) x ys v = ap (◌∷◌ z) (set-append zs x ys v)
