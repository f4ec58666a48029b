-- ===== src/MpscFifo/Waiting.antt =====
-- The pushes of common/MpscFifo.hpp that are between their two steps, by the item they wait to change.
use uberos.Prelude.{
  ℕ, ◌≡◌, ◌≢◌, refl, sym, ◌∙◌, List, [], ◌∷◌, ◌++◌, ◌==◌, if◌then◌else◌, arith, ==_refl, ==_ne,
}

-- The items that wait to become the next of the item at `a`.
abbrev pub waiting : ℕ → List (ℕ × ℕ) → List ℕ
waiting a [] = []
waiting a ((old, item) ∷ rest) = if old == a then item ∷ waiting a rest else waiting a rest

pub waiting-append :
    (a : ℕ) (xs ys : List (ℕ × ℕ)) → waiting a (xs ++ ys) ≡ waiting a xs ++ waiting a ys
waiting-append a [] ys = refl
waiting-append a ((old, item) ∷ xs) ys = ground (arith, waiting-append a xs ys)

pub waiting-middle_ne :
    (a old item : ℕ) (xs ys : List (ℕ × ℕ))
    → a ≢ old
    → waiting a (xs ++ (old, item) ∷ ys) ≡ waiting a (xs ++ ys)
waiting-middle_ne a old item xs ys h =
    rw
      (waiting-append a xs ((old, item) ∷ ys), waiting-append a xs ys, ==_ne old a (λ e. h (sym e)))
      refl

pub waiting-middle :
    (old item : ℕ) (xs ys : List (ℕ × ℕ))
    → waiting old (xs ++ (old, item) ∷ ys) ≡ waiting old xs ++ item ∷ waiting old ys
waiting-middle old item xs ys = rw (waiting-append old xs ((old, item) ∷ ys), ==_refl old) refl

single : (xs ys : List ℕ) (x b : ℕ) → xs ++ x ∷ ys ≡ b ∷ [] → (x ≡ b) × (xs ++ ys ≡ [])
single [] ys x b h = (cc, cc)
single (z ∷ []) ys x b h = absurd (cc)
single (z ∷ w ∷ xs) ys x b h = absurd (cc)

-- The only push that waits for an item is the one that is stored.
pub waiting-stored :
    (old item b : ℕ) (xs ys : List (ℕ × ℕ))
    → waiting old (xs ++ (old, item) ∷ ys) ≡ b ∷ []
    → (item ≡ b) × (waiting old (xs ++ ys) ≡ [])
waiting-stored old item b xs ys h =
    let (e, f) =
      single (waiting old xs) (waiting old ys) item b (sym (waiting-middle old item xs ys) ∙ h) in
    (e, waiting-append old xs ys ∙ f)

append-nonempty : (xs ys : List ℕ) (x : ℕ) → xs ++ x ∷ ys ≢ []
append-nonempty [] ys x h = cc
append-nonempty (z ∷ xs) ys x h = cc

pub waiting_some : (old item : ℕ) (xs ys : List (ℕ × ℕ)) → waiting old (xs ++ (old, item) ∷ ys) ≢ []
waiting_some old item xs ys h =
    append-nonempty (waiting old xs) (waiting old ys) item (sym (waiting-middle old item xs ys) ∙ h)
