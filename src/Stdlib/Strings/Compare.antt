-- ===== src/Stdlib/Strings/Compare.antt =====
-- What the comparisons say.
use uberos.Prelude.{
  ℕ, zero, suc, ◌+◌, ◌%◌, ◌<◌, ◌≡◌, ◌≢◌, ◌↔◌, refl, ap, sym, List, [], ◌∷◌, Bool, true, false,
  if◌then◌else◌, arith, Bool-cases, inl, inr, ◌⊎◌, true-false,
}
use uberos.Prelude.Int.{ℤ, pos, negsuc, neg, neg-sub_ℕ}
use uberos.Stdlib.Strings.{char_diff, is_zero, strcmp}

-- Every byte of a text is below 256.
abbrev pub AreBytes : List ℕ → Type 0
AreBytes [] = Unit {0}
AreBytes (x ∷ xs) = (x < 256) × AreBytes xs

pub char_diff-zero : (a b : ℕ) → a < 256 → b < 256 → is_zero (char_diff a b) ≡ true → a ≡ b
char_diff-zero a b h k e = ground arith

pub char_diff_self : (a : ℕ) → is_zero (char_diff a a) ≡ true
char_diff_self a = ground arith

char_diff-neg : (a b : ℕ) → char_diff b a ≡ neg (char_diff a b)
char_diff-neg a b = sym (neg-sub_ℕ ((a + 128) % 256) ((b + 128) % 256))

is_zero-neg : (z : ℤ) → is_zero (neg z) ≡ is_zero z
is_zero-neg (pos zero) = refl
is_zero-neg (pos (suc n)) = ground arith
is_zero-neg (negsuc n) = ground arith

strcmp_refl : (xs : List ℕ) → strcmp xs xs ≡ pos 0
unfolding strcmp
strcmp_refl [] = refl
strcmp_refl (x ∷ xs) = rw (char_diff_self x) (strcmp_refl xs)

zero_not : (z : ℤ) → is_zero z ≡ false → z ≢ pos 0
zero_not z h e = true-false (ap is_zero e) h

strcmp-eq : (xs ys : List ℕ) → AreBytes xs → AreBytes ys → strcmp xs ys ≡ pos 0 → xs ≡ ys
unfolding strcmp
strcmp-eq [] [] h k e = refl
strcmp-eq [] (b ∷ bs) h k e = cc
strcmp-eq (a ∷ as') [] h k e = ground (arith, e)
strcmp-eq (a ∷ as') (b ∷ bs) h k e =
    branch (Bool-cases (is_zero (char_diff a b))) (strcmp-eq as' bs h.1 k.1) e
  where
    branch :
        (is_zero (char_diff a b) ≡ true) ⊎ (is_zero (char_diff a b) ≡ false)
        → (strcmp as' bs ≡ pos 0 → as' ≡ bs)
        → (if is_zero (char_diff a b) then strcmp as' bs else char_diff a b) ≡ pos 0
        → (a ∷ as') ≡ b ∷ bs
    branch (inl z) ih e' =
        let same : a ≡ b = char_diff-zero a b h.0 k.0 z in let rest = ih (rw z at e') in cc
    branch (inr z) ih e' = absurd (zero_not (char_diff a b) z (rw z at e'))

strcmp-neg : (xs ys : List ℕ) → strcmp ys xs ≡ neg (strcmp xs ys)
unfolding strcmp
strcmp-neg [] [] = refl
strcmp-neg [] (b ∷ bs) = refl
strcmp-neg (a ∷ as') [] = refl
strcmp-neg (a ∷ as') (b ∷ bs) =
    rw (char_diff-neg a b, is_zero-neg (char_diff a b))
      (branch (is_zero (char_diff a b)) (strcmp-neg as' bs))
  where
    branch :
        (z : Bool)
        → strcmp bs as' ≡ neg (strcmp as' bs)
        → (if z then strcmp bs as' else neg (char_diff a b))
          ≡ neg (if z then strcmp as' bs else char_diff a b)
    branch true ih = ih
    branch false ih = refl

-- Of texts of bytes, `strcmp` is 0 exactly for equal ones, and changes its sign when the texts change places.
pub strcmp-zero :
    (xs ys : List ℕ)
    → AreBytes xs
    → AreBytes ys
    → ((strcmp xs ys ≡ pos 0) ↔ (xs ≡ ys)) × (strcmp ys xs ≡ neg (strcmp xs ys))
strcmp-zero xs ys h k = ((strcmp-eq xs ys h k, λ e. rw e (strcmp_refl ys)), strcmp-neg xs ys)
