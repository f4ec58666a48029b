-- ===== src/Stdlib/Strings/Write.antt =====
-- What `strlen`, `strcpy` and `strcat` do to the texts in memory.
use uberos.Prelude.{
  ℕ, zero, suc, ◌+◌, ◌-◌, ◌<◌, ◌≤◌, ◌≡◌, ◌≢◌, refl, ap, sym, ◌∙◌, subst, List, [], ◌∷◌, ◌++◌, some,
  arith, inl, inr, ◌⊎◌, ==_ne, length,
}
use uberos.Stdlib.Memory.{Bytes, write}
use uberos.Stdlib.Memory.Copy.{copied, copied-step, Upwards}
use uberos.Stdlib.Strings.{strlen, strcpy, strcat}

-- The bytes of a text stand at an address, with a NUL after them.
abbrev pub IsText : Bytes → ℕ → List ℕ → Type 0
IsText m p [] = m p ≡ 0
IsText m p (x ∷ xs) = (m p ≡ x) × (x ≢ 0) × IsText m (p + 1) xs

-- Two ranges of a text and its NUL are apart.
abbrev pub Apart : ℕ → ℕ → ℕ → ℕ → Type 0
Apart d n s k = (d + n < s) ⊎ (s + k < d)

pub IsText-same :
    (m m' : Bytes) (p : ℕ) (xs : List ℕ)
    → IsText m p xs
    → ((a : ℕ) → p ≤ a → a ≤ p + length xs → m' a ≡ m a)
    → IsText m' p xs
IsText-same m m' p [] t same = same p (omega arith) (omega arith) ∙ t
IsText-same m m' p (x ∷ xs) t same = (
  same p (omega arith) (omega arith) ∙ t.0,
  t.1,
  IsText-same m m' (p + 1) xs t.2 (λ a h k. same a (omega arith) (omega arith)),
)

-- A text whose bytes stand, moved, at another address.
IsText-moved :
    (m m' : Bytes) (d s : ℕ) (xs : List ℕ)
    → IsText m s xs
    → ((i : ℕ) → i ≤ length xs → m' (d + i) ≡ m (s + i))
    → IsText m' d xs
IsText-moved m m' d s [] t same = first (same 0 (omega arith)) t
  where
    first : m' (d + 0) ≡ m (s + 0) → m s ≡ 0 → m' d ≡ 0
    first e t' = ground (arith, e, t')
IsText-moved m m' d s (x ∷ xs) t same = (
  ap m' (omega arith) ∙ same 0 (omega arith) ∙ ap m (omega arith) ∙ t.0,
  t.1,
  IsText-moved m m' (d + 1) (s + 1) xs t.2 (λ i h. shifted i (same (suc i) (omega arith))),
)
  where
    shifted : (i : ℕ) → m' (d + suc i) ≡ m (s + suc i) → m' (d + 1 + i) ≡ m (s + 1 + i)
    shifted i e = ap m' (omega arith) ∙ e ∙ ap m (omega arith)

-- A text before another one.
IsText-append :
    (m m' : Bytes) (p : ℕ) (xs ys : List ℕ)
    → IsText m p xs
    → ((a : ℕ) → p ≤ a → a < p + length xs → m' a ≡ m a)
    → IsText m' (p + length xs) ys
    → IsText m' p (xs ++ ys)
IsText-append m m' p [] ys t same u = subst (λ q. IsText m' q ys) (omega arith) u
IsText-append m m' p (x ∷ xs) ys t same u = (
  same p (omega arith) (omega arith) ∙ t.0,
  t.1,
  IsText-append m m' (p + 1) xs ys t.2 (λ a h k. same a (omega arith) (omega arith))
      (subst (λ q. IsText m' q ys) (omega arith) u),
)

strlen_lem :
    (k : ℕ) (m : Bytes) (p : ℕ) (xs : List ℕ)
    → IsText m p xs
    → length xs < k
    → strlen k m p ≡ some (length xs)
unfolding strlen
strlen_lem zero m p xs t h = elim h [ ]
strlen_lem (suc k) m p [] t h = rw t refl
strlen_lem (suc k) m p (x ∷ xs) t h =
    rw (t.0, ==_ne x 0 t.1, strlen_lem k m (p + 1) xs t.2 (omega arith)) (ap some (omega arith))

suc_one : (n : ℕ) → suc (n + 1) ≡ suc n + 1
suc_one n = omega arith

strcat-strlen :
    (k : ℕ) (m : Bytes) (d s n : ℕ) → strlen k m d ≡ some n → strcat k m d s ≡ strcpy k m (d + n) s
unfolding strcat
strcat-strlen k m d s n e = rw (e, strcat) refl

module _ (k : ℕ) (m : Bytes) (d s : ℕ) where
  strcpy-end : m s ≡ 0 → strcpy (suc k) m d s ≡ some (write m d 0)
  unfolding strcpy
  strcpy-end e = rw e refl

  strcpy-next : m s ≢ 0 → strcpy (suc k) m d s ≡ strcpy k (write m d (m s)) (d + 1) (s + 1)
  unfolding strcpy
  strcpy-next h = rw (==_ne (m s) 0 h) refl

-- `strcpy` copies the text and its NUL, and writes nothing else.
strcpy-copied :
    (k : ℕ) (m : Bytes) (d s : ℕ) (xs : List ℕ)
    → IsText m s xs
    → Apart d (length xs) s (length xs)
    → length xs < k
    → (m' : Bytes) × (strcpy k m d s ≡ some m') × ((a : ℕ) → m' a ≡ copied m d s (length xs + 1) a)
strcpy-copied zero m d s xs t h l = elim l [ ]
strcpy-copied (suc k) m d s [] t h l = (write m d 0, strcpy-end k m d s t, λ a. one a (λ b. ap m b))
  where
    one : (a : ℕ) → (s + (a - d) ≡ s → m (s + (a - d)) ≡ m s) → write m d 0 a ≡ copied m d s 1 a
    one a e = ground (arith, e, t)
strcpy-copied (suc k) m d s (x ∷ xs) t h l =
    let r =
      strcpy-copied k (write m d (m s)) (d + 1) (s + 1) xs
        (IsText-same m (write m d (m s)) (s + 1) xs t.2 away) (apart h) (omega arith) in
    (
      r.0,
      strcpy-next k m d s (λ e. t.1 (sym t.0 ∙ e)) ∙ r.1,
      λ a.
          r.2 a
          ∙ copied-step m d s (length xs + 1) a (upwards h)
          ∙ ap (λ n. copied m d s n a) (suc_one (length xs)),
    )
  where
    away : (a : ℕ) → s + 1 ≤ a → a ≤ s + 1 + length xs → write m d (m s) a ≡ m a
    away a b c = rw (==_ne a d (ne h)) refl
      where
        ne : Apart d (suc (length xs)) s (suc (length xs)) → a ≢ d
        ne (inl z) = omega arith
        ne (inr z) = omega arith

    apart :
        Apart d (suc (length xs)) s (suc (length xs))
        → Apart (d + 1) (length xs) (s + 1) (length xs)
    apart (inl z) = inl (omega arith)
    apart (inr z) = inr (omega arith)

    upwards : Apart d (suc (length xs)) s (suc (length xs)) → Upwards d s (suc (length xs + 1))
    upwards (inl z) = inl (omega arith)
    upwards (inr z) = inr (omega arith)

copied-in : (m : Bytes) (d s n i : ℕ) → i < n → copied m d s n (d + i) ≡ m (s + i)
copied-in m d s n i h = inside (λ a. ap m)
  where
    inside :
        ((a : ℕ) → s + (d + i - d) ≡ a → m (s + (d + i - d)) ≡ m a)
        → copied m d s n (d + i) ≡ m (s + i)
    inside e = ground (arith, e (s + i))

copied-out : (m : Bytes) (d s n a : ℕ) → (a < d) ⊎ (d + n ≤ a) → copied m d s n a ≡ m a
copied-out m d s n a (inl h) = ground arith
copied-out m d s n a (inr h) = ground arith

-- With fuel above the two lengths, `strcat` of two texts that are apart, with room for both and the
-- NUL before the second one, leaves their concatenation at the destination, and no byte before the
-- destination's NUL or behind the new one is changed.
pub strcat-append :
    (k : ℕ) (m : Bytes) (d s : ℕ) (xs ys : List ℕ)
    → IsText m d xs
    → IsText m s ys
    → (d + length xs + length ys < s) ⊎ (s + length ys < d)
    → length xs < k
    → length ys < k
    → (m' : Bytes) × (strcat k m d s ≡ some m')
      × IsText m' d (xs ++ ys)
      × ((a : ℕ) → (a < d + length xs) ⊎ (d + length xs + length ys < a) → m' a ≡ m a)
strcat-append k m d s xs ys t u h l l' =
    let r = strcpy-copied k m (d + length xs) s ys u (apart h) l' in
    let outside : (a : ℕ) → (a < d + length xs) ⊎ (d + length xs + length ys < a) → r.0 a ≡ m a =
      λ a o. r.2 a ∙ copied-out m (d + length xs) s (length ys + 1) a (bounds a o) in
    (
      r.0,
      strcat-strlen k m d s (length xs) (strlen_lem k m d xs t l) ∙ r.1,
      IsText-append m r.0 d xs ys t (λ a b c. outside a (inl c))
          (IsText-moved m r.0 (d + length xs) s ys u (λ i b.
            r.2 (d + length xs + i)
            ∙ copied-in m (d + length xs) s (length ys + 1) i (omega arith))),
      outside,
    )
  where
    apart :
        (d + length xs + length ys < s) ⊎ (s + length ys < d)
        → Apart (d + length xs) (length ys) s (length ys)
    apart (inl z) = inl z
    apart (inr z) = inr (omega arith)

    bounds :
        (a : ℕ)
        → (a < d + length xs) ⊎ (d + length xs + length ys < a)
        → (a < d + length xs) ⊎ (d + length xs + (length ys + 1) ≤ a)
    bounds a (inl z) = inl z
    bounds a (inr z) = inr (omega arith)
