-- ===== src/Stdlib/Numbers/Digits.antt =====
-- What the digit loops write.
use native.Mathlib.Nat.{div-add-mod'}
use uberos.Prelude.{
  ℕ, zero, suc, ◌+◌, ◌-◌, ◌*◌, ◌/◌, ◌%◌, ◌<◌, ◌≤◌, ◌≡◌, ◌≢◌, refl, ap, sym, ◌∙◌, subst, List, [],
  ◌∷◌, Option, some, ltb, ltb-true, ltb-false, if◌then◌else◌, arith, inl, inr, ◌⊎◌, length,
}
use uberos.Stdlib.Memory.{Bytes, write}
use uberos.Stdlib.Strings.Write.{IsText, IsText-same}
use uberos.Stdlib.Numbers.{put_digits}

-- The value of a digit, `0` to `9` or `A` to `F`.
abbrev pub digit_value : ℕ → ℕ
digit_value c = if ltb c 58 then c - 48 else c - 55

-- The number that a text of digits goes on to, from the number read so far.
abbrev pub read_digits : ℕ → ℕ → List ℕ → ℕ
read_digits base n [] = n
read_digits base n (c ∷ cs) = read_digits base (n * base + digit_value c) cs

-- A byte that is a digit of a base: `0` to `9` or `A` to `F`, with a value below the base.
abbrev pub IsDigit : ℕ → ℕ → Type 0
IsDigit base c = (((48 ≤ c) × (c < 58)) ⊎ ((65 ≤ c) × (c < 71))) × (digit_value c < base)

abbrev pub AllDigits : ℕ → List ℕ → Type 0
AllDigits base [] = Unit {0}
AllDigits base (c ∷ cs) = IsDigit base c × AllDigits base cs

-- A number has at most so many digits.
abbrev pub Fits : ℕ → ℕ → ℕ → Type 0
Fits base zero n = n ≡ 0
Fits base (suc w) n = Fits base w (n / base)

-- The loop's text: what it reads as, where it ends, how long it is, and what is left alone.
abbrev pub Digits : ℕ → ℕ → Bytes → ℕ → ℕ → List ℕ → Option (Bytes × ℕ) → Type 0
Digits base w m character number ys o =
    (r : Bytes × ℕ) × (zs : List ℕ) × (o ≡ some r)
    × IsText r.0 (r.1 + 1) zs
    × (read_digits base 0 zs ≡ read_digits base number ys)
    × (r.1 + length zs ≡ character + length ys)
    × (length zs ≤ length ys + w)
    × (r.1 < character)
    × ((a : ℕ) → (a ≤ r.1) ⊎ (character < a) → r.0 a ≡ m a)
    × AllDigits base zs

pub pred_suc : (c : ℕ) → suc c - 1 ≡ c
pred_suc c = omega arith

pub zero_or_more : (i : ℕ) → (i ≡ 0) ⊎ (0 < i)
zero_or_more zero = inl refl
zero_or_more (suc i) = inr (omega arith)

module _ (base : ℕ) (digit : ℕ → ℕ) (value : (n : ℕ) → digit_value (digit (n % base)) ≡ n % base)
    (nonzero : (n : ℕ) → digit (n % base) ≢ 0)
    (real : (n : ℕ) → IsDigit base (digit (n % base))) where
  read-digit :
      (n : ℕ) (ys : List ℕ)
      → read_digits base (n / base) (digit (n % base) ∷ ys) ≡ read_digits base n ys
  read-digit n ys =
      ap (λ v. read_digits base v ys)
        (ap (λ d. n / base * base + d) (value n) ∙ div-add-mod' n base)

  module _ (k : ℕ) (m : Bytes) (c n : ℕ) where
    pub put_digits-more :
        0 < n / base
        → put_digits base digit (suc k) m (suc c) n
          ≡ put_digits base digit k (write m (suc c) (digit (n % base))) c (n / base)
    unfolding put_digits
    put_digits-more h = rw (ltb-true 0 (n / base) h, pred_suc c) refl

    pub put_digits-last :
        n / base ≡ 0
        → put_digits base digit (suc k) m (suc c) n ≡ some (write m (suc c) (digit (n % base)), c)
    unfolding put_digits
    put_digits-last h = rw (ltb-false 0 (n / base) (omega (arith, h)), pred_suc c) refl

  digit-IsText :
      (m : Bytes) (c n : ℕ) (ys : List ℕ)
      → IsText m (suc c + 1) ys
      → IsText (write m (suc c) (digit (n % base))) (c + 1) (digit (n % base) ∷ ys)
  digit-IsText m c n ys t = (
    ground arith,
    nonzero n,
    IsText-same m (write m (suc c) (digit (n % base))) (c + 1 + 1) ys
        (subst (λ p. IsText m p ys) (omega arith) t) (λ a h k. ground arith),
  )

  pub put_digits-Digits :
      (k w : ℕ) (m : Bytes) (c n : ℕ) (ys : List ℕ)
      → Fits base (suc w) n
      → w < k
      → w < c
      → IsText m (c + 1) ys
      → AllDigits base ys
      → Digits base (suc w) m c n ys (put_digits base digit k m c n)
  put_digits-Digits zero w m c n ys f l b t all = elim l [ ]
  put_digits-Digits (suc k) w m zero n ys f l b t all = elim b [ ]
  put_digits-Digits (suc k) w m (suc c) n ys f l b t all =
      choose (zero_or_more (n / base)) w f l b (λ v f' l' b'.
        put_digits-Digits k v m' c (n / base) (digit (n % base) ∷ ys) f' l' b'
          (digit-IsText m c n ys t) (real n, all))
    where
      m' : Bytes
      m' = write m (suc c) (digit (n % base))

      apart :
          (r : Bytes × ℕ)
          → r.1 < c
          → ((a : ℕ) → (a ≤ r.1) ⊎ (c < a) → r.0 a ≡ m' a)
          → (a : ℕ) → (a ≤ r.1) ⊎ (suc c < a)
          → r.0 a ≡ m a
      apart r h same a (inl z) = same a (inl z) ∙ ground arith
      apart r h same a (inr z) = same a (inr (omega arith)) ∙ ground arith

      untouched : (a : ℕ) → (a ≤ c) ⊎ (suc c < a) → m' a ≡ m a
      untouched a (inl z) = ground arith
      untouched a (inr z) = ground arith

      choose :
          (n / base ≡ 0) ⊎ (0 < n / base)
          → (v : ℕ) → Fits base (suc v) n
          → v < suc k
          → v < suc c
          → ((u : ℕ)
              → Fits base (suc u) (n / base)
              → u < k
              → u < c
              → Digits base
                  (suc u)
                  m'
                  c
                  (n / base)
                  (digit (n % base) ∷ ys)
                  (put_digits base digit k m' c (n / base)))
          → Digits base (suc v) m (suc c) n ys (put_digits base digit (suc k) m (suc c) n)
      choose (inl e) v f' l' b' ih = (
        (m', c),
        digit (n % base) ∷ ys,
        put_digits-last k m c n e,
        digit-IsText m c n ys t,
        ap (λ q. read_digits base q (digit (n % base) ∷ ys)) (sym e) ∙ read-digit n ys,
        omega arith,
        omega arith,
        omega arith,
        untouched,
        (real n, all),
      )
      choose (inr e) zero f' l' b' ih = absurd (omega (arith, f'))
      choose (inr e) (suc v) f' l' b' ih =
          let d = ih v f' (omega arith) (omega arith) in
          (
            d.0,
            d.1,
            put_digits-more k m c n e ∙ d.2,
            d.3,
            d.4 ∙ read-digit n ys,
            omega (arith, d.5),
            omega (arith, d.6),
            omega (arith, d.7),
            apart d.0 d.7 d.8,
            d.9,
          )
