-- ===== src/Stdlib/Numbers/Signed.antt =====
-- The signed numbers: `_itoa` keeps the sign, but its buffer has no room for the longest ones.
use mathlib.Core.Option.{some-injective, none-ne-some}
use uberos.Prelude.{
  ℕ, zero, suc, ◌+◌, ◌-◌, ◌/◌, ◌%◌, ◌^◌, ◌<◌, ◌≤◌, ◌≡◌, ◌≢◌, refl, ap, sym, ◌∙◌, subst, List, [],
  ◌∷◌, Option, none, some, true, arith, inl, inr, ◌⊎◌, ◌↔◌, true-false, lt_or_le, length,
}
use uberos.Prelude.Int.{ℤ, pos, negsuc}
use uberos.Stdlib.Memory.{Bytes, write}
use uberos.Stdlib.Strings.Write.{IsText, IsText-same}
use uberos.Stdlib.Numbers.{u32, put_digits, decimal_digit, is_negative, itoa_buffer, itoa}
use uberos.Stdlib.Numbers.Digits.{
  Digits, Fits, AllDigits, read_digits, zero_or_more, put_digits-Digits, put_digits-more,
  put_digits-last,
}
use uberos.Stdlib.Numbers.RoundTrip.{decimal_value, decimal_nonzero, decimal-IsDigit}

-- A number has more than so many digits.
abbrev Long : ℕ → ℕ → Type 0
Long zero n = Unit {0}
Long (suc w) n = (0 < n / 10) × Long w (n / 10)

put_digits-none : (m : Bytes) (c n : ℕ) → put_digits 10 decimal_digit 0 m c n ≡ none
unfolding put_digits
put_digits-none m c n = refl

put_digits-Long :
    (k w : ℕ) (m : Bytes) (c n : ℕ) (r : Bytes × ℕ)
    → Long w n
    → put_digits 10 decimal_digit k m c n ≡ some r
    → k ≤ c
    → r.1 + w < c
put_digits-Long zero w m c n r l e b = absurd (none-ne-some r (sym (put_digits-none m c n) ∙ e))
put_digits-Long (suc k) w m zero n r l e b = elim b [ ]
put_digits-Long (suc k) w m (suc c) n r l e b = choose (zero_or_more (n / 10)) w l (λ v l' e'.
    put_digits-Long k v (write m (suc c) (decimal_digit (n % 10))) c (n / 10) r l' e' (omega arith))
  where
    choose :
        (n / 10 ≡ 0) ⊎ (0 < n / 10)
        → (v : ℕ) → Long v n
        → ((u : ℕ)
            → Long u (n / 10)
            → put_digits 10 decimal_digit k (write m (suc c) (decimal_digit (n % 10))) c (n / 10)
              ≡ some r
            → r.1 + u < c)
        → r.1 + v < suc c
    choose (inl z) zero l' ih = omega (
      arith,
      ap (λ s. s.1)
          (some-injective (write m (suc c) (decimal_digit (n % 10)), c) r
            (sym (
                put_digits-last 10 decimal_digit decimal_value decimal_nonzero decimal-IsDigit k m c
                  n z)
              ∙ e)),
    )
    choose (inl z) (suc v) l' ih = absurd (omega (arith, l'.0))
    choose (inr h) zero l' ih = omega (
      arith,
      ih 0 tt (
          sym (
            put_digits-more 10 decimal_digit decimal_value decimal_nonzero decimal-IsDigit k m c n
              h)
          ∙ e),
    )
    choose (inr h) (suc v) l' ih = omega (
      arith,
      ih v l'.1 (
          sym (
            put_digits-more 10 decimal_digit decimal_value decimal_nonzero decimal-IsDigit k m c n
              h)
          ∙ e),
    )

-- A text with its sign.
abbrev pub signed : ℤ → List ℕ → List ℕ
signed (pos n) xs = xs
signed (negsuc n) xs = 45 ∷ xs

abbrev pub magnitude : ℤ → ℕ
magnitude (pos n) = n
magnitude (negsuc n) = n + 1

-- What `_itoa` gives: the text ends at the buffer's NUL, and starts before the buffer exactly for a
-- negative number of ten digits.
abbrev pub SignedText : Bytes → ℕ → ℤ → Option (Bytes × ℕ) → Type 0
SignedText m buffer number o =
    (r : Bytes × ℕ) × (xs : List ℕ) × (o ≡ some r)
    × IsText r.0 r.1 (signed number xs)
    × AllDigits 10 xs
    × (read_digits 10 0 xs ≡ magnitude number)
    × (r.1 + length (signed number xs) ≡ buffer + 10)
    × ((r.1 < buffer) ↔ ((is_negative number ≡ true) × (10 ^ 9 ≤ magnitude number)))

module _ (m : Bytes) (buffer : ℕ) where
  itoa-pos :
      (n : ℕ) (r : Bytes × ℕ)
      → put_digits 10 decimal_digit 10 (write m (buffer + 10) 0) (buffer + 9) (n % 2 ^ 32) ≡ some r
      → itoa u32 m buffer (pos n) ≡ some (r.0, r.1 + 1)
  unfolding itoa itoa_buffer
  itoa-pos n r e = rw (e, itoa, itoa_buffer) refl

  itoa-negsuc :
      (n : ℕ) (r : Bytes × ℕ)
      → put_digits 10 decimal_digit 10 (write m (buffer + 10) 0) (buffer + 9) ((n + 1) % 2 ^ 32)
        ≡ some r
      → itoa u32 m buffer (negsuc n) ≡ some (write r.0 r.1 45, r.1 - 1 + 1)
  unfolding itoa itoa_buffer
  itoa-negsuc n r e = rw (e, itoa, itoa_buffer) refl

  abbrev ended : Bytes
  ended = write m (buffer + 10) 0

  abbrev loop : ℕ → Option (Bytes × ℕ)
  loop n = put_digits 10 decimal_digit 10 ended (buffer + 9) n

  loop-Digits :
      (w n : ℕ)
      → w < 10
      → 1 < buffer
      → Fits 10 (suc w) n
      → Digits 10 (suc w) ended (buffer + 9) n [] (loop n)
  loop-Digits w n l b f =
      put_digits-Digits 10 decimal_digit decimal_value decimal_nonzero decimal-IsDigit 10 w ended
        (buffer + 9) n [] f l (omega arith) (ground arith) tt

  itoa-pos_text :
      (n : ℕ) → 1 < buffer → n < 2 ^ 31 → SignedText m buffer (pos n) (itoa u32 m buffer (pos n))
  itoa-pos_text n b h =
      let g = loop-Digits 9 (n % 2 ^ 32) (omega arith) b (omega arith) in
      (
        (g.0.0, g.0.1 + 1),
        g.1,
        itoa-pos n g.0 g.2,
        g.3,
        g.9,
        g.4 ∙ omega arith,
        omega (arith, g.5),
        (λ l. absurd (omega (arith, l, g.5, g.6)), λ l. absurd (true-false l.0 refl)),
      )

  minus-IsText :
      (r : Bytes × ℕ) (xs : List ℕ)
      → 0 < r.1
      → IsText r.0 (r.1 + 1) xs
      → IsText (write r.0 r.1 45) (r.1 - 1 + 1) (45 ∷ xs)
  minus-IsText r xs h t = (
    ground arith,
    minus_nonzero 44,
    IsText-same r.0 (write r.0 r.1 45) (r.1 - 1 + 1 + 1) xs
        (subst (λ p. IsText r.0 p xs) (omega arith) t) (λ a l l'. ground arith),
  )
    where
      minus_nonzero : (c : ℕ) → suc c ≢ 0
      minus_nonzero c e = omega arith

  -- The number of digits decides where the sign is written.
  itoa-negsuc_text :
      (n w : ℕ)
      → w < 10
      → 1 < buffer
      → n < 2 ^ 31
      → Fits 10 (suc w) ((n + 1) % 2 ^ 32)
      → ((r : Bytes × ℕ)
          → loop ((n + 1) % 2 ^ 32) ≡ some r
          → buffer + 8 ≤ r.1 + w
          → (r.1 < buffer) ↔ (10 ^ 9 ≤ n + 1))
      → SignedText m buffer (negsuc n) (itoa u32 m buffer (negsuc n))
  itoa-negsuc_text n w l b h f place =
      let g = loop-Digits w ((n + 1) % 2 ^ 32) l b f in
      let p = place g.0 g.2 (omega (arith, g.5, g.6)) in
      let at : g.0.1 - 1 + 1 ≡ g.0.1 = omega (arith, g.5, g.6) in
      (
        (write g.0.0 g.0.1 45, g.0.1 - 1 + 1),
        g.1,
        itoa-negsuc n g.0 g.2,
        minus-IsText g.0 g.1 (omega (arith, g.5, g.6)) g.3,
        g.9,
        g.4 ∙ omega arith,
        omega (arith, g.5, at),
        (λ c. (refl, p.0 (omega (arith, c, at))), λ c. omega (arith, p.1 c.1, at)),
      )

-- `_itoa` of a number of 32 bits other than -2^31, with its own buffer at an address above 1,
-- gives the number's sign and decimal digits that read back as its magnitude, which end at the
-- buffer's NUL; the text starts before the buffer exactly for a negative number of ten digits: the
-- buffer has eleven bytes, so that the sign is then written to the byte before it.
pub itoa-SignedText :
    (m : Bytes) (buffer : ℕ) (number : ℤ)
    → 1 < buffer
    → magnitude number < 2 ^ 31
    → SignedText m buffer number (itoa u32 m buffer number)
itoa-SignedText m buffer (pos n) b h = itoa-pos_text m buffer n b h
itoa-SignedText m buffer (negsuc n) b h = elim (lt_or_le (n + 1) (10 ^ 9)) [
  | inl l ↦
      itoa-negsuc_text m buffer n 8 (omega arith) b (omega arith) (omega arith)
        (λ r e p. (λ c. absurd (omega arith), λ c. absurd (omega arith)))
  | inr l ↦ itoa-negsuc_text m buffer n 9 (omega arith) b (omega arith) (omega arith) (λ r e p. (
    λ c. l,
    λ c. omega (
      arith,
      put_digits-Long 10 9 (ended m buffer) (buffer + 9) ((n + 1) % 2 ^ 32) r (long n l h) e
          (omega arith),
    ),
  ))
]
  where
    long : (n : ℕ) → 10 ^ 9 ≤ n + 1 → n + 1 < 2 ^ 31 → Long 9 ((n + 1) % 2 ^ 32)
    long n l h = (
      omega arith,
      (
        omega arith,
        (
          omega arith,
          (
            omega arith,
            (omega arith, (omega arith, (omega arith, (omega arith, (omega arith, tt))))),
          ),
        ),
      ),
    )
