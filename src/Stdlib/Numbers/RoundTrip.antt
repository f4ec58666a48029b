-- ===== src/Stdlib/Numbers/RoundTrip.antt =====
-- The texts of numbers read back as the numbers, and stay in their buffers.
use uberos.Prelude.{
  ℕ, suc, ◌+◌, ◌-◌, ◌*◌, ◌%◌, ◌^◌, ◌<◌, ◌≤◌, ◌≡◌, ◌≢◌, refl, ◌∙◌, List, [], Option, some, false,
  arith, inl, inr, ◌⊎◌, length,
}
use uberos.Stdlib.Memory.{Bytes, write}
use uberos.Stdlib.Strings.Write.{IsText}
use uberos.Stdlib.Numbers.{
  Width, u8, u16, u32, u64, sizeof, digits_decimal, put_digits, decimal_digit, utoa_buffer, utoa,
}
use uberos.Stdlib.Numbers.Digits.{
  Fits, IsDigit, AllDigits, read_digits, digit_value, put_digits-Digits,
}

-- A text of digits that reads as a number, in the bytes from an address up to a NUL at the buffer's end.
abbrev pub Text : ℕ → Bytes → ℕ → ℕ → ℕ → Option (Bytes × ℕ) → Type 0
Text base m buffer last n o =
    (r : Bytes × ℕ) × (xs : List ℕ) × (o ≡ some r)
    × IsText r.0 r.1 xs
    × AllDigits base xs
    × (read_digits base 0 xs ≡ n)
    × (buffer ≤ r.1)
    × (r.1 + length xs ≡ last)
    × ((a : ℕ) → (a < buffer) ⊎ (last < a) → r.0 a ≡ m a)

pub decimal_value : (n : ℕ) → digit_value (decimal_digit (n % 10)) ≡ n % 10
decimal_value n = ground arith

pub decimal_nonzero : (n : ℕ) → decimal_digit (n % 10) ≢ 0
decimal_nonzero n = omega arith

pub decimal-IsDigit : (n : ℕ) → IsDigit 10 (decimal_digit (n % 10))
decimal-IsDigit n = (inl (omega arith, omega arith), ground arith)

decimal-Fits :
    (type : Width) (n : ℕ)
    → n < 2 ^ (8 * sizeof type)
    → Fits 10 (digits_decimal (sizeof type) false) n
decimal-Fits u8 n h = omega arith
decimal-Fits u16 n h = omega arith
decimal-Fits u32 n h = omega arith
decimal-Fits u64 n h = omega arith

less_one : (w : ℕ) → w + 2 - 1 ≡ w + 1
less_one w = omega arith

less_two : (w : ℕ) → w + 2 - 2 ≡ w
less_two w = omega arith

utoa_buffer-put_digits :
    (w : ℕ) (m : Bytes) (buffer n : ℕ) (r : Bytes × ℕ)
    → put_digits 10 decimal_digit (w + 1) (write m (buffer + (w + 1)) 0) (buffer + w) n ≡ some r
    → utoa_buffer (w + 2) m buffer n ≡ some (r.0, r.1 + 1)
unfolding utoa_buffer
utoa_buffer-put_digits w m buffer n r e = rw (less_one w, less_two w, e, utoa_buffer) refl

utoa_buffer-Text :
    (w : ℕ) (m : Bytes) (buffer n : ℕ)
    → 0 < buffer
    → Fits 10 (suc w) n
    → Text 10 m buffer (buffer + (w + 1)) n (utoa_buffer (w + 2) m buffer n)
utoa_buffer-Text w m buffer n b f =
    let m' : Bytes = write m (buffer + (w + 1)) 0 in
    let g =
      put_digits-Digits 10 decimal_digit decimal_value decimal_nonzero decimal-IsDigit (w + 1) w m'
        (buffer + w) n [] f (omega arith) (omega arith) (ground arith) tt in
    (
      (g.0.0, g.0.1 + 1),
      g.1,
      utoa_buffer-put_digits w m buffer n g.0 g.2,
      g.3,
      g.9,
      g.4,
      omega (arith, g.5, g.6),
      omega (arith, g.5),
      outside g.0 g.1 g.5 g.6 g.8,
    )
  where
    outside :
        (r : Bytes × ℕ) (zs : List ℕ)
        → r.1 + length zs ≡ buffer + w + 0
        → length zs ≤ 0 + suc w
        → ((a : ℕ) → (a ≤ r.1) ⊎ (buffer + w < a) → r.0 a ≡ write m (buffer + (w + 1)) 0 a)
        → (a : ℕ) → (a < buffer) ⊎ (buffer + (w + 1) < a)
        → r.0 a ≡ m a
    outside r zs e l same a (inl h) = same a (inl (omega arith)) ∙ ground arith
    outside r zs e l same a (inr h) = same a (inr (omega arith)) ∙ ground arith

module _ (m : Bytes) (buffer n : ℕ) (b : 0 < buffer) where
  utoa-cases :
      (type : Width)
      → n < 2 ^ (8 * sizeof type)
      → Text 10 m buffer (buffer + digits_decimal (sizeof type) false) n (utoa type m buffer n)
  unfolding utoa
  utoa-cases u8 h = utoa_buffer-Text 2 m buffer n b (decimal-Fits u8 n h)
  utoa-cases u16 h = utoa_buffer-Text 4 m buffer n b (decimal-Fits u16 n h)
  utoa-cases u32 h = utoa_buffer-Text 9 m buffer n b (decimal-Fits u32 n h)
  utoa-cases u64 h = utoa_buffer-Text 19 m buffer n b (decimal-Fits u64 n h)

-- For a number of its type and a buffer at an address above 0, `_utoa` gives a text of decimal
-- digits inside the buffer that ends with the buffer and reads back as the number, and it writes
-- nothing outside the buffer.
pub utoa-Text :
    (type : Width) (m : Bytes) (buffer number : ℕ)
    → 0 < buffer
    → number < 2 ^ (8 * sizeof type)
    → Text 10 m buffer
        (buffer + digits_decimal (sizeof type) false)
        number
        (utoa type m buffer number)
utoa-Text type m buffer number b h = utoa-cases m buffer number b type h
